-- ===== src/Prelude/Lists.antt =====
-- Lists measured and indexed by native numbers, under the library's names.
use Prim.Native.Nat.{ℕ, zero, suc, ◌+◌, ◌-◌, ◌≤◌, min}
use mathlib.Core.Path.{◌≡◌, refl, ap, sym, subst}
use mathlib.Core.Logic.{◌⊎◌, inl, inr, ◌≢◌}
use mathlib.Core.List.{List, [], ◌∷◌, ◌++◌}
use mathlib.Core.Option.{Option, none, some}
use mathlib.Core.Bool.{Bool}
use mini_middleware.Prelude.Tests.{if◌then◌else◌}
use native.Mathlib.Omega.{arith}

-- No element is in the empty list.
pub data Empty {ℓ} : Type ℓ where

module _ {ℓ} {A : Type ℓ} where
  abbrev pub length : List A → ℕ
  length [] = 0
  length (x ∷ xs) = suc (length xs)

  abbrev pub get_elem? : List A → ℕ → Option A
  get_elem? [] i = none
  get_elem? (x ∷ xs) zero = some x
  get_elem? (x ∷ xs) (suc i) = get_elem? xs i

  -- A write out of bounds changes nothing.
  abbrev pub set : List A → ℕ → A → List A
  set [] i v = []
  set (x ∷ xs) zero v = v ∷ xs
  set (x ∷ xs) (suc i) v = x ∷ set xs i v

  abbrev pub get_or : List A → ℕ → A → A
  get_or [] i d = d
  get_or (x ∷ xs) zero d = x
  get_or (x ∷ xs) (suc i) d = get_or xs i d

  abbrev pub take : ℕ → List A → List A
  take zero xs = []
  take (suc n) [] = []
  take (suc n) (x ∷ xs) = x ∷ take n xs

  abbrev pub drop : ℕ → List A → List A
  drop zero xs = xs
  drop (suc n) [] = []
  drop (suc n) (x ∷ xs) = drop n xs

  -- The elements that pass a test, in their order.
  abbrev pub filter : (A → Bool) → List A → List A
  filter p [] = []
  filter p (x ∷ xs) = if p x then x ∷ filter p xs else filter p xs

  abbrev pub replicate : ℕ → A → List A
  replicate zero a = []
  replicate (suc n) a = a ∷ replicate n a

  abbrev pub concat : List (List A) → List A
  concat [] = []
  concat (xs ∷ xss) = xs ++ concat xss

  -- A predicate of every element.
  abbrev pub All {κ} : (A → Type κ) → List A → Type κ
  All P [] = Unit
  All P (x ∷ xs) = P x × All P xs

  pub length-append : (xs ys : List A) → length (xs ++ ys) ≡ length xs + length ys
  length-append [] ys = omega arith
  length-append (x ∷ xs) ys = omega (arith, length-append xs ys)

  pub take_append : (xs ys : List A) → take (length xs) (xs ++ ys) ≡ xs
  take_append [] ys = refl
  take_append (x ∷ xs) ys = ap (◌∷◌ x) (take_append xs ys)

  pub drop_append : (xs ys : List A) → drop (length xs) (xs ++ ys) ≡ ys
  drop_append [] ys = refl
  drop_append (x ∷ xs) ys = drop_append xs ys

  pub take-append-drop : (n : ℕ) (xs : List A) → take n xs ++ drop n xs ≡ xs
  take-append-drop zero xs = refl
  take-append-drop (suc n) [] = refl
  take-append-drop (suc n) (x ∷ xs) = ap (◌∷◌ x) (take-append-drop n xs)

  pub length-drop : (n : ℕ) (xs : List A) → length (drop n xs) ≡ length xs - n
  length-drop zero xs = omega arith
  length-drop (suc n) [] = omega arith
  length-drop (suc n) (x ∷ xs) = omega (arith, length-drop n xs)

  pub length-take : (n : ℕ) (xs : List A) → length (take n xs) ≡ min n (length xs)
  length-take zero xs = omega arith
  length-take (suc n) [] = omega arith
  length-take (suc n) (x ∷ xs) = omega (arith, length-take n xs)

  pub drop-append_le :
      (n : ℕ) (xs ys : List A) → n ≤ length xs → drop n (xs ++ ys) ≡ drop n xs ++ ys
  drop-append_le zero xs ys h = refl
  drop-append_le (suc n) [] ys h = absurd (omega arith)
  drop-append_le (suc n) (x ∷ xs) ys h = drop-append_le n xs ys (omega arith)

  pub take-append_le : (n : ℕ) (xs ys : List A) → n ≤ length xs → take n (xs ++ ys) ≡ take n xs
  take-append_le zero xs ys h = refl
  take-append_le (suc n) [] ys h = absurd (omega arith)
  take-append_le (suc n) (x ∷ xs) ys h = ap (◌∷◌ x) (take-append_le n xs ys (omega arith))

  pub length-replicate : (n : ℕ) (a : A) → length (replicate n a) ≡ n
  length-replicate zero a = refl
  length-replicate (suc n) a = ap suc (length-replicate n a)

  pub All-append {κ} : (P : A → Type κ) (xs ys : List A) → All P xs → All P ys → All P (xs ++ ys)
  All-append P [] ys hx hy = hy
  All-append P (x ∷ xs) ys hx hy = (hx.0, All-append P xs ys hx.1 hy)

  -- An element of a list, with its place.
  abbrev pub Has : A → List A → Type ℓ
  Has x [] = Empty
  Has x (y ∷ ys) = (x ≡ y) ⊎ Has x ys

  pub Has-append_left : (x : A) (xs ys : List A) → Has x xs → Has x (xs ++ ys)
  Has-append_left x [] ys h = elim h [ ]
  Has-append_left x (z ∷ xs) ys (inl e) = inl e
  Has-append_left x (z ∷ xs) ys (inr h) = inr (Has-append_left x xs ys h)

  pub Has-append_right : (x : A) (xs ys : List A) → Has x ys → Has x (xs ++ ys)
  Has-append_right x [] ys h = h
  Has-append_right x (z ∷ xs) ys h = inr (Has-append_right x xs ys h)

  pub Has-append : (x : A) (xs ys : List A) → Has x (xs ++ ys) → Has x xs ⊎ Has x ys
  Has-append x [] ys h = inr h
  Has-append x (z ∷ xs) ys (inl e) = inl (inl e)
  Has-append x (z ∷ xs) ys (inr h) = elim (Has-append x xs ys h) [
    | inl l ↦ inl (inr l)
    | inr r ↦ inr r
  ]

  pub All-map {κ κ'} :
      (P : A → Type κ) (Q : A → Type κ') (xs : List A) → ((x : A) → P x → Q x) → All P xs → All Q xs
  All-map P Q [] f h = tt
  All-map P Q (x ∷ xs) f h = (f x h.0, All-map P Q xs f h.1)

  pub All-Has {κ} : (P : A → Type κ) (xs : List A) → ((x : A) → Has x xs → P x) → All P xs
  All-Has P [] f = tt
  All-Has P (x ∷ xs) f = (f x (inl refl), All-Has P xs (λ y h. f y (inr h)))

  pub length-set : (xs : List A) (i : ℕ) (v : A) → length (set xs i v) ≡ length xs
  length-set [] i v = refl
  length-set (x ∷ xs) zero v = refl
  length-set (x ∷ xs) (suc i) v = ap suc (length-set xs i v)

  pub get_or-set : (xs : List A) (i : ℕ) (v d : A) → suc i ≤ length xs → get_or (set xs i v) i d ≡ v
  get_or-set [] i v d lt = absurd (omega arith)
  get_or-set (x ∷ xs) zero v d lt = refl
  get_or-set (x ∷ xs) (suc i) v d lt = get_or-set xs i v d (omega arith)

  pub get_or-set_ne :
      (xs : List A) (i j : ℕ) (v d : A) → i ≢ j → get_or (set xs i v) j d ≡ get_or xs j d
  get_or-set_ne [] i j v d ne = refl
  get_or-set_ne (x ∷ xs) zero zero v d ne = absurd (ne refl)
  get_or-set_ne (x ∷ xs) zero (suc j) v d ne = refl
  get_or-set_ne (x ∷ xs) (suc i) zero v d ne = refl
  get_or-set_ne (x ∷ xs) (suc i) (suc j) v d ne = get_or-set_ne xs i j v d (λ e. ne (ap suc e))

  pub All-member {κ} : (P : A → Type κ) (xs : List A) (x : A) → All P xs → Has x xs → P x
  All-member P [] x h m = elim m [ ]
  All-member P (y ∷ xs) x (hy, h) (inl e) = subst P (sym e) hy
  All-member P (y ∷ xs) x (hy, h) (inr m) = All-member P xs x h m
