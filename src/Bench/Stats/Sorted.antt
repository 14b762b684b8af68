-- ===== src/Bench/Stats/Sorted.antt =====
-- stats.cpp: how many of the samples are at most, or below, an element of the sorted list.
use mini_middleware.Prelude.{
  inl, inr, ℕ, zero, suc, ◌+◌, ◌≤◌, ◌<◌, ◌≡◌, refl, ap, ◌∙◌, List, [], ◌∷◌, Bool, true, false, ltb,
  leb, arith, Bool-cases, length, get_or, All, All-map,
}
use mini_middleware.Bench.Stats.{insert, sort}

abbrev bit : Bool → ℕ
bit true = 1
bit false = 0

-- The number of samples that are at most `v`, and that are below it.
unfoldable pub at_most : ℕ → List ℕ → ℕ
at_most v [] = 0
at_most v (x ∷ xs) = bit (leb x v) + at_most v xs

unfoldable pub below : ℕ → List ℕ → ℕ
below v [] = 0
below v (x ∷ xs) = bit (ltb x v) + below v xs

at_most-insert : (v x : ℕ) (xs : List ℕ) → at_most v (insert x xs) ≡ bit (leb x v) + at_most v xs
unfolding insert at_most
at_most-insert v x [] = refl
at_most-insert v x (y ∷ ys) = elim (Bool-cases (leb x y)) [
  | inl le ↦ rw le refl
  | inr gt ↦ rw gt (omega (arith, at_most-insert v x ys))
]

below-insert : (v x : ℕ) (xs : List ℕ) → below v (insert x xs) ≡ bit (ltb x v) + below v xs
unfolding insert below
below-insert v x [] = refl
below-insert v x (y ∷ ys) = elim (Bool-cases (leb x y)) [
  | inl le ↦ rw le refl
  | inr gt ↦ rw gt (omega (arith, below-insert v x ys))
]

length-insert : (x : ℕ) (xs : List ℕ) → length (insert x xs) ≡ suc (length xs)
unfolding insert
length-insert x [] = refl
length-insert x (y ∷ ys) = elim (Bool-cases (leb x y)) [
  | inl le ↦ rw le refl
  | inr gt ↦ rw gt (ap suc (length-insert x ys))
]

pub at_most-sort : (v : ℕ) (xs : List ℕ) → at_most v (sort xs) ≡ at_most v xs
unfolding sort at_most
at_most-sort v [] = refl
at_most-sort v (x ∷ xs) =
    at_most-insert v x (sort xs) ∙ ap (λ n. bit (leb x v) + n) (at_most-sort v xs)

pub below-sort : (v : ℕ) (xs : List ℕ) → below v (sort xs) ≡ below v xs
unfolding sort below
below-sort v [] = refl
below-sort v (x ∷ xs) = below-insert v x (sort xs) ∙ ap (λ n. bit (ltb x v) + n) (below-sort v xs)

pub length-sort : (xs : List ℕ) → length (sort xs) ≡ length xs
unfolding sort
length-sort [] = refl
length-sort (x ∷ xs) = length-insert x (sort xs) ∙ ap suc (length-sort xs)

-- Each element is at most all that follow.
abbrev pub IsSorted : List ℕ → Type 0
IsSorted [] = Unit
IsSorted (x ∷ xs) = All (λ y. x ≤ y) xs × IsSorted xs

insert-All : (b x : ℕ) (xs : List ℕ) → b ≤ x → All (λ y. b ≤ y) xs → All (λ y. b ≤ y) (insert x xs)
unfolding insert
insert-All b x [] le h = (le, tt)
insert-All b x (y ∷ ys) le (hy, h) = elim (Bool-cases (leb x y)) [
  | inl first ↦ rw first (le, (hy, h))
  | inr later ↦ rw later (hy, insert-All b x ys le h)
]

insert-IsSorted : (x : ℕ) (xs : List ℕ) → IsSorted xs → IsSorted (insert x xs)
unfolding insert
insert-IsSorted x [] s = (tt, tt)
insert-IsSorted x (y ∷ ys) (h, s) = elim (Bool-cases (leb x y)) [
  | inl first ↦
      let le : x ≤ y = ground (arith, first) in
      rw first
        ((le, All-map (λ z. y ≤ z) (λ z. x ≤ z) ys (λ z yz. omega (arith, le, yz)) h), (h, s))
  | inr later ↦ rw later (insert-All y x ys (ground (arith, later)) h, insert-IsSorted x ys s)
]

pub sort-IsSorted : (xs : List ℕ) → IsSorted (sort xs)
unfolding sort
sort-IsSorted [] = tt
sort-IsSorted (x ∷ xs) = insert-IsSorted x (sort xs) (sort-IsSorted xs)

pub nth_bound :
    (b : ℕ) (xs : List ℕ) (i : ℕ) → All (λ y. b ≤ y) xs → i < length xs → b ≤ get_or xs i 0
nth_bound b [] i h lt = ground (arith, lt)
nth_bound b (x ∷ xs) zero h lt = h.0
nth_bound b (x ∷ xs) (suc i) h lt = nth_bound b xs i h.1 (omega (arith, lt))

below_none : (b : ℕ) (xs : List ℕ) → All (λ y. b ≤ y) xs → below b xs ≡ 0
unfolding below
below_none b [] h = refl
below_none b (x ∷ xs) (le, h) =
    let no : ltb x b ≡ false = ground (arith, le) in rw no (omega (arith, below_none b xs h))

-- In a sorted list, those up to an element's place are at most it.
pub at_most-nth :
    (xs : List ℕ) (i : ℕ) → IsSorted xs → i < length xs → i < at_most (get_or xs i 0) xs
unfolding at_most
at_most-nth [] i s lt = ground (arith, lt)
at_most-nth (x ∷ xs) zero s lt = let yes : leb x x ≡ true = ground arith in rw yes (omega arith)
at_most-nth (x ∷ xs) (suc i) (h, s) lt =
    let inside : i < length xs = omega (arith, lt) in
    let yes : leb x (get_or xs i 0) ≡ true = ground (arith, nth_bound x xs i h inside) in
    rw yes (omega (arith, at_most-nth xs i s inside))

-- And those below it stand before its place.
pub below-nth : (xs : List ℕ) (i : ℕ) → IsSorted xs → i < length xs → below (get_or xs i 0) xs ≤ i
unfolding below
below-nth [] i s lt = ground (arith, lt)
below-nth (x ∷ xs) zero (h, s) lt =
    let no : ltb x x ≡ false = ground arith in rw (no, below_none x xs h) (omega arith)
below-nth (x ∷ xs) (suc i) (h, s) lt =
    let rest = below-nth xs i s (omega (arith, lt)) in
    elim (Bool-cases (ltb x (get_or xs i 0))) [
      | inl less ↦ rw less (omega (arith, rest))
      | inr not_less ↦ rw not_less (omega (arith, rest))
    ]
