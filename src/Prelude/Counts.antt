-- ===== src/Prelude/Counts.antt =====
-- How many entries of a dictionary have a value with a property.
use Prim.Native.Nat.{ℕ, ◌+◌}
use mathlib.Core.Path.{◌≡◌, refl, ap, ◌∙◌, sym}
use mathlib.Core.Logic.{inl, inr}
use mathlib.Core.Bool.{Bool, true, false}
use mathlib.Core.Option.{none, some}
use mathlib.Core.List.{[], ◌∷◌}
use native.Mathlib.Omega.{arith}
use mini_middleware.Prelude.Tests.{Bool-cases}
use mini_middleware.Prelude.Keys.{Key}
use mini_middleware.Prelude.Dict.{Dict, find, insert, erase, find-insert, find-erase}

abbrev pub bit : Bool → ℕ
bit true = 1
bit false = 0

module _ {ℓ κ} {K : Type ℓ} {V : Type κ} ⦃e : Key K⦄ where
  abbrev pub count_where : (V → Bool) → Dict K V → ℕ
  count_where f [] = 0
  count_where f ((k, v) ∷ d) = bit (f v) + count_where f d

  -- No key stands twice.
  abbrev pub IsUnique : Dict K V → Type κ
  IsUnique [] = Unit
  IsUnique ((k, v) ∷ d) = (find k d ≡ none) × IsUnique d

  pub count_where-insert :
      (f : V → Bool) (k : K) (v : V) (d : Dict K V)
      → find k d ≡ none
      → count_where f (insert k v d) ≡ bit (f v) + count_where f d
  unfolding find insert
  count_where-insert f k v [] h = refl
  count_where-insert f k v ((j, w) ∷ d) h = ground (arith, h, count_where-insert f k v d)

  pub count_where-erase-none :
      (f : V → Bool) (k : K) (d : Dict K V)
      → find k d ≡ none
      → count_where f (erase k d) ≡ count_where f d
  unfolding find erase
  count_where-erase-none f k [] h = refl
  count_where-erase-none f k ((j, w) ∷ d) h = ground (arith, h, count_where-erase-none f k d)

  pub count_where-erase :
      (f : V → Bool) (k : K) (v : V) (d : Dict K V)
      → IsUnique d
      → find k d ≡ some v
      → count_where f d ≡ bit (f v) + count_where f (erase k d)
  unfolding find erase
  count_where-erase f k v [] u h = cc
  count_where-erase f k v ((j, w) ∷ d) u h = elim (Bool-cases (e.beq j k)) [
    | inl same ↦
        let at_j : j ≡ k = (e.beq_iff j k).0 same in
        let gone : find k d ≡ none = ap (λ i. find i d) (sym at_j) ∙ u.0 in
        ground (arith, same, h, count_where-erase-none f k d gone)
    | inr other ↦ ground (arith, other, h, count_where-erase f k v d u.1)
  ]

  pub insert-IsUnique :
      (k : K) (v : V) (d : Dict K V) → find k d ≡ none → IsUnique d → IsUnique (insert k v d)
  unfolding find insert
  insert-IsUnique k v [] h u = (refl, tt)
  insert-IsUnique k v ((j, w) ∷ d) h u = elim (Bool-cases (e.beq j k)) [
    | inl same ↦ absurd (ground (arith, h, same))
    | inr other ↦ ground (
      arith,
      h,
      other,
      u.0,
      u.1,
      insert-IsUnique k v d (ground (arith, h, other)) u.1,
      find-insert k j v d,
      e.beq_iff k j,
      e.beq_iff j k,
    )
  ]

  pub erase-IsUnique : (k : K) (d : Dict K V) → IsUnique d → IsUnique (erase k d)
  unfolding erase
  erase-IsUnique k [] u = tt
  erase-IsUnique k ((j, w) ∷ d) u = elim (Bool-cases (e.beq j k)) [
    | inl same ↦ rw same (erase-IsUnique k d u.1)
    | inr other ↦ rw other (ground (arith, find-erase k j d, u.0), erase-IsUnique k d u.1)
  ]
