-- ===== src/Prelude/Dict.antt =====
-- std::map and std::unordered_map: an association list in the order of its keys.
-- The laws need no order: `insert` and `erase` act on every entry of the key.
use mathlib.Core.Path.{◌≡◌, refl}
use mathlib.Core.Option.{Option, none, some}
use mathlib.Core.List.{List, [], ◌∷◌}
use native.Mathlib.Omega.{arith}
use mini_middleware.Prelude.Tests.{if◌then◌else◌}
use mini_middleware.Prelude.Keys.{Key}

abbrev pub Dict {ℓ κ} : Type ℓ → Type κ → Type (ℓ ⊔ κ)
Dict K V = List (K × V)

module _ {ℓ κ} {K : Type ℓ} {V : Type κ} ⦃e : Key K⦄ where
  -- find(k)
  unfoldable pub find : K → Dict K V → Option V
  find k [] = none
  find k ((j, v) ∷ m) = if e.beq j k then some v else find k m

  -- m[k] = v
  unfoldable pub insert : K → V → Dict K V → Dict K V
  insert k v [] = (k, v) ∷ []
  insert k v ((j, w) ∷ m) =
      let further = (j, w) ∷ insert k v m in
      if e.beq j k then (k, v) ∷ m else if e.before k j then (k, v) ∷ (j, w) ∷ m else further

  -- erase(k)
  unfoldable pub erase : K → Dict K V → Dict K V
  erase k [] = []
  erase k ((j, w) ∷ m) = let rest = erase k m in if e.beq j k then rest else (j, w) ∷ rest

  pub find-insert :
      (k j : K) (v : V) (m : Dict K V)
      → find j (insert k v m) ≡ (if e.beq k j then some v else find j m)
  unfolding find insert
  find-insert k j v [] = refl
  find-insert k j v ((i, w) ∷ m) =
      ground (arith, e.beq_iff k j, e.beq_iff i k, e.beq_iff i j, find-insert k j v m)

  pub find-erase :
      (k j : K) (m : Dict K V) → find j (erase k m) ≡ (if e.beq k j then none else find j m)
  unfolding find erase
  find-erase k j [] = ground arith
  find-erase k j ((i, w) ∷ m) =
      ground (arith, e.beq_iff k j, e.beq_iff i k, e.beq_iff i j, find-erase k j m)
