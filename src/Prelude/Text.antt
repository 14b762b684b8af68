-- ===== src/Prelude/Text.antt =====
-- Byte strings: std::string is a list of byte values, and a literal is given by `codes`.
use Prim.Native.Nat.{ℕ}
use Prim.Native.Char.{code}
use Prim.Native.String.{String}
use mathlib.Core.Path.{◌≡◌, refl}
use mathlib.Core.Logic.{◌↔◌}
use mathlib.Core.Bool.{Bool, true, false, not, ◌&&◌}
use mathlib.Core.List.{List, [], ◌∷◌, ◌++◌}
use mathlib.Core.Option.{Option, none, some}
use native.Mathlib.Omega.{arith}
use mini_middleware.Prelude.Tests.{◌==◌, ltb, if◌then◌else◌}

abbrev pub Bytes : Type 0
Bytes = List ℕ

abbrev pub codes : String → Bytes
codes String.[] = []
codes (String.◌∷◌ c s) = code c ∷ codes s

-- std::string operator==
unfoldable pub bytes_eq : Bytes → Bytes → Bool
bytes_eq [] [] = true
bytes_eq [] (b ∷ bs) = false
bytes_eq (a ∷ as') [] = false
bytes_eq (a ∷ as') (b ∷ bs) = (a == b) && bytes_eq as' bs

-- std::string operator<
unfoldable pub bytes_before : Bytes → Bytes → Bool
bytes_before xs [] = false
bytes_before [] (b ∷ bs) = true
bytes_before (a ∷ as') (b ∷ bs) =
    let rest = bytes_before as' bs in if ltb a b then true else if a == b then rest else false

-- What stands before and after the first `sep`, if there is one.
unfoldable pub split_at : ℕ → Bytes → Option (Bytes × Bytes)
split_at sep [] = none
split_at sep (c ∷ text) = if c == sep then some ([], text) else prepend c (split_at sep text)
  where
    prepend : ℕ → Option (Bytes × Bytes) → Option (Bytes × Bytes)
    prepend c none = none
    prepend c (some (before, after)) = some (c ∷ before, after)

-- No byte of the text is `sep`.
abbrev pub lacks : ℕ → Bytes → Bool
lacks sep [] = true
lacks sep (c ∷ text) = not (c == sep) && lacks sep text

pub split_at-append :
    (sep : ℕ) (before after : Bytes)
    → lacks sep before ≡ true
    → split_at sep (before ++ (sep ∷ after)) ≡ some (before, after)
unfolding split_at
split_at-append sep [] after h = let same : (sep == sep) ≡ true = ground arith in rw same refl
split_at-append sep (c ∷ before) after h =
    let other : (c == sep) ≡ false = ground (arith, h) in
    rw (other, split_at-append sep before after (ground (arith, h))) refl

pub bytes_eq_iff : (a b : Bytes) → (bytes_eq a b ≡ true) ↔ (a ≡ b)
unfolding bytes_eq
bytes_eq_iff [] [] = (λ _. refl, λ _. refl)
bytes_eq_iff [] (b ∷ bs) = (λ h. cc, λ h. cc)
bytes_eq_iff (a ∷ as') [] = (λ h. cc, λ h. cc)
bytes_eq_iff (a ∷ as') (b ∷ bs) =
    (λ h. ground (arith, bytes_eq_iff as' bs), λ h. ground (arith, bytes_eq_iff as' bs))

pub bytes_eq_refl : (a : Bytes) → bytes_eq a a ≡ true
bytes_eq_refl a = (bytes_eq_iff a a).1 refl

pub bytes_eq_comm : (a b : Bytes) → bytes_eq a b ≡ bytes_eq b a
bytes_eq_comm a b = ground (arith, bytes_eq_iff a b, bytes_eq_iff b a)
