-- ===== src/Prelude/Keys.antt =====
-- What a std::map needs of its keys: equality and an order.
use Prim.Native.Nat.{ℕ}
use mathlib.Core.Path.{◌≡◌}
use mathlib.Core.Logic.{◌↔◌}
use mathlib.Core.Bool.{Bool, true}
use mini_middleware.Prelude.Tests.{◌==◌, ltb, ==_iff}
use mini_middleware.Prelude.Text.{Bytes, bytes_eq, bytes_before, bytes_eq_iff}

pub record Key {ℓ} (K : Type ℓ) : Type ℓ where
  pub beq : K → K → Bool
  pub before : K → K → Bool
  pub beq_iff : (a b : K) → (beq a b ≡ true) ↔ (a ≡ b)

abbrev nat_beq : ℕ → ℕ → Bool
nat_beq a b = a == b

abbrev nat_before : ℕ → ℕ → Bool
nat_before a b = ltb a b

instance abbrev pub nat_key : Key ℕ
nat_key = record { beq = nat_beq; before = nat_before; beq_iff = ==_iff }

instance abbrev pub bytes_key : Key Bytes
bytes_key = record { beq = bytes_eq; before = bytes_before; beq_iff = bytes_eq_iff }
