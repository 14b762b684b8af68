-- ===== src/Prelude/Bits.antt =====
-- Bit fields as arithmetic: `|` of disjoint fields is a sum, `&` with a low mask a remainder.
-- Both native operations are a recursion on binary digits, whose step is stated here without fuel.
use Prim.Native.Nat.{ℕ, zero, suc, ◌+◌, ◌-◌, ◌*◌, ◌/◌, ◌%◌, ◌^◌, ◌≤◌, ◌<◌, min, max, digits}
use Prim.Native.Nat.{bit_and, bit_or, bitwise, bit_and-bitwise, bit_or-bitwise}
use mathlib.Core.Path.{◌≡◌, refl, ap}
use native.Mathlib.Omega.{arith}
use native.Mathlib.Nat.{pow-suc, one-le-pow}

module _ (z : ℕ → ℕ) (f : ℕ → ℕ → ℕ) where
  digits_enough : (m n a b : ℕ) → a ≤ m → a ≤ n → digits z f m a b ≡ digits z f n a b
  digits_enough zero zero a b p q = refl
  digits_enough zero (suc n) zero b p q = refl
  digits_enough zero (suc n) (suc a) b p q = absurd (omega arith)
  digits_enough (suc m) zero zero b p q = refl
  digits_enough (suc m) zero (suc a) b p q = absurd (omega arith)
  digits_enough (suc m) (suc n) zero b p q = refl
  digits_enough (suc m) (suc n) (suc a) b p q =
      rw (digits_enough m n (suc a / 2) (b / 2) (omega arith) (omega arith))

  bitwise_pos :
      (a b : ℕ)
      → bitwise z f (suc a) b ≡ bitwise z f (suc a / 2) (b / 2) * 2 + f (suc a % 2) (b % 2)
  bitwise_pos a b =
      omega (arith, digits_enough a (suc a / 2) (suc a / 2) (b / 2) (omega arith) (omega arith))

or_digit : (a b : ℕ) → bit_or a b ≡ bit_or (a / 2) (b / 2) * 2 + max (a % 2) (b % 2)
or_digit zero b = simp bit_or-bitwise (omega arith)
or_digit (suc a) b = simp bit_or-bitwise (bitwise_pos (λ y. y) max a b)

pub and_digit : (a b : ℕ) → bit_and a b ≡ bit_and (a / 2) (b / 2) * 2 + min (a % 2) (b % 2)
and_digit zero b = simp bit_and-bitwise (omega arith)
and_digit (suc a) b = simp bit_and-bitwise (bitwise_pos (λ y. 0) min a b)

or-zero_upto : (n a : ℕ) → a ≤ n → bit_or a 0 ≡ a
or-zero_upto n zero h = refl
or-zero_upto zero (suc a) h = absurd (omega arith)
or-zero_upto (suc n) (suc a) h =
    omega (arith, or_digit (suc a) 0, or-zero_upto n (suc a / 2) (omega arith))

and-zero_upto : (n a : ℕ) → a ≤ n → bit_and a 0 ≡ 0
and-zero_upto n zero h = refl
and-zero_upto zero (suc a) h = absurd (omega arith)
and-zero_upto (suc n) (suc a) h =
    omega (arith, and_digit (suc a) 0, and-zero_upto n (suc a / 2) (omega arith))

double_pow : (q k : ℕ) → q * 2 ^ suc k ≡ 2 * (q * 2 ^ k)
double_pow q k = omega (arith, ap (λ (t : ℕ). q * t) (pow-suc 2 k))

-- The fields do not overlap, so `|` adds them.
pub bit_or_disjoint : (k q r : ℕ) → r < 2 ^ k → bit_or (q * 2 ^ k) r ≡ q * 2 ^ k + r
bit_or_disjoint zero q r fits = ground (arith, or-zero_upto q q)
bit_or_disjoint (suc k) q r fits =
    ground
      (arith, or_digit (q * 2 ^ suc k) r, double_pow q k, bit_or_disjoint k q (r / 2) (omega arith))

and_low : (k q r : ℕ) → r < 2 ^ k → bit_and (q * 2 ^ k + r) (2 ^ k - 1) ≡ r
and_low zero q r fits = ground (arith, and-zero_upto (q * 1 + r) (q * 1 + r))
and_low (suc k) q r fits = ground (
  arith,
  and_digit (q * 2 ^ suc k + r) (2 ^ suc k - 1),
  double_pow q k,
  pow-suc 2 k,
  one-le-pow k 2,
  and_low k q (r / 2) (omega arith),
)

-- Masking `k` low bits is the remainder by 2 ^ k.
pub bit_and_low : (k a : ℕ) → bit_and a (2 ^ k - 1) ≡ a % 2 ^ k
bit_and_low k a = ground (arith, one-le-pow k 2, and_low k (a / 2 ^ k) (a % 2 ^ k))
