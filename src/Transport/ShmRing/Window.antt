-- ===== src/Transport/ShmRing/Window.antt =====
-- shm_ring.h: the slots of as many positions in a row as the ring is long are different ones.
use native.Mathlib.Nat.{pow-suc, add-mod_right, mod-add-div, mul-le-mul_left, mul_assoc, mul_comm}
use mini_middleware.Prelude.{
  ℕ, zero, suc, ◌+◌, ◌-◌, ◌*◌, ◌/◌, ◌%◌, ◌^◌, ◌≤◌, ◌<◌, ◌≡◌, sym, ◌∙◌, ap, ◌≢◌, arith, bit_and_low,
}
use native.Mathlib.Decide.{dec_lt}
use mini_middleware.Transport.ShmRing.{slot_index}

pow_add : (k m : ℕ) → 2 ^ (k + m) ≡ 2 ^ k * 2 ^ m
pow_add zero m = ground arith
pow_add (suc k) m =
    let e : suc k + m ≡ suc (k + m) = omega arith in
    ap (λ j. 2 ^ j) e
    ∙ pow-suc 2 (k + m)
    ∙ ap (λ t. t * 2) (pow_add k m)
    ∙ mul_assoc (2 ^ k) (2 ^ m) 2
    ∙ ap (λ t. 2 ^ k * t) (mul_comm (2 ^ m) 2)
    ∙ sym (mul_assoc (2 ^ k) 2 (2 ^ m))
    ∙ ap (λ t. t * 2 ^ m) (sym (pow-suc 2 k))

mod_multiple : (r m a : ℕ) → (r + m * a) % m ≡ r % m
mod_multiple r m zero = ap (λ t. t % m) (omega arith)
mod_multiple r m (suc a) =
    ap (λ t. t % m) (grind arith) ∙ add-mod_right (r + m * a) m ∙ mod_multiple r m a

-- A remainder by 2 ^ 32 keeps the remainder by 2 ^ k.
mod-mod_pow : (k p : ℕ) → k ≤ 32 → p % 2 ^ 32 % 2 ^ k ≡ p % 2 ^ k
mod-mod_pow k p h =
    let split : 2 ^ 32 ≡ 2 ^ k * 2 ^ (32 - k) =
      ap (λ j. 2 ^ j) {x = 32} {y = k + (32 - k)} (omega arith) ∙ pow_add k (32 - k) in
    let whole : p ≡ p % 2 ^ 32 + 2 ^ k * (2 ^ (32 - k) * (p / 2 ^ 32)) =
      sym (mod-add-div p (2 ^ 32))
      ∙ ap (λ t. p % 2 ^ 32 + t * (p / 2 ^ 32)) split
      ∙ ap (λ t. p % 2 ^ 32 + t) (mul_assoc (2 ^ k) (2 ^ (32 - k)) (p / 2 ^ 32)) in
    sym (mod_multiple (p % 2 ^ 32) (2 ^ k) (2 ^ (32 - k) * (p / 2 ^ 32)))
    ∙ ap (λ t. t % 2 ^ k) (sym whole)

-- In a ring of 2 ^ k slots the slot of a position is its remainder.
pub slot_index_lem : (k p : ℕ) → k ≤ 32 → slot_index (2 ^ k) p ≡ p % 2 ^ k
unfolding slot_index
slot_index_lem k p h = bit_and_low k (p % 2 ^ 32) ∙ mod-mod_pow k p h

mod_apart : (n p q : ℕ) → p < q → q < p + n → p % n ≢ q % n
mod_apart n p q lt near e = elim (dec_lt (p / n) (q / n)) [
  | yes more ↦ absurd (
      omega (
        arith,
        mod-add-div p n,
        mod-add-div q n,
        e,
        mul-le-mul_left {m = p / n + 1} {n = q / n} n (omega arith),
        distrib n (p / n),
      ))
  | no less ↦ absurd (
      omega (
        arith,
        mod-add-div p n,
        mod-add-div q n,
        e,
        mul-le-mul_left {m = q / n} {n = p / n} n (omega arith),
      ))
]
  where
    distrib : (n a : ℕ) → n * (a + 1) ≡ n * a + n
    distrib n a = grind arith

-- Two positions less than the length of the ring apart have different slots.
pub slot_index_ne :
    (k p q : ℕ) → k ≤ 32 → p < q → q < p + 2 ^ k → slot_index (2 ^ k) q ≢ slot_index (2 ^ k) p
slot_index_ne k p q h lt near e =
    mod_apart (2 ^ k) p q lt near (sym (slot_index_lem k p h) ∙ sym e ∙ slot_index_lem k q h)
