-- ===== src/Transport/ShmRing/Layout.antt =====
-- shm_ring.h: where the header and the slots lie in the segment. A size_t has 64 bits; with their
-- padding, the structs Header and SlotHeader have 24 and 16 bytes.
use mini_middleware.Prelude.{
  ℕ, ◌+◌, ◌-◌, ◌*◌, ◌/◌, ◌%◌, ◌^◌, ◌≤◌, ◌<◌, ◌≡◌, ap, sym, ◌∙◌, arith, bit_and, bit_and_low,
  and_digit, min,
}
use native.Mathlib.Nat.{mul-le-mul_right, mul_assoc, mod-eq_of_lt}

abbrev pub cache_line : ℕ
cache_line = 64

abbrev pub sizeof_header : ℕ
sizeof_header = 24

abbrev pub sizeof_slot_header : ℕ
sizeof_slot_header = 16

-- `(n + a - 1) & ~(a - 1)`
unfoldable pub align_up : ℕ → ℕ → ℕ
align_up n a = bit_and ((n + a - 1) % 2 ^ 64) (2 ^ 64 - a)

unfoldable pub header_bytes : ℕ
header_bytes = align_up sizeof_header cache_line

unfoldable pub slot_stride : ℕ → ℕ
slot_stride slot_size = align_up (sizeof_slot_header + slot_size) cache_line

unfoldable pub bytes_needed : ℕ → ℕ → ℕ
bytes_needed slot_count slot_size = (header_bytes + slot_count * slot_stride slot_size) % 2 ^ 64

-- The offset of a slot from the start of the segment, and of its payload.
unfoldable pub slot_offset : ℕ → ℕ → ℕ
slot_offset slot_size i = header_bytes + i * slot_stride slot_size

unfoldable pub slot_data : ℕ → ℕ → ℕ
slot_data slot_size i = slot_offset slot_size i + sizeof_slot_header

and_double : (x c : ℕ) → bit_and x (c * 2) ≡ bit_and (x / 2) c * 2
and_double x c =
    let half : c * 2 / 2 ≡ c = omega arith in
    and_digit x (c * 2)
    ∙ ap (λ d. bit_and (x / 2) d * 2 + min (x % 2) (c * 2 % 2)) half
    ∙ omega arith

-- Six clear digits below `c`.
and_six :
    (x c : ℕ)
    → bit_and x (c * 2 * 2 * 2 * 2 * 2 * 2)
      ≡ bit_and (x / 2 / 2 / 2 / 2 / 2 / 2) c * 2 * 2 * 2 * 2 * 2 * 2
and_six x c =
    and_double x (c * 2 * 2 * 2 * 2 * 2)
    ∙ ap (λ t. t * 2)
        (and_double (x / 2) (c * 2 * 2 * 2 * 2)
          ∙ ap (λ t. t * 2)
              (and_double (x / 2 / 2) (c * 2 * 2 * 2)
                ∙ ap (λ t. t * 2)
                    (and_double (x / 2 / 2 / 2) (c * 2 * 2)
                      ∙ ap (λ t. t * 2)
                          (and_double (x / 2 / 2 / 2 / 2) (c * 2)
                            ∙ ap (λ t. t * 2) (and_double (x / 2 / 2 / 2 / 2 / 2) c)))))

six_halves : (x : ℕ) → x / 2 / 2 / 2 / 2 / 2 / 2 ≡ x / 64
six_halves x = omega arith

clears_low : (x : ℕ) → x < 2 ^ 64 → bit_and x (2 ^ 64 - 64) ≡ x / 64 * 64
clears_low x fits =
    and_six x (2 ^ 58 - 1)
    ∙ ap (λ t. t * 2 * 2 * 2 * 2 * 2 * 2)
        (bit_and_low 58 (x / 2 / 2 / 2 / 2 / 2 / 2)
          ∙ ap (λ t. t % 2 ^ 58) (six_halves x)
          ∙ mod-eq_of_lt {n = x / 64} {m = 2 ^ 58} (omega (arith, fits)))
    ∙ omega arith

align_up_lem : (n : ℕ) → n + 63 < 2 ^ 64 → align_up n 64 ≡ (n + 63) / 64 * 64
unfolding align_up
align_up_lem n fits =
    ap (λ m. bit_and m (2 ^ 64 - 64)) {x = (n + 64 - 1) % 2 ^ 64} {y = n + 63} (omega (arith, fits))
    ∙ clears_low (n + 63) fits

header_bytes_lem : header_bytes ≡ 64
unfolding header_bytes
header_bytes_lem = align_up_lem 24 (omega arith)

slot_stride_lem :
    (slot_size : ℕ) → slot_size < 2 ^ 32 → slot_stride slot_size ≡ (slot_size + 79) / 64 * 64
unfolding slot_stride
slot_stride_lem slot_size fits =
    ap (λ n. align_up n 64) {x = 16 + slot_size} {y = slot_size + 16} (omega arith)
    ∙ align_up_lem (slot_size + 16) (omega (arith, fits))
    ∙ ap (λ n. n / 64 * 64) {x = slot_size + 16 + 63} {y = slot_size + 79} (omega arith)

-- For slots of fewer than 2 ^ 32 bytes and at most 2 ^ 31 of them, as many as a 32-bit power of two
-- can be: every slot starts after the ring's header and on a cache line, its payload ends before the
-- next slot starts, and the last one's ends within the bytes that the segment is created with.
pub slots_do_not_overlap :
    (slot_count slot_size i j : ℕ)
    → slot_size < 2 ^ 32
    → slot_count ≤ 2 ^ 31
    → i < j
    → j < slot_count
    → (sizeof_header ≤ slot_offset slot_size i)
      × (slot_offset slot_size i % cache_line ≡ 0)
      × (slot_data slot_size i + slot_size ≤ slot_offset slot_size j)
      × (slot_data slot_size j + slot_size ≤ bytes_needed slot_count slot_size)
unfolding slot_offset slot_data bytes_needed
slots_do_not_overlap slot_count slot_size i j fits few lt within =
    let stride = slot_stride slot_size in
    let lines = (slot_size + 79) / 64 in
    let width = slot_stride_lem slot_size fits in
    let next : (i + 1) * stride ≤ j * stride =
      mul-le-mul_right {m = i + 1} {n = j} stride (omega (arith, lt)) in
    let last : (j + 1) * stride ≤ slot_count * stride =
      mul-le-mul_right {m = j + 1} {n = slot_count} stride (omega (arith, within)) in
    let all : slot_count * stride ≤ 2 ^ 31 * stride =
      mul-le-mul_right {m = slot_count} {n = 2 ^ 31} stride few in
    let aligned : i * stride ≡ i * lines * 64 =
      ap (λ w. i * w) width ∙ sym (mul_assoc i lines 64) in
    (
      omega (arith, header_bytes_lem),
      omega (arith, header_bytes_lem, aligned),
      omega (arith, next, next_slot i stride, width),
      omega (arith, last, all, next_slot j stride, width, header_bytes_lem, fits),
    )
  where
    next_slot : (k w : ℕ) → (k + 1) * w ≡ k * w + w
    next_slot k w = grind arith
