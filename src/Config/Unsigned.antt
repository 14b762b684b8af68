-- ===== src/Config/Unsigned.antt =====
-- config.cpp: `parse_unsigned` against the value of a decimal numeral.
use mini_middleware.Prelude.{
  inl, inr, ℕ, ◌+◌, ◌-◌, ◌*◌, ◌/◌, ◌%◌, ◌^◌, ◌≤◌, ◌<◌, ◌≡◌, refl, [], ◌∷◌, Bool, true, false, ◌&&◌,
  none, some, Bytes, ltb, leb, if◌then◌else◌, arith, Bool-cases, is_digit, value_from, all_digits,
  is_numeral,
}
use mini_middleware.Config.{parse_digits, parse_unsigned}

value_from-le : (parsed : ℕ) (value : Bytes) → parsed ≤ value_from parsed value
unfolding value_from
value_from-le parsed [] = omega arith
value_from-le parsed (c ∷ value) = omega (arith, value_from-le (parsed * 10 + (c - b'0')) value)

parse_digits_lem :
    (max_value parsed : ℕ) (value : Bytes)
    → 9 ≤ max_value
    → max_value < 2 ^ 64
    → parsed ≤ max_value
    → parse_digits max_value parsed value ≡ (
        if all_digits value && leb (value_from parsed value) max_value
        then some (value_from parsed value)
        else none)
unfolding parse_digits value_from
parse_digits_lem max_value parsed [] h k le = ground (arith, le)
parse_digits_lem max_value parsed (c ∷ value) h k le = elim (Bool-cases (is_digit c)) [
  | inr other ↦ rw other refl
  | inl digit ↦
      let small : c - b'0' ≤ 9 = ground (arith, digit) in
      elim (Bool-cases (ltb ((max_value + 2 ^ 64 - (c - b'0')) % 2 ^ 64 / 10) parsed)) [
        | inl over ↦
            let big : max_value < parsed * 10 + (c - b'0') = ground (arith, over, small) in
            let no : leb (value_from (parsed * 10 + (c - b'0')) value) max_value ≡ false =
              ground (arith, big, value_from-le (parsed * 10 + (c - b'0')) value) in
            rw (digit, over, no) (none_either (all_digits value))
        | inr fits ↦
            let small_sum : parsed * 10 + (c - b'0') ≤ max_value = ground (arith, fits, small) in
            let same : (parsed * 10 + (c - b'0')) % 2 ^ 64 ≡ parsed * 10 + (c - b'0') =
              omega (arith, small_sum) in
            rw (digit, fits, same)
              (parse_digits_lem max_value (parsed * 10 + (c - b'0')) value h k small_sum)
      ]
]
  where
    none_either :
        (b : Bool)
        → none ≡ (if b && false then some (value_from (parsed * 10 + (c - b'0')) value) else none)
    none_either true = refl
    none_either false = refl

-- `parse_unsigned` accepts exactly the nonempty strings of digits whose value is at most the
-- maximum, and gives that value, for any maximum from 9 up to the largest 64-bit number.
pub parse_unsigned_lem :
    (value : Bytes) (max_value : ℕ)
    → 9 ≤ max_value
    → max_value < 2 ^ 64
    → parse_unsigned value max_value ≡ (
        if is_numeral value && leb (value_from 0 value) max_value
        then some (value_from 0 value)
        else none)
unfolding parse_unsigned
parse_unsigned_lem [] max_value h k = refl
parse_unsigned_lem (c ∷ value) max_value h k =
    parse_digits_lem max_value 0 (c ∷ value) h k (omega arith)
