-- ===== src/Prelude/Numerals.antt =====
-- The C and C++ library's reading of decimal numerals: the character classes of the C locale,
-- strtol, strtoull and std::from_chars. A text has no null byte, and `long` has 64 bits.
use Prim.Native.Nat.{ℕ, zero, suc, ◌+◌, ◌-◌, ◌*◌, ◌/◌, ◌%◌, ◌^◌, ◌≤◌, ◌<◌}
use mathlib.Core.Path.{◌≡◌, refl, ◌∙◌}
use mathlib.Core.Logic.{inl, inr}
use mathlib.Core.Bool.{Bool, true, false, ◌&&◌, ◌||◌}
use mathlib.Core.Option.{Option, none, some}
use mathlib.Core.List.{[], ◌∷◌, ◌++◌}
use native.Mathlib.Omega.{arith}
use mini_middleware.Prelude.Tests.{ltb, leb, ◌==◌, if◌then◌else◌, Bool-cases}
use mini_middleware.Prelude.Lists.{length, length-append}
use mini_middleware.Prelude.Text.{Bytes}
use mini_middleware.Prelude.Decimal.{to_string, to_string_from}

abbrev pub is_space : ℕ → Bool
is_space c = c == 32 || (leb 9 c && leb c 13)

abbrev pub is_digit : ℕ → Bool
is_digit c = leb b'0' c && leb c b'9'

-- The value of the digits that follow those of `parsed`.
unfoldable pub value_from : ℕ → Bytes → ℕ
value_from parsed [] = parsed
value_from parsed (c ∷ value) = value_from (parsed * 10 + (c - b'0')) value

abbrev pub all_digits : Bytes → Bool
all_digits [] = true
all_digits (c ∷ value) = is_digit c && all_digits value

abbrev pub is_numeral : Bytes → Bool
is_numeral [] = false
is_numeral (c ∷ value) = all_digits (c ∷ value)

-- The value of the digits at the front, and the rest of the text.
unfoldable pub read_digits : ℕ → Bytes → ℕ × Bytes
read_digits parsed [] = (parsed, [])
read_digits parsed (c ∷ s) =
    let rest = read_digits (parsed * 10 + (c - b'0')) s in
    (if is_digit c then rest else (parsed, c ∷ s))

-- std::from_chars of an unsigned 64-bit integer: the value, and the text after it.
unfoldable pub from_chars : Bytes → Option (ℕ × Bytes)
from_chars [] = none
from_chars (c ∷ s) =
    if is_digit c && ltb (read_digits 0 (c ∷ s)).0 (2 ^ 64)
    then some (read_digits 0 (c ∷ s))
    else none

unfoldable pub skip_spaces : Bytes → Bytes
skip_spaces [] = []
skip_spaces (c ∷ s) = if is_space c then skip_spaces s else c ∷ s

unfoldable pub read_sign : Bytes → Bool × Bytes
read_sign [] = (false, [])
read_sign (c ∷ s) =
    if c == b'-' then (true, s) else if c == b'+' then (false, s) else (false, c ∷ s)

-- What strtol and strtoull read: whether there is a minus sign, the number, and the text after it;
-- nothing when there is no digit.
unfoldable pub strto : Bytes → Option (Bool × ℕ × Bytes)
strto text = signed (read_sign (skip_spaces text))
  where
    signed : Bool × Bytes → Option (Bool × ℕ × Bytes)
    signed (minus, []) = none
    signed (minus, c ∷ s) =
        if is_digit c
        then some (minus, (read_digits 0 (c ∷ s)).0, (read_digits 0 (c ∷ s)).1)
        else none

pub read_digits_lem :
    (parsed : ℕ) (s : Bytes)
    → all_digits s ≡ true
    → read_digits parsed s ≡ (value_from parsed s, [])
unfolding read_digits value_from
read_digits_lem parsed [] h = refl
read_digits_lem parsed (c ∷ s) h =
    let digit : is_digit c ≡ true = ground (arith, h) in
    rw digit (read_digits_lem (parsed * 10 + (c - b'0')) s (ground (arith, h)))

value_from-snoc :
    (parsed c : ℕ) (s : Bytes)
    → value_from parsed (s ++ (c ∷ [])) ≡ value_from parsed s * 10 + (c - b'0')
unfolding value_from
value_from-snoc parsed c [] = refl
value_from-snoc parsed c (d ∷ s) = value_from-snoc (parsed * 10 + (d - b'0')) c s

all_digits-snoc :
    (c : ℕ) (s : Bytes)
    → all_digits s ≡ true
    → is_digit c ≡ true
    → all_digits (s ++ (c ∷ [])) ≡ true
all_digits-snoc c [] h k = ground (arith, k)
all_digits-snoc c (d ∷ s) h k = ground (arith, h, all_digits-snoc c s (ground (arith, h)) k)

is_numeral-snoc :
    (c : ℕ) (s : Bytes)
    → all_digits s ≡ true
    → is_digit c ≡ true
    → is_numeral (s ++ (c ∷ [])) ≡ true
is_numeral-snoc c [] h k = ground (arith, k)
is_numeral-snoc c (d ∷ s) h k = all_digits-snoc c (d ∷ s) h k

pub numeral_digits : (s : Bytes) → is_numeral s ≡ true → all_digits s ≡ true
numeral_digits [] h = refl
numeral_digits (c ∷ s) h = h

to_string_from_lem :
    (fuel n : ℕ)
    → n < fuel
    → (is_numeral (to_string_from fuel n) ≡ true) × (value_from 0 (to_string_from fuel n) ≡ n)
unfolding to_string_from value_from
to_string_from_lem zero n lt = ground (arith, lt)
to_string_from_lem (suc fuel) n lt = elim (Bool-cases (ltb n 10)) [
  | inl one_digit ↦ (ground (arith, one_digit), rw one_digit (ground (arith, one_digit)))
  | inr more ↦
      let (numeral, value) = to_string_from_lem fuel (n / 10) (ground (arith, more, lt)) in
      let digits = to_string_from fuel (n / 10) in
      (
        rw more
            (is_numeral-snoc (b'0' + n % 10) digits (numeral_digits digits numeral) (ground arith)),
        rw more (value_from-snoc 0 (b'0' + n % 10) digits ∙ ground (arith, value)),
      )
]

-- std::to_string gives a numeral of its argument's value.
pub to_string_lem : (n : ℕ) → (is_numeral (to_string n) ≡ true) × (value_from 0 (to_string n) ≡ n)
unfolding to_string
to_string_lem n = to_string_from_lem (suc n) n (omega arith)

length-to_string_from :
    (f g m n : ℕ)
    → m ≤ n
    → m < f
    → n < g
    → length (to_string_from f m) ≤ length (to_string_from g n)
unfolding to_string_from
length-to_string_from zero g m n le lt lt' = ground (arith, lt)
length-to_string_from (suc f) zero m n le lt lt' = ground (arith, lt')
length-to_string_from (suc f) (suc g) m n le lt lt' =
    let rest = length-to_string_from f g (m / 10) (n / 10) in
    let whole = length-append (to_string_from g (n / 10)) ((b'0' + n % 10) ∷ []) in
    elim (Bool-cases (ltb n 10)) [
      | inl one_digit ↦
          let small : ltb m 10 ≡ true = ground (arith, one_digit, le) in
          rw (one_digit, small) (omega arith)
      | inr more ↦ elim (Bool-cases (ltb m 10)) [
        | inl small ↦ rw (more, small) (omega (arith, whole))
        | inr big ↦
            let shorter =
              rest (omega (arith, le)) (ground (arith, big, lt)) (ground (arith, more, lt')) in
            rw (more, big)
              (omega (
                arith,
                whole,
                length-append (to_string_from f (m / 10)) ((b'0' + m % 10) ∷ []),
                shorter,
              ))
      ]
    ]

-- A larger number is not shorter.
pub length-to_string : (m n : ℕ) → m ≤ n → length (to_string m) ≤ length (to_string n)
unfolding to_string
length-to_string m n le = length-to_string_from (suc m) (suc n) m n le (omega arith) (omega arith)
