-- ===== src/Cli/Args/Numbers.antt =====
-- args.cpp: which texts `parse_non_negative_int` takes for a number.
use mini_middleware.Prelude.{
  inl, inr, ℕ, ◌+◌, ◌-◌, ◌*◌, ◌%◌, ◌^◌, ◌≤◌, ◌≡◌, refl, ap, ◌∙◌, [], ◌∷◌, Bool, true, false, ◌&&◌,
  none, some, Bytes, to_string, ltb, leb, ◌==◌, if◌then◌else◌, arith, Bool-cases, if_true, is_space,
  is_digit, value_from, all_digits, is_numeral, read_digits, read_digits_lem, read_sign,
  skip_spaces, strto, to_string_lem, pos, negsuc,
}
use mini_middleware.Cli.Args.{as_int, parse_non_negative_int}

-- A text that is not all digits has a rest.
read_digits_rest :
    (parsed : ℕ) (s : Bytes)
    → all_digits s ≡ false
    → (c : ℕ) × (t : Bytes) × ((read_digits parsed s).1 ≡ c ∷ t)
unfolding read_digits
read_digits_rest parsed [] h = cc
read_digits_rest parsed (c ∷ s) h = elim (Bool-cases (is_digit c)) [
  | inr other ↦ (c, s, rw other refl)
  | inl digit ↦
      let (d, t, e) = read_digits_rest (parsed * 10 + (c - b'0')) s (ground (arith, h, digit)) in
      (d, t, rw digit e)
]

as_int_rest :
    (minus : Bool) (size c : ℕ) (t rest : Bytes)
    → rest ≡ c ∷ t
    → as_int (some (minus, size, rest)) ≡ none
unfolding as_int
as_int_rest minus size c t rest e = rw e refl

as_int_whole :
    (n : ℕ) → as_int (some (false, n, [])) ≡ (if leb n 2147483647 then some (pos n) else none)
unfolding as_int
as_int_whole n = elim (Bool-cases (leb n 2147483647)) [
  | inr big ↦ ground (arith, big)
  | inl small ↦
      let in_range : ltb 2147483647 n ≡ false = ground (arith, small) in
      let low : n % 2 ^ 32 ≡ n = ground (arith, small) in
      let fits : ltb n (2 ^ 31) ≡ true = ground (arith, in_range) in
      rw (small, in_range, low, fits) refl
]

-- What a sign, or none, and the text after it are read as.
strto_first :
    (minus : Bool) (text : Bytes) (c : ℕ) (s : Bytes)
    → read_sign (skip_spaces text) ≡ (minus, c ∷ s)
    → strto text ≡ (
        if is_digit c
        then some (minus, (read_digits 0 (c ∷ s)).0, (read_digits 0 (c ∷ s)).1)
        else none)
unfolding strto
strto_first minus text c s e = rw e refl

strto_digits :
    (minus : Bool) (text s : Bytes)
    → read_sign (skip_spaces text) ≡ (minus, s)
    → is_numeral s ≡ true
    → strto text ≡ some (minus, value_from 0 s, [])
strto_digits minus text [] e h = cc
strto_digits minus text (c ∷ s) e h =
    let digit : is_digit c ≡ true = ground (arith, h) in
    strto_first minus text c s e
    ∙ rw digit (ap (λ r. some (minus, r.0, r.1)) (read_digits_lem 0 (c ∷ s) h))

unsigned_front :
    (c : ℕ) (text : Bytes)
    → is_space c ≡ false
    → (c == b'-') ≡ false
    → (c == b'+') ≡ false
    → read_sign (skip_spaces (c ∷ text)) ≡ (false, c ∷ text)
unfolding skip_spaces read_sign
unsigned_front c text space minus plus = rw space (rw minus (rw plus refl))

-- A text that starts with neither a space nor a sign is taken exactly when it consists of one or
-- more digits and their value is at most 2147483647, and is read as that value.
pub parse_non_negative_int_lem :
    (c : ℕ) (text : Bytes)
    → is_space c ≡ false
    → (c == b'-') ≡ false
    → (c == b'+') ≡ false
    → parse_non_negative_int (c ∷ text) ≡ (
        if is_numeral (c ∷ text) && leb (value_from 0 (c ∷ text)) 2147483647
        then some (pos (value_from 0 (c ∷ text)))
        else none)
unfolding parse_non_negative_int as_int
parse_non_negative_int_lem c text space minus plus =
    let front = unsigned_front c text space minus plus in
    let first = strto_first false (c ∷ text) c text front in
    rw minus (elim (Bool-cases (is_digit c)) [
      | inr other ↦ ap as_int first ∙ rw other refl
      | inl digit ↦ elim (Bool-cases (all_digits text)) [
        | inl digits ↦
            ap as_int
              (strto_digits false (c ∷ text) (c ∷ text) front (ground (arith, digit, digits)))
            ∙ as_int_whole (value_from 0 (c ∷ text))
            ∙ rw (digit, digits) refl
        | inr mixed ↦
            let (d, t, e) = read_digits_rest 0 (c ∷ text) (ground (arith, digit, mixed)) in
            ap as_int (first ∙ if_true _ _ digit)
            ∙ as_int_rest false (read_digits 0 (c ∷ text)).0 d t (read_digits 0 (c ∷ text)).1 e
            ∙ rw (digit, mixed) refl
      ]
    ])

-- A space, '-' and digits are taken too, though the function refuses a text that starts with '-':
-- for a value from 1 to 2 ^ 31, the result is the negative number.
pub takes_negative_after_space :
    (s : Bytes)
    → is_numeral s ≡ true
    → 1 ≤ value_from 0 s
    → value_from 0 s ≤ 2 ^ 31
    → parse_non_negative_int (32 ∷ b'-' ∷ s) ≡ some (negsuc (value_from 0 s - 1))
unfolding parse_non_negative_int skip_spaces read_sign as_int
takes_negative_after_space s h one up =
    let read : strto (32 ∷ b'-' ∷ s) ≡ some (true, value_from 0 s, []) =
      strto_digits true (32 ∷ b'-' ∷ s) s refl h in
    let size = value_from 0 s in
    let in_range : ltb (2 ^ 63) size ≡ false = ground (arith, up) in
    let low : (2 ^ 64 - size) % 2 ^ 32 ≡ 2 ^ 32 - size = omega (arith, one, up) in
    let high : ltb (2 ^ 32 - size) (2 ^ 31) ≡ false = ground (arith, up) in
    ap as_int read ∙ rw (in_range, low, high) (ap (λ n. some (negsuc n)) (omega (arith, one, up)))

parse_numeral :
    (s : Bytes)
    → is_numeral s ≡ true
    → value_from 0 s ≤ 2147483647
    → parse_non_negative_int s ≡ some (pos (value_from 0 s))
parse_numeral [] h up = cc
parse_numeral (c ∷ s) h up =
    let digit : is_digit c ≡ true = ground (arith, h) in
    let small : leb (value_from 0 (c ∷ s)) 2147483647 ≡ true = ground (arith, up) in
    parse_non_negative_int_lem c s (ground (arith, digit)) (ground (arith, digit))
      (ground (arith, digit))
    ∙ rw (h, small) refl

pub parse_non_negative_int-to_string :
    (n : ℕ) → n ≤ 2147483647 → parse_non_negative_int (to_string n) ≡ some (pos n)
parse_non_negative_int-to_string n up =
    let (numeral, value) = to_string_lem n in
    parse_numeral (to_string n) numeral (omega (arith, value, up)) ∙ ap (λ m. some (pos m)) value
