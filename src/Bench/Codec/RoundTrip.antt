-- ===== src/Bench/Codec/RoundTrip.antt =====
-- message_codec.cpp: what is written is read back.
use mini_middleware.Prelude.{
  ℕ, ◌-◌, ◌^◌, ◌<◌, ◌≡◌, ◌≢◌, refl, ap, ◌∙◌, [], ◌∷◌, ◌++◌, true, some, Bytes, to_string, ltb,
  arith, is_digit, value_from, all_digits, is_numeral, read_digits_lem, to_string_lem,
  numeral_digits, from_chars, length, replicate, split_at-append, lacks, append_assoc,
}
use mini_middleware.Bench.Codec.{
  parse_unsigned, metadata_text, make_benchmark_payload, parse_benchmark_payload,
}

parse_unsigned_numeral :
    (s : Bytes)
    → is_numeral s ≡ true
    → value_from 0 s < 2 ^ 64
    → parse_unsigned s ≡ some (value_from 0 s)
unfolding parse_unsigned from_chars
parse_unsigned_numeral [] h up = cc
parse_unsigned_numeral (c ∷ s) h up =
    let digit : is_digit c ≡ true = ground (arith, h) in
    let small : ltb (value_from 0 (c ∷ s)) (2 ^ 64) ≡ true = ground (arith, up) in
    rw (read_digits_lem 0 (c ∷ s) h, digit, small) refl

parse_unsigned-to_string : (n : ℕ) → n < 2 ^ 64 → parse_unsigned (to_string n) ≡ some n
parse_unsigned-to_string n up =
    let (numeral, value) = to_string_lem n in
    parse_unsigned_numeral (to_string n) numeral (omega (arith, value, up)) ∙ ap some value

digits-lacks : (s : Bytes) → all_digits s ≡ true → lacks b'|' s ≡ true
digits-lacks [] h = refl
digits-lacks (c ∷ s) h = ground (arith, h, digits-lacks s (ground (arith, h)))

to_string-lacks : (n : ℕ) → lacks b'|' (to_string n) ≡ true
to_string-lacks n = digits-lacks (to_string n) (numeral_digits (to_string n) (to_string_lem n).0)

-- Three fields, each before a '|'.
parse_fields :
    (run_id filling : Bytes) (sequence send_ns : ℕ)
    → run_id ≢ []
    → lacks b'|' run_id ≡ true
    → sequence < 2 ^ 64
    → send_ns < 2 ^ 64
    → parse_benchmark_payload (
        run_id ++ (b'|' ∷ (to_string sequence ++ (b'|' ∷ (to_string send_ns ++ (b'|' ∷ filling))))))
      ≡ some (record { run_id = run_id; sequence = sequence; send_ns = send_ns })
unfolding parse_benchmark_payload
parse_fields [] filling sequence send_ns full plain small early = elim (full refl) [ ]
parse_fields (c ∷ run_id) filling sequence send_ns full plain small early =
    rw
      (
        split_at-append b'|' (c ∷ run_id)
            (to_string sequence ++ (b'|' ∷ (to_string send_ns ++ (b'|' ∷ filling)))) plain,
        split_at-append b'|' (to_string sequence) (to_string send_ns ++ (b'|' ∷ filling))
            (to_string-lacks sequence),
        split_at-append b'|' (to_string send_ns) filling (to_string-lacks send_ns),
        parse_unsigned-to_string sequence small,
        parse_unsigned-to_string send_ns early,
      )
      refl

-- A payload made with a nonempty run id that has no '|' and with a sequence number and a time of 64
-- bits, of any size asked for, is parsed to that run id, that number and that time.
pub parse-make :
    (run_id : Bytes) (sequence send_ns payload_bytes : ℕ)
    → run_id ≢ []
    → lacks b'|' run_id ≡ true
    → sequence < 2 ^ 64
    → send_ns < 2 ^ 64
    → parse_benchmark_payload (make_benchmark_payload run_id sequence send_ns payload_bytes)
      ≡ some (record { run_id = run_id; sequence = sequence; send_ns = send_ns })
unfolding make_benchmark_payload
parse-make run_id sequence send_ns payload_bytes full plain small early =
    let filling : Bytes =
      replicate (payload_bytes - length (metadata_text run_id sequence send_ns)) b'x' in
    ap parse_benchmark_payload (
      append_assoc run_id
        (b'|' ∷ (to_string sequence ++ (b'|' ∷ (to_string send_ns ++ (b'|' ∷ []))))) filling
      ∙ ap (λ t. run_id ++ (b'|' ∷ t))
          (append_assoc (to_string sequence) (b'|' ∷ (to_string send_ns ++ (b'|' ∷ []))) filling
            ∙ ap (λ t. to_string sequence ++ (b'|' ∷ t))
                (append_assoc (to_string send_ns) (b'|' ∷ []) filling)))
    ∙ parse_fields run_id filling sequence send_ns full plain small early
