-- ===== src/Config/Numbers.antt =====
-- config.cpp: which values the port and the queue depth take.
use mini_middleware.Prelude.{
  inl, inr, ℕ, ◌+◌, ◌-◌, ◌*◌, ◌/◌, ◌%◌, ◌^◌, ◌≤◌, ◌<◌, ◌≡◌, refl, ap, ◌∙◌, [], ◌∷◌, Bool, true,
  false, ◌&&◌, Option, none, some, Bytes, codes, ltb, leb, if◌then◌else◌, arith, Bool-cases,
  value_from, is_numeral,
}
use mini_middleware.Config.{
  MiddlewareConfig, Setting, taken, invalid, set_port, set_depth, apply, cast_to, parse_u16,
  parse_u32,
}
use mini_middleware.Config.Unsigned.{parse_unsigned_lem}

-- The number of a decimal numeral that is at most `max_value`.
abbrev pub number_up_to : ℕ → Bytes → Option ℕ
number_up_to max_value value =
    if is_numeral value && leb (value_from 0 value) max_value
    then some (value_from 0 value)
    else none

parse_u16-number_up_to : (value : Bytes) → parse_u16 value ≡ number_up_to 65535 value
unfolding parse_u16
parse_u16-number_up_to value =
    ap (cast_to 16) (parse_unsigned_lem value 65535 (omega arith) (omega arith))
    ∙ elim (Bool-cases (is_numeral value && leb (value_from 0 value) 65535)) [
      | inl e ↦
          let small : value_from 0 value ≤ 65535 = ground (arith, e) in
          rw e (ap some (omega (arith, small)))
      | inr e ↦ rw e refl
    ]

parse_u32-number_up_to : (value : Bytes) → parse_u32 value ≡ number_up_to 4294967295 value
unfolding parse_u32
parse_u32-number_up_to value =
    ap (cast_to 32) (parse_unsigned_lem value 4294967295 (omega arith) (omega arith))
    ∙ elim (Bool-cases (is_numeral value && leb (value_from 0 value) 4294967295)) [
      | inl e ↦
          let small : value_from 0 value ≤ 4294967295 = ground (arith, e) in
          rw e (ap some (omega (arith, small)))
      | inr e ↦ rw e refl
    ]

-- What the key `discovery.port` does with a value.
abbrev pub port_setting : MiddlewareConfig → Option ℕ → Setting
port_setting cfg none = invalid (codes ": invalid port")
port_setting cfg (some n) = taken (record cfg { port = n })

abbrev pub depth_setting : MiddlewareConfig → Option ℕ → Setting
depth_setting cfg none = invalid (codes ": invalid depth")
depth_setting cfg (some n) = taken (record cfg { qos = record (cfg.qos) { depth = n } })

set_port_lem : (cfg : MiddlewareConfig) (o : Option ℕ) → set_port cfg o ≡ port_setting cfg o
unfolding set_port
set_port_lem cfg none = refl
set_port_lem cfg (some n) = refl

set_depth_lem : (cfg : MiddlewareConfig) (o : Option ℕ) → set_depth cfg o ≡ depth_setting cfg o
unfolding set_depth
set_depth_lem cfg none = refl
set_depth_lem cfg (some n) = refl

-- The key `port` of the section `discovery` takes exactly the decimal numerals up to 65535, the key
-- `depth` of the section `qos` exactly those up to 4294967295, each with the number that the
-- numeral stands for and with nothing else of the configuration changed; any other value is refused
-- with the message of the key.
pub apply_takes_exact_numbers :
    (cfg : MiddlewareConfig) (value : Bytes)
    → (apply cfg (codes "discovery") (codes "port") value
        ≡ port_setting cfg (number_up_to 65535 value))
      × (apply cfg (codes "qos") (codes "depth") value
          ≡ depth_setting cfg (number_up_to 4294967295 value))
unfolding apply mini_middleware.Prelude.bytes_eq
apply_takes_exact_numbers cfg value = (
  ap (set_port cfg) (parse_u16-number_up_to value) ∙ set_port_lem cfg (number_up_to 65535 value),
  ap (set_depth cfg) (parse_u32-number_up_to value)
      ∙ set_depth_lem cfg (number_up_to 4294967295 value),
)
