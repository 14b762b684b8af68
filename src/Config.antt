-- ===== src/Config.antt =====
-- config/include/config/config.h and config/src/config.cpp. The characters of a text are bytes; the
-- character classes are those of the C locale.
pub mod Unsigned
pub mod Numbers
use mini_middleware.Prelude.{
  ℕ, suc, ◌+◌, ◌-◌, ◌*◌, ◌/◌, ◌%◌, ◌^◌, List, [], ◌∷◌, ◌++◌, Bool, true, false, ◌&&◌, ◌||◌, not,
  Option, none, some, Bytes, bytes_eq, codes, to_string, ltb, leb, if◌then◌else◌, ◌==◌, is_space,
  is_digit, split_at, is_space, is_digit,
}
use mini_middleware.Common.Qos.{
  Qos, Reliability, best_effort, reliable, History, keep_last, keep_all, default_qos,
}

pub record MiddlewareConfig : Type 0 where
  pub node_name : Bytes
  pub enable_shm : Bool
  pub group : Bytes
  pub port : ℕ
  pub qos : Qos

pub record ConfigParseResult : Type 0 where
  pub ok : Bool
  pub config : MiddlewareConfig
  pub error : Bytes

unfoldable pub trim_front : Bytes → Bytes
trim_front [] = []
trim_front (c ∷ s) = if is_space c then trim_front s else c ∷ s

abbrev is_empty : Bytes → Bool
is_empty [] = true
is_empty (c ∷ s) = false

-- Without the spaces at its end.
unfoldable pub trim_back : Bytes → Bytes
trim_back [] = []
trim_back (c ∷ s) = let rest = trim_back s in if is_space c && is_empty rest then [] else c ∷ rest

unfoldable pub trim : Bytes → Bytes
trim s = trim_back (trim_front s)

unfoldable pub strip_comment : Bytes → Bytes
strip_comment [] = []
strip_comment (c ∷ line) = if c == b'#' then [] else c ∷ strip_comment line

unfoldable pub parse_bool : Bytes → Option Bool
parse_bool value =
    if bytes_eq value (codes "true")
    then some true
    else if bytes_eq value (codes "false")
    then some false
    else none

-- The loop of `parse_unsigned`, in 64 bits.
unfoldable pub parse_digits : ℕ → ℕ → Bytes → Option ℕ
parse_digits max_value parsed [] = some parsed
parse_digits max_value parsed (c ∷ value) =
    let digit = c - b'0' in
    let rest = parse_digits max_value ((parsed * 10 + digit) % 2 ^ 64) value in
    (if not (is_digit c)
      then none
      else if ltb ((max_value + 2 ^ 64 - digit) % 2 ^ 64 / 10) parsed
      then none
      else rest)

unfoldable pub parse_unsigned : Bytes → ℕ → Option ℕ
parse_unsigned value max_value = if is_empty value then none else parse_digits max_value 0 value

-- `static_cast` of what was parsed to an unsigned type of so many bits.
abbrev pub cast_to : ℕ → Option ℕ → Option ℕ
cast_to bits none = none
cast_to bits (some parsed) = some (parsed % 2 ^ bits)

unfoldable pub parse_u16 : Bytes → Option ℕ
parse_u16 value = cast_to 16 (parse_unsigned value 65535)

unfoldable pub parse_u32 : Bytes → Option ℕ
parse_u32 value = cast_to 32 (parse_unsigned value 4294967295)

abbrev pub default_config : MiddlewareConfig
default_config = record {
  node_name = codes "mm_cli";
  enable_shm = true;
  group = codes "239.255.0.1";
  port = 7400;
  qos = default_qos;
}

abbrev fail : MiddlewareConfig → Bytes → ConfigParseResult
fail cfg msg = record { ok = false; config = cfg; error = msg }

-- What stands before and after the first ':', if there is one.
unfoldable pub split_at_colon : Bytes → Option (Bytes × Bytes)
split_at_colon line = split_at b':' line

-- A configuration, or what is wrong with the value.
pub data Setting : Type 0 where
  taken : MiddlewareConfig → Setting
  invalid : Bytes → Setting

set_shm : MiddlewareConfig → Option Bool → Setting
set_shm cfg none = invalid (codes ": invalid enable_shm")
set_shm cfg (some b) = taken (record cfg { enable_shm = b })

unfoldable pub set_port : MiddlewareConfig → Option ℕ → Setting
set_port cfg none = invalid (codes ": invalid port")
set_port cfg (some n) = taken (record cfg { port = n })

unfoldable pub set_depth : MiddlewareConfig → Option ℕ → Setting
set_depth cfg none = invalid (codes ": invalid depth")
set_depth cfg (some n) = taken (record cfg { qos = record (cfg.qos) { depth = n } })

abbrev is_at : Bytes → Bytes → Bytes → Bytes → Bool
is_at section key s k = bytes_eq section s && bytes_eq key k

-- The chain of tests on the section and the key; an unknown one changes nothing.
unfoldable pub apply : MiddlewareConfig → Bytes → Bytes → Bytes → Setting
unfolding set_shm set_port set_depth
apply cfg section key value =
    if is_at section key (codes "node") (codes "name")
    then taken (record cfg { node_name = value })
    else if is_at section key (codes "transport") (codes "enable_shm")
    then set_shm cfg (parse_bool value)
    else if is_at section key (codes "discovery") (codes "group")
    then taken (record cfg { group = value })
    else if is_at section key (codes "discovery") (codes "port")
    then set_port cfg (parse_u16 value)
    else if is_at section key (codes "qos") (codes "reliability")
    then if bytes_eq value (codes "best_effort")
      then taken (record cfg { qos = record (cfg.qos) { reliability = best_effort } })
      else if bytes_eq value (codes "reliable")
      then taken (record cfg { qos = record (cfg.qos) { reliability = reliable } })
      else invalid (codes ": invalid reliability")
    else if is_at section key (codes "qos") (codes "history")
    then if bytes_eq value (codes "keep_last")
      then taken (record cfg { qos = record (cfg.qos) { history = keep_last } })
      else if bytes_eq value (codes "keep_all")
      then taken (record cfg { qos = record (cfg.qos) { history = keep_all } })
      else invalid (codes ": invalid history")
    else if is_at section key (codes "qos") (codes "depth")
    then set_depth cfg (parse_u32 value)
    else taken cfg

-- The last character is ':'.
unfoldable pub ends_in_colon : Bytes → Bool
ends_in_colon [] = false
ends_in_colon (c ∷ []) = c == b':'
ends_in_colon (c ∷ d ∷ s) = ends_in_colon (d ∷ s)

unfoldable pub drop_last : Bytes → Bytes
drop_last [] = []
drop_last (c ∷ []) = []
drop_last (c ∷ d ∷ s) = c ∷ drop_last (d ∷ s)

abbrev at_line : ℕ → Bytes → Bytes
at_line line_no msg = codes "line " ++ (to_string line_no ++ msg)

key_value : MiddlewareConfig → Bytes → Option (Bytes × Bytes) → Setting
unfolding apply
key_value cfg section none = invalid (codes ": expected key: value")
key_value cfg section (some (key, value)) = apply cfg section (trim key) (trim value)

-- What a line does: the configuration and the section after it, and what is wrong with it.
pub record Line : Type 0 where
  pub config : MiddlewareConfig
  pub section : Bytes
  pub problem : Option Bytes

setting_line : MiddlewareConfig → Bytes → Setting → Line
setting_line cfg section (invalid msg) = record {
  config = cfg;
  section = section;
  problem = some msg;
}
setting_line cfg section (taken cfg') = record { config = cfg'; section = section; problem = none }

read_line : MiddlewareConfig → Bytes → Bytes → Line
unfolding key_value setting_line
read_line cfg section line =
    if is_empty line
    then record { config = cfg; section = section; problem = none }
    else if ends_in_colon line
    then record { config = cfg; section = trim (drop_last line); problem = none }
    else setting_line cfg section (key_value cfg section (split_at_colon line))

line_result : MiddlewareConfig → ℕ → Option Bytes → ConfigParseResult → ConfigParseResult
line_result cfg line_no none rest = rest
line_result cfg line_no (some msg) rest = fail cfg (at_line line_no msg)

-- The loop over the lines.
parse_lines : MiddlewareConfig → Bytes → ℕ → List Bytes → ConfigParseResult
unfolding read_line line_result
parse_lines cfg section line_no [] = record { ok = true; config = cfg; error = [] }
parse_lines cfg section line_no (raw ∷ lines) =
    let line = read_line cfg section (trim (strip_comment raw)) in
    line_result cfg (line_no + 1) line.problem
      (parse_lines line.config line.section (line_no + 1) lines)

-- The lines that std::getline gives.
get_lines : Bytes → Bytes → List Bytes
get_lines [] [] = []
get_lines (c ∷ line) [] = (c ∷ line) ∷ []
get_lines line (c ∷ text) =
    if c == 10 then line ∷ get_lines [] text else get_lines (line ++ (c ∷ [])) text

unfoldable pub parse_config_text : Bytes → ConfigParseResult
unfolding parse_lines get_lines
parse_config_text text = parse_lines default_config [] 0 (get_lines [] text)

-- `text` is what the file holds, if it can be opened.
unfoldable pub load_config_file : Bytes → Option Bytes → ConfigParseResult
load_config_file path none = fail default_config (codes "failed to open config file: " ++ path)
load_config_file path (some text) = parse_config_text text
