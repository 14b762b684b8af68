-- ===== src/Common/Logger.antt =====
-- common/include/common/logger.h: the text of a log line. A value is the text that `<<` prints of it,
-- and the local time is an argument.
pub mod Placeholders
use mini_middleware.Prelude.{
  ℕ, ◌/◌, ◌%◌, ◌+◌, List, [], ◌∷◌, ◌++◌, Bool, true, false, ◌&&◌, Option, none, some, Bytes, codes,
  to_string, ◌==◌, if◌then◌else◌,
}

pub data LogLevel : Type 0 where
  info warn error : LogLevel

abbrev pub color : LogLevel → Bytes
color info = 27 ∷ codes "[32m"
color warn = 27 ∷ codes "[33m"
color error = 27 ∷ codes "[31m"

abbrev pub tag : LogLevel → Bytes
tag info = codes "INFO "
tag warn = codes "WARN "
tag error = codes "ERROR"

abbrev pub reset : Bytes
reset = 27 ∷ codes "[0m"

-- The loop over `file`, with the part after the last '/' so far.
unfoldable pub basename_from : Bytes → Bytes → Bytes
basename_from best [] = best
basename_from best (c ∷ rest) =
    if c == b'/' then basename_from rest rest else basename_from best rest

unfoldable pub basename : Bytes → Bytes
basename file = basename_from file file

pub record LocalTime : Type 0 where
  pub hour : ℕ
  pub minute : ℕ
  pub second : ℕ
  pub millis : ℕ

-- `%02d` of a number below 100 and `%03d` of one below 1000.
abbrev pub two_digits : ℕ → Bytes
two_digits n = (b'0' + n / 10) ∷ (b'0' + n % 10) ∷ []

abbrev pub three_digits : ℕ → Bytes
three_digits n = (b'0' + n / 100) ∷ two_digits (n % 100)

unfoldable pub log_line : LocalTime → LogLevel → Bytes → ℕ → Bytes → Bytes
log_line t level file line msg =
    color level
    ++ (codes "["
        ++ (two_digits t.hour
            ++ (codes ":"
                ++ (two_digits t.minute
                    ++ (codes ":"
                        ++ (two_digits t.second
                            ++ (codes "."
                                ++ (three_digits t.millis
                                    ++ (codes "] ["
                                        ++ (tag level
                                            ++ (codes "] ["
                                                ++ (basename file
                                                    ++ (codes ":"
                                                        ++ (to_string line
                                                            ++ (codes "] "
                                                            ++ (msg
                                                            ++ (reset ++ codes "\n")))))))))))))))))

further : ℕ → Option (Bytes × Bytes) → Option (Bytes × Bytes)
further c none = none
further c (some (before, after)) = some (c ∷ before, after)

-- `fmt.find("{}")`: the text before and after the first placeholder.
unfoldable pub find_placeholder : Bytes → Option (Bytes × Bytes)
unfolding further
find_placeholder [] = none
find_placeholder (c ∷ []) = none
find_placeholder (c ∷ d ∷ rest) =
    let found = further c (find_placeholder (d ∷ rest)) in
    if c == b'{' && d == b'}' then some ([], rest) else found

format_next : (Bytes → Bytes) → Bytes → Bytes → Option (Bytes × Bytes) → Bytes
format_next next value fmt none = fmt
format_next next value fmt (some (before, after)) = before ++ (value ++ next after)

-- `format_helper`, on the text from its position on.
unfoldable pub format_string : List Bytes → Bytes → Bytes
unfolding format_next
format_string [] fmt = fmt
format_string (value ∷ values) fmt =
    format_next (format_string values) value fmt (find_placeholder fmt)
