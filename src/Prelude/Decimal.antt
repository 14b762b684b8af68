-- ===== src/Prelude/Decimal.antt =====
-- std::to_string of an unsigned integer: its decimal digits. A number has at most as many digits
-- as its own value plus one, which is the fuel.
use Prim.Native.Nat.{ℕ, zero, suc, ◌+◌, ◌/◌, ◌%◌}
use mathlib.Core.List.{[], ◌∷◌, ◌++◌}
use mini_middleware.Prelude.Tests.{ltb, if◌then◌else◌}
use mini_middleware.Prelude.Text.{Bytes}

unfoldable pub to_string_from : ℕ → ℕ → Bytes
to_string_from zero n = []
to_string_from (suc fuel) n =
    let rest = to_string_from fuel (n / 10) ++ ((b'0' + n % 10) ∷ []) in
    if ltb n 10 then (b'0' + n) ∷ [] else rest

unfoldable pub to_string : ℕ → Bytes
unfolding to_string_from
to_string n = to_string_from (suc n) n
