-- ===== src/Prelude/Decimal.antt =====
-- The verb %d of Go's fmt, for numbers that are not negative.
use Prim.Native.Nat.{ℕ, zero, suc, ◌+◌, ◌/◌, ◌%◌}
use Prim.Native.String.{String, slice, ◌++◌ as ◌<>◌}
use gateway_operator.Prelude.Tests.{ltb, if◌then◌else◌}

-- `n` in base ten. The fuel is never used up: it starts at `n`, and each step divides by ten.
abbrev decimal_digits : ℕ → ℕ → String
decimal_digits zero n = ""
decimal_digits (suc fuel) n =
    let before = decimal_digits fuel (n / 10) in
    let digit = slice "0123456789" (n % 10) (n % 10 + 1) in
    if ltb n 10 then digit else before <> digit

unfoldable pub show_count : ℕ → String
show_count n = decimal_digits (n + 1) n
