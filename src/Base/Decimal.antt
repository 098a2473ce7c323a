-- ===== src/Base/Decimal.antt =====
-- A number in a format string.
use Prim.Native.Nat.{ℕ, zero, suc, ◌/◌, ◌%◌}
use Prim.Native.String.{String, ◌++◌}
use ao2_control_plane.Base.Equality.{if◌then◌else◌}
use ao2_control_plane.Base.Lists.{ltb}

abbrev digit : ℕ → String
digit zero = "0"
digit (suc zero) = "1"
digit (suc (suc zero)) = "2"
digit (suc (suc (suc zero))) = "3"
digit (suc (suc (suc (suc zero)))) = "4"
digit (suc (suc (suc (suc (suc zero))))) = "5"
digit (suc (suc (suc (suc (suc (suc zero)))))) = "6"
digit (suc (suc (suc (suc (suc (suc (suc zero))))))) = "7"
digit (suc (suc (suc (suc (suc (suc (suc (suc zero)))))))) = "8"
digit _ = "9"

-- A number has fewer digits than it counts, but for 0, so `suc n` rounds are enough.
abbrev digits : ℕ → ℕ → String
digits zero n = ""
digits (suc fuel) n =
    let high = digits fuel (n / 10) in if ltb n 10 then digit n else high ++ digit (n % 10)

-- `{}` of an unsigned number.
unfoldable pub decimal : ℕ → String
decimal n = digits (suc n) n
