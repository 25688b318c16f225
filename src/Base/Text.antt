-- ===== src/Base/Text.antt =====
-- Python's `str` of a number that is at least 0: its decimal digits.
use Prim.Native.Nat.{ℕ, zero, suc, ◌/◌, ◌%◌}
use Prim.Native.String.{String, ◌++◌}
use blizzard_mock.Base.Tests.{if◌then◌else◌, ltb}

digit : ℕ → String
digit zero = "0"
digit (suc zero) = "1"
digit (suc (suc zero)) = "2"
digit (suc (suc (suc zero))) = "3"
digit (suc (suc (suc (suc zero)))) = "4"
digit (suc (suc (suc (suc (suc zero))))) = "5"
digit (suc (suc (suc (suc (suc (suc zero)))))) = "6"
digit (suc (suc (suc (suc (suc (suc (suc zero))))))) = "7"
digit (suc (suc (suc (suc (suc (suc (suc (suc zero)))))))) = "8"
digit n = "9"

digits_fuel : ℕ → ℕ → String
unfolding digit
digits_fuel zero n = ""
digits_fuel (suc fuel) n =
    let front = digits_fuel fuel (n / 10) ++ digit (n % 10) in if ltb n 10 then digit n else front

-- A number has fewer digits than its successor says.
unfoldable pub show : ℕ → String
unfolding digits_fuel
show n = digits_fuel (suc n) n
