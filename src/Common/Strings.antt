-- ===== src/Common/Strings.antt =====
-- Texts as lists of code points.
use Prim.Native.Char.{code}
use Prim.Native.String.{String}
use Prim.Native.Nat.{ℕ, zero, suc, ◌+◌, ◌/◌, ◌%◌}
use mathlib.Core.List.{[], ◌∷◌}
use hop_react.Common.Tests.{Text, leb, if◌then◌else◌}

abbrev pub codes : String → Text
codes String.[] = []
codes (String.◌∷◌ c s) = code c ∷ codes s

-- Decimal digits of a number below 10 ^ fuel, before the text.
abbrev pub decimal : ℕ → ℕ → Text → Text
decimal zero n s = s
decimal (suc fuel) n s =
    let more = decimal fuel (n / 10) ((48 + n % 10) ∷ s) in if leb n 9 then (48 + n) ∷ s else more
