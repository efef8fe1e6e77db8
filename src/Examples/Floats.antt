-- ===== src/Examples/Floats.antt =====
-- A concrete stand-in for float64: hundredths, cut off.
use hop_react.Common.{ℕ, ◌*◌, ◌/◌, ◌≤◌, ◌≡◌, false, arith, ltb, leb}
use hop_react.Floats.{Float64, ScalesDown}

abbrev pub hundredths : Float64
hundredths = record {
  F = ℕ;
  of_int = λ n. n * 100;
  to_int = λ f. f / 100;
  mul = λ f g. f * g / 100;
  div = λ f g. f * 100 / g;
  lt = ltb;
  le = leb;
}

scaled : (a f : ℕ) → f ≤ 100 → a * f ≤ a * 100
scaled a f h = grind arith

scale_down : (n f : ℕ) → ltb (1 * 100) f ≡ false → n * 100 * f / 100 / 100 ≤ n
scale_down n f h = ground (arith, scaled (n * 100) f)

pub hundredths-ScalesDown : ScalesDown hundredths
hundredths-ScalesDown = record { to_int-mul_le = λ n f b h. scale_down n f h }
