-- ===== src/Floats.antt =====
-- Go's float64, as the alerting code uses it: taken as an interface, since its values are rounded.
use hop_react.Common.{ℕ, ◌^◌, ◌≤◌, ◌≡◌, Bool, false}

pub record Float64 : Type 1 where
  pub F : Type 0
  -- float64(n), int(f) for f ≥ 0.
  pub of_int : ℕ → F
  pub to_int : F → ℕ
  pub mul : F → F → F
  pub div : F → F → F
  pub lt : F → F → Bool
  pub le : F → F → Bool

-- What the rounding of IEEE 754 keeps: a whole number below 2^53 is exact, and its product with a
-- factor of at most one does not exceed it.
pub record ScalesDown (fl : Float64) : Type 0 where
  pub to_int-mul_le :
      (n : ℕ) (f : fl.F)
      → n ≤ 2 ^ 53
      → fl.lt (fl.of_int 1) f ≡ false
      → fl.to_int (fl.mul (fl.of_int n) f) ≤ n
