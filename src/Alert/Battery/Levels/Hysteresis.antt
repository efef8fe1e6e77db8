-- ===== src/Alert/Battery/Levels/Hysteresis.antt =====
-- The levels do not flap: the margin works, and a level that was judged is judged again the same.
use hop_react.Common.{
  ◌≢◌, ℕ, ◌+◌, ◌≤◌, ◌<◌, ◌≡◌, ◌↔◌, ◌⊎◌, inl, inr, Bool-cases, leb, leb→le, true, arith,
}
use hop_react.Alert.Battery.Levels.{
  BatteryLevel, absent, unknown, down, BatteryLevels, classify_battery,
}

-- A reading judged twice in a row keeps its level, whatever the levels, the margin and the level
-- before: one reading cannot move a rule back and forth.
classify_battery_idem :
    (mv margin : ℕ) (cur : BatteryLevel) (lv : BatteryLevels)
    → let once = classify_battery mv cur lv margin in classify_battery mv once lv margin ≡ once
unfolding classify_battery
classify_battery_idem mv margin cur lv = ground arith

module _ (mv margin : ℕ) (cur : BatteryLevel) (lv : BatteryLevels)
    (ordered : lv.critical_mv ≤ lv.low_mv)
    (apart : (lv.overcharge_mv ≡ 0) ⊎ (lv.low_mv + margin + margin ≤ lv.overcharge_mv)) where
  down_of_below : mv < lv.low_mv → down (classify_battery mv cur lv margin) ≡ true
  unfolding classify_battery
  down_of_below h = ground arith

  down_of_held :
      down cur ≡ true → mv < lv.low_mv + margin → down (classify_battery mv cur lv margin) ≡ true
  unfolding classify_battery
  down_of_held d h = ground arith

  held_of_down :
      lv.low_mv ≤ mv
      → down (classify_battery mv cur lv margin) ≡ true
      → (down cur ≡ true) × (mv < lv.low_mv + margin)
  unfolding classify_battery
  held_of_down h e = ground arith

  below_of_down :
      down (classify_battery mv cur lv margin) ≡ true
      → (mv < lv.low_mv) ⊎ ((down cur ≡ true) × (mv < lv.low_mv + margin))
  below_of_down e = elim (Bool-cases (leb lv.low_mv mv)) [
    | inl above ↦ inr (held_of_down (leb→le _ _ above) e)
    | inr below ↦ inl (ground arith)
  ]

-- With critical at or below low and overcharge off or at least two margins above low, a reading puts
-- a rule at low or critical exactly if it is below the low line, or below a margin above that line
-- while the rule is at one of the two already.
classify_battery-down :
    (mv margin : ℕ) (cur : BatteryLevel) (lv : BatteryLevels)
    → lv.critical_mv ≤ lv.low_mv
    → (lv.overcharge_mv ≡ 0) ⊎ (lv.low_mv + margin + margin ≤ lv.overcharge_mv)
    → (down (classify_battery mv cur lv margin) ≡ true)
      ↔ ((mv < lv.low_mv) ⊎ ((down cur ≡ true) × (mv < lv.low_mv + margin)))
classify_battery-down mv margin cur lv h o = (
  below_of_down mv margin cur lv h o,
  λ e. elim e [
    | inl b ↦ down_of_below mv margin cur lv h o b
    | inr (d, b) ↦ down_of_held mv margin cur lv h o d b
  ],
)

-- A reading always has a level.
pub classify_battery_known :
    (mv margin : ℕ) (cur : BatteryLevel) (lv : BatteryLevels)
    → let l = classify_battery mv cur lv margin in (l ≢ absent) × (l ≢ unknown)
unfolding classify_battery
classify_battery_known mv margin cur lv = (λ e. ground arith, λ e. ground arith)
