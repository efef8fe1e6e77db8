-- ===== src/Alert/Battery/Levels.antt =====
-- Battery levels, their hysteresis, and where a rule's levels come from (internal/alert/battery.go).
pub mod Hysteresis
use hop_react.Common.{ℕ, ◌+◌, Bool, true, false, ◌&&◌, ◌||◌, List, [], ◌∷◌, ltb, leb, if◌then◌else◌}

-- A BatteryLevel is a string in the source; `absent` is the empty one.
pub data BatteryLevel : Type 0 where
  absent unknown ok low critical overcharged : BatteryLevel

abbrev pub level_eq : BatteryLevel → BatteryLevel → Bool
level_eq absent absent = true
level_eq unknown unknown = true
level_eq ok ok = true
level_eq low low = true
level_eq critical critical = true
level_eq overcharged overcharged = true
level_eq _ _ = false

abbrev pub down : BatteryLevel → Bool
down low = true
down critical = true
down _ = false

abbrev pub same_run : BatteryLevel → BatteryLevel → Bool
same_run a b = level_eq a b || (down a && down b)

pub record BatteryLevels : Type 0 where
  pub low_mv : ℕ
  pub critical_mv : ℕ
  -- 0 when the overcharge alert is off.
  pub overcharge_mv : ℕ

abbrev classify_down : ℕ → BatteryLevel → BatteryLevels → ℕ → BatteryLevel
classify_down mv cur lv margin =
    if ltb mv lv.critical_mv
    then critical
    else if level_eq cur critical && ltb mv (lv.critical_mv + margin)
    then critical
    else if ltb mv lv.low_mv
    then low
    else if down cur && ltb mv (lv.low_mv + margin)
    then low
    else ok

-- mv > OverchargeMV - marginMV is OverchargeMV < mv + marginMV, also where the difference is negative.
unfoldable pub classify_battery : ℕ → BatteryLevel → BatteryLevels → ℕ → BatteryLevel
classify_battery mv cur lv margin =
    if ltb 0 lv.overcharge_mv && leb lv.overcharge_mv mv
    then overcharged
    else if ltb 0 lv.overcharge_mv && level_eq cur overcharged && ltb lv.overcharge_mv (mv + margin)
    then overcharged
    else classify_down mv cur lv margin

-- The closure `pick` of ResolveBatteryLevels.
pub pick : List ℕ → ℕ
pick [] = 0
pick (v ∷ vs) = if ltb 0 v then v else pick vs

abbrev pub default_low_mv : ℕ
default_low_mv = 3300

abbrev pub default_critical_mv : ℕ
default_critical_mv = 3000

unfoldable pub resolve_battery_levels : ℕ → ℕ → Bool → ℕ → ℕ → ℕ → ℕ → ℕ → ℕ → BatteryLevels
unfolding pick
resolve_battery_levels rule_low rule_crit over_on rule_over site_low site_crit site_over scope_low
      scope_crit =
    record {
      low_mv = pick (rule_low ∷ site_low ∷ scope_low ∷ default_low_mv ∷ []);
      critical_mv = pick (rule_crit ∷ site_crit ∷ scope_crit ∷ default_critical_mv ∷ []);
      overcharge_mv = if over_on then pick (rule_over ∷ site_over ∷ []) else 0;
    }
