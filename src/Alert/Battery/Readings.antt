-- ===== src/Alert/Battery/Readings.antt =====
-- One reading of a battery, on every branch.
use hop_react.Common.{◌⊎◌, ◌≤◌, ◌≡◌, ◌≢◌, true, false, arith}
use hop_react.Alert.Watch.{Prefs}
use hop_react.Alert.Battery.Levels.{
  BatteryLevel, absent, unknown, ok, low, critical, level_eq, overcharged, BatteryLevels,
  classify_battery,
}
use hop_react.Alert.Battery.{
  BatteryReading, BatteryState, BatteryPolicy, BatteryOutcome, Message, silent, went_low,
  went_critical, went_overcharged, recovered, known_level, no_battery, new_reading, waiting,
  confirm_level, evaluate_battery,
}

-- The level that a message names.
abbrev pub announces : Message → BatteryLevel
announces silent = absent
announces went_low = low
announces went_critical = critical
announces went_overcharged = overcharged
announces recovered = ok

-- What holds of an outcome that sends a message, from a state that is judged.
record IsTold (prefs : Prefs) (cur : BatteryState) (out : BatteryOutcome) : Type 0 where
  unmuted : prefs.muted ≡ false
  moved : cur.level ≢ out.state.level
  known : cur.level ≢ unknown
  level : out.state.level ≡ announces out.kind
  recoveries : (out.kind ≢ recovered) ⊎ ((cur.announced ≢ absent) × (prefs.notify_recovery ≡ true))

confirm_level-IsTold :
    (r : BatteryReading) (cur next : BatteryState) (target : BatteryLevel) (prefs : Prefs)
    → level_eq cur.level unknown ≡ false
    → level_eq target cur.level ≡ false
    → (confirm_level r cur next target prefs).notify ≡ true
    → IsTold prefs cur (confirm_level r cur next target prefs)
unfolding confirm_level
confirm_level-IsTold r cur next target prefs k m h = ground arith

new_reading-IsTold :
    (r : BatteryReading) (cur : BatteryState) (target : BatteryLevel) (pol : BatteryPolicy)
    (prefs : Prefs)
    → (new_reading r cur target pol prefs).notify ≡ true
    → IsTold prefs cur (new_reading r cur target pol prefs)
unfolding new_reading
new_reading-IsTold r cur target pol prefs h =
    ground (arith, confirm_level-IsTold r cur (waiting r cur target) target prefs)

no_battery_silent : (r : BatteryReading) (cur : BatteryState) → (no_battery r cur).notify ≡ false
unfolding no_battery
no_battery_silent r cur = ground arith

evaluate_battery-IsTold :
    (r : BatteryReading) (s : BatteryState) (lv : BatteryLevels) (pol : BatteryPolicy)
    (prefs : Prefs)
    → (evaluate_battery r s lv pol prefs).notify ≡ true
    → IsTold prefs (record s { level = known_level s.level }) (evaluate_battery r s lv pol prefs)
unfolding evaluate_battery
evaluate_battery-IsTold r s lv pol prefs h =
    let cur = record s { level = known_level s.level } in
    let target = classify_battery r.mv cur.level lv pol.recover_margin_mv in
    ground (arith, no_battery_silent r cur, new_reading-IsTold r cur target pol prefs)

module _ (r : BatteryReading) (s : BatteryState) (lv : BatteryLevels) (pol : BatteryPolicy)
    (prefs : Prefs) where
  -- A reading of a fitted battery that is no newer than the last one changes nothing but an absent
  -- level, which reads as unknown, and sends nothing.
  evaluate_battery_stale :
      r.has_battery ≡ true
      → r.at ≤ s.last_reading_at
      → let out = evaluate_battery r s lv pol prefs in
        (out.state ≡ record s { level = known_level s.level })
        × (out.changed ≡ false)
        × (out.notify ≡ false)
  unfolding evaluate_battery
  evaluate_battery_stale b h = ground arith

  -- A message goes out only when the level changes, to the level that the message names, from a
  -- level that is known, to an owner who has not muted the watch; and a recovery goes out only after
  -- something was announced, to an owner who wants to hear of it.
  evaluate_battery_message :
      (evaluate_battery r s lv pol prefs).notify ≡ true
      → let out = evaluate_battery r s lv pol prefs in
        (prefs.muted ≡ false)
        × (known_level s.level ≢ out.state.level)
        × (known_level s.level ≢ unknown)
        × (out.state.level ≡ announces out.kind)
        × ((out.kind ≢ recovered) ⊎ ((s.announced ≢ absent) × (prefs.notify_recovery ≡ true)))
  evaluate_battery_message h =
      let t = evaluate_battery-IsTold r s lv pol prefs h in
      (t.unmuted, t.moved, t.known, t.level, t.recoveries)
