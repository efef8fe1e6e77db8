-- ===== src/Alert/Battery/Announcements.antt =====
-- Alerts and recoveries of a battery rule over a series of checks, the newest first.
use hop_react.Common.{
  ℕ, ◌+◌, ◌≤◌, ◌≡◌, ◌≢◌, refl, Bool, true, false, List, [], ◌∷◌, arith, if◌then◌else◌,
}
use hop_react.Alert.Battery.Levels.{
  BatteryLevel, absent, unknown, ok, low, critical, overcharged, classify_battery,
}
use hop_react.Alert.Battery.Levels.Hysteresis.{classify_battery_known}
use hop_react.Alert.Watch.{Prefs}
use hop_react.Alert.Battery.{
  BatteryReading, confirm_level, new_reading, BatteryState, BatteryPolicy, Message, is_silent,
  is_recovery, confirm_level, new_reading, waiting, known_level, no_battery, new_reading, waiting,
  confirm_level, evaluate_battery,
}
use hop_react.Alert.Battery.Series.{Check, outcome, advance}

abbrev pub is_alert : Message → Bool
is_alert kind = if is_silent kind then false else if is_recovery kind then false else true

-- How many checks give rise to a message that passes the test.
unfoldable pub messages : (Message → Bool) → BatteryPolicy → BatteryState → List Check → ℕ
messages test pol s [] = 0
messages test pol s (c ∷ cs) =
    (if test (outcome pol (advance pol s cs) c).kind then 1 else 0) + messages test pol s cs

abbrev pub announced_one : BatteryState → ℕ
announced_one s = elim s.announced [ absent ↦ 0 | _ ↦ 1 ]

step_owed :
    (pol : BatteryPolicy) (t : BatteryState) (c : Check) (alerts recoveries : ℕ)
    → recoveries + announced_one t ≤ alerts
    → let out = outcome pol t c in
      (if is_recovery out.kind then 1 else 0) + recoveries + announced_one out.state
      ≤ (if is_alert out.kind then 1 else 0) + alerts
unfolding outcome evaluate_battery no_battery new_reading waiting confirm_level
step_owed pol t c alerts recoveries h = ground arith

-- Through any checks, from a rule nobody was told about: recoveries, and one more while an alert
-- stands announced, are never more than alerts.
pub battery_messages_paired :
    (pol : BatteryPolicy) (s : BatteryState) (cs : List Check)
    → s.announced ≡ absent
    → messages is_recovery pol s cs + announced_one (advance pol s cs) ≤ messages is_alert pol s cs
unfolding advance messages
battery_messages_paired pol s [] e = ground arith
battery_messages_paired pol s (c ∷ cs) e =
    step_owed pol (advance pol s cs) c (messages is_alert pol s cs) (messages is_recovery pol s cs)
      (battery_messages_paired pol s cs e)

-- The levels that a message can announce.
abbrev alerts_at : BatteryLevel → Bool
alerts_at low = true
alerts_at critical = true
alerts_at overcharged = true
alerts_at _ = false

-- An announcement stands only while the rule is at a level that alerts.
abbrev pub Founded : BatteryState → Type 0
Founded s = s.announced ≢ absent → alerts_at s.level ≡ true

confirm_level-Founded :
    (r : BatteryReading) (cur next : BatteryState) (target : BatteryLevel) (prefs : Prefs)
    → target ≢ absent
    → target ≢ unknown
    → Founded (confirm_level r cur next target prefs).state
unfolding confirm_level
confirm_level-Founded r cur next absent prefs a u = absurd (a refl)
confirm_level-Founded r cur next unknown prefs a u = absurd (u refl)
confirm_level-Founded r cur next ok prefs a u = λ h. ground arith
confirm_level-Founded r cur next low prefs a u = λ h. refl
confirm_level-Founded r cur next critical prefs a u = λ h. refl
confirm_level-Founded r cur next overcharged prefs a u = λ h. refl

new_reading-Founded :
    (r : BatteryReading) (cur : BatteryState) (target : BatteryLevel) (pol : BatteryPolicy)
    (prefs : Prefs)
    → target ≢ absent
    → target ≢ unknown
    → Founded cur
    → Founded (new_reading r cur target pol prefs).state
unfolding new_reading waiting
new_reading-Founded r cur target pol prefs a u f =
    ground (arith, f, confirm_level-Founded r cur (waiting r cur target) target prefs a u)

no_battery-Founded :
    (r : BatteryReading) (cur : BatteryState) → Founded cur → Founded (no_battery r cur).state
unfolding no_battery
no_battery-Founded r cur f = λ h. ground arith

step-Founded :
    (pol : BatteryPolicy) (t : BatteryState) (c : Check)
    → Founded t
    → Founded (outcome pol t c).state
unfolding outcome evaluate_battery
step-Founded pol t c f =
    let cur = record t { level = known_level t.level } in
    let target = classify_battery c.reading.mv cur.level c.levels pol.recover_margin_mv in
    let known = classify_battery_known c.reading.mv pol.recover_margin_mv cur.level c.levels in
    let f' : Founded cur = λ h. ground (arith, f h) in
    ground (
      arith,
      no_battery-Founded c.reading cur f',
      new_reading-Founded c.reading cur target pol c.prefs known.0 known.1 f',
    )

-- Every check keeps it so.
advance-Founded :
    (pol : BatteryPolicy) (s : BatteryState) (cs : List Check)
    → Founded s
    → Founded (advance pol s cs)
unfolding advance
advance-Founded pol s [] f = f
advance-Founded pol s (c ∷ cs) f =
    step-Founded pol (advance pol s cs) c (advance-Founded pol s cs f)
