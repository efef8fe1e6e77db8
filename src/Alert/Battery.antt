-- ===== src/Alert/Battery.antt =====
-- internal/alert/battery.go: one battery rule, advanced by one reading. Millivolts and counts are
-- natural numbers.
pub mod Levels
pub mod Readings
pub mod Series
pub mod Announcements
use hop_react.Common.{
  ℕ, suc, ◌+◌, ◌-◌, Bool, true, false, not, ◌&&◌, ◌||◌, Option, none, some, ltb, leb, ◌==◌,
  if◌then◌else◌,
}
use hop_react.Clock.{Time, is_zero, after}
use hop_react.Alert.Watch.{Prefs}
use Levels.{
  BatteryLevel, absent, unknown, ok, low, critical, overcharged, level_eq, down, same_run,
  classify_battery, BatteryLevels,
}

pub record BatteryReading : Type 0 where
  pub mv : ℕ
  pub at : Time
  pub has_battery : Bool

pub record BatteryState : Type 0 where
  pub level : BatteryLevel
  pub since : Time
  pub candidate : BatteryLevel
  pub candidate_count : ℕ
  pub last_reading_at : Time
  pub last_mv : ℕ
  pub announced : BatteryLevel

pub record BatteryPolicy : Type 0 where
  pub confirm_readings : ℕ
  pub recover_margin_mv : ℕ

-- The Kind strings of a battery message; `silent` is the empty one.
pub data Message : Type 0 where
  silent went_low went_critical went_overcharged recovered : Message

abbrev pub is_silent : Message → Bool
is_silent silent = true
is_silent _ = false

abbrev pub is_recovery : Message → Bool
is_recovery recovered = true
is_recovery _ = false

pub record BatteryOutcome : Type 0 where
  pub state : BatteryState
  pub changed : Bool
  pub notify : Bool
  pub kind : Message
  pub from : BatteryLevel

abbrev pub quiet : BatteryState → Bool → BatteryLevel → BatteryOutcome
quiet s changed from = record {
  state = s;
  changed = changed;
  notify = false;
  kind = silent;
  from = from;
}

-- `if cur.Level == "" { cur.Level = BatteryUnknown }`.
abbrev pub known_level : BatteryLevel → BatteryLevel
known_level absent = unknown
known_level l = l

abbrev pub is_absent : BatteryLevel → Bool
is_absent absent = true
is_absent _ = false

-- The branch for a node that reports 0 mV.
unfoldable pub no_battery : BatteryReading → BatteryState → BatteryOutcome
no_battery r cur =
    if not (level_eq cur.level unknown)
      || not (is_absent cur.candidate)
      || not (is_absent cur.announced)
    then quiet
        (record cur {
          level = unknown;
          candidate = absent;
          candidate_count = 0;
          announced = absent;
          since = if is_zero r.at then cur.since else r.at;
        })
        true cur.level
    else quiet cur false cur.level

-- The switch on the confirmed level, and what it does to `announced`.
abbrev pub kind_of : BatteryLevel → BatteryLevel → BatteryLevel → Prefs → Message
kind_of low prev announced prefs = if level_eq prev critical then silent else went_low
kind_of critical prev announced prefs = went_critical
kind_of overcharged prev announced prefs = went_overcharged
kind_of ok prev announced prefs =
    if not (is_absent announced) && prefs.notify_recovery then recovered else silent
kind_of _ prev announced prefs = silent

abbrev pub announced_after : BatteryLevel → BatteryLevel → Message → Bool → BatteryLevel
announced_after target before kind muted =
    let kept = if level_eq target ok then absent else before in
    if not (is_silent kind) && not muted && not (is_recovery kind) then target else kept

-- The level changes: `next` carries the new reading.
unfoldable pub confirm_level :
    BatteryReading → BatteryState → BatteryState → BatteryLevel → Prefs → BatteryOutcome
confirm_level r cur next target prefs =
    let kind = kind_of target cur.level cur.announced prefs in
    let tell = not (is_silent kind) && not prefs.muted in
    record {
      state = record next {
        level = target;
        since = r.at;
        candidate = absent;
        candidate_count = 0;
        announced = announced_after target cur.announced kind prefs.muted;
      };
      changed = true;
      notify = tell;
      kind = if tell then kind else silent;
      from = cur.level;
    }

-- The new reading counted towards the candidate level, before it is compared with the policy.
unfoldable pub waiting : BatteryReading → BatteryState → BatteryLevel → BatteryState
waiting r cur target = record cur {
  last_reading_at = r.at;
  last_mv = r.mv;
  candidate = target;
  candidate_count =
      if not (is_absent cur.candidate) && same_run cur.candidate target
      then suc cur.candidate_count
      else 1;
}

-- The new reading with no candidate level.
abbrev pub settled : BatteryReading → BatteryState → BatteryState
settled r cur = record cur {
  last_reading_at = r.at;
  last_mv = r.mv;
  candidate = absent;
  candidate_count = 0;
}

-- A new reading of a fitted battery.
unfoldable pub new_reading :
    BatteryReading → BatteryState → BatteryLevel → BatteryPolicy → Prefs → BatteryOutcome
new_reading r cur target pol prefs =
    let next = waiting r cur target in
    if level_eq cur.level unknown
    then quiet (record (settled r cur) { level = target; since = r.at }) true cur.level
    else if level_eq target cur.level
    then quiet (settled r cur) true cur.level
    else if ltb next.candidate_count
        (if ltb pol.confirm_readings 1 then 1 else pol.confirm_readings)
    then quiet next true cur.level
    else confirm_level r cur next target prefs

unfoldable pub evaluate_battery :
    BatteryReading → BatteryState → BatteryLevels → BatteryPolicy → Prefs → BatteryOutcome
evaluate_battery r stored lv pol prefs =
    let cur = record stored { level = known_level stored.level } in
    let target = classify_battery r.mv cur.level lv pol.recover_margin_mv in
    if not r.has_battery
    then no_battery r cur
    else if is_zero r.at || not (after r.at cur.last_reading_at)
    then quiet cur false cur.level
    else new_reading r cur target pol prefs
