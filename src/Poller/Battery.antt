-- ===== src/Poller/Battery.antt =====
-- checkBatteries of internal/poller/battery.go: which repeaters are asked for, and what is stored of
-- the answers. What the client's Battery call answers for a key is a parameter.
pub mod Plan
pub mod Commit
use hop_react.Common.{
  ℕ, Bool, true, false, not, ◌&&◌, ◌||◌, Option, none, some, List, [], ◌∷◌, ◌++◌, Text, text_eq,
  ltb, ◌==◌, if◌then◌else◌, ℤ, leb_ℤ, length, take, codes,
}
use hop_react.Clock.{Time, Duration, is_zero, sub}
use hop_react.Models.{Kind, kind_eq, Observation, Watch}
use hop_react.Models.Battery.{BatteryStatus, BatterySample, BatteryReadings, BatteryRule}
use hop_react.Alert.Battery.{BatteryState}
use hop_react.Alert.Battery.Levels.{BatteryLevels, resolve_battery_levels}
use hop_react.Store.Tables.{Db}
use hop_react.Store.Outbox.{find_user}
use hop_react.Store.Battery.{battery_rule_for}
use hop_react.Store.Battery.State.{wants_auto}
use hop_react.Store.Battery.Readings.{save_battery_readings, prune_battery_readings}

-- BatteryConfig of internal/config/config.go, as far as the check reads it.
pub record BatteryConfig : Type 0 where
  pub enabled : Bool
  pub check_every : Duration
  pub low_mv : ℕ
  pub critical_mv : ℕ
  pub overcharge_mv : ℕ
  pub confirm_readings : ℕ
  pub recover_margin_mv : ℕ

-- BatteryReport of internal/corescope/battery.go, without the temperatures.
pub record BatteryReport : Type 0 where
  pub status : BatteryStatus
  pub latest_mv : ℕ
  pub latest_at : Time
  pub reporter : Text
  pub stale : Bool
  pub low_mv : ℕ
  pub critical_mv : ℕ
  pub samples : List BatterySample

-- What Battery returns: a report, ErrNoBattery, or another error.
pub data Answer : Type 0 where
  report : BatteryReport → Answer
  unreported failed : Answer

-- `at` is batteryAt, the time of the last check.
unfoldable pub battery_due : BatteryConfig → Time → Time → Bool
battery_due cfg at now = cfg.enabled && (is_zero at || leb_ℤ cfg.check_every (sub now at))

unfoldable pub battery_levels_for : BatteryRule → BatteryConfig → BatteryReadings → BatteryLevels
battery_levels_for r cfg rd =
    resolve_battery_levels r.low_mv r.critical_mv r.overcharge_on r.overcharge_mv cfg.low_mv
      cfg.critical_mv cfg.overcharge_mv rd.cs_low_mv rd.cs_critical_mv

abbrev pub battery_state : BatteryRule → BatteryState
battery_state r = record {
  level = r.level;
  since = r.since;
  candidate = r.candidate;
  candidate_count = r.candidate_count;
  last_reading_at = r.last_reading_at;
  last_mv = r.last_mv;
  announced = r.announced;
}

abbrev pub with_battery_state : BatteryRule → BatteryState → BatteryRule
with_battery_state r st = record r {
  level = st.level;
  since = st.since;
  candidate = st.candidate;
  candidate_count = st.candidate_count;
  last_reading_at = st.last_reading_at;
  last_mv = st.last_mv;
  announced = st.announced;
}

-- names[key]; the last node of a key wins.
unfoldable pub name_in : Text → List Observation → Text → Text
name_in key [] name = name
name_in key (o ∷ os) name = name_in key os (if text_eq o.key key then o.name else name)

unfoldable pub display_name : Text → Watch → Text
display_name (c ∷ name) w = c ∷ name
display_name [] w = elim w.label [
  | c ∷ label ↦ c ∷ label
  | [] ↦ if ltb 12 (length w.target_key) then take 12 w.target_key ++ codes "…" else w.target_key
]

-- auto[userID]; the owner of a watch is a user with watches.
abbrev pub auto : Db → ℕ → Bool
auto db u = wants_auto (find_user u db.users)

abbrev pub has_rule : Option BatteryRule → Bool
has_rule none = false
has_rule (some _) = true

-- Someone has a battery rule on the watch, or might be given one.
abbrev pub is_needed : Db → Watch → Bool
is_needed db w =
    kind_eq w.target_kind Kind.node
    && (has_rule (battery_rule_for w.id db) || (is_zero w.battery_added_at && auto db w.user_id))

unfoldable pub text_ltb : Text → Text → Bool
text_ltb [] [] = false
text_ltb [] (_ ∷ _) = true
text_ltb (_ ∷ _) [] = false
text_ltb (a ∷ s) (b ∷ t) = ltb a b || (a == b && text_ltb s t)

-- The keys of the set `need`, as sort.Strings leaves them.
unfoldable pub add_key : Text → List Text → List Text
add_key k [] = k ∷ []
add_key k (j ∷ js) =
    let rest = add_key k js in
    if text_eq k j then j ∷ js else if text_ltb k j then k ∷ j ∷ js else j ∷ rest

unfoldable pub needed : Db → List Watch → List Text
needed db [] = []
needed db (w ∷ ws) =
    let rest = needed db ws in if is_needed db w then add_key w.target_key rest else rest

abbrev pub readings_from : Time → Text → BatteryReport → BatteryReadings
readings_from now key rep = record {
  key = key;
  status = rep.status;
  latest_mv = rep.latest_mv;
  latest_at = rep.latest_at;
  reporter = rep.reporter;
  stale = rep.stale;
  cs_low_mv = rep.low_mv;
  cs_critical_mv = rep.critical_mv;
  samples = rep.samples;
  fetched_at = now;
}

abbrev pub kept : Time → Text → Answer → List BatteryReadings → List BatteryReadings
kept now key (report rep) rest = readings_from now key rep ∷ rest
kept now key _ rest = rest

-- The map `reports`, in the order of its keys. A failed fetch is left out, as is an unreported key.
unfoldable pub reports_of : Time → (Text → Answer) → List Text → List BatteryReadings
reports_of now fetch [] = []
reports_of now fetch (k ∷ ks) = kept now k (fetch k) (reports_of now fetch ks)

unfoldable pub find_report : Text → List BatteryReadings → Option BatteryReadings
find_report key [] = none
find_report key (rd ∷ rds) = if text_eq rd.key key then some rd else find_report key rds

unfoldable pub save_all : List BatteryReadings → Db → Db
save_all [] db = db
save_all (rd ∷ rds) db = save_all rds (save_battery_readings rd db)

-- The reports are stored, and those that no watch asks for any more go.
unfoldable pub store_reports : List BatteryReadings → Db → Db
store_reports rds db = prune_battery_readings (save_all rds db)
