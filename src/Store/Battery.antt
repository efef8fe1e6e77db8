-- ===== src/Store/Battery.antt =====
-- battery_rules and battery_readings: internal/store/battery.go.
pub mod State
pub mod Owner
pub mod Readings
use hop_react.Common.{
  ℕ, Bool, true, false, not, ◌&&◌, Option, none, some, List, [], ◌∷◌, ◌++◌, Text, text_eq, ◌==◌,
  ◌+◌, if◌then◌else◌, map, ℤ,
}
use hop_react.Clock.{Time, is_zero}
use hop_react.Clock.Unix.{unix, from_unix, null_int, time_from, unix_or_zero}
use hop_react.Models.{Kind, kind_eq}
use hop_react.Models.Battery.{BatterySample, BatteryReadings, BatteryRule}
use hop_react.Alert.Battery.Levels.{BatteryLevel, absent, unknown, overcharged, level_eq}
use hop_react.Alert.Battery.{is_absent}
use hop_react.Store.Tables.{Db, WatchRow, UserRow, BatteryRuleRow, BatteryReadingsRow}
use hop_react.Store.Outbox.{find_user, update_user}

-- nullMV, and COALESCE(…, 0).
abbrev pub null_mv : ℕ → Option ℕ
null_mv mv = if mv == 0 then none else some mv

abbrev pub or_zero_mv : Option ℕ → ℕ
or_zero_mv none = 0
or_zero_mv (some mv) = mv

unfoldable pub scan_battery_rule : BatteryRuleRow → BatteryRule
scan_battery_rule row = record {
  watch_id = row.watch_id;
  low_mv = or_zero_mv row.low_mv;
  critical_mv = or_zero_mv row.critical_mv;
  overcharge_on = row.overcharge_on;
  overcharge_mv = or_zero_mv row.overcharge_mv;
  created_at = from_unix row.created_at;
  level = row.level;
  since = from_unix row.since;
  candidate = row.candidate;
  candidate_count = row.candidate_count;
  last_reading_at = time_from row.last_reading_at;
  last_mv = or_zero_mv row.last_mv;
  announced = row.announced;
}

unfoldable pub find_battery_row : ℕ → List BatteryRuleRow → Option BatteryRuleRow
find_battery_row w [] = none
find_battery_row w (row ∷ rows) = if row.watch_id == w then some row else find_battery_row w rows

abbrev scanned : Option BatteryRuleRow → Option BatteryRule
scanned none = none
scanned (some row) = some (scan_battery_rule row)

-- The entry for a watch of the map that BatteryRules builds, which is what BatteryRuleFor reads.
unfoldable pub battery_rule_for : ℕ → Db → Option BatteryRule
battery_rule_for w db = scanned (find_battery_row w db.battery_rules)

abbrev pub has_row : Option BatteryRuleRow → Bool
has_row none = false
has_row (some _) = true

-- UPDATE watches … WHERE id = ?.
unfoldable pub update_watch : (WatchRow → WatchRow) → ℕ → List WatchRow → List WatchRow
update_watch f w [] = []
update_watch f w (x ∷ xs) = (if x.id == w then f x else x) ∷ update_watch f w xs

abbrev pub coalesce : Option ℤ → ℤ → ℤ
coalesce none now = now
coalesce (some t) now = t

-- battery_added_at = COALESCE(battery_added_at, now).
abbrev pub mark_added : Time → WatchRow → WatchRow
mark_added now x = record x { battery_added_at = some (coalesce x.battery_added_at (unix now)) }

abbrev pub battery_row : Time → BatteryRule → BatteryRuleRow
battery_row now r = record {
  watch_id = r.watch_id;
  low_mv = null_mv r.low_mv;
  critical_mv = null_mv r.critical_mv;
  overcharge_on = r.overcharge_on;
  overcharge_mv = null_mv r.overcharge_mv;
  created_at = unix now;
  level = if is_absent r.level then unknown else r.level;
  since = unix (if is_zero r.since then now else r.since);
  candidate = r.candidate;
  candidate_count = r.candidate_count;
  last_reading_at = null_int r.last_reading_at;
  last_mv = null_mv r.last_mv;
  announced = r.announced;
}

unfoldable pub insert_battery_rule : Time → BatteryRule → Db → Db
insert_battery_rule now r db = record db {
  battery_rules =
      if has_row (find_battery_row r.watch_id db.battery_rules)
      then db.battery_rules
      else db.battery_rules ++ (battery_row now r ∷ []);
  watches = update_watch (mark_added now) r.watch_id db.watches;
}
