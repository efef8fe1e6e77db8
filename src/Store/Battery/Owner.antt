-- ===== src/Store/Battery/Owner.antt =====
-- What an owner does to a battery rule: AddBatteryRule, DeleteBatteryRule, UpdateBatteryLevels,
-- SetAutoBattery and DismissBatteryBanner of internal/store/battery.go.
use hop_react.Common.{ℕ, Bool, true, false, not, ◌&&◌, none, List, [], ◌∷◌, ◌==◌, if◌then◌else◌}
use hop_react.Clock.{Time, zero_time}
use hop_react.Clock.Unix.{unix}
use hop_react.Models.Battery.{BatteryRule}
use hop_react.Alert.Battery.Levels.{absent, unknown, overcharged, level_eq}
use hop_react.Store.Tables.{Db, WatchRow, BatteryRuleRow}
use hop_react.Store.Outbox.{update_user}
use hop_react.Store.Battery.{
  null_mv, find_battery_row, has_row, update_watch, mark_added, insert_battery_rule,
}

-- The result of a change: done, or ErrNotFound, which rolls it back.
pub data Done : Type 0 where
  done not_found : Done

unfoldable pub owns : ℕ → ℕ → List WatchRow → Bool
owns u w [] = false
owns u w (x ∷ xs) = let rest = owns u w xs in if x.id == w && x.user_id == u then true else rest

abbrev pub blank_rule : ℕ → BatteryRule
blank_rule w = record {
  watch_id = w;
  low_mv = 0;
  critical_mv = 0;
  overcharge_on = false;
  overcharge_mv = 0;
  created_at = zero_time;
  level = absent;
  since = zero_time;
  candidate = absent;
  candidate_count = 0;
  last_reading_at = zero_time;
  last_mv = 0;
  announced = absent;
}

unfoldable pub add_battery_rule : Time → ℕ → ℕ → Db → Db × Done
add_battery_rule now u w db =
    if owns u w db.watches
    then (insert_battery_rule now (blank_rule w) db, done)
    else (db, not_found)

unfoldable pub without_watch : ℕ → List BatteryRuleRow → List BatteryRuleRow
without_watch w [] = []
without_watch w (row ∷ rows) =
    let rest = without_watch w rows in if row.watch_id == w then rest else row ∷ rest

unfoldable pub delete_battery_rule : Time → ℕ → ℕ → Db → Db × Done
delete_battery_rule now u w db =
    if owns u w db.watches
    then (
      record db {
        battery_rules = without_watch w db.battery_rules;
        watches = update_watch (mark_added now) w db.watches;
      },
      done,
    )
    else (db, not_found)

unfoldable pub update_battery_row :
    (BatteryRuleRow → BatteryRuleRow) → ℕ → List BatteryRuleRow → List BatteryRuleRow
update_battery_row f w [] = []
update_battery_row f w (row ∷ rows) =
    (if row.watch_id == w then f row else row) ∷ update_battery_row f w rows

-- The reset of a rule at the overcharged level whose overcharge alert is turned off.
abbrev pub switched_off : Time → BatteryRuleRow → BatteryRuleRow
switched_off now row =
    if level_eq row.level overcharged
    then record row {
      level = unknown;
      since = unix now;
      candidate = absent;
      candidate_count = 0;
      announced = absent;
      last_reading_at = none;
    }
    else row

abbrev pub levels_written : ℕ → ℕ → Bool → ℕ → BatteryRuleRow → BatteryRuleRow
levels_written low crit over_on over row = record row {
  low_mv = null_mv low;
  critical_mv = null_mv crit;
  overcharge_on = over_on;
  overcharge_mv = null_mv over;
}

unfoldable pub update_battery_levels : Time → ℕ → ℕ → ℕ → ℕ → Bool → ℕ → Db → Db × Done
update_battery_levels now u w low crit over_on over db =
    let rows = update_battery_row (levels_written low crit over_on over) w db.battery_rules in
    if not (owns u w db.watches)
    then (db, not_found)
    else if not (has_row (find_battery_row w db.battery_rules))
    then (db, not_found)
    else (
      record db {
        battery_rules = if over_on then rows else update_battery_row (switched_off now) w rows;
      },
      done,
    )

unfoldable pub set_auto_battery : ℕ → Bool → Db → Db
set_auto_battery u on db = record db {
  users = update_user (λ x. record x { auto_battery = on }) u db.users;
}

unfoldable pub dismiss_battery_banner : ℕ → Db → Db
dismiss_battery_banner u db = record db {
  users = update_user (λ x. record x { battery_banner = 0 }) u db.users;
}
