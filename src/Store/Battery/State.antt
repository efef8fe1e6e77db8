-- ===== src/Store/Battery/State.antt =====
-- The statements that the battery check runs in its transaction: SaveBatteryStateTx,
-- InsertAutoBatteryRuleTx and SetBatteryBannerTx of internal/store/battery.go.
use hop_react.Common.{
  ℕ, Bool, true, false, not, ◌&&◌, Option, none, some, List, [], ◌∷◌, ◌==◌, ◌+◌, if◌then◌else◌, ℤ,
  pos, leb_ℤ,
}
use hop_react.Clock.{Time}
use hop_react.Clock.Unix.{unix, null_int, unix_or_zero}
use hop_react.Models.Battery.{BatteryRule}
use hop_react.Alert.Battery.Levels.{level_eq}
use hop_react.Store.Tables.{Db, WatchRow, UserRow, BatteryRuleRow}
use hop_react.Store.Outbox.{find_user, update_user}
use hop_react.Store.Battery.{null_mv, find_battery_row, has_row, insert_battery_rule}

abbrev pub eq_ℤ : ℤ → ℤ → Bool
eq_ℤ a b = leb_ℤ a b && leb_ℤ b a

-- COALESCE(last_reading_at, 0).
abbrev pub coalesce_zero : Option ℤ → ℤ
coalesce_zero none = pos 0
coalesce_zero (some t) = t

-- The WHERE clause: the row still is what was read.
abbrev pub is_still : BatteryRule → BatteryRuleRow → Bool
is_still old row =
    level_eq row.level old.level
    && eq_ℤ row.since (unix old.since)
    && level_eq row.candidate old.candidate
    && row.candidate_count == old.candidate_count
    && eq_ℤ (coalesce_zero row.last_reading_at) (unix_or_zero old.last_reading_at)
    && level_eq row.announced old.announced

abbrev pub state_written : BatteryRule → BatteryRuleRow → BatteryRuleRow
state_written r row = record row {
  level = r.level;
  since = unix r.since;
  candidate = r.candidate;
  candidate_count = r.candidate_count;
  last_reading_at = null_int r.last_reading_at;
  last_mv = null_mv r.last_mv;
  announced = r.announced;
}

-- The UPDATE, with RowsAffected() == 1. The key of the table is watch_id, so one row at most has it.
unfoldable pub save_rows :
    BatteryRule → BatteryRule → List BatteryRuleRow → List BatteryRuleRow × Bool
save_rows old r [] = ([], false)
save_rows old r (row ∷ rows) =
    let (rest, saved) = save_rows old r rows in
    if row.watch_id == r.watch_id
    then (if is_still old row then (state_written r row ∷ rows, true) else (row ∷ rows, false))
    else (row ∷ rest, saved)

unfoldable pub save_battery_state : BatteryRule → BatteryRule → Db → Db × Bool
save_battery_state old r db =
    let (rows, saved) = save_rows old r db.battery_rules in
    (record db { battery_rules = rows }, saved)

unfoldable pub find_watch : ℕ → List WatchRow → Option WatchRow
find_watch w [] = none
find_watch w (x ∷ xs) = if x.id == w then some x else find_watch w xs

abbrev pub wants_auto : Option UserRow → Bool
wants_auto none = false
wants_auto (some u) = u.auto_battery

abbrev pub is_null : Option ℤ → Bool
is_null none = true
is_null (some _) = false

-- The SELECT 1 over the watch and its owner.
abbrev pub may_add : Option WatchRow → Db → Bool
may_add none db = false
may_add (some w) db =
    is_null w.battery_added_at
    && wants_auto (find_user w.user_id db.users)
    && not (has_row (find_battery_row w.id db.battery_rules))

unfoldable pub insert_auto_battery_rule : Time → BatteryRule → Db → Db × Bool
insert_auto_battery_rule now r db =
    if may_add (find_watch r.watch_id db.watches) db
    then (insert_battery_rule now r db, true)
    else (db, false)

unfoldable pub set_battery_banner : ℕ → ℕ → Db → Db
set_battery_banner u n db = record db {
  users = update_user (λ x. record x { battery_banner = x.battery_banner + n }) u db.users;
}
