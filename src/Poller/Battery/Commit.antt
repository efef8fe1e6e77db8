-- ===== src/Poller/Battery/Commit.antt =====
-- checkBatteries of internal/poller/battery.go: the transaction, and the whole check.
pub mod Limit
pub mod Choice
pub mod Kept
use hop_react.Common.{
  ℕ, Bool, true, false, not, ◌&&◌, ◌||◌, Option, none, some, List, [], ◌∷◌, ◌++◌, Text,
  if◌then◌else◌, length, lookup, insert, nat_key, codes,
}
use hop_react.Clock.{Time, zero_time}
use hop_react.Clock.Unix.{unix, unix_or_zero}
use hop_react.Models.{Observation, Watch, State}
use hop_react.Models.Battery.{BatteryPayload, BatteryEnabledPayload}
use hop_react.Alert.Battery.Levels.{
  BatteryLevel, absent, unknown, ok, low, critical, overcharged, level_eq,
}
use hop_react.Store.Tables.{Db, NoteKind, battery_payload, battery_enabled_payload}
use hop_react.Store.States.{record_alert_event}
use hop_react.Store.Outbox.{queue_notification}
use hop_react.Store.Watches.{active_watches}
use hop_react.Store.Battery.State.{save_battery_state, insert_auto_battery_rule, set_battery_banner}
use hop_react.Store.Battery.Readings.{pack_samples}
use hop_react.Store.Owner.Acts.{Act, acts}
use hop_react.Poller.Battery.{
  BatteryConfig, Answer, name_in, display_name, needed, reports_of, store_reports,
}
use hop_react.Poller.Battery.Plan.{Planned, Addition, adds, plans, after_breaker}

-- `enabled` and `enabledOrder`: the switch-on messages in the order of their accounts' first rule.
abbrev pub Enabled : Type 0
Enabled = List (ℕ × BatteryEnabledPayload)

abbrev pub or_first : Addition → Option BatteryEnabledPayload → BatteryEnabledPayload
or_first a none = record { repeaters = []; low_mv = a.lv.low_mv; critical_mv = a.lv.critical_mv }
or_first a (some m) = m

abbrev pub enable : Addition → Enabled → Enabled
enable a enabled =
    let m = or_first a (lookup a.user_id enabled) in
    insert a.user_id (record m { repeaters = m.repeaters ++ (a.item ∷ []) }) enabled

-- store.State(level): the level's string as a state.
abbrev pub as_state : BatteryLevel → State
as_state absent = State.other []
as_state unknown = State.unknown
as_state ok = State.ok
as_state low = State.other (codes "low")
as_state critical = State.other (codes "critical")
as_state overcharged = State.other (codes "overcharged")

abbrev pub payload_of : Time → List Observation → Planned → BatteryPayload
payload_of now nodes pl = record {
  level = pl.out.kind;
  target_key = pl.watch.target_key;
  target_name = display_name (name_in pl.watch.target_key nodes []) pl.watch;
  mv = pl.rd.latest_mv;
  read_unix = unix_or_zero pl.rd.latest_at;
  reporter = pl.rd.reporter;
  fired_unix = unix now;
  low_mv = pl.lv.low_mv;
  critical_mv = pl.lv.critical_mv;
  overcharge_mv = pl.lv.overcharge_mv;
  samples = pack_samples pl.rd.samples;
}

-- `now` is the poller's clock, `stamp` the store's.
module _ (now stamp : Time) (nodes : List Observation) where
  unfoldable pub commit_adds : List Addition → Db × Enabled → Db × Enabled
  commit_adds [] acc = acc
  commit_adds (a ∷ extra) (db, enabled) =
      let (db', inserted) = insert_auto_battery_rule now a.rule db in
      commit_adds extra (db', if not inserted || a.muted then enabled else enable a enabled)

  abbrev pub noted : Planned → Db → Db
  noted pl db =
      if level_eq pl.out.state.level pl.out.from
      then db
      else record_alert_event stamp pl.watch.id 0 (codes "battery") (as_state pl.out.from)
          (as_state pl.out.state.level) 0 pl.out.notify db

  abbrev pub told : Planned → Db → Db
  told pl db =
      if pl.out.notify
      then queue_notification stamp pl.watch.user_id NoteKind.battery
          (battery_payload (payload_of now nodes pl)) zero_time db
      else db

  unfoldable pub commit_plan : Planned → Db → Db
  commit_plan pl db =
      let (db', saved) = save_battery_state pl.old pl.rule db in
      if saved then told pl (noted pl db') else db'

  unfoldable pub commit_plans : List Planned → Db → Db
  commit_plans [] db = db
  commit_plans (pl ∷ pls) db = commit_plans pls (commit_plan pl db)

  unfoldable pub commit_enabled : Enabled → Db → Db
  commit_enabled [] db = db
  commit_enabled ((u, m) ∷ rest) db = commit_enabled rest (
      set_battery_banner u (length m.repeaters) (
        queue_notification stamp u NoteKind.battery_enabled (battery_enabled_payload m) zero_time
          db))

  unfoldable pub commit : List Addition → List Planned → Db → Db
  commit extra pls db =
      let (added, enabled) = commit_adds extra (db, []) in
      commit_enabled enabled (commit_plans pls added)

  -- `fetch` is what CoreScope answers for each key, and `meanwhile` what the owners do while it is
  -- asked.
  unfoldable pub check_batteries : BatteryConfig → ℕ → (Text → Answer) → List Act → Db → Db
  check_batteries cfg limit fetch meanwhile db =
      let ws = active_watches db in
      let rds = reports_of now fetch (needed db ws) in
      commit (adds now cfg nodes db rds ws) (after_breaker limit (plans now cfg nodes db rds ws))
        (store_reports rds (acts meanwhile db))
