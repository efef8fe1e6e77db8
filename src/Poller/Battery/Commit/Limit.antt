-- ===== src/Poller/Battery/Commit/Limit.antt =====
-- A burst of battery alerts is not sent.
use hop_react.Common.{
  ℕ, ◌≡◌, ◌≤◌, ◌+◌, refl, ap, ◌∙◌, Bool, false, not, List, [], ◌∷◌, ◌++◌, Text, if◌then◌else◌,
  arith,
}
use hop_react.Clock.{Time, zero_time}
use hop_react.Models.{Observation}
use hop_react.Models.Battery.{BatteryReadings, BatteryRule}
use hop_react.Alert.Battery.{is_recovery}
use hop_react.Store.Tables.{
  Db, NotificationRow, Payload, battery_payload, battery_enabled_payload, NoteKind,
}
use hop_react.Store.States.{record_alert_event}
use hop_react.Store.Outbox.{queue_notification}
use hop_react.Store.Watches.{active_watches}
use hop_react.Store.Battery.{insert_battery_rule}
use hop_react.Store.Battery.State.{save_battery_state, insert_auto_battery_rule, set_battery_banner}
use hop_react.Store.Battery.Readings.{save_battery_readings, prune_battery_readings}
use hop_react.Store.Owner.Acts.{Act, acts}
use hop_react.Poller.Battery.{BatteryConfig, Answer, needed, reports_of, save_all, store_reports}
use hop_react.Poller.Battery.Plan.{
  Planned, Addition, adds, plans, is_alarm, entering, silence, after_breaker,
}
use hop_react.Poller.Battery.Commit.{
  Enabled, payload_of, noted, told, commit_adds, commit_plan, commit_plans, commit_enabled, commit,
  check_batteries,
}

abbrev pub is_battery_alarm : Payload → Bool
is_battery_alarm (battery_payload p) = not (is_recovery p.level)
is_battery_alarm _ = false

-- How many queued messages, sent or not, tell of a battery that went low, critical or overcharged.
unfoldable pub alarms : List NotificationRow → ℕ
alarms [] = 0
alarms (n ∷ ns) = (if is_battery_alarm n.payload then 1 else 0) + alarms ns

alarms-snoc :
    (n : NotificationRow) (ns : List NotificationRow)
    → alarms (ns ++ (n ∷ [])) ≡ alarms ns + (if is_battery_alarm n.payload then 1 else 0)
unfolding alarms
alarms-snoc n [] = ground arith
alarms-snoc n (x ∷ xs) = ground (arith, alarms-snoc n xs)

alarms-queue :
    (stamp : Time) (u : ℕ) (kind : NoteKind) (p : Payload) (after : Time) (db : Db)
    → alarms (queue_notification stamp u kind p after db).notifications
      ≡ alarms db.notifications + (if is_battery_alarm p then 1 else 0)
unfolding queue_notification
alarms-queue stamp u kind p after db = alarms-snoc _ db.notifications

-- After the breaker, the alarms among the plans are within the limit.
entering-silence : (pls : List Planned) → entering (silence pls) ≡ 0
unfolding entering silence
entering-silence [] = refl
entering-silence (pl ∷ pls) = ground (arith, entering-silence pls)

entering-after_breaker :
    (limit : ℕ) (pls : List Planned) → entering (after_breaker limit pls) ≤ limit
unfolding after_breaker
entering-after_breaker limit pls = ground (arith, entering-silence pls)

insert_auto-notifications :
    (now : Time) (r : BatteryRule) (db : Db)
    → (insert_auto_battery_rule now r db).0.notifications ≡ db.notifications
unfolding insert_auto_battery_rule insert_battery_rule
insert_auto-notifications now r db = ground arith

module _ (now stamp : Time) (nodes : List Observation) where
  commit_adds-alarms :
      (extra : List Addition) (db : Db) (enabled : Enabled)
      → alarms (commit_adds now stamp nodes extra (db, enabled)).0.notifications
        ≡ alarms db.notifications
  unfolding commit_adds
  commit_adds-alarms [] db enabled = refl
  commit_adds-alarms (a ∷ extra) db enabled =
      commit_adds-alarms extra (insert_auto_battery_rule now a.rule db).0 _
      ∙ ap alarms (insert_auto-notifications now a.rule db)

  noted-notifications :
      (pl : Planned) (db : Db) → (noted now stamp nodes pl db).notifications ≡ db.notifications
  unfolding record_alert_event
  noted-notifications pl db = ground arith

  told-alarms :
      (pl : Planned) (db : Db)
      → alarms (told now stamp nodes pl db).notifications
        ≤ alarms db.notifications + (if is_alarm pl then 1 else 0)
  told-alarms pl db = ground (
    arith,
    alarms-queue stamp pl.watch.user_id NoteKind.battery (battery_payload (payload_of now nodes pl))
        zero_time db,
  )

  commit_plan-alarms :
      (pl : Planned) (db : Db)
      → alarms (commit_plan now stamp nodes pl db).notifications
        ≤ alarms db.notifications + (if is_alarm pl then 1 else 0)
  unfolding commit_plan save_battery_state
  commit_plan-alarms pl db =
      let saved = (save_battery_state pl.old pl.rule db).0 in
      let noted_db = noted now stamp nodes pl saved in
      ground (arith, ap alarms (noted-notifications pl saved), told-alarms pl noted_db)

  commit_plans-alarms :
      (pls : List Planned) (db : Db)
      → alarms (commit_plans now stamp nodes pls db).notifications
        ≤ alarms db.notifications + entering pls
  unfolding commit_plans entering
  commit_plans-alarms [] db = omega arith
  commit_plans-alarms (pl ∷ pls) db =
      ground (
        arith,
        commit_plan-alarms pl db,
        commit_plans-alarms pls (commit_plan now stamp nodes pl db),
      )

  commit_enabled-alarms :
      (enabled : Enabled) (db : Db)
      → alarms (commit_enabled now stamp nodes enabled db).notifications ≡ alarms db.notifications
  unfolding commit_enabled set_battery_banner
  commit_enabled-alarms [] db = refl
  commit_enabled-alarms ((u, m) ∷ rest) db =
      commit_enabled-alarms rest _
      ∙ ground (
        arith,
        alarms-queue stamp u NoteKind.battery_enabled (battery_enabled_payload m) zero_time db,
      )

save_all-notifications :
    (rds : List BatteryReadings) (db : Db) → (save_all rds db).notifications ≡ db.notifications
unfolding save_all save_battery_readings
save_all-notifications [] db = refl
save_all-notifications (rd ∷ rds) db = save_all-notifications rds (save_battery_readings rd db)

-- However the answers come and whatever the owners do in the meantime, one check queues no more
-- alerts of low, critical or overcharged batteries than the limit of a poll.
pub check_batteries-alarms :
    (now stamp : Time) (nodes : List Observation) (cfg : BatteryConfig) (limit : ℕ)
    (fetch : Text → Answer) (meanwhile : List Act) (db : Db)
    → alarms (check_batteries now stamp nodes cfg limit fetch meanwhile db).notifications
      ≤ alarms (acts meanwhile db).notifications + limit
unfolding check_batteries commit store_reports prune_battery_readings
check_batteries-alarms now stamp nodes cfg limit fetch meanwhile db =
    let ws = active_watches db in
    let rds = reports_of now fetch (needed db ws) in
    let extra = adds now cfg nodes db rds ws in
    let pls = after_breaker limit (plans now cfg nodes db rds ws) in
    let stored = store_reports rds (acts meanwhile db) in
    let (added, enabled) = commit_adds now stamp nodes extra (stored, []) in
    ground (
      arith,
      ap alarms (save_all-notifications rds (acts meanwhile db)),
      commit_adds-alarms now stamp nodes extra stored [],
      commit_plans-alarms now stamp nodes pls added,
      commit_enabled-alarms now stamp nodes enabled (commit_plans now stamp nodes pls added),
      entering-after_breaker limit (plans now cfg nodes db rds ws),
    )
