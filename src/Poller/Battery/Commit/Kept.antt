-- ===== src/Poller/Battery/Commit/Kept.antt =====
-- A battery check leaves no rule hanging.
use hop_react.Common.{
  ℕ, ◌≡◌, refl, ◌∙◌, sym, true, some, Option-cases, inl, inr, List, [], ◌∷◌, Text, if_cases, arith,
}
use hop_react.Clock.{Time}
use hop_react.Models.{Observation}
use hop_react.Models.Battery.{BatteryReadings, BatteryRule}
use hop_react.Store.Tables.{Db, WatchRow}
use hop_react.Store.States.{record_alert_event}
use hop_react.Store.Outbox.{queue_notification}
use hop_react.Store.Watches.{active_watches}
use hop_react.Store.Battery.State.{
  save_rows, save_battery_state, find_watch, may_add, insert_auto_battery_rule, set_battery_banner,
}
use hop_react.Store.Battery.Readings.{save_battery_readings, prune_battery_readings}
use hop_react.Store.Owner.Linked.{has_watch, battery_in, IsLinked, IsLinkedAfter, same_tables}
use hop_react.Store.Owner.Linked.Inserts.{battery_in-row, insert_battery_rule-IsLinked}
use hop_react.Store.Owner.Acts.{Act, acts, acts-IsLinked}
use hop_react.Poller.Battery.{BatteryConfig, Answer, needed, reports_of, save_all, store_reports}
use hop_react.Poller.Battery.Plan.{Planned, Addition, adds, plans, after_breaker}
use hop_react.Poller.Battery.Commit.{
  Enabled, noted, told, commit_adds, commit_plan, commit_plans, commit_enabled, commit,
  check_batteries,
}
use hop_react.Poller.Battery.Commit.Choice.{has_row-save}

find_watch-has_watch :
    (w : ℕ) (ws : List WatchRow) (x : WatchRow) → find_watch w ws ≡ some x → has_watch w ws ≡ true
unfolding find_watch
find_watch-has_watch w [] x h = ground (arith, h)
find_watch-has_watch w (y ∷ ys) x h = ground (arith, find_watch-has_watch w ys x)

insert_auto-IsLinked :
    (now : Time) (r : BatteryRule) (db : Db)
    → IsLinked db
    → IsLinked (insert_auto_battery_rule now r db).0
unfolding insert_auto_battery_rule
insert_auto-IsLinked now r db l = elim (Option-cases (find_watch r.watch_id db.watches)) [
  | inl h ↦ rw (insert_auto_battery_rule, h) l
  | inr (w, h) ↦
      if_cases IsLinkedAfter (may_add (find_watch r.watch_id db.watches) db)
        (λ _.
          insert_battery_rule-IsLinked now r db (find_watch-has_watch r.watch_id db.watches w h) l)
        (λ _. l)
]

save_battery_state-IsLinked :
    (old r : BatteryRule) (db : Db) → IsLinked db → IsLinked (save_battery_state old r db).0
unfolding save_battery_state
save_battery_state-IsLinked old r db l =
    let rows = (save_rows old r db.battery_rules).0 in
    let same : (w : ℕ) → battery_in w rows ≡ battery_in w db.battery_rules = λ w.
      battery_in-row w rows
      ∙ has_row-save w old r db.battery_rules
      ∙ sym (battery_in-row w db.battery_rules) in
    record {
      ruled = l.ruled;
      tracked = l.tracked;
      unique = l.unique;
      powered = λ w e. l.powered w (sym (same w) ∙ e);
    }

module _ (now stamp : Time) (nodes : List Observation) where
  commit_adds-IsLinked :
      (extra : List Addition) (db : Db) (enabled : Enabled)
      → IsLinked db
      → IsLinked (commit_adds now stamp nodes extra (db, enabled)).0
  unfolding commit_adds
  commit_adds-IsLinked [] db enabled l = l
  commit_adds-IsLinked (a ∷ extra) db enabled l =
      commit_adds-IsLinked extra (insert_auto_battery_rule now a.rule db).0 _
        (insert_auto-IsLinked now a.rule db l)

  noted-IsLinked : (pl : Planned) (db : Db) → IsLinked db → IsLinked (noted now stamp nodes pl db)
  unfolding record_alert_event
  noted-IsLinked pl db l =
      same_tables db (noted now stamp nodes pl db) (ground arith) (ground arith) (ground arith)
        (ground arith) l

  told-IsLinked : (pl : Planned) (db : Db) → IsLinked db → IsLinked (told now stamp nodes pl db)
  unfolding queue_notification
  told-IsLinked pl db l =
      same_tables db (told now stamp nodes pl db) (ground arith) (ground arith) (ground arith)
        (ground arith) l

  commit_plan-IsLinked :
      (pl : Planned) (db : Db) → IsLinked db → IsLinked (commit_plan now stamp nodes pl db)
  unfolding commit_plan
  commit_plan-IsLinked pl db l =
      let (saved, ok) = save_battery_state pl.old pl.rule db in
      let s = save_battery_state-IsLinked pl.old pl.rule db l in
      if_cases IsLinked ok
        (λ _. told-IsLinked pl (noted now stamp nodes pl saved) (noted-IsLinked pl saved s))
        (λ _. s)

  commit_plans-IsLinked :
      (pls : List Planned) (db : Db) → IsLinked db → IsLinked (commit_plans now stamp nodes pls db)
  unfolding commit_plans
  commit_plans-IsLinked [] db l = l
  commit_plans-IsLinked (pl ∷ pls) db l =
      commit_plans-IsLinked pls (commit_plan now stamp nodes pl db) (commit_plan-IsLinked pl db l)

  commit_enabled-IsLinked :
      (enabled : Enabled) (db : Db)
      → IsLinked db
      → IsLinked (commit_enabled now stamp nodes enabled db)
  unfolding commit_enabled set_battery_banner queue_notification
  commit_enabled-IsLinked [] db l = l
  commit_enabled-IsLinked ((u, m) ∷ rest) db l =
      commit_enabled-IsLinked rest _ (same_tables db _ refl refl refl refl l)

  store_reports-IsLinked :
      (rds : List BatteryReadings) (db : Db) → IsLinked db → IsLinked (store_reports rds db)
  unfolding store_reports save_all save_battery_readings prune_battery_readings
  store_reports-IsLinked [] db l = same_tables db _ refl refl refl refl l
  store_reports-IsLinked (rd ∷ rds) db l =
      store_reports-IsLinked rds (save_battery_readings rd db)
        (same_tables db _ refl refl refl refl l)

  -- A battery check, whatever is answered and whatever the owners do in the meantime, keeps the
  -- database linked.
  pub check_batteries-IsLinked :
      (cfg : BatteryConfig) (limit : ℕ) (fetch : Text → Answer) (meanwhile : List Act) (db : Db)
      → IsLinked db
      → IsLinked (check_batteries now stamp nodes cfg limit fetch meanwhile db)
  unfolding check_batteries commit
  check_batteries-IsLinked cfg limit fetch meanwhile db l =
      let ws = active_watches db in
      let rds = reports_of now fetch (needed db ws) in
      let pls = after_breaker limit (plans now cfg nodes db rds ws) in
      let extra = adds now cfg nodes db rds ws in
      let stored = store_reports-IsLinked rds (acts meanwhile db) (acts-IsLinked meanwhile db l) in
      let (added, enabled) =
        commit_adds now stamp nodes extra (store_reports rds (acts meanwhile db), []) in
      commit_enabled-IsLinked enabled (commit_plans now stamp nodes pls added)
        (commit_plans-IsLinked pls added (commit_adds-IsLinked extra _ [] stored))
