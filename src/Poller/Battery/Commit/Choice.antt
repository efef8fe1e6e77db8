-- ===== src/Poller/Battery/Commit/Choice.antt =====
-- What an owner does to a battery rule while its repeater is asked for stands.
use hop_react.Common.{
  ℕ, ◌≡◌, refl, ap, ◌∙◌, sym, subst, Bool, true, false, not, ◌&&◌, ◌||◌, ◌==◌, ==_iff, List, [],
  ◌∷◌, ◌++◌, Text, if◌then◌else◌, if_cases, arith,
}
use hop_react.Clock.{Time}
use hop_react.Models.{Observation}
use hop_react.Models.Battery.{BatteryReadings, BatteryRule}
use hop_react.Store.Tables.{Db, WatchRow, BatteryRuleRow}
use hop_react.Store.States.{record_alert_event}
use hop_react.Store.Outbox.{queue_notification}
use hop_react.Store.Watches.{active_watches}
use hop_react.Store.Battery.{
  find_battery_row, has_row, update_watch, mark_added, battery_row, insert_battery_rule,
}
use hop_react.Store.Battery.State.{
  is_still, save_rows, save_battery_state, find_watch, is_null, may_add, insert_auto_battery_rule,
  set_battery_banner,
}
use hop_react.Store.Battery.Owner.{owns, without_watch, delete_battery_rule}
use hop_react.Store.Battery.Readings.{save_battery_readings, prune_battery_readings}
use hop_react.Store.Owner.Acts.{Act, delete_battery_act, act, acts}
use hop_react.Poller.Battery.{BatteryConfig, Answer, needed, reports_of, save_all, store_reports}
use hop_react.Poller.Battery.Plan.{Planned, Addition, adds, plans, after_breaker}
use hop_react.Poller.Battery.Commit.{
  Enabled, commit_adds, commit_plan, commit_plans, commit_enabled, commit, check_batteries,
}

-- Some watch of the id may still be given a rule.
unfoldable is_open : ℕ → List WatchRow → Bool
is_open w [] = false
is_open w (x ∷ xs) = (x.id == w && is_null x.battery_added_at) || is_open w xs

is_open-mark :
    (now : Time) (w v : ℕ) (ws : List WatchRow)
    → is_open w (update_watch (mark_added now) v ws) ≡ (is_open w ws && not (w == v))
unfolding is_open update_watch
is_open-mark now w v [] = refl
is_open-mark now w v (x ∷ xs) = ground (arith, is_open-mark now w v xs)

may_add-is_open :
    (w : ℕ) (ws : List WatchRow) (db : Db)
    → is_open w ws ≡ false
    → may_add (find_watch w ws) db ≡ false
unfolding is_open find_watch
may_add-is_open w [] db h = refl
may_add-is_open w (x ∷ xs) db h = ground (arith, may_add-is_open w xs db)

-- The owner has chosen: no rule, and none to be added.
abbrev IsChosen : ℕ → Db → Type 0
IsChosen w db =
    (is_open w db.watches ≡ false) × (has_row (find_battery_row w db.battery_rules) ≡ false)

has_row-without :
    (w : ℕ) (rows : List BatteryRuleRow)
    → has_row (find_battery_row w (without_watch w rows)) ≡ false
unfolding find_battery_row without_watch
has_row-without w [] = refl
has_row-without w (r ∷ rs) = ground (arith, has_row-without w rs)

has_row-snoc :
    (w : ℕ) (r : BatteryRuleRow) (rows : List BatteryRuleRow)
    → has_row (find_battery_row w (rows ++ (r ∷ [])))
      ≡ (has_row (find_battery_row w rows) || r.watch_id == w)
unfolding find_battery_row
has_row-snoc w r [] = ground arith
has_row-snoc w r (x ∷ xs) = ground (arith, has_row-snoc w r xs)

pub has_row-save :
    (w : ℕ) (old r : BatteryRule) (rows : List BatteryRuleRow)
    → has_row (find_battery_row w (save_rows old r rows).0) ≡ has_row (find_battery_row w rows)
unfolding find_battery_row save_rows
has_row-save w old r [] = refl
has_row-save w old r (x ∷ xs) =
    if_cases (Reads (has_row (find_battery_row w (x ∷ xs)))) (x.watch_id == r.watch_id)
      {y = (x ∷ (save_rows old r xs).0, (save_rows old r xs).1)}
      (λ _.
        if_cases (Reads (has_row (find_battery_row w (x ∷ xs)))) (is_still old x)
          (λ _. ground arith) (λ _. refl))
      (λ _. ground (arith, has_row-save w old r xs))
  where
    Reads : Bool → List BatteryRuleRow × Bool → Type 0
    Reads b p = has_row (find_battery_row w p.0) ≡ b

save_rows-none :
    (old r : BatteryRule) (rows : List BatteryRuleRow)
    → has_row (find_battery_row r.watch_id rows) ≡ false
    → save_rows old r rows ≡ (rows, false)
unfolding find_battery_row save_rows
save_rows-none old r [] h = refl
save_rows-none old r (x ∷ xs) h = ground (arith, save_rows-none old r xs)

insert_auto-IsChosen :
    (now : Time) (w : ℕ) (r : BatteryRule) (db : Db)
    → IsChosen w db
    → IsChosen w (insert_auto_battery_rule now r db).0
unfolding insert_auto_battery_rule insert_battery_rule
insert_auto-IsChosen now w r db (o, e) = (
  ground (arith, o, is_open-mark now w r.watch_id db.watches),
  ground (
    arith,
    e,
    has_row-snoc w (battery_row now r) db.battery_rules,
    may_add-is_open w db.watches db o,
    ==_iff r.watch_id w,
  ),
)

abbrev others : ℕ → List Planned → List Planned
others w [] = []
others w (pl ∷ pls) = let rest = others w pls in if pl.rule.watch_id == w then rest else pl ∷ rest

module _ (now stamp : Time) (nodes : List Observation) (w : ℕ) where
  commit_adds-IsChosen :
      (extra : List Addition) (db : Db) (enabled : Enabled)
      → IsChosen w db
      → IsChosen w (commit_adds now stamp nodes extra (db, enabled)).0
  unfolding commit_adds
  commit_adds-IsChosen [] db enabled c = c
  commit_adds-IsChosen (a ∷ extra) db enabled c =
      commit_adds-IsChosen extra (insert_auto_battery_rule now a.rule db).0 _
        (insert_auto-IsChosen now w a.rule db c)

  commit_plan-row :
      (pl : Planned) (db : Db)
      → has_row (find_battery_row w (commit_plan now stamp nodes pl db).battery_rules)
        ≡ has_row (find_battery_row w db.battery_rules)
  unfolding commit_plan save_battery_state record_alert_event queue_notification
  commit_plan-row pl db = ground (arith, has_row-save w pl.old pl.rule db.battery_rules)

  commit_plan-gone :
      (pl : Planned) (db : Db)
      → pl.rule.watch_id ≡ w
      → has_row (find_battery_row w db.battery_rules) ≡ false
      → commit_plan now stamp nodes pl db ≡ db
  unfolding commit_plan save_battery_state
  commit_plan-gone pl db e h =
      rw
        (save_rows-none pl.old pl.rule db.battery_rules
          (subst (λ x. has_row (find_battery_row x db.battery_rules) ≡ false) (sym e) h))
        refl

  commit_plans-gone :
      (pls : List Planned) (db : Db)
      → has_row (find_battery_row w db.battery_rules) ≡ false
      → (commit_plans now stamp nodes pls db ≡ commit_plans now stamp nodes (others w pls) db)
        × (has_row (find_battery_row w (commit_plans now stamp nodes pls db).battery_rules) ≡ false)
  unfolding commit_plans
  commit_plans-gone [] db h = (refl, h)
  commit_plans-gone (pl ∷ pls) db h =
      let next = commit_plan now stamp nodes pl db in
      let (same, none_) = commit_plans-gone pls next (commit_plan-row pl db ∙ h) in
      (
        if_cases
            (λ rest. commit_plans now stamp nodes pls next ≡ commit_plans now stamp nodes rest db)
            (pl.rule.watch_id == w)
            (λ e.
              same
              ∙ ap (commit_plans now stamp nodes (others w pls))
                  (commit_plan-gone pl db ((==_iff pl.rule.watch_id w).0 e) h))
            (λ _. same),
        none_,
      )

  commit_enabled-rules :
      (enabled : Enabled) (db : Db)
      → (commit_enabled now stamp nodes enabled db).battery_rules ≡ db.battery_rules
  unfolding commit_enabled set_battery_banner queue_notification
  commit_enabled-rules [] db = refl
  commit_enabled-rules ((u, m) ∷ rest) db = commit_enabled-rules rest _

pub save_all-same :
    (rds : List BatteryReadings) (db : Db)
    → ((save_all rds db).watches ≡ db.watches)
      × ((save_all rds db).battery_rules ≡ db.battery_rules)
unfolding save_all save_battery_readings
save_all-same [] db = (refl, refl)
save_all-same (rd ∷ rds) db = save_all-same rds (save_battery_readings rd db)

acts-snoc :
    (before : List Act) (a : Act) (db : Db) → acts (before ++ (a ∷ [])) db ≡ act a (acts before db)
unfolding acts
acts-snoc [] a db = refl
acts-snoc (b ∷ before) a db = acts-snoc before a (act b db)

delete_battery_rule-IsChosen :
    (t : Time) (u w : ℕ) (db : Db)
    → owns u w db.watches ≡ true
    → IsChosen w (delete_battery_rule t u w db).0
unfolding delete_battery_rule
delete_battery_rule-IsChosen t u w db o =
    rw (delete_battery_rule, o)
      (
        ground (arith, is_open-mark t w w db.watches, ==_iff w w),
        has_row-without w db.battery_rules,
      )

module _ (now stamp : Time) (nodes : List Observation) (cfg : BatteryConfig) (limit : ℕ)
    (fetch : Text → Answer) where
  -- A battery rule that its owner takes off a watch, while the repeaters are asked, stays off: after
  -- the check there is none on the watch, and what the check had planned for the watch it neither
  -- records nor sends.
  pub check_batteries-deleted :
      (before : List Act) (t : Time) (u w : ℕ) (db : Db)
      → owns u w (acts before db).watches ≡ true
      → let meanwhile = before ++ (delete_battery_act t u w ∷ []) in
        let ws = active_watches db in
        let rds = reports_of now fetch (needed db ws) in
        let after = check_batteries now stamp nodes cfg limit fetch meanwhile db in
        (has_row (find_battery_row w after.battery_rules) ≡ false)
        × (after
            ≡ commit now stamp nodes
                (adds now cfg nodes db rds ws)
                (others w (after_breaker limit (plans now cfg nodes db rds ws)))
                (store_reports rds (acts meanwhile db)))
  unfolding check_batteries commit store_reports prune_battery_readings act
  check_batteries-deleted before t u w db o =
      let ws = active_watches db in
      let rds = reports_of now fetch (needed db ws) in
      let pls = after_breaker limit (plans now cfg nodes db rds ws) in
      let changed = acts (before ++ (delete_battery_act t u w ∷ [])) db in
      let chosen : IsChosen w changed =
        subst (IsChosen w) (sym (acts-snoc before (delete_battery_act t u w) db))
          (delete_battery_rule-IsChosen t u w (acts before db) o) in
      let (watches, rules) = save_all-same rds changed in
      let stored : IsChosen w (store_reports rds changed) = (
        ap (is_open w) watches ∙ chosen.0,
        ap (λ bs. has_row (find_battery_row w bs)) rules ∙ chosen.1,
      ) in
      let acc =
        commit_adds now stamp nodes (adds now cfg nodes db rds ws)
          (store_reports rds changed, []) in
      let added : IsChosen w acc.0 =
        commit_adds-IsChosen now stamp nodes w (adds now cfg nodes db rds ws)
          (store_reports rds changed) [] stored in
      let (same, gone) = commit_plans-gone now stamp nodes w pls acc.0 added.1 in
      (
        ap (λ bs. has_row (find_battery_row w bs))
              (commit_enabled-rules now stamp nodes w acc.1
                (commit_plans now stamp nodes pls acc.0))
            ∙ gone,
        ap (commit_enabled now stamp nodes acc.1) same,
      )
