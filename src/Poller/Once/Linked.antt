-- ===== src/Poller/Once/Linked.antt =====
-- A poll leaves no state hanging: every state that it saves is one of a rule that is there.
use hop_react.Common.{
  ℕ, ◌≡◌, ◌⊎◌, refl, ◌∙◌, sym, subst, Bool, true, not, ◌&&◌, ◌||◌, ◌==◌, ==_iff, Option,
  Option-cases, inl, inr, List, [], ◌∷◌, ◌++◌, if_cases, All, arith, leb,
}
use hop_react.Clock.{Time}
use hop_react.Models.{
  Observation, Packet, Watch, Rule, WatchState, PollStatus, poll_ok, poll_failed, poll_suspect,
}
use hop_react.Floats.{Float64}
use hop_react.Attribute.Index.{build_index}
use hop_react.Alert.Watch.{Policy}
use hop_react.Alert.Feed.{judge_feed}
use hop_react.Store.Tables.{Db, StateRow}
use hop_react.Store.Activity.{upsert_activity}
use hop_react.Store.Activity.Cursor.{feed_cursor, set_feed_cursor}
use hop_react.Store.States.{state_row, put_state, save_watch_state, record_alert_event}
use hop_react.Store.Outbox.{queue_notification}
use hop_react.Store.Targets.{upsert_targets}
use hop_react.Store.Runs.{start_poll_run, finish_poll_run}
use hop_react.Store.Watches.{of_watch, all_rules, active_watches}
use hop_react.Store.Owner.Linked.{rule_in, state_in, IsLinked, IsLinkedAfter, same_tables}
use hop_react.Poller.Plan.{Snapshot, all_of, Planned, plan_rule, plan_rules, plan}
use hop_react.Poller.Ingest.{
  Rows, read_packets, start, is_empty, upsert_all, record_page, ingest, is_backfilling,
}
use hop_react.Poller.Commit.{
  AlertsConfig, Messages, commit_one, commit_all, queue_all, planned_of, breaker, evaluate,
}
use hop_react.Poller.Once.{Fetched, PollConfig, store_fetched, feed_inputs, conclude, poll_once}

-- What is planned for a rule is saved as that rule's state.
abbrev IsOf : List Rule → Planned → Type 0
IsOf rules pl = rule_in pl.out.state.watch_id pl.out.state.rule_id rules ≡ true

rule_in-of_watch : (w i : ℕ) (rs : List Rule) → rule_in w i (of_watch w rs) ≡ rule_in w i rs
unfolding of_watch
rule_in-of_watch w i [] = refl
rule_in-of_watch w i (r ∷ rs) = ground (arith, rule_in-of_watch w i rs)

All-append :
    (rules : List Rule) (xs ys : List Planned)
    → All (IsOf rules) xs
    → All (IsOf rules) ys
    → All (IsOf rules) (xs ++ ys)
All-append rules [] ys a b = b
All-append rules (x ∷ xs) ys a b = (a.0, All-append rules xs ys a.1 b)

module _ (now : Time) (pol : Policy) (snap : Snapshot) (db : Db) where
  plan_rule-IsOf :
      (w : Watch) (r : Rule)
      → rule_in w.id r.id db.watch_rules ≡ true
      → IsOf db.watch_rules (plan_rule now pol snap db w r)
  unfolding plan_rule
  plan_rule-IsOf w r h = h

  -- All of these are rules of the watch in the table.
  abbrev Within : ℕ → List Rule → Type 0
  Within w [] = Unit
  Within w (r ∷ rs) = (rule_in w r.id db.watch_rules ≡ true) × Within w rs

  plan_rules-IsOf :
      (w : Watch) (rs : List Rule)
      → Within w.id rs
      → All (IsOf db.watch_rules) (plan_rules now pol snap db w rs)
  unfolding plan_rules
  plan_rules-IsOf w [] h = tt
  plan_rules-IsOf w (r ∷ rs) h = (plan_rule-IsOf w r h.0, plan_rules-IsOf w rs h.1)

  of_watch-Within :
      (w : ℕ) (rs : List Rule)
      → ((i : ℕ) → rule_in w i rs ≡ true → rule_in w i db.watch_rules ≡ true)
      → Within w (of_watch w rs)
  unfolding of_watch
  of_watch-Within w [] h = tt
  of_watch-Within w (r ∷ rs) h =
      if_cases (Within w) (r.watch_id == w)
        (λ e. (
          h r.id (ground (arith, e, ==_iff r.id r.id)),
          of_watch-Within w rs (λ i p. h i (ground (arith, p))),
        ))
        (λ _. of_watch-Within w rs (λ i p. h i (ground (arith, p))))

  plan-IsOf : (ws : List Watch) → All (IsOf db.watch_rules) (plan now pol snap db ws)
  unfolding plan all_rules
  plan-IsOf [] = tt
  plan-IsOf (w ∷ ws) =
      All-append db.watch_rules (plan_rules now pol snap db w (all_rules db w.id))
        (plan now pol snap db ws)
        (plan_rules-IsOf w (all_rules db w.id) (of_watch-Within w.id db.watch_rules (λ i p. p)))
        (plan-IsOf ws)

state_in-put :
    (w i : ℕ) (st : StateRow) (rows : List StateRow)
    → state_in w i (put_state st rows)
      ≡ (state_in w i rows || (st.watch_id == w && st.rule_id == i))
unfolding put_state
state_in-put w i st [] = ground arith
state_in-put w i st (x ∷ xs) =
    ground
      (arith, ==_iff x.watch_id st.watch_id, ==_iff x.rule_id st.rule_id, state_in-put w i st xs)

save_watch_state-IsLinked :
    (st : WatchState) (db : Db)
    → rule_in st.watch_id st.rule_id db.watch_rules ≡ true
    → IsLinked db
    → IsLinked (save_watch_state st db)
unfolding save_watch_state state_row
save_watch_state-IsLinked st db h l = record {
  ruled = l.ruled;
  tracked = λ w i. ground (
    arith,
    l.tracked w i,
    state_in-put w i (state_row st) db.watch_state,
    h,
    ==_iff st.watch_id w,
    ==_iff st.rule_id i,
  );
  unique = l.unique;
  powered = l.powered;
}

same_rules : (st : WatchState) (db : Db) → (save_watch_state st db).watch_rules ≡ db.watch_rules
unfolding save_watch_state
same_rules st db = refl

-- Linked, and with the rules that were read.
abbrev Holds : List Rule → Db → Type 0
Holds rules db = (db.watch_rules ≡ rules) × IsLinked db

module _ (stamp : Time) (snap : Snapshot) (run : ℕ) (old : Db) (rules : List Rule) where
  commit_one-Holds :
      (pl : Planned) (db : Db) (msgs : Messages)
      → IsOf rules pl
      → Holds rules db
      → Holds rules (commit_one stamp snap run old pl (db, msgs)).0
  unfolding commit_one record_alert_event
  commit_one-Holds pl db msgs o (e, l) =
      let saved : Holds rules (save_watch_state pl.out.state db) = (
        same_rules pl.out.state db ∙ e,
        save_watch_state-IsLinked pl.out.state db
            (subst (λ rs. rule_in pl.out.state.watch_id pl.out.state.rule_id rs ≡ true) (sym e) o)
            l,
      ) in
      if_cases (λ (r : Db × Messages). Holds rules r.0) (not pl.out.changed)
        (λ _. if_cases (Holds rules) pl.out.observed_moved (λ _. saved) (λ _. (e, l)))
        (λ _.
          (saved.0, same_tables (save_watch_state pl.out.state db) _ refl refl refl refl saved.1))

  commit_all-Holds :
      (pls : List Planned) (db : Db) (msgs : Messages)
      → All (IsOf rules) pls
      → Holds rules db
      → Holds rules (commit_all stamp snap run old pls (db, msgs)).0
  unfolding commit_all
  commit_all-Holds [] db msgs a h = h
  commit_all-Holds (pl ∷ pls) db msgs a h =
      let next = commit_one stamp snap run old pl (db, msgs) in
      commit_all-Holds pls next.0 next.1 a.1 (commit_one-Holds pl db msgs a.0 h)

queue_all-IsLinked :
    (stamp : Time) (ws : List Watch) (msgs : Messages) (db : Db)
    → IsLinked db
    → IsLinked (queue_all stamp ws msgs db)
unfolding queue_all queue_notification
queue_all-IsLinked stamp ws [] db l = l
queue_all-IsLinked stamp ws ((k, m) ∷ msgs) db l =
    queue_all-IsLinked stamp ws msgs _ (same_tables db _ refl refl refl refl l)

List-cases : (ws : List Watch) → (ws ≡ []) ⊎ ((w : Watch) × (rest : List Watch) × (ws ≡ w ∷ rest))
List-cases [] = inl refl
List-cases (w ∷ ws) = inr (w, ws, refl)

evaluate-IsLinked :
    (fl : Float64) (cfg : AlertsConfig fl) (now stamp : Time) (snap : Snapshot) (run : ℕ) (db : Db)
    → IsLinked db
    → IsLinked (evaluate fl cfg now stamp snap run db).0
unfolding evaluate
evaluate-IsLinked fl cfg now stamp snap run db l =
    let planned = planned_of fl cfg now snap db in
    let all =
      plan-IsOf now (record { confirm_polls = cfg.confirm_polls }) snap db (active_watches db) in
    let (saved, msgs) = commit_all stamp snap run db planned (db, []) in
    let done =
      queue_all-IsLinked stamp (active_watches db) msgs saved
        (commit_all-Holds stamp snap run db db.watch_rules planned db [] all (refl, l)).1 in
    elim (List-cases (active_watches db)) [
      | inl e ↦ rw (evaluate, e) l
      | inr (w, ws, e) ↦ elim (Option-cases (breaker fl cfg planned)) [
        | inl b ↦ rw (evaluate, e, b) done
        | inr (reason, b) ↦ rw (evaluate, e, b) l
      ]
    ]

upsert_all-IsLinked : (rows : Rows) (db : Db) → IsLinked db → IsLinked (upsert_all rows db)
unfolding upsert_all upsert_activity
upsert_all-IsLinked [] db l = l
upsert_all-IsLinked ((s, a) ∷ rows) db l =
    upsert_all-IsLinked rows _
      (same_tables db _ (ground arith) (ground arith) (ground arith) (ground arith) l)

record_page-IsLinked :
    (now : Time) (nodes : List Observation) (b : Bool) (ps : List Packet) (db : Db)
    → IsLinked db
    → IsLinked (record_page now nodes b ps db).0
unfolding record_page set_feed_cursor
record_page-IsLinked now nodes b ps db l =
    let c = feed_cursor db in
    let r = read_packets (build_index nodes) c ps (start c) in
    if_cases IsLinkedAfter (is_empty r.rows && not b && leb r.high c.high) (λ _. l)
      (λ _.
        same_tables (upsert_all r.rows db) _ refl refl refl refl (upsert_all-IsLinked r.rows db l))

ingest-IsLinked :
    (hours : ℕ) (now : Time) (nodes : List Observation) (page : Bool → Option (List Packet))
    (db : Db)
    → IsLinked db
    → IsLinked (ingest hours now nodes page db).0
unfolding ingest
ingest-IsLinked hours now nodes page db l =
    let b = is_backfilling hours db in
    elim (Option-cases (page b)) [
      | inl e ↦ rw (ingest, e) l
      | inr (ps, e) ↦ rw (ingest, e) (record_page-IsLinked now nodes b ps db l)
    ]

store_fetched-IsLinked :
    (hours : ℕ) (stamp : Time) (fetched : Fetched) (page : Bool → Option (List Packet)) (db : Db)
    → IsLinked db
    → IsLinked (store_fetched hours stamp fetched page db).0
unfolding store_fetched upsert_targets
store_fetched-IsLinked hours stamp fetched page db l =
    let db' = (upsert_targets stamp (all_of fetched.snap) db).0 in
    elim (Option-cases fetched.err) [
      | inl e ↦
          rw (store_fetched, e)
            (ingest-IsLinked hours stamp fetched.snap.nodes page db'
              (same_tables db db' refl refl refl refl l))
      | inr (m, e) ↦ rw (store_fetched, e) l
    ]

Status-cases : (s : PollStatus) → (s ≡ poll_ok) ⊎ ((s ≡ poll_failed) ⊎ (s ≡ poll_suspect))
Status-cases poll_ok = inl refl
Status-cases poll_failed = inr (inl refl)
Status-cases poll_suspect = inr (inr refl)

module _ (fl : Float64) (cfg : PollConfig fl) where
  conclude-IsLinked :
      (now stamp : Time) (fetched : Fetched) (id advanced : ℕ) (db : Db)
      → IsLinked db
      → IsLinked (conclude fl cfg now stamp fetched id advanced db)
  unfolding conclude finish_poll_run
  conclude-IsLinked now stamp fetched id advanced db l =
      let (db', result) = evaluate fl cfg.alerts now stamp fetched.snap id db in
      let judged = evaluate-IsLinked fl cfg.alerts now stamp fetched.snap id db l in
      elim (Status-cases (judge_feed fl (feed_inputs fl cfg now fetched advanced db)).status) [
        | inl e ↦ rw (conclude, e) (same_tables db' _ refl refl refl refl judged)
        | inr (inl e) ↦ rw (conclude, e) (same_tables db _ refl refl refl refl l)
        | inr (inr e) ↦ rw (conclude, e) (same_tables db _ refl refl refl refl l)
      ]

  -- A poll, whatever was fetched and however it is judged, keeps the database linked.
  pub poll_once-IsLinked :
      (now stamp : Time) (fetched : Fetched) (page : Bool → Option (List Packet)) (db : Db)
      → IsLinked db
      → IsLinked (poll_once fl cfg now stamp fetched page db)
  unfolding poll_once start_poll_run
  poll_once-IsLinked now stamp fetched page db l =
      let (started, id) = start_poll_run stamp db in
      let begun : IsLinked started = same_tables db started refl refl refl refl l in
      let (stored, advanced) = store_fetched cfg.backfill_hours stamp fetched page started in
      conclude-IsLinked now stamp fetched id advanced stored
        (store_fetched-IsLinked cfg.backfill_hours stamp fetched page started begun)
