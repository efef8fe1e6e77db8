-- ===== src/Poller/Commit/Transaction.antt =====
-- What an evaluation does to the database as a whole.
use mathlib.Core.List.{append-nil, append_assoc, map-append}
use hop_react.Common.{
  ◌⊎◌, ◌↔◌, ℕ, suc, ◌≡◌, ◌≢◌, refl, sym, ap, ◌∙◌, true, false, ◌&&◌, ◌||◌, Option, none, some, List,
  [], ◌∷◌, ◌++◌, ◌==◌, if◌then◌else◌, length, arith, map,
}
use hop_react.Clock.{Time, zero_time}
use hop_react.Models.{State, Watch, WatchState}
use hop_react.Floats.{Float64}
use hop_react.Store.Tables.{Db, AlertPayload, Payload, alert_payload, NotificationRow}
use hop_react.Store.States.{save_watch_state, record_alert_event, all_watch_state}
use hop_react.Store.States.Laws.{whole, all_watch_state-save}
use hop_react.Poller.Label.{rule_label}
use hop_react.Store.Outbox.{queue_notification}
use hop_react.Store.Watches.{active_watches}
use hop_react.Poller.Plan.{Snapshot, Planned}
use hop_react.Poller.Commit.{
  MsgKey, Messages, commit_one, commit_all, watch_user, queue_all, EvalResult, AlertsConfig,
  evaluate, planned_of, breaker, commit, state_before,
}
use hop_react.Poller.Commit.Addressed.{
  IsAddressed, ForStored, all-ForStored, plan_active-PlanStored, active-owns,
}

-- The owner and the payload of a row of the outbox.
abbrev pub addressed : NotificationRow → ℕ × Payload
addressed n = (n.user_id, n.payload)

abbrev pub outbox : Db → List (ℕ × Payload)
outbox db = map addressed db.notifications

-- What the messages come to for their watches' owners.
abbrev letters : List Watch → Messages → List (ℕ × Payload)
letters ws [] = []
letters ws ((k, m) ∷ msgs) = (watch_user k.watch_id ws, alert_payload m) ∷ letters ws msgs

outbox-queue_notification :
    (stamp : Time) (ws : List Watch) (k : MsgKey) (m : AlertPayload) (db : Db)
    → outbox
        (queue_notification stamp (watch_user k.watch_id ws) m.kind (alert_payload m) zero_time db)
      ≡ outbox db ++ letters ws ((k, m) ∷ [])
unfolding queue_notification
outbox-queue_notification stamp ws k m db = rw map-append

outbox-queue_all :
    (stamp : Time) (ws : List Watch) (msgs : Messages) (db : Db)
    → outbox (queue_all stamp ws msgs db) ≡ outbox db ++ letters ws msgs
unfolding queue_all
outbox-queue_all stamp ws [] db = sym (append-nil (outbox db))
outbox-queue_all stamp ws ((k, m) ∷ msgs) db =
    let one =
      queue_notification stamp (watch_user k.watch_id ws) m.kind (alert_payload m) zero_time db in
    outbox-queue_all stamp ws msgs one
    ∙ ap (λ (l : List (ℕ × Payload)). l ++ letters ws msgs)
        (outbox-queue_notification stamp ws k m db)
    ∙ append_assoc (outbox db) (letters ws ((k, m) ∷ [])) (letters ws msgs)

length-letters : (ws : List Watch) (msgs : Messages) → length msgs ≡ length (letters ws msgs)
length-letters ws [] = refl
length-letters ws (km ∷ msgs) = ap suc (length-letters ws msgs)

letters-IsAddressed :
    (db : Db) (msgs : Messages)
    → ForStored db.watches msgs
    → IsAddressed db.watches msgs (letters (active_watches db) msgs)
letters-IsAddressed db [] h = tt
letters-IsAddressed db ((k, m) ∷ msgs) h =
    (active-owns k.watch_id db h.0, refl, letters-IsAddressed db msgs h.1)

module _ (stamp : Time) (snap : Snapshot) (run : ℕ) where
  one-outbox :
      (old : Db) (pl : Planned) (acc : Db × Messages)
      → (commit_one stamp snap run old pl acc).0.notifications ≡ acc.0.notifications
  unfolding commit_one save_watch_state record_alert_event
  one-outbox old pl (db, msgs) = ground arith

  all-outbox :
      (old : Db) (ps : List Planned) (acc : Db × Messages)
      → (commit_all stamp snap run old ps acc).0.notifications ≡ acc.0.notifications
  unfolding commit_all
  all-outbox old [] acc = refl
  all-outbox old (pl ∷ ps) acc =
      all-outbox old ps (commit_one stamp snap run old pl acc) ∙ one-outbox old pl acc

module _ (fl : Float64) (cfg : AlertsConfig fl) (now stamp : Time) (snap : Snapshot) (run : ℕ)
    (db : Db) where
  abbrev result : Db × EvalResult
  result = evaluate fl cfg now stamp snap run db

  abbrev queued : Messages
  queued = (commit_all stamp snap run db (planned_of fl cfg now snap db) (db, [])).1

  -- The evaluation is not committed exactly if there are watches and the breaker trips; and then
  -- the database is what it was and nothing is sent.
  evaluate_tripped :
      ((result.1.committed ≡ false)
        ↔ ((active_watches db ≢ []) × (breaker fl cfg (planned_of fl cfg now snap db) ≢ none)))
      × ((result.1.committed ≡ true) ⊎ ((result.0 ≡ db) × (result.1.notified ≡ 0)))
  unfolding evaluate
  evaluate_tripped = ((λ h. ground arith, λ h. ground arith), ground arith)

  committed-commit :
      result.1.committed ≡ true
      → active_watches db ≢ []
      → result ≡ commit fl stamp snap run (planned_of fl cfg now snap db) db
  unfolding evaluate
  committed-commit h w = ground arith

  outbox-committed :
      result.1.committed ≡ true
      → active_watches db ≢ []
      → (outbox result.0 ≡ outbox db ++ letters (active_watches db) queued)
        × (result.1.notified ≡ length queued)
  outbox-committed h w =
      let planned = planned_of fl cfg now snap db in
      let saved = (commit_all stamp snap run db planned (db, [])).0 in
      let e =
        outbox-queue_all stamp (active_watches db) queued saved
        ∙ ap (λ (l : List NotificationRow). map addressed l ++ letters (active_watches db) queued)
            (all-outbox stamp snap run db planned (db, [])) in
      rw (committed-commit h w) (e, refl)

  -- With watches, a committed evaluation adds to the outbox one letter for each message of the
  -- plan, in their order: it holds the message and goes to a user whom the watches table has as the
  -- owner of the message's watch. No letter that was there changes, and the evaluation reports as
  -- many as it added.
  pub evaluate-outbox :
      result.1.committed ≡ true
      → active_watches db ≢ []
      → (ls : List (ℕ × Payload)) × (outbox result.0 ≡ outbox db ++ ls)
        × IsAddressed db.watches queued ls
        × (result.1.notified ≡ length ls)
  evaluate-outbox h w =
      let (e, n) = outbox-committed h w in
      let stored =
        all-ForStored stamp snap run db.watches db (planned_of fl cfg now snap db) (db, [])
          (plan_active-PlanStored now (record { confirm_polls = cfg.confirm_polls }) snap db) tt in
      (
        letters (active_watches db) queued,
        e,
        letters-IsAddressed db queued stored,
        n ∙ length-letters (active_watches db) queued,
      )

-- The state of a watch and a rule after the plan: what the last transition or newer time for it
-- left, with its times cut to whole seconds, and the stored state where there is none.
abbrev pub kept : ℕ → ℕ → List Planned → Option WatchState → Option WatchState
kept w r [] st = st
kept w r (pl ∷ ps) st =
    let out = pl.out in
    let new = out.state in
    kept w r ps (
      if (out.changed || out.observed_moved) && (new.watch_id == w && new.rule_id == r)
      then some (record new {
        since = whole new.since;
        observed_at = whole new.observed_at;
        alerting_since = whole new.alerting_since;
        last_notified = whole new.last_notified;
      })
      else st)

module _ (stamp : Time) (snap : Snapshot) (run w r : ℕ) where
  event-states :
      (pl : Planned) (from : State) (db : Db)
      → all_watch_state
          (record_alert_event stamp pl.watch.id pl.rule.id
            (rule_label pl.rule)
            from
            pl.out.state.state
            run
            pl.out.notify
            db)
          w
          r
        ≡ all_watch_state db w r
  unfolding record_alert_event all_watch_state
  event-states pl from db = refl

  one_kept :
      (old : Db) (pl : Planned) (acc : Db × Messages)
      → all_watch_state (commit_one stamp snap run old pl acc).0 w r
        ≡ kept w r (pl ∷ []) (all_watch_state acc.0 w r)
  unfolding commit_one
  one_kept old pl (db, msgs) =
      let from = state_before (all_watch_state old pl.watch.id pl.rule.id) in
      ground (
        arith,
        all_watch_state-save pl.out.state db w r,
        event-states pl from (save_watch_state pl.out.state db),
      )

  all_kept :
      (old : Db) (ps : List Planned) (acc : Db × Messages)
      → all_watch_state (commit_all stamp snap run old ps acc).0 w r
        ≡ kept w r ps (all_watch_state acc.0 w r)
  unfolding commit_all
  all_kept old [] acc = refl
  all_kept old (pl ∷ ps) acc =
      all_kept old ps (commit_one stamp snap run old pl acc)
      ∙ ap (kept w r ps) (one_kept old pl acc)

  queue-states :
      (ws : List Watch) (msgs : Messages) (db : Db)
      → all_watch_state (queue_all stamp ws msgs db) w r ≡ all_watch_state db w r
  unfolding queue_all queue_notification all_watch_state
  queue-states ws [] db = refl
  queue-states ws ((k, m) ∷ msgs) db = queue-states ws msgs _

-- With watches, a committed evaluation leaves every state as the plan says: the rows that changed
-- and those whose signal moved are saved, and no other state is touched.
pub evaluate_kept :
    (fl : Float64) (cfg : AlertsConfig fl) (now stamp : Time) (snap : Snapshot) (run : ℕ) (db : Db)
    (w r : ℕ)
    → (evaluate fl cfg now stamp snap run db).1.committed ≡ true
    → active_watches db ≢ []
    → all_watch_state (evaluate fl cfg now stamp snap run db).0 w r
      ≡ kept w r (planned_of fl cfg now snap db) (all_watch_state db w r)
evaluate_kept fl cfg now stamp snap run db w r h ws =
    let planned = planned_of fl cfg now snap db in
    let both = commit_all stamp snap run db planned (db, []) in
    rw (committed-commit fl cfg now stamp snap run db h ws) (
      queue-states stamp snap run w r (active_watches db) both.1 both.0
      ∙ all_kept stamp snap run w r db planned (db, []))
