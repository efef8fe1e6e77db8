-- ===== src/Poller/Once/Belief.antt =====
-- What a poll that is not believed leaves alone.
use hop_react.Common.{
  ℕ, ◌≤◌, ◌<◌, ◌*◌, ◌-◌, ◌≡◌, ◌≢◌, refl, ap, ◌∙◌, Bool, false, Option, none, List, [], ◌∷◌, ◌++◌,
  arith, Option-cases, inl, inr, some, Text,
}
use hop_react.Clock.{Time, hour}
use hop_react.Models.{PollStatus, poll_ok, poll_failed, poll_suspect, Packet, Observation, Kind}
use hop_react.Floats.{Float64}
use hop_react.Alert.Feed.{judge_feed}
use hop_react.Store.Tables.{Db, PollRunRow}
use hop_react.Store.Activity.{upsert_activity}
use hop_react.Attribute.Index.{build_index}
use hop_react.Store.Activity.Cursor.{feed_cursor, set_feed_cursor}
use hop_react.Store.Targets.{upsert_targets}
use hop_react.Store.Targets.Forward.{Caught, Caught-still}
use hop_react.Store.Runs.{
  start_poll_run, finish_poll_run, max_recent_node_count, consecutive_non_advancing_polls,
}
use hop_react.Poller.Plan.{Snapshot, all_of}
use hop_react.Poller.Ingest.{
  Rows, upsert_all, start, read_packets, is_backfilling, record_page, ingest,
}
use hop_react.Store.Runs.Recorded.{
  started_history, same_history, run_id, recorded, finish_poll_run-start,
}
use hop_react.Poller.Once.{
  Fetched, PollConfig, store_fetched, feed_inputs, run_of, conclude, poll_once,
}

-- The states, the outbox and the audit trail of two databases agree, and so do their watches.
pub record IsUnjudged (before after : Db) : Type 0 where
  pub states : after.watch_state ≡ before.watch_state
  pub outbox : after.notifications ≡ before.notifications
  pub events : after.alert_events ≡ before.alert_events
  pub watched : after.watches ≡ before.watches
  pub ruled : after.watch_rules ≡ before.watch_rules

-- They agree, and so do the runs.
record IsFed (before after : Db) : Type 0 where
  unjudged : IsUnjudged before after
  runs : after.poll_runs ≡ before.poll_runs

upsert_all-IsFed : (rows : Rows) (db : Db) → IsFed db (upsert_all rows db)
unfolding upsert_all upsert_activity
upsert_all-IsFed [] db = ground arith
upsert_all-IsFed ((s, a) ∷ rows) db =
    ground (arith, upsert_all-IsFed rows (upsert_activity Kind.node s.key s.typ s.dir a.at a.n db))

record_page-IsFed :
    (now : Time) (nodes : List Observation) (b : Bool) (ps : List Packet) (db : Db)
    → IsFed db (record_page now nodes b ps db).0
unfolding record_page set_feed_cursor
record_page-IsFed now nodes b ps db =
    let r = read_packets (build_index nodes) (feed_cursor db) ps (start (feed_cursor db)) in
    ground (arith, upsert_all-IsFed r.rows db)

store_fetched-IsFed :
    (backfill_hours : ℕ) (stamp : Time) (fetched : Fetched) (page : Bool → Option (List Packet))
    (db : Db)
    → IsFed db (store_fetched backfill_hours stamp fetched page db).0
unfolding store_fetched ingest upsert_targets
store_fetched-IsFed backfill_hours stamp fetched page db =
    let db' = (upsert_targets stamp (all_of fetched.snap) db).0 in
    let b = is_backfilling backfill_hours db' in
    elim (Option-cases fetched.err) [
      | inl none_ ↦ elim (Option-cases (page b)) [
        | inl unread ↦ ground (arith, none_, unread)
        | inr (ps, read) ↦
            ground (arith, none_, read, record_page-IsFed stamp fetched.snap.nodes b ps db')
      ]
      | inr (e, failed) ↦ ground (arith, failed)
    ]

module _ (fl : Float64) (cfg : PollConfig fl) (now stamp : Time) (fetched : Fetched) where
  conclude_unbelieved :
      (id advanced : ℕ) (db : Db)
      → let status = (judge_feed fl (feed_inputs fl cfg now fetched advanced db)).status in
        status ≢ poll_ok
        → conclude fl cfg now stamp fetched id advanced db
          ≡ finish_poll_run stamp (run_of fl cfg id fetched advanced status false) db
  unfolding conclude
  conclude_unbelieved id advanced db h = ground arith

  module _ (page : Bool → Option (List Packet)) (db : Db) where
    abbrev begun : Db × ℕ
    begun = start_poll_run stamp db

    abbrev stored : Db × ℕ
    stored = store_fetched cfg.backfill_hours stamp fetched page begun.0

    -- What JudgeFeed says of the poll.
    abbrev pub verdict : PollStatus
    verdict = (judge_feed fl (feed_inputs fl cfg now fetched stored.1 stored.0)).status

    -- The row of a poll that nothing was evaluated in.
    abbrev pub unevaluated : PollStatus → PollRunRow
    unevaluated status = recorded stamp (run_of fl cfg (run_id db) fetched stored.1 status false)

    -- A poll that is not believed touches no state, no message and no event, whatever was fetched;
    -- its one new row in poll_runs has the verdict as its status and is not marked as evaluated,
    -- and the older rows stay as they were.
    pub poll_once_unbelieved :
        verdict ≢ poll_ok
        → let db' = poll_once fl cfg now stamp fetched page db in
          IsUnjudged db db' × (db'.poll_runs ≡ db.poll_runs ++ unevaluated verdict ∷ [])
    unfolding poll_once start_poll_run finish_poll_run
    poll_once_unbelieved h =
        let fed = store_fetched-IsFed cfg.backfill_hours stamp fetched page begun.0 in
        let run = run_of fl cfg begun.1 fetched stored.1 verdict false in
        rw (conclude_unbelieved begun.1 stored.1 stored.0 h)
          (ground (arith, fed), finish_poll_run-start stamp run db stored.0 refl fed.runs)

-- A poll whose fetch failed stores nothing of what came but its row, which says so: no target, no
-- evidence and no cursor changes, and no state, message or event.
poll_once_failed :
    (fl : Float64) (cfg : PollConfig fl) (now stamp : Time) (snap : Snapshot) (e : Text)
    (page : Bool → Option (List Packet)) (db : Db)
    → let fetched : Fetched = record { snap = snap; err = some e } in
      let db' = poll_once fl cfg now stamp fetched page db in
      let run = run_of fl cfg (run_id db) fetched 0 poll_failed false in
      IsUnjudged db db'
      × (db'.poll_runs ≡ db.poll_runs ++ recorded stamp run ∷ [])
      × (db'.targets ≡ db.targets)
      × (db'.target_activity ≡ db.target_activity)
      × (db'.feed_cursor ≡ db.feed_cursor)
unfolding poll_once conclude start_poll_run finish_poll_run store_fetched judge_feed
poll_once_failed fl cfg now stamp snap e page db =
    let fetched : Fetched = record { snap = snap; err = some e } in
    let run = run_of fl cfg (run_id db) fetched 0 poll_failed false in
    (
      ground arith,
      finish_poll_run-start stamp run db (start_poll_run stamp db).0 refl refl,
      refl,
      refl,
      refl,
    )

fetched_still :
    (backfill_hours : ℕ) (stamp : Time) (snap : Snapshot) (page : Bool → Option (List Packet))
    (db : Db)
    → Caught (all_of snap) db.targets
    → (store_fetched backfill_hours stamp (record { snap = snap; err = none }) page db).1 ≡ 0
unfolding store_fetched upsert_targets
fetched_still backfill_hours stamp snap page db h = Caught-still stamp (all_of snap) db.targets h

started_targets :
    (stamp : Time) (snap : Snapshot) (db : Db)
    → Caught (all_of snap) db.targets
    → Caught (all_of snap) (start_poll_run stamp db).0.targets
unfolding start_poll_run
started_targets stamp snap db h = h

module _ (fl : Float64) (cfg : PollConfig fl) (now stamp : Time) (snap : Snapshot) where
  judge_feed_frozen :
      (advanced : ℕ) (db : Db)
      → advanced ≡ 0
      → 0 < max_recent_node_count (now - 7 * 24 * hour) db
      → cfg.max_polls_without_advance ≤ consecutive_non_advancing_polls db
      → let fetched : Fetched = record { snap = snap; err = none } in
        (judge_feed fl (feed_inputs fl cfg now fetched advanced db)).status ≡ poll_suspect
  unfolding judge_feed
  judge_feed_frozen advanced db a r c = ground arith

  -- A feed that stands still is not believed: where no target served is newer than what is stored,
  -- a good poll of the last seven days had a node, and as many still polls were counted as the
  -- configuration allows, the poll's row is suspect and not evaluated, however many nodes the poll
  -- has, and no state, message or event changes.
  pub poll_once_frozen :
      (page : Bool → Option (List Packet)) (db : Db)
      → Caught (all_of snap) db.targets
      → 0 < max_recent_node_count (now - 7 * 24 * hour) db
      → cfg.max_polls_without_advance ≤ consecutive_non_advancing_polls db
      → let fetched : Fetched = record { snap = snap; err = none } in
        let db' = poll_once fl cfg now stamp fetched page db in
        let run = run_of fl cfg (run_id db) fetched 0 poll_suspect false in
        IsUnjudged db db' × (db'.poll_runs ≡ db.poll_runs ++ recorded stamp run ∷ [])
  poll_once_frozen page db still recent polls =
      let since = now - 7 * 24 * hour in
      let fetched : Fetched = record { snap = snap; err = none } in
      let started = (start_poll_run stamp db).0 in
      let (stored, advanced) = store_fetched cfg.backfill_hours stamp fetched page started in
      let fed = store_fetched-IsFed cfg.backfill_hours stamp fetched page started in
      let old = started_history stamp since db in
      let new = same_history since started stored fed.runs in
      let none_new =
        fetched_still cfg.backfill_hours stamp snap page started
          (started_targets stamp snap db still) in
      let suspect =
        judge_feed_frozen advanced stored none_new (ground (arith, old, new))
          (ground (arith, old, new)) in
      let (kept, row) =
        poll_once_unbelieved fl cfg now stamp fetched page db (λ e. cc (suspect, e)) in
      (
        kept,
        row
            ∙ ap
                (λ (s : PollStatus).
                  db.poll_runs ++ unevaluated fl cfg now stamp fetched page db s ∷ [])
                suspect
            ∙ ap
                (λ n.
                  db.poll_runs
                  ++ recorded stamp (run_of fl cfg (run_id db) fetched n poll_suspect false) ∷ [])
                none_new,
      )
