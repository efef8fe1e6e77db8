-- ===== src/Examples/Polls.antt =====
-- Polls of a mesh of two repeaters, one of them watched.
use hop_react.Common.{
  ℕ, ◌↔◌, ◌+◌, ◌*◌, ◌-◌, ◌≤◌, ◌<◌, ◌≡◌, ◌≢◌, ◌↔◌, refl, Bool, true, false, Option, none, some, List,
  [], ◌∷◌, ◌++◌, codes, arith, text_eq, lookup, Distinct, length,
}
use hop_react.Clock.{hour, hours, sub}
use hop_react.Models.{Direction, Rule, types, sent, Activity, Packet, poll_ok, poll_suspect}
use hop_react.Alert.Feed.{trip_breaker, judge_feed}
use hop_react.Alert.Watch
use hop_react.Alert.Watch.{is_over}
use hop_react.Attribute.Index.{build_index}
use hop_react.Store.Tables.{Db, Payload}
use hop_react.Store.Activity.Cursor.{feed_cursor}
use hop_react.Store.States.{all_watch_state, find_row}
use hop_react.Store.Watches.{active_watches, all_rules, of_watch}
use hop_react.Store.Targets.{upsert_targets, upsert_rows, find_target, target_row, put_target}
use hop_react.Store.Targets.Forward.{Caught}
use hop_react.Store.Runs.{
  max_recent_node_count, max_count, consecutive_non_advancing_polls, newest_first, judged,
  count_still,
}
use hop_react.Clock.Unix.{null_int, time_from, unix, from_unix}
use hop_react.Poller.Observe.{rule_observation}
use hop_react.Poller.Plan.{Snapshot, Planned, entering, plan, plan_rules, plan_rule, by_key}
use hop_react.Poller.Commit.{
  AlertsConfig, EvalResult, MsgKey, msg_key, planned_of, commit_all, evaluate,
}
use hop_react.Poller.Commit.Grouping.{trips, rules_of, commit_all_groups}
use hop_react.Poller.Commit.Addressed.{IsAddressed}
use hop_react.Poller.Commit.Transaction.{outbox, kept, evaluate-outbox, evaluate_kept}
use hop_react.Poller.Ingest.{ingest}
use hop_react.Poller.Ingest.Evidence.{stored, fresh_hits, ingest_counts}
use hop_react.Poller.Ingest.Again.{ingest_again}
use hop_react.Poller.Once.{Fetched, PollConfig, run_of, poll_once}
use hop_react.Store.Runs.Recorded.{run_id, recorded}
use hop_react.Poller.Once.Belief.{
  IsUnjudged, verdict, unevaluated, poll_once_unbelieved, poll_once_frozen,
}
use hop_react.Examples.Floats.{hundredths}
use hop_react.Examples.Mesh.{hill, mesh, flood}
use hop_react.Examples.Tables.{db, today}

abbrev advert_rule : Rule
advert_rule = record {
  id = 7;
  watch_id = 1;
  label = [];
  source = types;
  types = 4 ∷ [];
  direction = sent;
  threshold_hours = 24;
  created_at = today;
}

abbrev heard : List Activity
heard =
    record { payload_type = 4; direction = sent; last_at = today; evidence_count = 3 }
    ∷ record { payload_type = 2; direction = sent; last_at = today + hour; evidence_count = 1 }
    ∷ []

abbrev snap : Snapshot
snap = record { nodes = mesh; observers = [] }

abbrev alerts : AlertsConfig hundredths
alerts = record { confirm_polls = 1; max_new_alerts_per_poll = 5; max_new_alert_fraction = 50 }

abbrev planned : List Planned
planned = planned_of hundredths alerts today snap db

commit_all_groups_example :
    let msgs = (commit_all today snap 4 db planned (db, [])).1 in
    let k : MsgKey = record { watch_id = 1; kind = none } in
    Distinct msgs
    × ((lookup k msgs ≡ none) ↔ (trips k planned ≡ []))
    × (rules_of (lookup k msgs) ≡ trips k planned)
commit_all_groups_example =
    commit_all_groups today snap 4 db db planned (record { watch_id = 1; kind = none })

abbrev result : Db × EvalResult
result = evaluate hundredths alerts today today snap 4 db

watched : active_watches db ≢ []
unfolding active_watches
watched e = ground (arith, e)

committed : result.1.committed ≡ true
unfolding evaluate active_watches trip_breaker entering plan plan_rules all_rules of_watch plan_rule
    Watch.evaluate rule_observation by_key text_eq all_watch_state find_row is_over hours sub
committed = refl

evaluate-outbox_example :
    (ls : List (ℕ × Payload)) × (outbox result.0 ≡ outbox db ++ ls)
    × IsAddressed db.watches (commit_all today snap 4 db planned (db, [])).1 ls
    × (result.1.notified ≡ length ls)
evaluate-outbox_example = evaluate-outbox hundredths alerts today today snap 4 db committed watched

evaluate_kept_example : all_watch_state result.0 1 1 ≡ kept 1 1 planned (all_watch_state db 1 1)
evaluate_kept_example = evaluate_kept hundredths alerts today today snap 4 db 1 1 committed watched

ingest_counts_example :
    stored hill 2 Direction.carried
      (ingest 24 today mesh (λ _. some (flood ∷ [])) db).0.target_activity
    ≡ stored hill 2 Direction.carried db.target_activity
      + fresh_hits hill 2 Direction.carried (build_index mesh) (feed_cursor db) (flood ∷ [])
ingest_counts_example = ingest_counts hill 2 Direction.carried 24 today mesh (flood ∷ []) db

ingest_again_example :
    let (db', fresh) = ingest 24 today mesh (λ _. some (flood ∷ [])) db in
    let (db'', fresh') = ingest 24 (today + hour) mesh (λ _. some (flood ∷ [])) db' in
    (db''.target_activity ≡ db'.target_activity) × (fresh' ≡ some 0)
ingest_again_example = ingest_again 24 today (today + hour) mesh (flood ∷ []) db (omega arith, tt)

abbrev config : PollConfig hundredths
config = record {
  alerts = alerts;
  min_nodes = 1;
  min_node_fraction = 50;
  max_polls_without_advance = 2;
  backfill_hours = 24;
}

abbrev page : Bool → Option (List Packet)
page _ = some (flood ∷ [])

abbrev cut_off : Fetched
cut_off = record { snap = record { nodes = []; observers = [] }; err = some (codes "timeout") }

unbelieved : verdict hundredths config today today cut_off page db ≢ poll_ok
unfolding judge_feed
unbelieved e = ground (arith, e)

poll_once_unbelieved_example :
    let db' = poll_once hundredths config today today cut_off page db in
    IsUnjudged db db'
    × (db'.poll_runs
        ≡ db.poll_runs
          ++ unevaluated hundredths config today today cut_off page db
              (verdict hundredths config today today cut_off page db)
            ∷ [])
poll_once_unbelieved_example =
    poll_once_unbelieved hundredths config today today cut_off page db unbelieved

-- The snapshot is stored already.
abbrev served : Db
served = (upsert_targets (today - hour) mesh db).0

stored_already : Caught mesh served.targets
unfolding upsert_targets upsert_rows find_target target_row put_target text_eq null_int time_from
    unix from_unix
stored_already = (omega arith, (omega arith, tt))

once_seen : 0 < max_recent_node_count (today - 7 * 24 * hour) served
unfolding upsert_targets max_recent_node_count max_count unix
once_seen = omega arith

twice_still : 2 ≤ consecutive_non_advancing_polls served
unfolding upsert_targets consecutive_non_advancing_polls newest_first judged count_still
twice_still = omega arith

poll_once_frozen_example :
    let fetched : Fetched = record { snap = snap; err = none } in
    let db' = poll_once hundredths config today today fetched page served in
    let run = run_of hundredths config (run_id served) fetched 0 poll_suspect false in
    IsUnjudged served db' × (db'.poll_runs ≡ served.poll_runs ++ recorded today run ∷ [])
poll_once_frozen_example =
    poll_once_frozen hundredths config today today snap page served stored_already once_seen
      twice_still
