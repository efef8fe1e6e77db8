-- ===== src/Poller/Once.antt =====
-- PollOnce of internal/poller/poller.go: one cycle, from the fetched snapshot to the recorded run.
--
-- Two of its calls are left out. MarkCoreRepeaters writes columns of targets that the status board
-- reads and the model does not have. checkBatteries comes after evaluate, on a believed poll alone,
-- and works on the battery tables: it is Poller.Battery.
pub mod Belief
pub mod Linked
use hop_react.Common.{
  ℕ, ◌*◌, ◌-◌, ◌+◌, Bool, true, false, Option, none, some, List, Text, length, ltb, if◌then◌else◌,
}
use hop_react.Clock.{Time, hour}
use hop_react.Models.{PollStatus, poll_ok, poll_failed, poll_suspect, Packet}
use hop_react.Floats.{Float64}
use hop_react.Alert.Feed.{FeedInputs, FeedVerdict, judge_feed}
use hop_react.Store.Tables.{Db}
use hop_react.Store.Targets.{upsert_targets}
use hop_react.Store.Runs.{
  PollRun, start_poll_run, finish_poll_run, max_recent_node_count, consecutive_non_advancing_polls,
}
use hop_react.Poller.Plan.{Snapshot, all_of}
use hop_react.Poller.Ingest.{ingest}
use hop_react.Poller.Commit.{AlertsConfig, EvalResult, evaluate}

-- What the client's Fetch returns: a snapshot, which an error may leave partial.
pub record Fetched : Type 0 where
  pub snap : Snapshot
  pub err : Option Text

pub record PollConfig (fl : Float64) : Type 0 where
  pub alerts : AlertsConfig fl
  pub min_nodes : ℕ
  pub min_node_fraction : fl.F
  pub max_polls_without_advance : ℕ
  pub backfill_hours : ℕ

-- Storing what was fetched: the targets, and the packet feed's evidence, whose errors are only
-- logged.
unfoldable pub store_fetched : ℕ → Time → Fetched → (Bool → Option (List Packet)) → Db → Db × ℕ
store_fetched backfill_hours stamp fetched page db = elim fetched.err [
  | some e ↦ (db, 0)
  | none ↦
      let (db', advanced) = upsert_targets stamp (all_of fetched.snap) db in
      ((ingest backfill_hours stamp fetched.snap.nodes page db').0, advanced)
]

module _ (fl : Float64) (cfg : PollConfig fl) where
  -- now.Add(-7*24*time.Hour), for a time later than that after Go's zero time.
  abbrev pub feed_inputs : Time → Fetched → ℕ → Db → FeedInputs fl
  feed_inputs now fetched advanced db =
      let recent = max_recent_node_count (now - 7 * 24 * hour) db in
      record {
        fetch_err = fetched.err;
        node_count = length fetched.snap.nodes;
        max_recent_node_count = recent;
        advanced = advanced;
        consecutive_non_advancing = consecutive_non_advancing_polls db;
        min_nodes = cfg.min_nodes;
        min_node_fraction = cfg.min_node_fraction;
        max_polls_without_advance = cfg.max_polls_without_advance;
        have_baseline = ltb 0 recent;
      }

  abbrev pub run_of : ℕ → Fetched → ℕ → PollStatus → Bool → PollRun
  run_of id fetched advanced status evaluated = record {
    id = id;
    status = status;
    node_count = length fetched.snap.nodes;
    observer_count = length fetched.snap.observers;
    advanced_count = advanced;
    evaluated = evaluated;
  }

  -- The end of the cycle, from the verdict on.
  unfoldable pub conclude : Time → Time → Fetched → ℕ → ℕ → Db → Db
  conclude now stamp fetched id advanced db =
      let status = (judge_feed fl (feed_inputs now fetched advanced db)).status in
      elim status [
        | poll_ok ↦
            let (db', result) = evaluate fl cfg.alerts now stamp fetched.snap id db in
            finish_poll_run stamp (run_of id fetched advanced poll_ok result.committed) db'
        | poll_failed ↦ finish_poll_run stamp (run_of id fetched advanced poll_failed false) db
        | poll_suspect ↦ finish_poll_run stamp (run_of id fetched advanced poll_suspect false) db
      ]

  -- `now` is the poller's clock, `stamp` the store's.
  unfoldable pub poll_once : Time → Time → Fetched → (Bool → Option (List Packet)) → Db → Db
  poll_once now stamp fetched page db =
      let (started, id) = start_poll_run stamp db in
      let (stored, advanced) = store_fetched cfg.backfill_hours stamp fetched page started in
      conclude now stamp fetched id advanced stored
