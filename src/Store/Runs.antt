-- ===== src/Store/Runs.antt =====
-- The poll_runs table of internal/store/queries.go. The texts of a run's reason and
-- error are left out: only the status page reads them.
pub mod Still
pub mod Recorded
use hop_react.Common.{
  ℕ, zero, suc, ◌≤◌, Bool, true, false, ◌&&◌, none, some, List, [], ◌∷◌, ◌++◌, ◌==◌, if◌then◌else◌,
  ltb, leb_ℤ, ℤ, map, take, arith,
}
use hop_react.Clock.{Time}
use hop_react.Clock.Unix.{unix}
use hop_react.Models.{PollStatus, poll_ok, poll_failed}
use hop_react.Store.Tables.{Db, PollRunRow, next_id}

-- PollRun.
pub record PollRun : Type 0 where
  pub id : ℕ
  pub status : PollStatus
  pub node_count : ℕ
  pub observer_count : ℕ
  pub advanced_count : ℕ
  pub evaluated : Bool

unfoldable pub start_poll_run : Time → Db → Db × ℕ
start_poll_run now db =
    let id = next_id (map (λ r. r.id) db.poll_runs) in
    (
      record db {
        poll_runs =
            db.poll_runs
            ++ record {
              id = id;
              started_at = unix now;
              finished_at = none;
              status = poll_failed;
              node_count = 0;
              observer_count = 0;
              advanced_count = 0;
              evaluated = false;
            }
              ∷ [];
      },
      id,
    )

abbrev pub finished : Time → PollRun → PollRunRow → PollRunRow
finished now run row = record row {
  finished_at = some (unix now);
  status = run.status;
  node_count = run.node_count;
  observer_count = run.observer_count;
  advanced_count = run.advanced_count;
  evaluated = run.evaluated;
}

unfoldable pub finish_rows : Time → PollRun → List PollRunRow → List PollRunRow
finish_rows now run [] = []
finish_rows now run (row ∷ rows) =
    (if row.id == run.id then finished now run row else row) ∷ finish_rows now run rows

unfoldable pub finish_poll_run : Time → PollRun → Db → Db
finish_poll_run now run db = record db { poll_runs = finish_rows now run db.poll_runs }

abbrev pub is_ok : PollStatus → Bool
is_ok poll_ok = true
is_ok _ = false

abbrev pub is_failed : PollStatus → Bool
is_failed poll_failed = true
is_failed _ = false

-- MAX over the good polls since a time; NULL reads as 0.
unfoldable pub max_count : ℤ → List PollRunRow → ℕ
max_count since [] = 0
max_count since (row ∷ rows) =
    let rest = max_count since rows in
    if is_ok row.status && leb_ℤ since row.started_at && ltb rest row.node_count
    then row.node_count
    else rest

unfoldable pub max_recent_node_count : Time → Db → ℕ
max_recent_node_count since db = max_count (unix since) db.poll_runs

-- The place of a run in ORDER BY started_at DESC; the order of equal times is SQLite's, here the
-- later id first.
unfoldable pub place : PollRunRow → List PollRunRow → List PollRunRow
place r [] = r ∷ []
place r (x ∷ xs) = if leb_ℤ x.started_at r.started_at then r ∷ x ∷ xs else x ∷ place r xs

unfoldable pub newest_first : List PollRunRow → List PollRunRow → List PollRunRow
unfolding place
newest_first [] sorted = sorted
newest_first (row ∷ rows) sorted = newest_first rows (place row sorted)

-- WHERE status IN ('ok','suspect').
unfoldable pub judged : List PollRunRow → List PollRunRow
judged [] = []
judged (row ∷ rows) = if is_failed row.status then judged rows else row ∷ judged rows

-- The loop over the rows.
unfoldable pub count_still : List PollRunRow → ℕ
count_still [] = 0
count_still (row ∷ rows) =
    let n = suc (count_still rows) in if ltb 0 row.advanced_count then 0 else n

unfoldable pub consecutive_non_advancing_polls : Db → ℕ
consecutive_non_advancing_polls db = count_still (take 20 (newest_first (judged db.poll_runs) []))
