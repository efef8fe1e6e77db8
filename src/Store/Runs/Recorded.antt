-- ===== src/Store/Runs/Recorded.antt =====
-- A run's row: started when the poll starts, finished when it ends.
use hop_react.Common.{
  ℕ, refl, take, ℤ, ◌≤◌, ◌≡◌, sym, ◌∙◌, ap, some, List, [], ◌∷◌, ◌++◌, map, arith,
}
use hop_react.Clock.{Time}
use hop_react.Clock.Unix.{unix}
use hop_react.Models.{poll_failed}
use hop_react.Store.Tables.{Db, PollRunRow, next_id}
use hop_react.Store.Runs.{
  max_count, judged, count_still, newest_first, max_recent_node_count,
  consecutive_non_advancing_polls, PollRun, start_poll_run, finished, finish_rows, finish_poll_run,
}

abbrev pub run_id : Db → ℕ
run_id db = next_id (map (λ r. r.id) db.poll_runs)

-- The row of a poll that is over.
abbrev pub recorded : Time → PollRun → PollRunRow
recorded stamp run = record {
  id = run.id;
  started_at = unix stamp;
  finished_at = some (unix stamp);
  status = run.status;
  node_count = run.node_count;
  observer_count = run.observer_count;
  advanced_count = run.advanced_count;
  evaluated = run.evaluated;
}

finish_rows-snoc :
    (stamp : Time) (run : PollRun) (rows : List PollRunRow) (last : PollRunRow)
    → next_id (map (λ r. r.id) rows) ≤ run.id
    → last.id ≡ run.id
    → finish_rows stamp run (rows ++ last ∷ []) ≡ rows ++ finished stamp run last ∷ []
unfolding finish_rows
finish_rows-snoc stamp run [] last h e = ground arith
finish_rows-snoc stamp run (row ∷ rows) last h e =
    ground (arith, finish_rows-snoc stamp run rows last)

-- A run that was started and is finished is one row more, and the older rows stay.
pub finish_poll_run-start :
    (stamp : Time) (run : PollRun) (db stored : Db)
    → run.id ≡ run_id db
    → stored.poll_runs ≡ (start_poll_run stamp db).0.poll_runs
    → (finish_poll_run stamp run stored).poll_runs ≡ db.poll_runs ++ recorded stamp run ∷ []
unfolding finish_poll_run start_poll_run
finish_poll_run-start stamp run db stored e h =
    ap (finish_rows stamp run) h
    ∙ finish_rows-snoc stamp run db.poll_runs _ (omega (arith, e)) (sym e)
    ∙ ap (λ i. db.poll_runs ++ record (recorded stamp run) { id = i } ∷ []) (sym e)

max_count_started :
    (since : ℤ) (row : PollRunRow) (rows : List PollRunRow)
    → row.status ≡ poll_failed
    → max_count since (rows ++ row ∷ []) ≡ max_count since rows
unfolding max_count
max_count_started since row [] h = ground arith
max_count_started since row (x ∷ rows) h = ground (arith, max_count_started since row rows h)

judged_started :
    (row : PollRunRow) (rows : List PollRunRow)
    → row.status ≡ poll_failed
    → judged (rows ++ row ∷ []) ≡ judged rows
unfolding judged
judged_started row [] h = ground arith
judged_started row (x ∷ rows) h = ground (arith, judged_started row rows h)

-- The run that a poll starts is not part of the history that it is judged by.
pub started_history :
    (stamp since : Time) (db : Db)
    → let db' = (start_poll_run stamp db).0 in
      (max_recent_node_count since db' ≡ max_recent_node_count since db)
      × (consecutive_non_advancing_polls db' ≡ consecutive_non_advancing_polls db)
unfolding start_poll_run max_recent_node_count consecutive_non_advancing_polls
started_history stamp since db = (
  max_count_started (unix since) _ db.poll_runs refl,
  ap (λ rows. count_still (take 20 (newest_first rows []))) (judged_started _ db.poll_runs refl),
)

pub same_history :
    (since : Time) (a b : Db)
    → b.poll_runs ≡ a.poll_runs
    → (max_recent_node_count since b ≡ max_recent_node_count since a)
      × (consecutive_non_advancing_polls b ≡ consecutive_non_advancing_polls a)
unfolding max_recent_node_count consecutive_non_advancing_polls
same_history since a b h = (
  ap (max_count (unix since)) h,
  ap (λ rows. count_still (take 20 (newest_first (judged rows) []))) h,
)
