-- ===== src/Store/States.antt =====
-- watch_state and alert_events: SaveWatchState, AllWatchState and RecordAlertEvent of
-- internal/store/queries.go.
pub mod Laws
use hop_react.Common.{
  ℕ, Bool, true, false, ◌&&◌, Option, none, some, List, [], ◌∷◌, ◌++◌, Text, ◌==◌, if◌then◌else◌,
  map,
}
use hop_react.Clock.{Time}
use hop_react.Clock.Unix.{unix, from_unix, null_int, time_from}
use hop_react.Models.{State, WatchState}
use hop_react.Store.Tables.{Db, StateRow, EventRow}

unfoldable pub scan_state : StateRow → WatchState
scan_state row = record {
  watch_id = row.watch_id;
  rule_id = row.rule_id;
  state = row.state;
  since = from_unix row.since;
  consecutive = row.consecutive;
  observed_at = time_from row.observed_at;
  alerting_since = time_from row.alerting_since;
  last_notified = time_from row.last_notified_at;
  notify_count = row.notify_count;
  seeded = row.seeded;
}

unfoldable pub state_row : WatchState → StateRow
state_row st = record {
  watch_id = st.watch_id;
  rule_id = st.rule_id;
  state = st.state;
  since = unix st.since;
  consecutive = st.consecutive;
  observed_at = null_int st.observed_at;
  alerting_since = null_int st.alerting_since;
  last_notified_at = null_int st.last_notified;
  notify_count = st.notify_count;
  seeded = st.seeded;
}

abbrev pub is_row : ℕ → ℕ → StateRow → Bool
is_row w r row = row.watch_id == w && row.rule_id == r

-- The INSERT with its ON CONFLICT(watch_id, rule_id) DO UPDATE.
unfoldable pub put_state : StateRow → List StateRow → List StateRow
put_state st [] = st ∷ []
put_state st (row ∷ rows) =
    if is_row st.watch_id st.rule_id row then st ∷ rows else row ∷ put_state st rows

unfoldable pub save_watch_state : WatchState → Db → Db
save_watch_state st db = record db { watch_state = put_state (state_row st) db.watch_state }

-- The entry for a watch and a rule of the map that AllWatchState builds.
unfoldable pub find_row : ℕ → ℕ → List StateRow → Option StateRow
find_row w r [] = none
find_row w r (row ∷ rows) = if is_row w r row then some row else find_row w r rows

abbrev pub scanned : Option StateRow → Option WatchState
scanned none = none
scanned (some row) = some (scan_state row)

unfoldable pub all_watch_state : Db → ℕ → ℕ → Option WatchState
all_watch_state db w r = scanned (find_row w r db.watch_state)

unfoldable pub record_alert_event : Time → ℕ → ℕ → Text → State → State → ℕ → Bool → Db → Db
record_alert_event now w r label from to run notified db = record db {
  alert_events =
      db.alert_events
      ++ record {
        watch_id = w;
        rule_id = r;
        signal = label;
        from_state = from;
        to_state = to;
        at = unix now;
        poll_run_id = run;
        notified = notified;
      }
        ∷ [];
}
