-- ===== src/Store/States/Laws.antt =====
-- What the state table gives back.
use hop_react.Common.{ℕ, ◌*◌, ◌/◌, ◌≡◌, refl, some, List, [], ◌∷◌, ◌==◌, ◌&&◌, if◌then◌else◌, arith}
use hop_react.Clock.{Time}
use hop_react.Clock.Unix.{second, from_unix-unix, time_from-null_int}
use hop_react.Models.{WatchState}
use hop_react.Store.Tables.{Db, StateRow}
use hop_react.Store.States.{
  scan_state, state_row, put_state, save_watch_state, find_row, all_watch_state,
}

-- A time cut to whole seconds.
abbrev pub whole : Time → Time
whole t = t / second * second

pub find_row-put_state :
    (w r : ℕ) (st : StateRow) (rows : List StateRow)
    → find_row w r (put_state st rows)
      ≡ (if st.watch_id == w && st.rule_id == r then some st else find_row w r rows)
unfolding find_row put_state
find_row-put_state w r st [] = refl
find_row-put_state w r st (row ∷ rows) = ground (arith, find_row-put_state w r st rows)

pub scan_state-state_row :
    (st : WatchState)
    → scan_state (state_row st) ≡ record st {
      since = whole st.since;
      observed_at = whole st.observed_at;
      alerting_since = whole st.alerting_since;
      last_notified = whole st.last_notified;
    }
unfolding scan_state state_row
scan_state-state_row st = cc (
  from_unix-unix st.since,
  time_from-null_int st.observed_at,
  time_from-null_int st.alerting_since,
  time_from-null_int st.last_notified,
)

row_keys :
    (st : WatchState)
    → ((state_row st).watch_id ≡ st.watch_id) × ((state_row st).rule_id ≡ st.rule_id)
unfolding state_row
row_keys st = (refl, refl)

-- After a save, the state of the saved watch and rule reads as it was written, its times cut to
-- whole seconds, and every other state reads as before.
pub all_watch_state-save :
    (st : WatchState) (db : Db) (w r : ℕ)
    → all_watch_state (save_watch_state st db) w r ≡ (
        if st.watch_id == w && st.rule_id == r
        then some (record st {
          since = whole st.since;
          observed_at = whole st.observed_at;
          alerting_since = whole st.alerting_since;
          last_notified = whole st.last_notified;
        })
        else all_watch_state db w r)
unfolding all_watch_state save_watch_state
all_watch_state-save st db w r = ground (
  arith,
  find_row-put_state w r (state_row st) db.watch_state,
  scan_state-state_row st,
  row_keys st,
)
