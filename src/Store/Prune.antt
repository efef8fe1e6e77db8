-- ===== src/Store/Prune.antt =====
-- Prune of internal/store/queries.go.
use hop_react.Common.{
  ℕ, ◌*◌, ◌-◌, ◌≤◌, ◌+◌, ◌≡◌, refl, ap, Bool, false, not, Option, none, some, List, [], ◌∷◌,
  if◌then◌else◌, leb_ℤ, ℤ, ◌≤ℤ◌, take, arith,
}
use hop_react.Clock.{Time, hour}
use hop_react.Clock.Unix.{unix}
use hop_react.Store.Tables.{Db, PollRunRow, NotificationRow, EventRow, UserRow}
use hop_react.Store.Outbox.{due, pending_notifications}
use hop_react.Store.Runs.{max_count, max_recent_node_count}

abbrev poll_run_retention : ℕ
poll_run_retention = 30 * 24 * hour

abbrev notification_retention : ℕ
notification_retention = 90 * 24 * hour

abbrev alert_event_retention : ℕ
alert_event_retention = 365 * 24 * hour

abbrev pub older : ℤ → ℤ → Bool
older t cutoff = not (leb_ℤ cutoff t)

unfoldable pub keep_runs : ℤ → List PollRunRow → List PollRunRow
keep_runs cutoff [] = []
keep_runs cutoff (r ∷ rs) =
    if older r.started_at cutoff then keep_runs cutoff rs else r ∷ keep_runs cutoff rs

abbrev pub sent_before : ℤ → Option ℤ → Bool
sent_before cutoff none = false
sent_before cutoff (some t) = older t cutoff

unfoldable pub keep_notes : ℤ → List NotificationRow → List NotificationRow
keep_notes cutoff [] = []
keep_notes cutoff (n ∷ ns) =
    if sent_before cutoff n.sent_at then keep_notes cutoff ns else n ∷ keep_notes cutoff ns

unfoldable pub keep_events : ℤ → List EventRow → List EventRow
keep_events cutoff [] = []
keep_events cutoff (e ∷ es) =
    if older e.at cutoff then keep_events cutoff es else e ∷ keep_events cutoff es

-- Prune, without the count of rows. `now` is later than a year after Go's zero time.
unfoldable pub prune : Time → Db → Db
prune now db = record db {
  poll_runs = keep_runs (unix (now - poll_run_retention)) db.poll_runs;
  notifications = keep_notes (unix (now - notification_retention)) db.notifications;
  alert_events = keep_events (unix (now - alert_event_retention)) db.alert_events;
}

due_keep :
    (now : Time) (us : List UserRow) (cutoff : ℤ) (ns : List NotificationRow)
    → due now us (keep_notes cutoff ns) ≡ due now us ns
unfolding due keep_notes
due_keep now us cutoff [] = refl
due_keep now us cutoff (n ∷ ns) = ground (arith, due_keep now us cutoff ns)

-- Pruning, at any time, loses no message that is still to be sent.
pub pending_notifications-prune :
    (now later : Time) (limit : ℕ) (db : Db)
    → pending_notifications later limit (prune now db) ≡ pending_notifications later limit db
unfolding pending_notifications prune
pending_notifications-prune now later limit db =
    ap (take limit) (due_keep later db.users (unix (now - notification_retention)) db.notifications)

max_count_keep :
    (since cutoff : ℤ) (rows : List PollRunRow)
    → cutoff ≤ℤ since
    → max_count since (keep_runs cutoff rows) ≡ max_count since rows
unfolding max_count keep_runs
max_count_keep since cutoff [] h = refl
max_count_keep since cutoff (row ∷ rows) h = ground (arith, max_count_keep since cutoff rows h)

unix_mono : (a b : Time) → a ≤ b → unix a ≤ℤ unix b
unfolding unix
unix_mono a b h = ground arith

-- Pruning leaves the peak node count that the next polls are measured against: the peak of a
-- window that starts no earlier than thirty days before the pruning is what it was.
max_recent_node_count-prune :
    (now since : Time) (db : Db)
    → now ≤ since + 30 * 24 * hour
    → max_recent_node_count since (prune now db) ≡ max_recent_node_count since db
unfolding max_recent_node_count prune
max_recent_node_count-prune now since db h =
    max_count_keep (unix since) (unix (now - poll_run_retention)) db.poll_runs
      (unix_mono (now - poll_run_retention) since (omega arith))
