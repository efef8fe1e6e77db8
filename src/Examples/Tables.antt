-- ===== src/Examples/Tables.antt =====
-- A database with two users, one watched repeater and a queued message.
use hop_react.Common.{
  ℕ, ◌+◌, ◌*◌, ◌-◌, ◌≡◌, true, false, none, some, [], ◌∷◌, pos, codes, if◌then◌else◌, ◌&&◌, ◌++◌,
  suc, ltb, refl, ◌==◌,
}
use hop_react.Clock.{Time, hour}
use hop_react.Clock.Unix.{second, epoch}
use hop_react.Models.{node, WatchState, State, Rule, Source, either, poll_ok}
use hop_react.Store.Tables.{
  Db, NoteKind, UserRow, WatchRow, NotificationRow, PollRunRow, battery_enabled_payload,
}
use hop_react.Store.States.{save_watch_state, all_watch_state}
use hop_react.Store.States.Laws.{whole, all_watch_state-save}
use hop_react.Store.Targets.{find_target, upsert_targets}
use hop_react.Store.Targets.Forward.{IsForward, upsert_targets-IsForward}
use hop_react.Store.Outbox.{pending_notifications}
use hop_react.Store.Runs.{is_failed, consecutive_non_advancing_polls}
use hop_react.Store.Runs.Still.{consecutive_non_advancing_polls-snoc}
use hop_react.Store.Prune.{prune, pending_notifications-prune}
use hop_react.Examples.Mesh.{hill, mesh}

abbrev pub today : Time
today = (epoch + 1_700_000_000) * second

abbrev pub user : ℕ → UserRow
user i = record {
  id = i;
  discord_id = codes "8020";
  username = codes "kay";
  avatar = none;
  created_at = pos 1_690_000_000;
  last_login_at = pos 1_690_000_000;
  dm_ok = true;
  dm_failed_reason = none;
  dm_checked_at = none;
  auto_battery = true;
  battery_banner = 0;
}

abbrev watch_row : WatchRow
watch_row = record {
  id = 1;
  user_id = 2;
  target_kind = node;
  target_key = hill;
  threshold_hours = 12;
  alert_on_relay = false;
  label = [];
  muted_until = none;
  notify_recovery = true;
  created_at = pos 1_690_000_000;
  battery_added_at = none;
}

abbrev silent_rule : Rule
silent_rule = record {
  id = 1;
  watch_id = 1;
  label = [];
  source = Source.seen;
  types = [];
  direction = either;
  threshold_hours = 12;
  created_at = today - 24 * hour;
}

abbrev letter : NotificationRow
letter = record {
  id = 1;
  user_id = 2;
  kind = NoteKind.battery_enabled;
  payload = battery_enabled_payload (record { repeaters = []; low_mv = 3500; critical_mv = 3300 });
  created_at = pos 1_699_999_000;
  send_after = pos 1_699_999_000;
  attempts = 0;
  sent_at = none;
  last_error = none;
}

-- A believed poll and two that stood still.
abbrev run : ℕ → ℕ → PollRunRow
run i advanced = record {
  id = i;
  started_at = pos (1_699_999_000 + i);
  finished_at = some (pos (1_699_999_001 + i));
  status = poll_ok;
  node_count = 2;
  observer_count = 0;
  advanced_count = advanced;
  evaluated = true;
}

abbrev pub db : Db
db = record {
  users = user 1 ∷ user 2 ∷ [];
  sessions = [];
  targets = [];
  watches = watch_row ∷ [];
  watch_rules = silent_rule ∷ [];
  watch_state = [];
  target_activity = [];
  feed_cursor = some (record {
    low_packet_id = 10;
    last_packet_id = 20;
    updated_at = pos 1_699_999_000;
    backfilled_at = pos 1_699_000_000;
  });
  poll_runs = run 1 2 ∷ run 2 0 ∷ run 3 0 ∷ [];
  notifications = letter ∷ [];
  alert_events = [];
  battery_rules = [];
  battery_readings = [];
}

abbrev told : WatchState
told = record {
  watch_id = 1;
  rule_id = 1;
  state = State.alerting;
  since = today + 7;
  consecutive = 0;
  observed_at = 0;
  alerting_since = today + 7;
  last_notified = today + 7;
  notify_count = 1;
  seeded = false;
}

all_watch_state-save_example : all_watch_state (save_watch_state told db) 1 1 ≡ (
    if told.watch_id == 1 && told.rule_id == 1
    then some (record told {
      since = whole told.since;
      observed_at = whole told.observed_at;
      alerting_since = whole told.alerting_since;
      last_notified = whole told.last_notified;
    })
    else all_watch_state db 1 1)
all_watch_state-save_example = all_watch_state-save told db 1 1

upsert_targets-IsForward_example :
    IsForward
      (find_target node hill db.targets)
      (find_target node hill (upsert_targets today mesh db).0.targets)
upsert_targets-IsForward_example = upsert_targets-IsForward today mesh db node hill

consecutive_non_advancing_polls-snoc_example :
    let old = consecutive_non_advancing_polls db in
    let row = run 4 0 in
    consecutive_non_advancing_polls (record db { poll_runs = db.poll_runs ++ row ∷ [] }) ≡ (
      if is_failed row.status
      then old
      else if ltb 0 row.advanced_count
      then 0
      else if ltb old 20
      then suc old
      else 20)
consecutive_non_advancing_polls-snoc_example =
    consecutive_non_advancing_polls-snoc (run 4 0) db (refl, (refl, (refl, tt)))

pending_notifications-prune_example :
    pending_notifications today 100 (prune today db) ≡ pending_notifications today 100 db
pending_notifications-prune_example = pending_notifications-prune today today 100 db
