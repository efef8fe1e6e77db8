-- ===== src/Store/Tables.antt =====
-- The tables of internal/store/migrations, as far as the model uses them, with their rows in the
-- order of their ids. Time columns hold unix seconds; the types of a rule and the payload of a
-- message are kept as values, where the source keeps their texts.
use hop_react.Common.{ℕ, suc, Bool, Option, List, [], ◌∷◌, Text, ℤ, ltb, if◌then◌else◌}
use hop_react.Alert.Battery.Levels.{BatteryLevel}
use hop_react.Models.Battery.{BatteryStatus, BatteryPayload, BatteryEnabledPayload}
use hop_react.Models.{Kind, State, Rule, Direction, PollStatus}

pub record TargetRow : Type 0 where
  pub kind : Kind
  pub key : Text
  pub name : Text
  pub role : Text
  pub last_seen_at : Option ℤ
  pub last_relayed_at : Option ℤ
  pub relay_ever_observed_at : Option ℤ
  pub last_packet_at : Option ℤ
  pub relay_count_1h : ℕ
  pub relay_count_24h : ℕ
  pub first_indexed_at : ℤ
  pub last_in_feed_at : ℤ
  pub updated_at : ℤ

pub record WatchRow : Type 0 where
  pub id : ℕ
  pub user_id : ℕ
  pub target_kind : Kind
  pub target_key : Text
  pub threshold_hours : ℕ
  pub alert_on_relay : Bool
  pub label : Text
  pub muted_until : Option ℤ
  pub notify_recovery : Bool
  pub created_at : ℤ
  pub battery_added_at : Option ℤ

pub record StateRow : Type 0 where
  pub watch_id : ℕ
  pub rule_id : ℕ
  pub state : State
  pub since : ℤ
  pub consecutive : ℕ
  pub observed_at : Option ℤ
  pub alerting_since : Option ℤ
  pub last_notified_at : Option ℤ
  pub notify_count : ℕ
  pub seeded : Bool

pub record ActivityRow : Type 0 where
  pub kind : Kind
  pub key : Text
  pub payload_type : ℕ
  pub direction : Direction
  pub last_at : ℤ
  pub evidence_count : ℕ

pub record CursorRow : Type 0 where
  pub low_packet_id : ℕ
  pub last_packet_id : ℕ
  pub updated_at : ℤ
  pub backfilled_at : ℤ

pub record PollRunRow : Type 0 where
  pub id : ℕ
  pub started_at : ℤ
  pub finished_at : Option ℤ
  pub status : PollStatus
  pub node_count : ℕ
  pub observer_count : ℕ
  pub advanced_count : ℕ
  pub evaluated : Bool

-- The kinds of a queued message.
pub data NoteKind : Type 0 where
  alert recovered battery battery_enabled : NoteKind

pub record RuleTrip : Type 0 where
  pub label : Text
  pub threshold_hours : ℕ
  pub last_seen_unix : ℤ

pub record AlertPayload : Type 0 where
  pub kind : NoteKind
  pub target_kind : Kind
  pub target_key : Text
  pub target_name : Text
  pub rules : List RuleTrip

pub data Payload : Type 0 where
  alert_payload : AlertPayload → Payload
  battery_payload : BatteryPayload → Payload
  battery_enabled_payload : BatteryEnabledPayload → Payload

pub record NotificationRow : Type 0 where
  pub id : ℕ
  pub user_id : ℕ
  pub kind : NoteKind
  pub payload : Payload
  pub created_at : ℤ
  pub send_after : ℤ
  pub attempts : ℕ
  pub sent_at : Option ℤ
  pub last_error : Option Text

pub record EventRow : Type 0 where
  pub watch_id : ℕ
  pub rule_id : ℕ
  pub signal : Text
  pub from_state : State
  pub to_state : State
  pub at : ℤ
  pub poll_run_id : ℕ
  pub notified : Bool

pub record UserRow : Type 0 where
  pub id : ℕ
  pub discord_id : Text
  pub username : Text
  pub avatar : Option Text
  pub created_at : ℤ
  pub last_login_at : ℤ
  pub dm_ok : Bool
  pub dm_failed_reason : Option Text
  pub dm_checked_at : Option ℤ
  pub auto_battery : Bool
  pub battery_banner : ℕ

pub record SessionRow : Type 0 where
  pub token_hash : Text
  pub user_id : ℕ
  pub csrf_token : Text
  pub created_at : ℤ
  pub expires_at : ℤ

pub record BatteryRuleRow : Type 0 where
  pub watch_id : ℕ
  pub low_mv : Option ℕ
  pub critical_mv : Option ℕ
  pub overcharge_on : Bool
  pub overcharge_mv : Option ℕ
  pub created_at : ℤ
  pub level : BatteryLevel
  pub since : ℤ
  pub candidate : BatteryLevel
  pub candidate_count : ℕ
  pub last_reading_at : Option ℤ
  pub last_mv : Option ℕ
  pub announced : BatteryLevel

pub record BatteryReadingsRow : Type 0 where
  pub key : Text
  pub status : BatteryStatus
  pub latest_mv : ℕ
  pub latest_at : Option ℤ
  pub reporter : Text
  pub stale : Bool
  pub cs_low_mv : ℕ
  pub cs_critical_mv : ℕ
  pub samples : List (ℤ × ℕ)
  pub fetched_at : ℤ

pub record Db : Type 0 where
  pub users : List UserRow
  pub sessions : List SessionRow
  pub targets : List TargetRow
  pub watches : List WatchRow
  pub watch_rules : List Rule
  pub watch_state : List StateRow
  pub target_activity : List ActivityRow
  pub feed_cursor : Option CursorRow
  pub poll_runs : List PollRunRow
  pub notifications : List NotificationRow
  pub alert_events : List EventRow
  pub battery_rules : List BatteryRuleRow
  pub battery_readings : List BatteryReadingsRow

-- The id that an INTEGER PRIMARY KEY gives a new row.
abbrev pub next_id : List ℕ → ℕ
next_id [] = 1
next_id (i ∷ is) = let n = next_id is in if ltb i n then n else suc i
