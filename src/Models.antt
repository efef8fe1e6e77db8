-- ===== src/Models.antt =====
-- The data that the parts share: internal/store/models.go, and the observations and packets of
-- internal/corescope/corescope.go. Times stand in Clock.
pub mod Battery
use hop_react.Common.{ℕ, ◌≡◌, arith, Bool, Text, List, true, false}
use hop_react.Clock.{Time}

-- The Kind constants "node" and "observer"; the database admits no other.
pub data Kind : Type 0 where
  node observer : Kind

abbrev pub kind_eq : Kind → Kind → Bool
kind_eq node node = true
kind_eq observer observer = true
kind_eq _ _ = false

pub kind_eq_iff : (a b : Kind) → (kind_eq a b ≡ true) → a ≡ b
kind_eq_iff a b h = ground arith

-- A State is a string in the source; `other` is a value that no constant names.
pub data State : Type 0 where
  unknown ok pending alerting recovering : State
  other : Text → State

pub data Source : Type 0 where
  seen relayed packets types : Source
  other : Text → Source

pub data Direction : Type 0 where
  sent carried either : Direction

abbrev pub direction_eq : Direction → Direction → Bool
direction_eq sent sent = true
direction_eq carried carried = true
direction_eq either either = true
direction_eq _ _ = false

pub record Rule : Type 0 where
  pub id : ℕ
  pub watch_id : ℕ
  pub label : Text
  pub source : Source
  pub types : List ℕ
  pub direction : Direction
  pub threshold_hours : ℕ
  pub created_at : Time

pub record Activity : Type 0 where
  pub payload_type : ℕ
  pub direction : Direction
  pub last_at : Time
  pub evidence_count : ℕ

pub record WatchState : Type 0 where
  pub watch_id : ℕ
  pub rule_id : ℕ
  pub state : State
  pub since : Time
  pub consecutive : ℕ
  pub observed_at : Time
  pub alerting_since : Time
  pub last_notified : Time
  pub notify_count : ℕ
  pub seeded : Bool

pub record Watch : Type 0 where
  pub id : ℕ
  pub user_id : ℕ
  pub target_kind : Kind
  pub target_key : Text
  pub threshold_hours : ℕ
  pub template_id : Text
  pub alert_on_relay : Bool
  pub label : Text
  pub muted_until : Time
  pub notify_recovery : Bool
  pub created_at : Time
  pub battery_added_at : Time
  pub no_battery : Bool
  pub with_battery : Bool

-- What CoreScope says of one node or observer. Positions and scores are left out.
pub record Observation : Type 0 where
  pub kind : Kind
  pub key : Text
  pub name : Text
  pub role : Text
  pub last_seen : Time
  pub last_relayed : Time
  pub last_packet : Time
  pub relay_count_1h : ℕ
  pub relay_count_24h : ℕ

pub record Packet : Type 0 where
  pub id : ℕ
  pub at : Time
  pub payload_type : ℕ
  pub route_type : ℕ
  pub path_hops : List Text
  pub advert_pub_key : Text

pub data PollStatus : Type 0 where
  poll_ok poll_failed poll_suspect : PollStatus
