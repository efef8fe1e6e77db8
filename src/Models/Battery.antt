-- ===== src/Models/Battery.antt =====
-- What the battery tables and messages hold: internal/store/battery.go, the payloads of
-- internal/poller/battery.go and the statuses of internal/corescope/battery.go. A level is kept as
-- the alert package's level, `absent` for the empty string.
use hop_react.Common.{ℕ, Bool, true, false, List, Text, ℤ}
use hop_react.Clock.{Time}
use hop_react.Alert.Battery.Levels.{BatteryLevel}
use hop_react.Alert.Battery.{Message}

-- `other` is a status that no constant names.
pub data BatteryStatus : Type 0 where
  fine low critical no_battery unknown : BatteryStatus
  other : Text → BatteryStatus

abbrev pub has_battery : BatteryStatus → Bool
has_battery fine = true
has_battery low = true
has_battery critical = true
has_battery _ = false

abbrev pub is_no_battery : BatteryStatus → Bool
is_no_battery no_battery = true
is_no_battery _ = false

pub record BatterySample : Type 0 where
  pub at : Time
  pub mv : ℕ

pub record BatteryReadings : Type 0 where
  pub key : Text
  pub status : BatteryStatus
  pub latest_mv : ℕ
  pub latest_at : Time
  pub reporter : Text
  pub stale : Bool
  pub cs_low_mv : ℕ
  pub cs_critical_mv : ℕ
  pub samples : List BatterySample
  pub fetched_at : Time

pub record BatteryRule : Type 0 where
  pub watch_id : ℕ
  pub low_mv : ℕ
  pub critical_mv : ℕ
  pub overcharge_on : Bool
  pub overcharge_mv : ℕ
  pub created_at : Time
  pub level : BatteryLevel
  pub since : Time
  pub candidate : BatteryLevel
  pub candidate_count : ℕ
  pub last_reading_at : Time
  pub last_mv : ℕ
  pub announced : BatteryLevel

-- The JSON body of a battery message; its Kind is always KindBattery.
pub record BatteryPayload : Type 0 where
  pub level : Message
  pub target_key : Text
  pub target_name : Text
  pub mv : ℕ
  pub read_unix : ℤ
  pub reporter : Text
  pub fired_unix : ℤ
  pub low_mv : ℕ
  pub critical_mv : ℕ
  pub overcharge_mv : ℕ
  pub samples : List (ℤ × ℕ)

pub record BatteryEnabledItem : Type 0 where
  pub name : Text
  pub mv : ℕ
  pub level : BatteryLevel

pub record BatteryEnabledPayload : Type 0 where
  pub repeaters : List BatteryEnabledItem
  pub low_mv : ℕ
  pub critical_mv : ℕ
