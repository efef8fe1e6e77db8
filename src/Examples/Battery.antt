-- ===== src/Examples/Battery.antt =====
-- A repeater whose battery sags to 3400 mV and is charged again.
use hop_react.Common.{ℕ, ◌+◌, ◌≤◌, refl, true, false, List, [], ◌∷◌}
use hop_react.Alert.Watch.{Prefs}
use hop_react.Alert.Battery.Levels.{BatteryLevels, absent, ok, classify_battery}
use hop_react.Alert.Battery.{
  BatteryReading, BatteryState, BatteryPolicy, is_recovery, evaluate_battery, new_reading, waiting,
  confirm_level,
}
use hop_react.Alert.Battery.Series.{Check, Streak, outcome, advance, confirmations, message-Streak}
use hop_react.Alert.Battery.Announcements.{
  announced_one, is_alert, messages, battery_messages_paired,
}

abbrev lipo : BatteryLevels
lipo = record { low_mv = 3500; critical_mv = 3300; overcharge_mv = 0 }

abbrev two_readings : BatteryPolicy
two_readings = record { confirm_readings = 2; recover_margin_mv = 100 }

abbrev loud : Prefs
loud = record { muted = false; notify_recovery = true }

abbrev full : BatteryState
full = record {
  level = ok;
  since = 1;
  candidate = absent;
  candidate_count = 0;
  last_reading_at = 1;
  last_mv = 4000;
  announced = absent;
}

abbrev reading : ℕ → ℕ → BatteryReading
reading at mv = record { mv = mv; at = at; has_battery = true }

abbrev check : ℕ → ℕ → Check
check at mv = record { reading = reading at mv; levels = lipo; prefs = loud }

abbrev sagging : List Check
sagging = check 3 3390 ∷ check 2 3400 ∷ []

-- The state before the second low reading.
abbrev once_low : BatteryState
once_low = advance two_readings full (check 2 3400 ∷ [])

message-Streak_example :
    Streak two_readings full (check 3 3390 ∷ check 2 3400 ∷ []) (confirmations two_readings)
unfolding outcome evaluate_battery advance classify_battery new_reading waiting confirm_level
message-Streak_example =
    message-Streak two_readings full (λ e. refl) (check 3 3390) (check 2 3400 ∷ []) refl refl

battery_messages_paired_example :
    messages is_recovery two_readings full sagging
      + announced_one (advance two_readings full sagging)
    ≤ messages is_alert two_readings full sagging
battery_messages_paired_example = battery_messages_paired two_readings full sagging refl
