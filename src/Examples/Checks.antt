-- ===== src/Examples/Checks.antt =====
-- A battery check of one repeater whose battery is low.
use hop_react.Common.{◌≡◌, ◌≤◌, ◌+◌, refl, true, false, [], ◌∷◌, Text, pos, codes}
use hop_react.Models.Battery.{BatteryStatus}
use hop_react.Store.Battery.{find_battery_row, has_row}
use hop_react.Store.Battery.Owner.{owns}
use hop_react.Store.Owner.Acts.{delete_battery_act, acts}
use hop_react.Poller.Battery.{BatteryConfig, Answer}
use hop_react.Poller.Battery.Commit.{check_batteries}
use hop_react.Poller.Battery.Commit.Limit.{alarms, check_batteries-alarms}
use hop_react.Poller.Battery.Commit.Choice.{check_batteries-deleted}
use hop_react.Examples.Mesh.{mesh}
use hop_react.Examples.Tables.{db, today}

abbrev config : BatteryConfig
config = record {
  enabled = true;
  check_every = pos 1_800_000_000_000;
  low_mv = 3500;
  critical_mv = 3300;
  overcharge_mv = 4250;
  confirm_readings = 2;
  recover_margin_mv = 100;
}

-- Every repeater reports 3400 mV.
abbrev sagging : Text → Answer
sagging key = Answer.report (record {
  status = BatteryStatus.low;
  latest_mv = 3400;
  latest_at = today;
  reporter = codes "Valley";
  stale = false;
  low_mv = 3300;
  critical_mv = 3000;
  samples = record { at = today; mv = 3400 } ∷ [];
})

check_batteries-alarms_example :
    alarms (check_batteries today today mesh config 1 sagging [] db).notifications
    ≤ alarms (acts [] db).notifications + 1
check_batteries-alarms_example = check_batteries-alarms today today mesh config 1 sagging [] db

check_batteries-deleted_example :
    has_row (
      find_battery_row 1
        (check_batteries today today mesh config 1 sagging
          (delete_battery_act today 2 1 ∷ [])
          db).battery_rules)
    ≡ false
unfolding owns acts
check_batteries-deleted_example =
    (check_batteries-deleted today today mesh config 1 sagging [] today 2 1 db refl).0
