-- ===== src/Poller/Battery/Plan.antt =====
-- checkBatteries of internal/poller/battery.go: what the check would do for every watch, and the
-- breaker.
use hop_react.Common.{
  ℕ, ◌+◌, Bool, false, not, ◌&&◌, ◌||◌, Option, none, some, List, [], ◌∷◌, ltb, if◌then◌else◌,
}
use hop_react.Clock.{Time, is_zero}
use hop_react.Models.{Kind, kind_eq, Observation, Watch}
use hop_react.Models.Battery.{
  BatteryReadings, BatteryRule, BatteryEnabledItem, has_battery, is_no_battery,
}
use hop_react.Alert.Watch.{Prefs}
use hop_react.Alert.Battery.{
  BatteryPolicy, BatteryReading, BatteryOutcome, is_recovery, evaluate_battery,
}
use hop_react.Alert.Battery.Levels.{unknown, classify_battery, BatteryLevels}
use hop_react.Store.Tables.{Db}
use hop_react.Store.Battery.{battery_rule_for}
use hop_react.Store.Battery.Owner.{blank_rule}
use hop_react.Poller.Plan.{is_muted}
use hop_react.Poller.Battery.{
  BatteryConfig, battery_levels_for, battery_state, with_battery_state, name_in, display_name, auto,
  find_report,
}

pub record Planned : Type 0 where
  pub watch : Watch
  pub old : BatteryRule
  pub rule : BatteryRule
  pub out : BatteryOutcome
  pub lv : BatteryLevels
  pub rd : BatteryReadings

pub record Addition : Type 0 where
  pub rule : BatteryRule
  pub user_id : ℕ
  pub item : BatteryEnabledItem
  pub lv : BatteryLevels
  pub muted : Bool

-- What the round of the loop for one watch appends: nothing, to `adds`, or to `plans`.
pub data Decision : Type 0 where
  skip : Decision
  add : Addition → Decision
  judge : Planned → Decision

module _ (now : Time) (cfg : BatteryConfig) (nodes : List Observation) (db : Db) where
  unfoldable pub addition : Watch → BatteryReadings → Addition
  addition w rd =
      let lv = battery_levels_for (blank_rule 0) cfg rd in
      let level = classify_battery rd.latest_mv unknown lv cfg.recover_margin_mv in
      record {
        rule = record (blank_rule w.id) {
          level = level;
          since = rd.latest_at;
          last_reading_at = rd.latest_at;
          last_mv = rd.latest_mv;
        };
        user_id = w.user_id;
        item = record {
          name = display_name (name_in w.target_key nodes []) w;
          mv = rd.latest_mv;
          level = level;
        };
        lv = lv;
        muted = is_muted now w;
      }

  unfoldable pub judgement : Watch → BatteryReadings → BatteryRule → Planned
  judgement w rd rule =
      let lv = battery_levels_for rule cfg rd in
      let reading : BatteryReading = record {
        mv = rd.latest_mv;
        at = rd.latest_at;
        has_battery = has_battery rd.status;
      } in
      let pol : BatteryPolicy = record {
        confirm_readings = cfg.confirm_readings;
        recover_margin_mv = cfg.recover_margin_mv;
      } in
      let prefs : Prefs = record { muted = is_muted now w; notify_recovery = w.notify_recovery } in
      let out = evaluate_battery reading (battery_state rule) lv pol prefs in
      record {
        watch = w;
        old = rule;
        rule = with_battery_state rule out.state;
        out = out;
        lv = lv;
        rd = rd;
      }

  abbrev pub with_rule : Watch → BatteryReadings → Option BatteryRule → Decision
  with_rule w rd none =
      if not (is_zero w.battery_added_at)
        || not (auto db w.user_id)
        || not (has_battery rd.status)
        || rd.stale
      then skip
      else add (addition w rd)
  with_rule w rd (some rule) =
      if not (has_battery rd.status) && not (is_no_battery rd.status)
      then skip
      else let pl = judgement w rd rule in if pl.out.changed then judge pl else skip

  abbrev pub with_report : Watch → Option BatteryReadings → Decision
  with_report w none = skip
  with_report w (some rd) =
      if kind_eq w.target_kind Kind.node then with_rule w rd (battery_rule_for w.id db) else skip

  unfoldable pub decide : List BatteryReadings → Watch → Decision
  decide rds w = with_report w (find_report w.target_key rds)

  abbrev pub to_adds : Decision → List Addition → List Addition
  to_adds (add a) rest = a ∷ rest
  to_adds _ rest = rest

  abbrev pub to_plans : Decision → List Planned → List Planned
  to_plans (judge pl) rest = pl ∷ rest
  to_plans _ rest = rest

  unfoldable pub adds : List BatteryReadings → List Watch → List Addition
  adds rds [] = []
  adds rds (w ∷ ws) = to_adds (decide rds w) (adds rds ws)

  unfoldable pub plans : List BatteryReadings → List Watch → List Planned
  plans rds [] = []
  plans rds (w ∷ ws) = to_plans (decide rds w) (plans rds ws)

-- An alert that would be sent: not a recovery.
abbrev pub is_alarm : Planned → Bool
is_alarm pl = pl.out.notify && not (is_recovery pl.out.kind)

unfoldable pub entering : List Planned → ℕ
entering [] = 0
entering (pl ∷ pls) = (if is_alarm pl then 1 else 0) + entering pls

-- The breaker's loop over the plans.
abbrev pub silenced : Planned → Planned
silenced pl =
    if is_alarm pl
    then record pl {
      out = record (pl.out) { notify = false };
      rule = record (pl.rule) { announced = pl.old.announced };
    }
    else pl

unfoldable pub silence : List Planned → List Planned
silence [] = []
silence (pl ∷ pls) = silenced pl ∷ silence pls

unfoldable pub after_breaker : ℕ → List Planned → List Planned
after_breaker limit pls = if ltb limit (entering pls) then silence pls else pls
