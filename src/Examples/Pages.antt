-- ===== src/Examples/Pages.antt =====
-- The status board, an accepted configuration and a posted form.
use hop_react.Common.{
  ℕ, ◌≡◌, ◌<◌, ◌*◌, ◌+◌, ◌-◌, ◌⊎◌, refl, Bool, true, false, ◌&&◌, ◌||◌, some, List, [], ◌∷◌, Text,
  text_eq, pos, codes, arith, if◌then◌else◌, leb, ◌==◌, ℤ,
}
use hop_react.Clock.{hour, is_zero}
use hop_react.Clock.Unix.{second}
use hop_react.Models.Battery.{BatteryStatus, BatteryReadings}
use hop_react.Store.Battery.Owner.{blank_rule}
use hop_react.Poller.Label.{is_blank_text}
use hop_react.Poller.Battery.{battery_levels_for}
use hop_react.Board.{muted, good, amber, orange, bad, StatusGroup, judge, newest_of, verdict}
use hop_react.Board.Verdicts.{
  any, totals, is_down, is_warned, empty_group, verdict_meaning, judge_exact,
}
use hop_react.Config.{
  Config, StatusConfig, BatterySettings, has_prefix, ends_in_slash, first_error, check_services,
  validate_status, validate_battery, validate,
}
use hop_react.Config.Accepted.{settings_of, Rails, validate_battery-levels, validate-Rails}
use hop_react.Web.{RuleForm, handle_add_rule}
use hop_react.Web.Fairness.{Outcome, handle_add_rule_outcome}
use hop_react.Examples.Floats.{hundredths}
use hop_react.Examples.Mesh.{hill}
use hop_react.Examples.Tables.{db, today}

-- One broken backbone repeater among healthy services.
abbrev groups : List StatusGroup
groups =
    record (empty_group true) { ok = 2; total = 2 }
    ∷ record (empty_group true) { ok = 4; late = 1; total = 5 }
    ∷ []

verdict_meaning_example : verdict groups ≡ (
    if totals groups == 0
    then muted
    else if any (λ g. g.critical && is_down g) groups
    then bad
    else if any (λ g. g.critical && is_warned g) groups
    then orange
    else if any (λ g. is_down g || is_warned g) groups
    then amber
    else good)
verdict_meaning_example = verdict_meaning groups

judge_exact_example :
    let reached = λ (n : ℕ). leb (newest_of today (today + hour) + n * hour) (today + 30 * hour) in
    (judge today (today + hour) (today + 30 * hour) 12 24 48).class ≡ (
      if is_zero (newest_of today (today + hour))
      then muted
      else if reached 48
      then bad
      else if reached 24
      then orange
      else if reached 12
      then amber
      else good)
judge_exact_example =
    judge_exact today (today + hour) (today + 30 * hour) 12 24 48 (omega arith) (omega arith)
      (omega arith)

abbrev battery : BatterySettings
battery = record {
  enabled = true;
  check_every = pos (1800 * second);
  confirm_readings = pos 2;
  recover_margin_mv = pos 100;
  low_mv = pos 3500;
  critical_mv = pos 0;
  overcharge_mv = pos 4250;
  timezone = codes "UTC";
  weather = false;
  weather_url = [];
}

abbrev board : StatusConfig
board = record {
  enabled = true;
  quiet_hours = pos 12;
  concern_hours = pos 24;
  alarm_hours = pos 48;
  recent_hours = pos 24;
  recent_limit = pos 10;
  stale_after_days = pos 14;
  core_grace_days = pos 7;
  services = [];
  service_interval = pos (60 * second);
}

abbrev config : Config hundredths
config = record {
  data_dir = codes "data";
  base_url = codes "https://hop";
  listen = codes ":8080";
  api_url = codes "https://scope";
  request_timeout_seconds = pos 20;
  poll_interval = pos (300 * second);
  min_nodes = pos 100;
  min_node_fraction = 50;
  max_polls_without_advance = pos 6;
  packet_limit = pos 600;
  backfill_hours = pos 24;
  confirm_polls = pos 2;
  max_new_alerts_per_poll = pos 10;
  max_new_alert_fraction = 30;
  max_watches_per_user = pos 20;
  status = board;
  battery = battery;
}

abbrev is_url : Text → Bool
is_url s = has_prefix s (codes "http")

abbrev is_utc : Text → Bool
is_utc s = text_eq s (codes "UTC")

validate-Rails_example : Rails is_url is_utc hundredths config
unfolding validate validate_status validate_battery first_error check_services has_prefix
    ends_in_slash is_blank_text text_eq
validate-Rails_example = validate-Rails is_url is_utc hundredths config refl

abbrev readings : BatteryReadings
readings = record {
  key = hill;
  status = BatteryStatus.fine;
  latest_mv = 3900;
  latest_at = today;
  reporter = [];
  stale = false;
  cs_low_mv = 3300;
  cs_critical_mv = 3000;
  samples = [];
  fetched_at = today;
}

validate_battery-levels_example :
    let lv = battery_levels_for (blank_rule 1) (settings_of battery) readings in
    (lv.critical_mv < lv.low_mv) × ((lv.overcharge_mv ≡ 0) ⊎ (lv.low_mv < lv.overcharge_mv))
unfolding validate_battery first_error text_eq
validate_battery-levels_example =
    validate_battery-levels is_url is_utc battery (blank_rule 1) readings refl refl refl refl refl
      refl refl

abbrev form : RuleForm
form = record {
  threshold_hours = codes "0";
  label = codes "Hill";
  template = [];
  source = codes "types";
  direction = [];
  types = codes "4" ∷ codes "4" ∷ codes "99" ∷ codes "1" ∷ [];
}

-- Numbers of one digit.
abbrev digit : Text → ℤ × Bool
digit (c ∷ []) = if leb 48 c && leb c 57 then (pos (c - 48), true) else (pos 0, false)
digit _ = (pos 0, false)

handle_add_rule_outcome_example :
    Outcome digit
      (λ s. s)
      today
      (some 2)
      1
      db
      (handle_add_rule digit (λ s. s) today (some 2) 1 form db)
handle_add_rule_outcome_example = handle_add_rule_outcome digit (λ s. s) today (some 2) 1 form db
