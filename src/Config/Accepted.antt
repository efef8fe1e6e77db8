-- ===== src/Config/Accepted.antt =====
-- What the parts may rely on once the configuration is accepted.
use hop_react.Common.{
  ℕ, ◌≡◌, ◌<◌, ◌≤ℤ◌, ◌⊎◌, inl, inr, refl, Bool, true, false, not, ◌&&◌, ◌||◌, Option, none, some,
  List, [], ◌∷◌, Text, ℤ, pos, negsuc, pos_part, leb_ℤ, ltb, Bool-cases, if◌then◌else◌, arith,
}
use hop_react.Floats.{Float64}
use hop_react.Models.Battery.{BatteryReadings, BatteryRule}
use hop_react.Alert.Battery.Levels.{resolve_battery_levels}
use hop_react.Poller.Battery.{BatteryConfig, battery_levels_for}
use hop_react.Config.{
  Config, ConfigError, BatterySettings, first_error, and_then, lt_ℤ, is_unset, is_out_of_range,
  or_default, core_scope_low_mv, core_scope_critical_mv, validate_status, validate_battery,
  validate,
}

-- Some check of the sequence fails.
abbrev fails : List (Bool × ConfigError) → Bool
fails [] = false
fails ((b, e) ∷ rest) = b || fails rest

first_error-fails : (cs : List (Bool × ConfigError)) → first_error cs ≡ none → fails cs ≡ false
unfolding first_error
first_error-fails [] h = refl
first_error-fails ((b, e) ∷ rest) h = ground (arith, first_error-fails rest)

if_on :
    {x : Bool} {y : Option ConfigError} → x ≡ true → (if not x then none else y) ≡ none → y ≡ none
if_on e h = ground (arith, e, h)

-- The settings as the battery check reads them.
abbrev pub settings_of : BatterySettings → BatteryConfig
settings_of b = record {
  enabled = b.enabled;
  check_every = b.check_every;
  low_mv = pos_part b.low_mv;
  critical_mv = pos_part b.critical_mv;
  overcharge_mv = pos_part b.overcharge_mv;
  confirm_readings = pos_part b.confirm_readings;
  recover_margin_mv = pos_part b.recover_margin_mv;
}

-- The level that is used, in numbers.
abbrev level_of : ℕ → ℕ → ℕ
level_of mv d = if ltb 0 mv then mv else d

set_level :
    (mv : ℤ) (d : ℕ) → is_out_of_range mv ≡ false → or_default mv d ≡ pos (level_of (pos_part mv) d)
set_level (pos n) d h = ground arith
set_level (negsuc n) d h = ground (arith, h)

set_exact :
    (mv : ℤ)
    → is_out_of_range mv ≡ false
    → is_unset mv ≡ false
    → (mv ≡ pos (pos_part mv)) × (0 < pos_part mv)
set_exact (pos n) h u = (refl, ground (arith, u))
set_exact (negsuc n) h u = absurd (ground (arith, h))

module _ (is_http_url is_timezone : Text → Bool) where
  record InOrder (b : BatterySettings) : Type 0 where
    low_range : is_out_of_range b.low_mv ≡ false
    critical_range : is_out_of_range b.critical_mv ≡ false
    ordered :
        leb_ℤ
          (or_default b.low_mv core_scope_low_mv)
          (or_default b.critical_mv core_scope_critical_mv)
        ≡ false
    over_set : is_unset b.overcharge_mv ≡ false
    over_range : is_out_of_range b.overcharge_mv ≡ false
    over_above : leb_ℤ b.overcharge_mv (or_default b.low_mv core_scope_low_mv) ≡ false

  validate_battery-InOrder :
      (b : BatterySettings)
      → b.enabled ≡ true
      → validate_battery is_http_url is_timezone b ≡ none
      → InOrder b
  unfolding validate_battery
  validate_battery-InOrder b e h =
      let none_fails = first_error-fails _ (if_on {x = b.enabled} e h) in
      record {
        low_range = ground (arith, none_fails);
        critical_range = ground (arith, none_fails);
        ordered = ground (arith, none_fails);
        over_set = ground (arith, none_fails);
        over_range = ground (arith, none_fails);
        over_above = ground (arith, none_fails);
      }

  -- With an accepted configuration whose battery alerts are on, and a CoreScope at its default
  -- thresholds, a rule that sets no level of its own judges against a critical level below its low
  -- one, and an overcharge level that is off or above both.
  pub validate_battery-levels :
      (b : BatterySettings) (r : BatteryRule) (rd : BatteryReadings)
      → b.enabled ≡ true
      → validate_battery is_http_url is_timezone b ≡ none
      → r.low_mv ≡ 0
      → r.critical_mv ≡ 0
      → r.overcharge_mv ≡ 0
      → rd.cs_low_mv ≡ core_scope_low_mv
      → rd.cs_critical_mv ≡ core_scope_critical_mv
      → let lv = battery_levels_for r (settings_of b) rd in
        (lv.critical_mv < lv.low_mv) × ((lv.overcharge_mv ≡ 0) ⊎ (lv.low_mv < lv.overcharge_mv))
  unfolding battery_levels_for resolve_battery_levels
  validate_battery-levels b r rd e h rl rc ro cl cc =
      let o = validate_battery-InOrder b e h in
      let low = set_level b.low_mv core_scope_low_mv o.low_range in
      let crit = set_level b.critical_mv core_scope_critical_mv o.critical_range in
      let over = set_exact b.overcharge_mv o.over_range o.over_set in
      (
        ground (arith, rl, rc, cl, cc, low, crit, o.ordered),
        elim (Bool-cases r.overcharge_on) [
          | inr off ↦ inl (ground (arith, off))
          | inl on ↦ inr (ground (arith, on, rl, ro, cl, low, over.0, over.1, o.over_above))
        ],
      )

  module _ (fl : Float64) where
    and_then-none : (a b : Option ConfigError) → and_then a b ≡ none → (a ≡ none) × (b ≡ none)
    and_then-none none b h = (refl, h)
    and_then-none (some e) b h = (h, ground (arith, h))

    -- The rails that the parts of the program rely on.
    pub record Rails (c : Config fl) : Type 0 where
      pub confirms : pos 1 ≤ℤ c.confirm_polls
      pub some_alerts : pos 1 ≤ℤ c.max_new_alerts_per_poll
      pub some_watches : pos 1 ≤ℤ c.max_watches_per_user
      pub some_polls : pos 1 ≤ℤ c.max_polls_without_advance
      pub fraction_of_alerts : fl.lt (fl.of_int 1) c.max_new_alert_fraction ≡ false
      pub fraction_of_nodes : fl.lt (fl.of_int 1) c.min_node_fraction ≡ false
      pub tiers :
          c.status.enabled ≡ true
          → lt_ℤ (pos 0) c.status.quiet_hours
              && lt_ℤ c.status.quiet_hours c.status.concern_hours
              && lt_ℤ c.status.concern_hours c.status.alarm_hours
            ≡ true

    -- An accepted configuration confirms over at least one poll, has limits of at least one alert,
    -- watch and poll, fractions not above one, and, where the status board is on, tiers that rise.
    pub validate-Rails : (c : Config fl) → validate is_http_url is_timezone fl c ≡ none → Rails c
    unfolding validate validate_status
    validate-Rails c h =
        let (basic, rest) = and_then-none _ _ h in
        let (board, rest') = and_then-none (validate_status c.status) _ rest in
        let (alerts, battery) = and_then-none _ _ rest' in
        let basic_fails = first_error-fails _ basic in
        let alert_fails = first_error-fails _ alerts in
        record {
          confirms = ground (arith, alert_fails);
          some_alerts = ground (arith, alert_fails);
          some_watches = ground (arith, alert_fails);
          some_polls = ground (arith, basic_fails);
          fraction_of_alerts = ground (arith, alert_fails);
          fraction_of_nodes = ground (arith, basic_fails);
          tiers = λ on.
              let tier_fails =
                first_error-fails _ (and_then-none _ _ (if_on {x = c.status.enabled} on board)).0 in
              ground (arith, tier_fails);
        }
