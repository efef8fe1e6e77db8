-- ===== src/Config.antt =====
-- Validate of internal/config/config.go, on the fields that it reads. An error is a value that names
-- its message. Whether url.Parse finds an http(s) URL with a host in a text, and whether
-- time.LoadLocation knows a name, are parameters.
pub mod Accepted
use hop_react.Common.{
  ℕ, suc, ◌*◌, Bool, true, false, not, ◌&&◌, ◌||◌, Option, none, some, List, [], ◌∷◌, Text, text_eq,
  codes, ℤ, pos, negsuc, leb_ℤ, ◌==◌, if◌then◌else◌, leb,
}
use hop_react.Clock.{Duration}
use hop_react.Clock.Unix.{second}
use hop_react.Floats.{Float64}
use hop_react.Poller.Label.{is_blank_text}

pub record ServiceCheck : Type 0 where
  pub name : Text
  pub kind : Text
  pub target : Text

pub record StatusConfig : Type 0 where
  pub enabled : Bool
  pub quiet_hours : ℤ
  pub concern_hours : ℤ
  pub alarm_hours : ℤ
  pub recent_hours : ℤ
  pub recent_limit : ℤ
  pub stale_after_days : ℤ
  pub core_grace_days : ℤ
  pub services : List ServiceCheck
  pub service_interval : Duration

pub record BatterySettings : Type 0 where
  pub enabled : Bool
  pub check_every : Duration
  pub confirm_readings : ℤ
  pub recover_margin_mv : ℤ
  pub low_mv : ℤ
  pub critical_mv : ℤ
  pub overcharge_mv : ℤ
  pub timezone : Text
  pub weather : Bool
  pub weather_url : Text

pub record Config (fl : Float64) : Type 0 where
  pub data_dir : Text
  pub base_url : Text
  pub listen : Text
  pub api_url : Text
  pub request_timeout_seconds : ℤ
  pub poll_interval : Duration
  pub min_nodes : ℤ
  pub min_node_fraction : fl.F
  pub max_polls_without_advance : ℤ
  pub packet_limit : ℤ
  pub backfill_hours : ℤ
  pub confirm_polls : ℤ
  pub max_new_alerts_per_poll : ℤ
  pub max_new_alert_fraction : fl.F
  pub max_watches_per_user : ℤ
  pub status : StatusConfig
  pub battery : BatterySettings

pub data ConfigError : Type 0 where
  no_data_dir no_base_url base_url_scheme base_url_slash no_listen no_api_url : ConfigError
  bad_request_timeout bad_poll_interval bad_min_nodes bad_min_node_fraction : ConfigError
  bad_max_polls_without_advance bad_packet_limit bad_backfill_hours : ConfigError
  bad_quiet_hours bad_concern_hours bad_alarm_hours bad_recent_hours : ConfigError
  bad_core_grace_days bad_stale_after_days bad_recent_limit bad_service_interval : ConfigError
  incomplete_service unknown_service_kind : ℕ → ConfigError
  bad_confirm_polls bad_max_new_alerts bad_max_new_alert_fraction bad_max_watches : ConfigError
  bad_check_every bad_weather_url bad_confirm_readings bad_recover_margin : ConfigError
  bad_low_mv bad_critical_mv bad_overcharge_mv inverted_levels : ConfigError
  bad_timezone no_overcharge_mv overcharge_too_low : ConfigError

abbrev pub lt_ℤ : ℤ → ℤ → Bool
lt_ℤ a b = not (leb_ℤ b a)

unfoldable pub has_prefix : Text → Text → Bool
has_prefix s [] = true
has_prefix [] (c ∷ p) = false
has_prefix (a ∷ s) (c ∷ p) = a == c && has_prefix s p

-- strings.HasSuffix(s, "/").
unfoldable pub ends_in_slash : Text → Bool
ends_in_slash [] = false
ends_in_slash (c ∷ []) = c == 47
ends_in_slash (c ∷ d ∷ s) = ends_in_slash (d ∷ s)

-- A sequence of `if … { return … }`.
unfoldable pub first_error : List (Bool × ConfigError) → Option ConfigError
first_error [] = none
first_error ((fails, e) ∷ rest) = let next = first_error rest in if fails then some e else next

abbrev pub and_then : Option ConfigError → Option ConfigError → Option ConfigError
and_then (some e) next = some e
and_then none next = next

abbrev pub min_poll_interval : ℕ
min_poll_interval = 60 * second

abbrev pub min_battery_mv : ℕ
min_battery_mv = 2500

abbrev pub max_battery_mv : ℕ
max_battery_mv = 4500

abbrev pub core_scope_low_mv : ℕ
core_scope_low_mv = 3300

abbrev pub core_scope_critical_mv : ℕ
core_scope_critical_mv = 3000

abbrev pub is_unset : ℤ → Bool
is_unset (pos n) = n == 0
is_unset (negsuc n) = false

abbrev pub is_out_of_range : ℤ → Bool
is_out_of_range mv =
    not (is_unset mv) && (lt_ℤ mv (pos min_battery_mv) || lt_ℤ (pos max_battery_mv) mv)

abbrev pub or_default : ℤ → ℕ → ℤ
or_default mv d = if is_unset mv then pos d else mv

abbrev pub is_empty_text : Text → Bool
is_empty_text [] = true
is_empty_text (_ ∷ _) = false

abbrev pub is_known_kind : Text → Bool
is_known_kind k = is_empty_text k || text_eq k (codes "http") || text_eq k (codes "tcp")

unfoldable pub check_services : ℕ → List ServiceCheck → Option ConfigError
check_services i [] = none
check_services i (sc ∷ rest) =
    let next = check_services (suc i) rest in
    if is_empty_text sc.name || is_empty_text sc.target
    then some (incomplete_service i)
    else if is_known_kind sc.kind
    then next
    else some (unknown_service_kind i)

unfoldable pub validate_status : StatusConfig → Option ConfigError
validate_status st =
    if not st.enabled
    then none
    else and_then
        (first_error (
          (lt_ℤ st.quiet_hours (pos 1), bad_quiet_hours)
          ∷ (leb_ℤ st.concern_hours st.quiet_hours, bad_concern_hours)
          ∷ (leb_ℤ st.alarm_hours st.concern_hours, bad_alarm_hours)
          ∷ (lt_ℤ st.recent_hours (pos 1), bad_recent_hours)
          ∷ (lt_ℤ st.core_grace_days (pos 0), bad_core_grace_days)
          ∷ (lt_ℤ st.stale_after_days (pos 0), bad_stale_after_days)
          ∷ (lt_ℤ st.recent_limit (pos 0), bad_recent_limit)
          ∷ (
            lt_ℤ (pos 0) st.service_interval && lt_ℤ st.service_interval (pos (30 * second)),
            bad_service_interval,
          )
          ∷ []))
        (check_services 0 st.services)

module _ (is_http_url is_timezone : Text → Bool) where
  unfoldable pub validate_battery : BatterySettings → Option ConfigError
  validate_battery b =
      let low = or_default b.low_mv core_scope_low_mv in
      let crit = or_default b.critical_mv core_scope_critical_mv in
      if not b.enabled
      then none
      else first_error (
          (lt_ℤ b.check_every (pos min_poll_interval), bad_check_every)
          ∷ (b.weather && not (is_http_url b.weather_url), bad_weather_url)
          ∷ (lt_ℤ b.confirm_readings (pos 1), bad_confirm_readings)
          ∷ (
            lt_ℤ b.recover_margin_mv (pos 0) || lt_ℤ (pos 500) b.recover_margin_mv,
            bad_recover_margin,
          )
          ∷ (is_out_of_range b.low_mv, bad_low_mv)
          ∷ (is_out_of_range b.critical_mv, bad_critical_mv)
          ∷ (is_out_of_range b.overcharge_mv, bad_overcharge_mv)
          ∷ (leb_ℤ low crit, inverted_levels)
          ∷ (not (is_timezone b.timezone) || is_empty_text b.timezone, bad_timezone)
          ∷ (is_unset b.overcharge_mv, no_overcharge_mv)
          ∷ (leb_ℤ b.overcharge_mv low, overcharge_too_low)
          ∷ [])

  module _ (fl : Float64) where
    unfoldable pub validate : Config fl → Option ConfigError
    validate c =
        and_then
          (first_error (
            (is_blank_text c.data_dir, no_data_dir)
            ∷ (is_blank_text c.base_url, no_base_url)
            ∷ (
              not (has_prefix c.base_url (codes "http://"))
                  && not (has_prefix c.base_url (codes "https://")),
              base_url_scheme,
            )
            ∷ (ends_in_slash c.base_url, base_url_slash)
            ∷ (is_blank_text c.listen, no_listen)
            ∷ (is_blank_text c.api_url, no_api_url)
            ∷ (leb_ℤ c.request_timeout_seconds (pos 0), bad_request_timeout)
            ∷ (lt_ℤ c.poll_interval (pos min_poll_interval), bad_poll_interval)
            ∷ (lt_ℤ c.min_nodes (pos 0), bad_min_nodes)
            ∷ (
              fl.lt c.min_node_fraction (fl.of_int 0) || fl.lt (fl.of_int 1) c.min_node_fraction,
              bad_min_node_fraction,
            )
            ∷ (lt_ℤ c.max_polls_without_advance (pos 1), bad_max_polls_without_advance)
            ∷ (lt_ℤ c.packet_limit (pos 0) || lt_ℤ (pos 10000) c.packet_limit, bad_packet_limit)
            ∷ (lt_ℤ c.backfill_hours (pos 0) || lt_ℤ (pos 168) c.backfill_hours, bad_backfill_hours)
            ∷ []))
          (and_then (validate_status c.status) (
            and_then
              (first_error (
                (lt_ℤ c.confirm_polls (pos 1), bad_confirm_polls)
                ∷ (lt_ℤ c.max_new_alerts_per_poll (pos 1), bad_max_new_alerts)
                ∷ (
                  fl.le c.max_new_alert_fraction (fl.of_int 0)
                      || fl.lt (fl.of_int 1) c.max_new_alert_fraction,
                  bad_max_new_alert_fraction,
                )
                ∷ (lt_ℤ c.max_watches_per_user (pos 1), bad_max_watches)
                ∷ []))
              (validate_battery c.battery)))
