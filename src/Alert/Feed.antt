-- ===== src/Alert/Feed.antt =====
-- JudgeFeed and TripBreaker of internal/alert/alert.go. A reason is the format that the source
-- prints, with the numbers that it prints.
pub mod Verdicts
use hop_react.Common.{
  ℕ, Bool, true, false, ◌&&◌, Option, none, some, ltb, leb, ◌==◌, if◌then◌else◌, Text,
}
use hop_react.Models.{PollStatus, poll_ok, poll_failed, poll_suspect}
use hop_react.Floats.{Float64}

pub data Reason : Type 0 where
  no_reason : Reason
  fetch_failed : Text → Reason
  below_floor : ℕ → ℕ → Reason
  below_peak : ℕ → ℕ → ℕ → Reason
  frozen : ℕ → Reason

pub record FeedVerdict : Type 0 where
  pub status : PollStatus
  pub reason : Reason

abbrev pub min_signals_for_fraction : ℕ
min_signals_for_fraction = 20

pub data BreakerReason : Type 0 where
  over_limit : ℕ → ℕ → BreakerReason
  over_fraction : ℕ → ℕ → BreakerReason

module _ (fl : Float64) where
  pub record FeedInputs : Type 0 where
    pub fetch_err : Option Text
    pub node_count : ℕ
    pub max_recent_node_count : ℕ
    pub advanced : ℕ
    pub consecutive_non_advancing : ℕ
    pub min_nodes : ℕ
    pub min_node_fraction : fl.F
    pub max_polls_without_advance : ℕ
    pub have_baseline : Bool

  abbrev pub peak_floor : FeedInputs → ℕ
  peak_floor x = fl.to_int (fl.mul (fl.of_int x.max_recent_node_count) x.min_node_fraction)

  abbrev pub is_frozen : FeedInputs → Bool
  is_frozen x =
      x.have_baseline
      && x.advanced == 0
      && leb x.max_polls_without_advance x.consecutive_non_advancing

  abbrev fetched : FeedInputs → FeedVerdict
  fetched x =
      if ltb x.node_count x.min_nodes
      then record { status = poll_suspect; reason = below_floor x.node_count x.min_nodes }
      else if ltb 0 x.max_recent_node_count && ltb x.node_count (peak_floor x)
      then record {
        status = poll_suspect;
        reason = below_peak x.node_count (peak_floor x) x.max_recent_node_count;
      }
      else if is_frozen x
      then record { status = poll_suspect; reason = frozen x.consecutive_non_advancing }
      else record { status = poll_ok; reason = no_reason }

  unfoldable pub judge_feed : FeedInputs → FeedVerdict
  judge_feed x = elim x.fetch_err [
    | some e ↦ record { status = poll_failed; reason = fetch_failed e }
    | none ↦ fetched x
  ]

  pub record BreakerInputs : Type 0 where
    pub entering : ℕ
    pub active_signals : ℕ
    pub max_per_poll : ℕ
    pub max_fraction : fl.F

  abbrev pub over_share : BreakerInputs → Bool
  over_share x = fl.lt x.max_fraction (fl.div (fl.of_int x.entering) (fl.of_int x.active_signals))

  unfoldable pub trip_breaker : BreakerInputs → Option BreakerReason
  trip_breaker x =
      if x.entering == 0
      then none
      else if ltb 0 x.max_per_poll && ltb x.max_per_poll x.entering
      then some (over_limit x.entering x.max_per_poll)
      else if fl.lt (fl.of_int 0) x.max_fraction
          && leb min_signals_for_fraction x.active_signals
          && over_share x
      then some (over_fraction x.entering x.active_signals)
      else none
