-- ===== src/Alert/Feed/Verdicts.antt =====
-- What JudgeFeed and TripBreaker let through.
use hop_react.Common.{◌^◌, ◌≤◌, ◌<◌, ◌≡◌, ◌≢◌, ◌↔◌, ◌⊎◌, true, false, none, arith}
use hop_react.Models.{poll_ok, poll_failed}
use hop_react.Floats.{Float64, ScalesDown}
use hop_react.Alert.Feed.{
  FeedInputs, judge_feed, peak_floor, BreakerInputs, trip_breaker, over_share,
}

module _ (fl : Float64) where
  -- A poll is believed exactly when it was fetched, reaches the floor and, once there is a peak, the
  -- peak's share, and something moved or too few polls have stood still for it to look frozen. It
  -- counts as failed exactly when the fetch failed.
  pub judge_feed-poll_ok :
      (x : FeedInputs fl)
      → (((judge_feed fl x).status ≡ poll_ok) ↔ (
          (x.fetch_err ≡ none)
          × (x.min_nodes ≤ x.node_count)
          × ((x.max_recent_node_count ≡ 0) ⊎ (peak_floor fl x ≤ x.node_count))
          × ((x.have_baseline ≡ false)
              ⊎ (0 < x.advanced)
              ⊎ (x.consecutive_non_advancing < x.max_polls_without_advance))))
        × (((judge_feed fl x).status ≡ poll_failed) ↔ (x.fetch_err ≢ none))
  unfolding judge_feed
  judge_feed-poll_ok x =
      ((λ h. grind arith, λ h. ground arith), (λ h. ground arith, λ h. ground arith))

  -- With a fraction of at most one, a fetched poll that is no smaller than the recent peak and the
  -- floor and that moved something is believed.
  judge_feed_full :
      (x : FeedInputs fl)
      → ScalesDown fl
      → x.fetch_err ≡ none
      → x.max_recent_node_count ≤ 2 ^ 53
      → fl.lt (fl.of_int 1) x.min_node_fraction ≡ false
      → x.min_nodes ≤ x.node_count
      → x.max_recent_node_count ≤ x.node_count
      → 0 < x.advanced
      → (judge_feed fl x).status ≡ poll_ok
  unfolding judge_feed
  judge_feed_full x sc e b f m p a =
      ground (arith, sc.to_int-mul_le x.max_recent_node_count x.min_node_fraction)

  -- The breaker trips exactly when some watch enters alerting and either their number passes a limit
  -- that is set or, with twenty signals or more, their share passes a fraction that is set.
  trip_breaker-none :
      (x : BreakerInputs fl)
      → (trip_breaker fl x ≢ none) ↔ (
          (0 < x.entering)
          × (((0 < x.max_per_poll) × (x.max_per_poll < x.entering))
              ⊎ ((fl.lt (fl.of_int 0) x.max_fraction ≡ true)
                  × (20 ≤ x.active_signals)
                  × (over_share fl x ≡ true))))
  unfolding trip_breaker
  trip_breaker-none x = (λ h. grind arith, λ h. ground arith)
