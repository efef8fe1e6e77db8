-- ===== src/Examples/Feed.antt =====
-- A poll that lost a third of its nodes, and a mesh of which most goes quiet at once.
use hop_react.Common.{◌≤◌, ◌<◌, ◌≡◌, ◌≢◌, ◌↔◌, ◌⊎◌, true, false, none}
use hop_react.Models.{poll_ok, poll_failed}
use hop_react.Alert.Feed.{FeedInputs, judge_feed, peak_floor, BreakerInputs}
use hop_react.Alert.Feed.Verdicts.{judge_feed-poll_ok}
use hop_react.Examples.Floats.{hundredths}

abbrev shrunk : FeedInputs hundredths
shrunk = record {
  fetch_err = none;
  node_count = 200;
  max_recent_node_count = 300;
  advanced = 40;
  consecutive_non_advancing = 0;
  min_nodes = 100;
  min_node_fraction = 50;
  max_polls_without_advance = 2;
  have_baseline = true;
}

abbrev whole_mesh : FeedInputs hundredths
whole_mesh = record shrunk { node_count = 310 }

judge_feed-poll_ok_example :
    (((judge_feed hundredths shrunk).status ≡ poll_ok) ↔ (
      (shrunk.fetch_err ≡ none)
      × (100 ≤ 200)
      × ((shrunk.max_recent_node_count ≡ 0) ⊎ (peak_floor hundredths shrunk ≤ 200))
      × ((true ≡ false) ⊎ (0 < 40) ⊎ (0 < 2))))
    × (((judge_feed hundredths shrunk).status ≡ poll_failed) ↔ (shrunk.fetch_err ≢ none))
judge_feed-poll_ok_example = judge_feed-poll_ok hundredths shrunk

abbrev storm : BreakerInputs hundredths
storm = record { entering = 18; active_signals = 30; max_per_poll = 20; max_fraction = 50 }
