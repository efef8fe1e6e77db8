-- ===== src/Examples/Watch.antt =====
-- A repeater watched with a threshold of one hour and two polls to confirm.
use hop_react.Common.{
  ◌⊎◌, ltb, if◌then◌else◌, ℕ, ◌+◌, ◌*◌, ◌≡◌, ◌≢◌, ◌≤◌, ◌<◌, ◌↔◌, refl, List, [], ◌∷◌, true, false,
  none, pos, arith,
}
use hop_react.Clock.{Time, hour, sub}
use hop_react.Models.{WatchState, ok, alerting}
use hop_react.Alert.Watch.{promote, Policy, Prefs, alert, recovered, evaluate, is_over}
use hop_react.Alert.Watch.Trace.{Poll, outcome, advance, messages, Newest}
use hop_react.Alert.Watch.Diagram.{evaluate_message}
use hop_react.Alert.Watch.Lifecycle.{Sight, Shows, Edge, Rests, evaluate-Edge}
use hop_react.Alert.Watch.Flap.{side, message-confirmed}
use hop_react.Alert.Watch.Outage.{messages-Down, messages_paired}
use hop_react.Alert.Watch.Dropout.{dropout_forgets}

abbrev twice : Policy
twice = record { confirm_polls = 2 }

abbrev told : Prefs
told = record { muted = false; notify_recovery = true }

abbrev noon : Time
noon = 1000 * hour

-- A poll a number of hours after noon that saw the repeater so many hours after noon.
abbrev poll : ℕ → ℕ → Poll
poll at heard = record {
  now = noon + at * hour;
  signal = record { at = noon + heard * hour; applicable = true };
  threshold = pos hour;
  prefs = told;
}

-- A poll in which the repeater is not in the feed.
abbrev gap : ℕ → Poll
gap at = record {
  now = noon + at * hour;
  signal = record { at = 0; applicable = false };
  threshold = pos hour;
  prefs = told;
}

abbrev healthy : WatchState
healthy = record {
  watch_id = 1;
  rule_id = 1;
  state = ok;
  since = noon;
  consecutive = 0;
  observed_at = noon;
  alerting_since = 0;
  last_notified = 0;
  notify_count = 0;
  seeded = false;
}

abbrev down : WatchState
down = record healthy { state = alerting; notify_count = 1; alerting_since = noon }

abbrev outage : List Poll
outage = poll 4 0 ∷ poll 3 0 ∷ poll 2 0 ∷ []

abbrev back_up : List Poll
back_up = poll 9 9 ∷ poll 8 8 ∷ []

messages-Down_example :
    (messages alert twice healthy outage ≡ 1)
    × ((3 < 2) ⊎ ((advance twice healthy outage).state ≡ alerting))
unfolding is_over sub
messages-Down_example =
    messages-Down twice healthy outage refl (refl, refl, (refl, refl, (refl, refl, tt)))

messages_paired_example :
    messages recovered twice healthy outage
      + (if ltb 0 (advance twice healthy outage).notify_count then 1 else 0)
    ≤ messages alert twice healthy outage
messages_paired_example = messages_paired twice healthy outage refl

message-confirmed_example : Newest (side alert) 2 (poll 3 0 ∷ poll 2 0 ∷ [])
unfolding outcome advance evaluate promote is_over sub
message-confirmed_example =
    message-confirmed twice healthy (poll 3 0) (poll 2 0 ∷ []) alert refl refl

dropout_forgets_example :
    let t = advance twice down (poll 6 0 ∷ gap 5 ∷ []) in
    (t.notify_count ≡ 0)
    × ((advance twice t back_up).state ≡ ok)
    × (messages recovered twice t back_up ≡ 0)
unfolding is_over sub
dropout_forgets_example =
    dropout_forgets twice down (gap 5) (poll 6 0) back_up refl refl refl
      (refl, refl, refl, (refl, refl, refl, tt)) (omega arith)

evaluate-Edge_example :
    let out = evaluate noon (poll 0 0).signal healthy (pos hour) told twice in
    (t : Sight) × Shows noon (poll 0 0).signal (pos hour) t
    × (((out.changed ≡ true) × Edge 2 t ok 0 out.state.state out.state.consecutive)
        ⊎ ((out.changed ≡ false)
            × Rests t ok 0 out.state.consecutive
            × (out.state ≡ record healthy {
              observed_at = noon + 0 * hour;
              consecutive = out.state.consecutive;
            })))
evaluate-Edge_example = evaluate-Edge noon (poll 0 0).signal healthy (pos hour) told twice

evaluate_message_example :
    (((evaluate noon (poll 0 0).signal down (pos hour) told twice).notify ≡ true)
      ↔ ((evaluate noon (poll 0 0).signal down (pos hour) told twice).kind ≢ none))
evaluate_message_example = (evaluate_message noon (poll 0 0).signal down (pos hour) told twice).2
