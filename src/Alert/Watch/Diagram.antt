-- ===== src/Alert/Watch/Diagram.antt =====
-- The messages of one evaluation: internal/alert/alert.go.
use hop_react.Common.{ℕ, suc, ◌<◌, ◌≡◌, ◌≢◌, leb, ◌↔◌, Bool, true, false, some, none, arith}
use hop_react.Clock.{Time, Duration}
use hop_react.Models.{State, ok, pending, alerting, recovering, WatchState}
use hop_react.Alert.Watch.{
  Signal, Policy, Prefs, alert, recovered, evaluate, promote, recover, confirmations, is_blind,
  is_over,
}

-- Whether one more poll in the same direction is enough to believe it.
abbrev confirms_down : State → ℕ → ℕ → Bool
confirms_down ok consecutive enough = leb enough 1
confirms_down pending consecutive enough = leb enough (suc consecutive)
confirms_down _ consecutive enough = false

abbrev confirms_up : State → ℕ → ℕ → Bool
confirms_up alerting consecutive enough = leb enough 1
confirms_up recovering consecutive enough = leb enough (suc consecutive)
confirms_up _ consecutive enough = false

module _ (now : Time) (obs : Signal) (cur : WatchState) (threshold : Duration) (prefs : Prefs)
    (pol : Policy) where
  -- An alert goes out exactly when a poll that is over the threshold confirms the crossing and the
  -- watch is not muted; a recovery exactly when a fresh poll confirms it, the watch is neither
  -- muted nor silent on recoveries, and the episode had been announced; nothing else sends.
  pub evaluate_message :
      let out = evaluate now obs cur threshold prefs pol in
      let over = is_over now obs threshold in
      let enough = confirmations pol in
      ((out.kind ≡ some alert) ↔ (
        (is_blind obs ≡ false)
        × (over ≡ true)
        × (confirms_down cur.state cur.consecutive enough ≡ true)
        × (prefs.muted ≡ false)))
      × ((out.kind ≡ some recovered) ↔ (
          (is_blind obs ≡ false)
          × (over ≡ false)
          × (confirms_up cur.state cur.consecutive enough ≡ true)
          × (prefs.muted ≡ false)
          × (prefs.notify_recovery ≡ true)
          × (0 < cur.notify_count)))
      × ((out.notify ≡ true) ↔ (out.kind ≢ none))
  unfolding evaluate promote recover
  evaluate_message = (
    (λ h. ground arith, λ h. ground arith),
    (λ h. ground arith, λ h. ground arith),
    (λ h. ground arith, λ h. ground arith),
  )
