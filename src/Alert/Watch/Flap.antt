-- ===== src/Alert/Watch/Flap.antt =====
-- The flap guard: how many polls a message rests on.
use hop_react.Common.{Bool, suc, ◌≡◌, List, [], ◌∷◌, some, arith}
use hop_react.Models.{pending, recovering, WatchState}
use hop_react.Alert.Watch.{
  Notice, Policy, alert, recovered, evaluate, promote, recover, confirmations,
}
use hop_react.Alert.Watch.Trace.{Poll, outcome, advance, over, fresh, Newest, Newest-mono}

-- A count of polls waits only in a pending or recovering state, and counts polls that agree.
-- The side of the threshold that a message is about.
abbrev pub side : Notice → Poll → Bool
side alert = over
side recovered = fresh

abbrev Counted : WatchState → List Poll → Type 0
Counted s ps =
    (s.state ≡ pending → Newest over s.consecutive ps)
    × (s.state ≡ recovering → Newest fresh s.consecutive ps)

module _ (pol : Policy) where
  step-Counted :
      (s : WatchState) (p : Poll) (ps : List Poll)
      → Counted s ps
      → Counted (outcome pol s p).state (p ∷ ps)
  unfolding outcome evaluate promote recover
  step-Counted s p ps h = (λ e. ground arith, λ e. ground arith)

  advance-Counted :
      (s : WatchState) (ps : List Poll) → s.consecutive ≡ 0 → Counted (advance pol s ps) ps
  unfolding advance
  advance-Counted s [] e = (λ _. rw e tt, λ _. rw e tt)
  advance-Counted s (p ∷ ps) e = step-Counted (advance pol s ps) p ps (advance-Counted s ps e)

  last_alert :
      (s : WatchState) (p : Poll) (ps : List Poll)
      → Counted s ps
      → (outcome pol s p).kind ≡ some alert
      → Newest over (confirmations pol) (p ∷ ps)
  unfolding outcome evaluate promote recover
  last_alert s p ps h e = ground (
    arith,
    Newest-mono over (confirmations pol) 1 (p ∷ ps),
    Newest-mono over (confirmations pol) (suc s.consecutive) (p ∷ ps),
  )

  last_recovered :
      (s : WatchState) (p : Poll) (ps : List Poll)
      → Counted s ps
      → (outcome pol s p).kind ≡ some recovered
      → Newest fresh (confirmations pol) (p ∷ ps)
  unfolding outcome evaluate promote recover
  last_recovered s p ps h e = ground (
    arith,
    Newest-mono fresh (confirmations pol) 1 (p ∷ ps),
    Newest-mono fresh (confirmations pol) (suc s.consecutive) (p ∷ ps),
  )

  -- From a state with no count begun, through any polls: a poll that sends an alert is the last of
  -- at least as many polls in a row over the threshold as the policy asks for, and one that sends
  -- a recovery the last of as many fresh ones.
  pub message-confirmed :
      (s : WatchState) (p : Poll) (ps : List Poll) (k : Notice)
      → s.consecutive ≡ 0
      → (outcome pol (advance pol s ps) p).kind ≡ some k
      → Newest (side k) (confirmations pol) (p ∷ ps)
  message-confirmed s p ps alert e h = last_alert (advance pol s ps) p ps (advance-Counted s ps e) h
  message-confirmed s p ps recovered e h =
      last_recovered (advance pol s ps) p ps (advance-Counted s ps e) h
