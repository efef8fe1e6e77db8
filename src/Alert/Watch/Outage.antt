-- ===== src/Alert/Watch/Outage.antt =====
-- What an outage costs in messages.
use hop_react.Common.{
  ◌⊎◌, inl, inr, Bool-cases, ℕ, suc, ◌+◌, ◌≤◌, ◌<◌, ◌≡◌, List, [], ◌∷◌, true, false, arith, leb,
  ltb, if◌then◌else◌, length,
}
use hop_react.Models.{ok, pending, alerting, WatchState}
use hop_react.Alert.Watch.{Policy, alert, recovered, evaluate, promote, recover, confirmations}
use hop_react.Alert.Watch.Trace.{is_notice, Poll, outcome, advance, over, messages}

-- Every poll is over the threshold, and the watch is never muted.
abbrev pub Down : List Poll → Type 0
Down [] = Unit {0}
Down (p ∷ ps) = (over p ≡ true) × (p.prefs.muted ≡ false) × Down ps

-- Where a healthy signal stands after n polls over the threshold.
record After (pol : Policy) (n : ℕ) (s : WatchState) (sent : ℕ) : Type 0 where
  start : n ≡ 0 → s.state ≡ ok
  waiting : 0 < n → n < confirmations pol → (s.state ≡ pending) × (s.consecutive ≡ n)
  down : confirmations pol ≤ n → s.state ≡ alerting
  told : sent ≡ (if leb (confirmations pol) n then 1 else 0)

module _ (pol : Policy) where
  step-After :
      (n sent : ℕ) (s : WatchState) (p : Poll)
      → over p ≡ true
      → p.prefs.muted ≡ false
      → After pol n s sent
      → After pol (suc n) (outcome pol s p).state (is_notice alert (outcome pol s p).kind + sent)
  unfolding outcome evaluate promote recover
  step-After n sent s p o m h = ground arith

  Down-After :
      (s : WatchState) (ps : List Poll)
      → s.state ≡ ok
      → Down ps
      → After pol (length ps) (advance pol s ps) (messages alert pol s ps)
  unfolding advance messages
  Down-After s [] e d = ground arith
  Down-After s (p ∷ ps) e d =
      step-After (length ps) (messages alert pol s ps) (advance pol s ps) p d.0 d.1
        (Down-After s ps e d.2)

  -- An outage of any length, seen from a healthy signal that is never muted, sends one alert once it
  -- has lasted the polls that the policy asks for, and none before; from then on the signal alerts.
  pub messages-Down :
      (s : WatchState) (ps : List Poll)
      → s.state ≡ ok
      → Down ps
      → (messages alert pol s ps ≡ (if leb (confirmations pol) (length ps) then 1 else 0))
        × ((length ps < confirmations pol) ⊎ ((advance pol s ps).state ≡ alerting))
  messages-Down s ps e d =
      let a = Down-After s ps e d in
      (
        a.told,
        elim (Bool-cases (leb (confirmations pol) (length ps))) [
          | inl long ↦ inr (a.down (ground (arith, long)))
          | inr short ↦ inl (ground (arith, short))
        ],
      )

  step_owed :
      (s : WatchState) (p : Poll) (alerts recoveries : ℕ)
      → recoveries + (if ltb 0 s.notify_count then 1 else 0) ≤ alerts
      → let out = outcome pol s p in
        is_notice recovered out.kind + recoveries + (if ltb 0 out.state.notify_count then 1 else 0)
        ≤ is_notice alert out.kind + alerts
  unfolding outcome evaluate promote recover
  step_owed s p alerts recoveries h = ground arith

  -- Through any polls, from a signal nobody was told about: recoveries, and one more while an
  -- announced episode is open, are never more than alerts.
  pub messages_paired :
      (s : WatchState) (ps : List Poll)
      → s.notify_count ≡ 0
      → messages recovered pol s ps + (if ltb 0 (advance pol s ps).notify_count then 1 else 0)
        ≤ messages alert pol s ps
  unfolding advance messages
  messages_paired s [] e = ground arith
  messages_paired s (p ∷ ps) e =
      step_owed (advance pol s ps) p (messages alert pol s ps) (messages recovered pol s ps)
        (messages_paired s ps e)
