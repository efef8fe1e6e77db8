-- ===== src/Alert/Watch/Dropout.antt =====
-- A target that drops out of the feed in the middle of an announced outage.
use hop_react.Common.{
  ℕ, suc, ◌+◌, ◌≤◌, ◌<◌, ◌≡◌, List, [], ◌∷◌, true, false, arith, leb, if◌then◌else◌, length,
}
use hop_react.Models.{ok, alerting, recovering, WatchState}
use hop_react.Alert.Watch.{Policy, recovered, evaluate, promote, recover, confirmations, is_blind}
use hop_react.Alert.Watch.Trace.{is_notice, Poll, outcome, advance, over, fresh, messages}

-- Every poll has a reading within the threshold, and recoveries may be sent.
abbrev pub Up : List Poll → Type 0
Up [] = Unit {0}
Up (p ∷ ps) = (fresh p ≡ true) × (p.prefs.muted ≡ false) × (p.prefs.notify_recovery ≡ true) × Up ps

-- Where a signal that was alerting stands after n fresh polls; `announced` is what an announced
-- episode owes.
record Climb (pol : Policy) (n : ℕ) (owes : ℕ) (s : WatchState) (sent : ℕ) : Type 0 where
  start : n ≡ 0 → s.state ≡ alerting
  waiting : 0 < n → n < confirmations pol → (s.state ≡ recovering) × (s.consecutive ≡ n)
  up : confirmations pol ≤ n → s.state ≡ ok
  kept : n < confirmations pol → (s.notify_count ≡ owes) × (sent ≡ 0)
  told : confirmations pol ≤ n → sent ≡ (if leb owes 0 then 0 else 1)

module _ (pol : Policy) where
  step-Climb :
      (n owes sent : ℕ) (s : WatchState) (p : Poll)
      → fresh p ≡ true
      → p.prefs.muted ≡ false
      → p.prefs.notify_recovery ≡ true
      → Climb pol n owes s sent
      → Climb pol
          (suc n)
          owes
          (outcome pol s p).state
          (is_notice recovered (outcome pol s p).kind + sent)
  unfolding outcome evaluate promote recover
  step-Climb n owes sent s p o m r h = ground arith

  Up-Climb :
      (s : WatchState) (ps : List Poll)
      → s.state ≡ alerting
      → Up ps
      → Climb pol (length ps) s.notify_count (advance pol s ps) (messages recovered pol s ps)
  unfolding advance messages
  Up-Climb s [] e d = ground arith
  Up-Climb s (p ∷ ps) e d =
      step-Climb (length ps) s.notify_count (messages recovered pol s ps) (advance pol s ps) p d.0
        d.1 d.2 (Up-Climb s ps e d.3)

  -- An outage that ends with enough fresh polls leaves the signal ok, and sends one recovery if it
  -- was announced and none if it was not.
  pub messages-Up :
      (s : WatchState) (ps : List Poll)
      → s.state ≡ alerting
      → Up ps
      → confirmations pol ≤ length ps
      → ((advance pol s ps).state ≡ ok)
        × (messages recovered pol s ps ≡ (if leb s.notify_count 0 then 0 else 1))
  messages-Up s ps e d h = let c = Up-Climb s ps e d in (c.up h, c.told h)

  gap_resets :
      (s : WatchState) (gap back : Poll)
      → s.state ≡ alerting
      → is_blind gap.signal ≡ true
      → over back ≡ true
      → let t = advance pol s (back ∷ gap ∷ []) in (t.state ≡ alerting) × (t.notify_count ≡ 0)
  unfolding advance outcome evaluate
  gap_resets s gap back e b o = ground arith

  -- One poll without a reading in the middle of an outage, however often it was announced, and the
  -- end of the outage is never told: the next poll over the threshold forgets the announcement.
  pub dropout_forgets :
      (s : WatchState) (gap back : Poll) (ps : List Poll)
      → s.state ≡ alerting
      → is_blind gap.signal ≡ true
      → over back ≡ true
      → Up ps
      → confirmations pol ≤ length ps
      → let t = advance pol s (back ∷ gap ∷ []) in
        (t.notify_count ≡ 0) × ((advance pol t ps).state ≡ ok) × (messages recovered pol t ps ≡ 0)
  dropout_forgets s gap back ps e b o d h =
      let t = advance pol s (back ∷ gap ∷ []) in
      let g = gap_resets s gap back e b o in
      let m = messages-Up t ps g.0 d h in (g.1, m.0, ground arith)
