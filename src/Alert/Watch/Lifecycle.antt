-- ===== src/Alert/Watch/Lifecycle.antt =====
-- The lifecycle of a watch signal as a relation with labels: the diagram in the package comment of
-- internal/alert/alert.go, with the edges that it leaves out. These are the first judgement of an
-- unknown signal that is late already, both crossings where one poll is enough, and the way back to
-- unknown.
use hop_react.Common.{
  ◌⊎◌, Text, sym, subst, ◌≤◌, ◌==◌, ◌||◌, not, refl, ltb, leb_ℤ, inl, inr, Bool-cases, ℕ, suc, ◌<◌,
  ◌≡◌, ◌≢◌, leb, Bool, true, false, arith,
}
use hop_react.Clock.{Time, Duration, zero_time, sub}
use hop_react.Models.{State, unknown, ok, pending, alerting, recovering, WatchState}
use hop_react.Alert.Watch.{
  Outcome, unjudged, judged, Signal, Policy, Prefs, evaluate, promote, recover, confirmations,
  is_blind, is_over,
}

-- What a poll shows of a signal: nothing to judge, a time that is at least a threshold ago, or a
-- newer one.
pub data Sight : Type 0 where
  blind late fresh : Sight

pub data Shows (now : Time) (obs : Signal) (threshold : Duration) : Sight → Type 0 where
  unseen : (obs.applicable ≡ false) ⊎ (obs.at ≡ zero_time) → Shows now obs threshold blind
  overdue :
      obs.applicable ≡ true
      → obs.at ≢ zero_time
      → leb_ℤ threshold (sub now obs.at) ≡ true
      → Shows now obs threshold late
  current :
      obs.applicable ≡ true
      → obs.at ≢ zero_time
      → leb_ℤ threshold (sub now obs.at) ≡ false
      → Shows now obs threshold fresh

-- The edges, for what a poll shows and for the polls in a row that are needed before a crossing is
-- believed, with the polls in a row before and after: a crossing that is not believed yet waits,
-- in pending or recovering, and falls back when a poll shows otherwise.
pub data Edge (enough : ℕ) : Sight → State → ℕ → State → ℕ → Type 0 where
  first_fresh : {n : ℕ} → Edge enough fresh unknown n ok 0
  first_late : {n : ℕ} → Edge enough late unknown n alerting 0
  go_late : {n : ℕ} → 1 < enough → Edge enough late ok n pending 1
  go_down : {n : ℕ} → enough ≤ 1 → Edge enough late ok n alerting 0
  wait : {n : ℕ} → suc n < enough → Edge enough late pending n pending (suc n)
  confirm : {n : ℕ} → enough ≤ suc n → Edge enough late pending n alerting 0
  fall_back : {n : ℕ} → Edge enough fresh pending n ok 0
  come_back : {n : ℕ} → 1 < enough → Edge enough fresh alerting n recovering 1
  come_up : {n : ℕ} → enough ≤ 1 → Edge enough fresh alerting n ok 0
  wait_up : {n : ℕ} → suc n < enough → Edge enough fresh recovering n recovering (suc n)
  clear : {n : ℕ} → enough ≤ suc n → Edge enough fresh recovering n ok 0
  relapse : {n : ℕ} → Edge enough late recovering n alerting 0
  lose : {s : State} {n : ℕ} → s ≢ unknown → Edge enough blind s n unknown 0
  -- A stored text that is no state.
  reset : {s : Text} {t : Sight} {n : ℕ} → t ≢ blind → Edge enough t (State.other s) n unknown n

-- Where a poll changes nothing.
pub data Rests : Sight → State → ℕ → ℕ → Type 0 where
  still_unknown : {n : ℕ} → Rests blind unknown n n
  still_ok : {n : ℕ} → Rests fresh ok n 0
  still_down : {n : ℕ} → Rests late alerting n 0

-- What one poll that shows t makes of a state and of the polls in a row.
abbrev Drawn : ℕ → Sight → State → WatchState → Outcome → Type 0
Drawn enough t s next out =
    ((out.changed ≡ true) × Edge enough t s next.consecutive out.state.state out.state.consecutive)
    ⊎ ((out.changed ≡ false)
        × Rests t s next.consecutive out.state.consecutive
        × (out.state ≡ record next { consecutive = out.state.consecutive }))

unjudged-Edge :
    (s : State) (next : WatchState) (now : Time) (moved : Bool) (enough : ℕ)
    → Drawn enough blind s next (unjudged s next now moved)
unjudged-Edge unknown next now moved enough = inr (refl, still_unknown, refl)
unjudged-Edge ok next now moved enough = inl (refl, lose (λ e. cc))
unjudged-Edge pending next now moved enough = inl (refl, lose (λ e. cc))
unjudged-Edge alerting next now moved enough = inl (refl, lose (λ e. cc))
unjudged-Edge recovering next now moved enough = inl (refl, lose (λ e. cc))
unjudged-Edge (State.other s) next now moved enough = inl (refl, lose (λ e. cc))

promote-Edge :
    (s : State) (n : ℕ) (enough : ℕ) (next : WatchState) (now : Time) (muted : Bool)
    → Edge enough late s n alerting 0
    → ((promote next now muted).changed ≡ true)
      × Edge enough late s n
          (promote next now muted).state.state
          (promote next now muted).state.consecutive
unfolding promote
promote-Edge s n enough next now true e = (refl, e)
promote-Edge s n enough next now false e = (refl, e)

recover-Edge :
    (s : State) (n : ℕ) (enough : ℕ) (next : WatchState) (now : Time) (muted notify : Bool)
    → Edge enough fresh s n ok 0
    → ((recover next now muted notify).changed ≡ true)
      × Edge enough fresh s n
          (recover next now muted notify).state.state
          (recover next now muted notify).state.consecutive
unfolding recover
recover-Edge s n enough next now muted notify e =
    elim (Bool-cases (muted || not (ltb 0 next.notify_count) || not notify)) [
      | inl h ↦ rw h (refl, e)
      | inr h ↦ rw h (refl, e)
    ]

judged_late-Edge :
    (s : State) (next : WatchState) (now : Time) (prefs : Prefs) (pol : Policy) (moved : Bool)
    → next.state ≡ s
    → Drawn pol.confirm_polls late s next (judged s next now true (confirmations pol) prefs moved)
judged_late-Edge unknown next now prefs pol moved e = inl (refl, first_late)
judged_late-Edge ok next now prefs pol moved e = elim (Bool-cases (leb (confirmations pol) 1)) [
  | inl h ↦ rw h (
      inl (
        promote-Edge ok next.consecutive pol.confirm_polls
          (record next { state = pending; since = now; consecutive = 1 }) now prefs.muted
          (go_down (ground (arith, h)))))
  | inr h ↦ rw h (inl (refl, go_late (ground (arith, h))))
]
judged_late-Edge pending next now prefs pol moved e =
    elim (Bool-cases (leb (confirmations pol) (suc next.consecutive))) [
      | inl h ↦ rw h (
          inl (
            promote-Edge pending next.consecutive pol.confirm_polls
              (record next { consecutive = suc next.consecutive }) now prefs.muted
              (confirm (ground (arith, h)))))
      | inr h ↦ rw h (
          inl (
            refl,
            subst
                (λ s. Edge pol.confirm_polls late pending next.consecutive s (suc next.consecutive))
                (sym e) (wait (ground (arith, h))),
          ))
    ]
judged_late-Edge alerting next now prefs pol moved e = inr (refl, still_down, refl)
judged_late-Edge recovering next now prefs pol moved e = inl (refl, relapse)
judged_late-Edge (State.other s) next now prefs pol moved e = inl (refl, reset (λ e. cc))

judged_fresh-Edge :
    (s : State) (next : WatchState) (now : Time) (prefs : Prefs) (pol : Policy) (moved : Bool)
    → next.state ≡ s
    → Drawn pol.confirm_polls fresh s next (judged s next now false (confirmations pol) prefs moved)
judged_fresh-Edge unknown next now prefs pol moved e = inl (refl, first_fresh)
judged_fresh-Edge ok next now prefs pol moved e = inr (refl, still_ok, refl)
judged_fresh-Edge pending next now prefs pol moved e = inl (refl, fall_back)
judged_fresh-Edge alerting next now prefs pol moved e =
    elim (Bool-cases (leb (confirmations pol) 1)) [
      | inl h ↦ rw h (
          inl (
            recover-Edge alerting next.consecutive pol.confirm_polls
              (record next { state = recovering; since = now; consecutive = 1 }) now prefs.muted
              prefs.notify_recovery (come_up (ground (arith, h)))))
      | inr h ↦ rw h (inl (refl, come_back (ground (arith, h))))
    ]
judged_fresh-Edge recovering next now prefs pol moved e =
    elim (Bool-cases (leb (confirmations pol) (suc next.consecutive))) [
      | inl h ↦ rw h (
          inl (
            recover-Edge recovering next.consecutive pol.confirm_polls
              (record next { consecutive = suc next.consecutive }) now prefs.muted
              prefs.notify_recovery (clear (ground (arith, h)))))
      | inr h ↦ rw h (
          inl (
            refl,
            subst
                (λ s.
                  Edge pol.confirm_polls fresh recovering next.consecutive s (suc next.consecutive))
                (sym e) (wait_up (ground (arith, h))),
          ))
    ]
judged_fresh-Edge (State.other s) next now prefs pol moved e = inl (refl, reset (λ e. cc))

module _ (now : Time) (obs : Signal) (cur : WatchState) (threshold : Duration) (prefs : Prefs)
    (pol : Policy) where
  -- A poll shows one thing of the signal, and by it and by the polls in a row the state and the
  -- polls in a row take one edge of the diagram, marked as a change, or rest; and resting keeps
  -- everything else but the signal's time.
  pub evaluate-Edge :
      let out = evaluate now obs cur threshold prefs pol in
      (t : Sight) × Shows now obs threshold t
      × (((out.changed ≡ true)
            × Edge pol.confirm_polls t cur.state cur.consecutive out.state.state
                out.state.consecutive)
          ⊎ ((out.changed ≡ false)
              × Rests t cur.state cur.consecutive out.state.consecutive
              × (out.state
                  ≡ record cur { observed_at = obs.at; consecutive = out.state.consecutive })))
  unfolding evaluate is_over
  evaluate-Edge =
      let next = record cur { observed_at = obs.at } in
      let moved = not (obs.at == cur.observed_at) in
      elim (Bool-cases (is_blind obs)) [
        | inl e ↦ rw e (
          blind,
          Shows.unseen (ground (arith, e)),
          unjudged-Edge cur.state next now moved pol.confirm_polls,
        )
        | inr e ↦ elim (Bool-cases (leb_ℤ threshold (sub now obs.at))) [
          | inl o ↦
              rw (e, o)
                (
                  late,
                  Shows.overdue (ground (arith, e)) (λ z. ground (arith, e, z)) o,
                  judged_late-Edge cur.state next now prefs pol moved refl,
                )
          | inr o ↦
              rw (e, o)
                (
                  fresh,
                  Shows.current (ground (arith, e)) (λ z. ground (arith, e, z)) o,
                  judged_fresh-Edge cur.state next now prefs pol moved refl,
                )
        ]
      ]
