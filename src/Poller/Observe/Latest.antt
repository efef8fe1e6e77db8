-- ===== src/Poller/Observe/Latest.antt =====
-- A rule on packet types judges the newest evidence that counts for it, and nothing without any.
use hop_react.Common.{
  ◌≤◌, ◌≡◌, ◌↔◌, ◌⊎◌, inl, inr, refl, Bool, true, false, ◌||◌, List, [], ◌∷◌, arith, Bool-cases,
  subst, if◌then◌else◌, ◌&&◌,
}
use hop_react.Clock.{Time, zero_time, after}
use hop_react.Models.{Observation, Rule, types, Activity}
use hop_react.Alert.Watch.{Signal}
use hop_react.Poller.Observe.{counts, latest, rule_observation}

-- Some evidence counts for the rule and satisfies P.
abbrev pub Counting : Rule → (Activity → Type 0) → List Activity → Type 0
Counting r P [] = ⊥
Counting r P (a ∷ acts) = ((counts r a ≡ true) × P a) ⊎ Counting r P acts

-- All evidence that counts for the rule is no newer than the time.
abbrev pub NoNewer : Rule → Time → List Activity → Type 0
NoNewer r t [] = Unit {0}
NoNewer r t (a ∷ acts) = (counts r a ≡ true → a.last_at ≤ t) × NoNewer r t acts

module _ (r : Rule) where
  latest_grows :
      (acts : List Activity) (at : Time) (found : Bool) → at ≤ (latest r acts at found).at
  unfolding latest
  latest_grows [] at found = omega arith
  latest_grows (a ∷ acts) at found = ground (
    arith,
    latest_grows acts at (found || counts r a),
    latest_grows acts a.last_at (found || counts r a),
  )

  latest-NoNewer :
      (acts : List Activity) (at : Time) (found : Bool) → NoNewer r (latest r acts at found).at acts
  unfolding latest
  latest-NoNewer [] at found = tt
  latest-NoNewer (a ∷ acts) at found =
      let at' = if counts r a && after a.last_at at then a.last_at else at in
      (
        λ c. ground (arith, latest_grows acts at' (found || counts r a)),
        latest-NoNewer acts at' (found || counts r a),
      )

  latest_found : (acts : List Activity) (at : Time) → (latest r acts at true).applicable ≡ true
  unfolding latest
  latest_found [] at = refl
  latest_found (a ∷ acts) at =
      latest_found acts (if counts r a && after a.last_at at then a.last_at else at)

  latest_applicable :
      (acts : List Activity) (at : Time)
      → ((latest r acts at false).applicable ≡ true) ↔ Counting r (λ _. Unit {0}) acts
  unfolding latest
  latest_applicable [] at = (λ e. ground arith, λ h. absurd h)
  latest_applicable (a ∷ acts) at =
      let at' = if counts r a && after a.last_at at then a.last_at else at in
      elim (Bool-cases (counts r a)) [
        | inl c ↦ (λ e. inl (c, tt), λ h. ground (arith, c, latest_found acts at'))
        | inr n ↦ (
          λ e. inr ((latest_applicable acts at').0 (ground (arith, n))),
          λ h. elim h [
            | inl (c, _) ↦ ground (arith, n, c)
            | inr k ↦ ground (arith, n, (latest_applicable acts at').1 k)
          ],
        )
      ]

  latest_attained :
      (acts : List Activity) (at : Time) (found : Bool)
      → let t = (latest r acts at found).at in (t ≡ at) ⊎ Counting r (λ a. a.last_at ≡ t) acts
  unfolding latest
  latest_attained [] at found = inl refl
  latest_attained (a ∷ acts) at found =
      let at' = if counts r a && after a.last_at at then a.last_at else at in
      elim (latest_attained acts at' (found || counts r a)) [
        | inr k ↦ inr (inr k)
        | inl e ↦ elim (Bool-cases (counts r a && after a.last_at at)) [
          | inl c ↦ inr (inl (ground arith, ground arith))
          | inr n ↦ inl (ground arith)
        ]
      ]

module _ (r : Rule) (obs : Observation) (known : Bool) (acts : List Activity) where
  observed_types :
      r.source ≡ types → latest r acts zero_time false ≡ rule_observation r obs known acts
  unfolding rule_observation
  observed_types e = ground arith

  -- The newest of the evidence that counts, if there is any.
  abbrev pub IsNewest : Signal → Type 0
  IsNewest s =
      ((s.applicable ≡ true) ↔ Counting r (λ _. Unit {0}) acts)
      × NoNewer r s.at acts
      × ((s.at ≡ zero_time) ⊎ Counting r (λ a. a.last_at ≡ s.at) acts)

  -- A rule on packet types is applicable exactly if some evidence counts for it; its time is no
  -- older than any such evidence, and, unless it is zero, the time of one such piece.
  rule_observation_types : r.source ≡ types → IsNewest (rule_observation r obs known acts)
  rule_observation_types e = subst IsNewest (observed_types e) (
    latest_applicable r acts zero_time,
    latest-NoNewer r acts zero_time false,
    latest_attained r acts zero_time false,
  )
