-- ===== src/Alert/Battery/Series.antt =====
-- A battery rule over a series of checks, the newest first. CoreScope is fetched more often than
-- readings arrive, so a check may bring an old reading.
use hop_react.Common.{
  ℕ, zero, suc, ◌≤◌, ◌≡◌, ◌⊎◌, subst, sym, Bool, Bool-cases, true, false, not, ◌&&◌, ◌||◌, List, [],
  ◌∷◌, arith, ltb, if◌then◌else◌, inl, inr,
}
use hop_react.Clock.{is_zero, after}
use hop_react.Alert.Watch.{Prefs}
use hop_react.Alert.Battery.Levels.{absent, level_eq, BatteryLevels, classify_battery}
use hop_react.Alert.Battery.Levels.Hysteresis.{classify_battery_known}
use hop_react.Alert.Battery.{
  BatteryReading, BatteryState, BatteryPolicy, BatteryOutcome, known_level, no_battery, new_reading,
  waiting, confirm_level, evaluate_battery,
}

pub record Check : Type 0 where
  pub reading : BatteryReading
  pub levels : BatteryLevels
  pub prefs : Prefs

unfoldable pub outcome : BatteryPolicy → BatteryState → Check → BatteryOutcome
outcome pol s c = evaluate_battery c.reading s c.levels pol c.prefs

unfoldable pub advance : BatteryPolicy → BatteryState → List Check → BatteryState
advance pol s [] = s
advance pol s (c ∷ cs) = (outcome pol (advance pol s cs) c).state

abbrev pub confirmations : BatteryPolicy → ℕ
confirmations pol = if ltb pol.confirm_readings 1 then 1 else pol.confirm_readings

-- The check brings a reading of a fitted battery that is newer than the last.
abbrev pub is_new : BatteryState → Check → Bool
is_new s c =
    c.reading.has_battery
    && not (is_zero c.reading.at || not (after c.reading.at s.last_reading_at))

-- The reading belongs to another level than the rule is at.
abbrev pub is_away : BatteryPolicy → BatteryState → Check → Bool
is_away pol s c =
    let cur = known_level s.level in
    not (level_eq (classify_battery c.reading.mv cur c.levels pol.recover_margin_mv) cur)

module _ (pol : BatteryPolicy) (s : BatteryState) where
  -- The n newest new readings were all away from the rule's level, with nothing but old readings
  -- between them and since.
  pub data Streak : List Check → ℕ → Type 0 where
    start : {cs : List Check} → Streak cs zero
    skip :
        {c : Check} {cs : List Check} {n : ℕ}
        → c.reading.has_battery ≡ true
        → is_new (advance pol s cs) c ≡ false
        → Streak cs n
        → Streak (c ∷ cs) n
    count :
        {c : Check} {cs : List Check} {n : ℕ}
        → is_new (advance pol s cs) c ≡ true
        → is_away pol (advance pol s cs) c ≡ true
        → Streak cs n
        → Streak (c ∷ cs) (suc n)

  Streak-mono : (m n : ℕ) (cs : List Check) → m ≤ n → Streak cs n → Streak cs m
  Streak-mono zero n cs h st = start
  Streak-mono (suc m) zero cs h st = absurd (omega arith)
  Streak-mono (suc m) (suc n) [] h st = elim st [ ]
  Streak-mono (suc m) (suc n) (c ∷ cs) h (skip b e st) =
      skip b e (Streak-mono (suc m) (suc n) cs h st)
  Streak-mono (suc m) (suc n) (c ∷ cs) h (count e a st) =
      count e a (Streak-mono m n cs (omega arith) st)

-- With no candidate level there is no count.
abbrev pub Tidy : BatteryState → Type 0
Tidy s = s.candidate ≡ absent → s.candidate_count ≡ 0

outcome-Tidy :
    (pol : BatteryPolicy) (t : BatteryState) (c : Check) → Tidy t → Tidy (outcome pol t c).state
unfolding outcome evaluate_battery no_battery new_reading waiting confirm_level
outcome-Tidy pol t c h e = ground (
  arith,
  classify_battery_known c.reading.mv pol.recover_margin_mv (known_level t.level) c.levels,
)

old_count :
    (pol : BatteryPolicy) (t : BatteryState) (c : Check)
    → Tidy t
    → is_new t c ≡ false
    → let n = (outcome pol t c).state.candidate_count in
      (n ≡ 0) ⊎ ((c.reading.has_battery ≡ true) × (n ≡ t.candidate_count))
unfolding outcome evaluate_battery no_battery new_reading waiting confirm_level
old_count pol t c h e = grind arith

new_count :
    (pol : BatteryPolicy) (t : BatteryState) (c : Check)
    → is_new t c ≡ true
    → let n = (outcome pol t c).state.candidate_count in
      (n ≡ 0)
      ⊎ ((is_away pol t c ≡ true) × (n ≡ 1))
      ⊎ ((is_away pol t c ≡ true) × (n ≡ suc t.candidate_count))
unfolding outcome evaluate_battery no_battery new_reading waiting confirm_level
new_count pol t c e = ground arith

tells :
    (pol : BatteryPolicy) (t : BatteryState) (c : Check)
    → (outcome pol t c).notify ≡ true
    → (is_new t c ≡ true) × (is_away pol t c ≡ true) × (confirmations pol ≤ suc t.candidate_count)
unfolding outcome evaluate_battery no_battery new_reading waiting confirm_level
tells pol t c h = ground arith

module _ (pol : BatteryPolicy) (s : BatteryState) (tidy : Tidy s) where
  advance-Tidy : (cs : List Check) → Tidy (advance pol s cs)
  unfolding advance
  advance-Tidy [] = tidy
  advance-Tidy (c ∷ cs) = outcome-Tidy pol (advance pol s cs) c (advance-Tidy cs)

  counted :
      (cs : List Check) → s.candidate_count ≡ 0 → Streak pol s cs (advance pol s cs).candidate_count
  unfolding advance
  counted [] e = subst (Streak pol s []) (sym e) start
  counted (c ∷ cs) e =
      let t = advance pol s cs in
      elim (Bool-cases (is_new t c)) [
        | inl new ↦ elim (new_count pol t c new) [
          | inl z ↦ subst (Streak pol s (c ∷ cs)) (sym z) start
          | inr (inl (a, z)) ↦ subst (Streak pol s (c ∷ cs)) (sym z) (count new a start)
          | inr (inr (a, z)) ↦ subst (Streak pol s (c ∷ cs)) (sym z) (count new a (counted cs e))
        ]
        | inr old ↦ elim (old_count pol t c (advance-Tidy cs) old) [
          | inl z ↦ subst (Streak pol s (c ∷ cs)) (sym z) start
          | inr (b, z) ↦ subst (Streak pol s (c ∷ cs)) (sym z) (skip b old (counted cs e))
        ]
      ]

  -- From a rule with no candidate level, through any checks: a message rests on at least as many new
  -- readings as the policy asks for, all of them away from the rule's level and with nothing but old
  -- readings of a fitted battery between them. The same reading never counts twice.
  pub message-Streak :
      (c : Check) (cs : List Check)
      → s.candidate_count ≡ 0
      → (outcome pol (advance pol s cs) c).notify ≡ true
      → Streak pol s (c ∷ cs) (confirmations pol)
  message-Streak c cs e h =
      let t = advance pol s cs in
      let (f, a, le) = tells pol t c h in
      Streak-mono pol s (confirmations pol) (suc t.candidate_count) (c ∷ cs) le
        (count f a (counted cs e))
