-- ===== src/Board/Verdicts.antt =====
-- What the colours of the board mean.
use hop_react.Common.{
  ℕ, ◌+◌, ◌*◌, leb, ◌≡◌, ◌≤◌, refl, Bool, false, not, ◌&&◌, ◌||◌, List, [], ◌∷◌, ltb, ◌==◌, leb_ℤ,
  length, if◌then◌else◌, arith,
}
use hop_react.Clock.{is_zero, sub, hours, hour, max_duration, hours_exact, sub_reaches}
use hop_react.Board.{
  Class, newest_of, muted, good, amber, orange, bad, StatusState, judge, StatusGroup, tally,
  tally_all, group_state, Troubles, weigh, weigh_all, verdict, rank_of,
}

abbrev pub any : (StatusGroup → Bool) → List StatusGroup → Bool
any test [] = false
any test (g ∷ gs) = test g || any test gs

abbrev pub totals : List StatusGroup → ℕ
totals [] = 0
totals (g ∷ gs) = g.total + totals gs

abbrev pub is_down : StatusGroup → Bool
is_down g = ltb 0 g.late

abbrev pub is_warned : StatusGroup → Bool
is_warned g = ltb 0 g.concern || ltb 0 g.quiet

weigh_all-Troubles :
    (gs : List StatusGroup) (t : Troubles)
    → weigh_all gs t ≡ record {
      critical_down = t.critical_down || any (λ g. g.critical && is_down g) gs;
      critical_warn = t.critical_warn || any (λ g. g.critical && not (is_down g) && is_warned g) gs;
      other_trouble = t.other_trouble || any (λ g. not g.critical && (is_down g || is_warned g)) gs;
      total = t.total + totals gs;
    }
unfolding weigh_all weigh
weigh_all-Troubles [] t = ground arith
weigh_all-Troubles (g ∷ gs) t = ground (arith, weigh_all-Troubles gs (weigh g t))

warned_same :
    (gs : List StatusGroup)
    → any (λ g. g.critical && is_down g) gs ≡ false
    → any (λ g. g.critical && not (is_down g) && is_warned g) gs
      ≡ any (λ g. g.critical && is_warned g) gs
warned_same [] h = refl
warned_same (g ∷ gs) h = ground (arith, warned_same gs)

other_same :
    (gs : List StatusGroup)
    → any (λ g. g.critical && is_down g) gs ≡ false
    → any (λ g. g.critical && is_warned g) gs ≡ false
    → any (λ g. not g.critical && (is_down g || is_warned g)) gs
      ≡ any (λ g. is_down g || is_warned g) gs
other_same [] h k = refl
other_same (g ∷ gs) h k = ground (arith, other_same gs)

-- With anything on the board, the headline is an outage exactly when something critical is down, a
-- partial one when something critical is only quiet, degraded when only other things are down or
-- quiet, and all is operational exactly when nothing is down or quiet.
pub verdict_meaning :
    (gs : List StatusGroup)
    → verdict gs ≡ (
        if totals gs == 0
        then muted
        else if any (λ g. g.critical && is_down g) gs
        then bad
        else if any (λ g. g.critical && is_warned g) gs
        then orange
        else if any (λ g. is_down g || is_warned g) gs
        then amber
        else good)
unfolding verdict
verdict_meaning gs =
    let start : Troubles = record {
      critical_down = false;
      critical_warn = false;
      other_trouble = false;
      total = 0;
    } in
    ground (arith, weigh_all-Troubles gs start, warned_same gs, other_same gs)

-- The tally of a group counts every row once.
abbrev Sums : StatusGroup → Type 0
Sums g = g.total ≡ g.ok + g.quiet + g.concern + g.late + g.unknown

tally_all-Sums : (rs : List StatusState) (g : StatusGroup) → Sums g → Sums (tally_all rs g)
unfolding tally_all tally
tally_all-Sums [] g h = h
tally_all-Sums (r ∷ rs) g h = tally_all-Sums rs (tally r g) (ground (arith, h))

total-tally_all :
    (rs : List StatusState) (g : StatusGroup) → (tally_all rs g).total ≡ length rs + g.total
unfolding tally_all tally
total-tally_all [] g = ground arith
total-tally_all (r ∷ rs) g = ground (arith, total-tally_all rs (tally r g))

abbrev pub worst : List StatusState → Class → Class
worst [] c = c
worst (r ∷ rs) c = worst rs (if ltb (rank_of c) (rank_of r.class) then r.class else c)

-- The class that a group's counts amount to.
abbrev shown : StatusGroup → Class
shown g =
    if ltb 0 g.late
    then bad
    else if ltb 0 g.concern
    then orange
    else if ltb 0 g.quiet
    then amber
    else if ltb 0 g.ok
    then good
    else muted

shown-tally_all :
    (rs : List StatusState) (g : StatusGroup) → shown (tally_all rs g) ≡ worst rs (shown g)
unfolding tally_all tally rank_of
shown-tally_all [] g = refl
shown-tally_all (r ∷ rs) g = ground (arith, shown-tally_all rs (tally r g))

abbrev pub empty_group : Bool → StatusGroup
empty_group critical = record {
  rows = [];
  critical = critical;
  ok = 0;
  quiet = 0;
  concern = 0;
  late = 0;
  unknown = 0;
  total = 0;
}

-- A group shows the worst of its rows by rank, except that rows without data alone show as good; an
-- empty group is muted.
pub group_state-tally_all :
    (rs : List StatusState) (critical : Bool)
    → group_state (tally_all rs (empty_group critical)) ≡ (
        if length rs == 0
        then muted
        else if rank_of (worst rs muted) == 0
        then good
        else worst rs muted)
unfolding group_state rank_of
group_state-tally_all rs critical = ground (
  arith,
  tally_all-Sums rs (empty_group critical) refl,
  shown-tally_all rs (empty_group critical),
  total-tally_all rs (empty_group critical),
)

-- The age that counts, without the clamps of time.Sub and of the hours.
old_enough : (at now n : ℕ) → n ≤ 2562047 → leb_ℤ (hours n) (sub now at) ≡ leb (at + n * hour) now
old_enough at now n h =
    let d : n * hour ≤ max_duration = omega (arith, h) in
    ground (arith, hours_exact n h, sub_reaches now at (n * hour) d)

-- For tiers of up to 292 years, the class of a repeater is the worst tier that the newest of its
-- traffic and its adverts is as old as, to the nanosecond and however old; it is muted exactly
-- where neither was ever seen.
pub judge_exact :
    (traffic advert now quiet concern alarm : ℕ)
    → quiet ≤ 2562047
    → concern ≤ 2562047
    → alarm ≤ 2562047
    → let newest = newest_of traffic advert in
      let reached = λ (n : ℕ). leb (newest + n * hour) now in
      (judge traffic advert now quiet concern alarm).class ≡ (
        if is_zero newest
        then muted
        else if reached alarm
        then bad
        else if reached concern
        then orange
        else if reached quiet
        then amber
        else good)
unfolding judge
judge_exact traffic advert now quiet concern alarm q c a =
    let newest = newest_of traffic advert in
    ground (
      arith,
      old_enough newest now quiet q,
      old_enough newest now concern c,
      old_enough newest now alarm a,
    )
