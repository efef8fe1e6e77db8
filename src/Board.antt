-- ===== src/Board.antt =====
-- The verdicts of the public status board: judge, tally, State, verdict, rankOf and AllWell of
-- internal/web/status.go, without the sentences that explain them.
pub mod Verdicts
use hop_react.Common.{
  ℕ, suc, ◌+◌, Bool, true, false, not, ◌&&◌, ◌||◌, List, [], ◌∷◌, ltb, ◌==◌, leb_ℤ, if◌then◌else◌,
}
use hop_react.Clock.{Time, is_zero, after, sub, hours}

-- The Class strings.
pub data Class : Type 0 where
  muted good amber orange bad : Class

pub record StatusState : Type 0 where
  pub class : Class
  pub known : Bool
  pub since : Time

abbrev pub newest_of : Time → Time → Time
newest_of traffic advert = if after advert traffic then advert else traffic

unfoldable pub judge : Time → Time → Time → ℕ → ℕ → ℕ → StatusState
judge traffic advert now quiet concern alarm =
    let newest = newest_of traffic advert in
    let age = sub now newest in
    if is_zero newest then record { class = muted; known = false; since = 0 } else record {
      class =
          if leb_ℤ (hours alarm) age
          then bad
          else if leb_ℤ (hours concern) age
          then orange
          else if leb_ℤ (hours quiet) age
          then amber
          else good;
      known = true;
      since = newest;
    }

-- statusGroup, its rows as the states they show.
pub record StatusGroup : Type 0 where
  pub rows : List StatusState
  pub critical : Bool
  pub ok : ℕ
  pub quiet : ℕ
  pub concern : ℕ
  pub late : ℕ
  pub unknown : ℕ
  pub total : ℕ

unfoldable pub append_row : StatusState → List StatusState → List StatusState
append_row r [] = r ∷ []
append_row r (x ∷ xs) = x ∷ append_row r xs

abbrev pub counted : Class → StatusGroup → StatusGroup
counted bad g = record g { late = suc g.late }
counted orange g = record g { concern = suc g.concern }
counted amber g = record g { quiet = suc g.quiet }
counted muted g = record g { unknown = suc g.unknown }
counted good g = record g { ok = suc g.ok }

unfoldable pub tally : StatusState → StatusGroup → StatusGroup
tally r g = counted r.class (record g { rows = append_row r g.rows; total = suc g.total })

unfoldable pub tally_all : List StatusState → StatusGroup → StatusGroup
tally_all [] g = g
tally_all (r ∷ rs) g = tally_all rs (tally r g)

unfoldable pub group_state : StatusGroup → Class
group_state g =
    if g.total == 0
    then muted
    else if ltb 0 g.late
    then bad
    else if ltb 0 g.concern
    then orange
    else if ltb 0 g.quiet
    then amber
    else good

-- The variables of the loop of verdict.
pub record Troubles : Type 0 where
  pub critical_down : Bool
  pub critical_warn : Bool
  pub other_trouble : Bool
  pub total : ℕ

unfoldable pub weigh : StatusGroup → Troubles → Troubles
weigh g t =
    let trouble = ltb 0 g.late in
    let warn = ltb 0 g.concern || ltb 0 g.quiet in
    let more = record t { total = t.total + g.total } in
    if g.critical && trouble
    then record more { critical_down = true }
    else if g.critical && warn
    then record more { critical_warn = true }
    else if trouble || warn
    then record more { other_trouble = true }
    else more

unfoldable pub weigh_all : List StatusGroup → Troubles → Troubles
weigh_all [] t = t
weigh_all (g ∷ gs) t = weigh_all gs (weigh g t)

-- The headline's class: "Nothing to report yet", "Major outage", "Partial outage", "Degraded" and
-- "All systems operational" in this order.
unfoldable pub verdict : List StatusGroup → Class
verdict gs =
    let t =
      weigh_all gs (record {
        critical_down = false;
        critical_warn = false;
        other_trouble = false;
        total = 0;
      }) in
    if t.total == 0
    then muted
    else if t.critical_down
    then bad
    else if t.critical_warn
    then orange
    else if t.other_trouble
    then amber
    else good

unfoldable pub rank_of : Class → ℕ
rank_of bad = 4
rank_of orange = 3
rank_of amber = 2
rank_of good = 1
rank_of muted = 0
