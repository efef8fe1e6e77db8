-- ===== src/Store/Rules/Seed.antt =====
-- A new rule on packet types begins with what the next poll will judge it on: the query of the one
-- and the maps and the loop of the other agree.
use hop_react.Common.{
  ℕ, ◌≡◌, ◌∙◌, ◌+◌, refl, ap, sym, Bool-cases, inl, inr, Bool, true, false, ◌&&◌, ◌||◌, Option,
  none, some, List, [], ◌∷◌, Text, text_eq, ◌==◌, leb, ℤ, if◌then◌else◌, map, arith,
}
use hop_react.Clock.{Time, zero_time, after}
use hop_react.Clock.Unix.{from_unix, time_from}
use hop_react.Models.{Kind, Observation, Rule, types, Activity, Direction, direction_eq}
use hop_react.Alert.Watch.{Signal}
use hop_react.Store.Tables.{Db, ActivityRow}
use hop_react.Store.Activity.{max_ℤ, add_group, groups, scan_activity, all_activity}
use hop_react.Store.Rules.{
  in_types, is_evidence, later, newest_evidence, nothing_seen, is_valid, evidence_at, seed_from,
  rule_seed_observation,
}
use hop_react.Poller.Observe.{wants, counts, latest, observed, rule_observation}

abbrev larger : Time → Time → Time
larger a b = if leb a b then b else a

abbrev joined : Signal → Signal → Signal
joined s t = record { at = larger s.at t.at; applicable = s.applicable || t.applicable }

abbrev piece : Rule → Activity → Signal
piece r a = if counts r a then record { at = a.last_at; applicable = true } else nothing_seen

-- The evidence joined from the right, without the loop's state.
unfoldable best : Rule → List Activity → Signal
best r [] = nothing_seen
best r (a ∷ acts) = joined (piece r a) (best r acts)

latest-best :
    (r : Rule) (acts : List Activity) (at : Time) (found : Bool)
    → latest r acts at found ≡ joined (record { at = at; applicable = found }) (best r acts)
unfolding latest best
latest-best r [] at found = ground arith
latest-best r (a ∷ acts) at found = ground (
  arith,
  latest-best r acts (if counts r a && after a.last_at at then a.last_at else at)
      (found || counts r a),
)

from_unix-max : (a b : ℤ) → from_unix (max_ℤ a b) ≡ larger (from_unix a) (from_unix b)
unfolding from_unix
from_unix-max a b = ground arith

abbrev reading : Option ℤ → Signal
reading at = record { at = time_from at; applicable = is_valid at }

joined_assoc : (a b c : Signal) → joined a (joined b c) ≡ joined (joined a b) c
joined_assoc a b c = ground arith

joined_comm : (a b : Signal) → joined a b ≡ joined b a
joined_comm a b = ground arith

joined_nothing : (a : Signal) → joined a nothing_seen ≡ a
joined_nothing a = ground arith

direction_eq_iff : (a b : Direction) → direction_eq a b ≡ true → a ≡ b
direction_eq_iff a b h = ground arith

abbrev merged : ActivityRow → ActivityRow → ActivityRow
merged row g = record g {
  last_at = max_ℤ g.last_at row.last_at;
  evidence_count = g.evidence_count + row.evidence_count;
}

-- Rows of one group count for a rule together.
piece-merged :
    (r : Rule) (row g : ActivityRow)
    → g.payload_type ≡ row.payload_type
    → g.direction ≡ row.direction
    → piece r (scan_activity (merged row g))
      ≡ joined (piece r (scan_activity row)) (piece r (scan_activity g))
unfolding scan_activity
piece-merged r row g t d = ground (arith, t, d, from_unix-max g.last_at row.last_at)

best-add_group :
    (r : Rule) (row : ActivityRow) (gs : List ActivityRow)
    → best r (map scan_activity (add_group row gs))
      ≡ joined (piece r (scan_activity row)) (best r (map scan_activity gs))
unfolding best add_group
best-add_group r row [] = refl
best-add_group r row (g ∷ gs) =
    elim (Bool-cases
      (g.payload_type == row.payload_type && direction_eq g.direction row.direction)) [
        | inl e ↦
            let same =
              piece-merged r row g (ground (arith, e))
                (direction_eq_iff g.direction row.direction (ground (arith, e))) in
            rw (add_group, e)
              (ap (λ s. joined s (best r (map scan_activity gs))) same
                ∙ sym (
                    joined_assoc (piece r (scan_activity row)) (piece r (scan_activity g))
                      (best r (map scan_activity gs))))
        | inr e ↦
            let a = piece r (scan_activity row) in
            let b = piece r (scan_activity g) in
            let c = best r (map scan_activity gs) in
            rw (add_group, e)
              (ap (joined b) (best-add_group r row gs)
                ∙ joined_assoc b a c
                ∙ ap (λ s. joined s c) (joined_comm b a)
                ∙ sym (joined_assoc a b c))
      ]

wants-in_types : (ts : List ℕ) (t : ℕ) → in_types ts t ≡ wants ts t
unfolding in_types wants
wants-in_types [] t = refl
wants-in_types (x ∷ xs) t = ground (arith, wants-in_types xs t)

is_evidence-counts :
    (key : Text) (r : Rule) (row : ActivityRow)
    → is_evidence key r row ≡ (text_eq row.key key && counts r (scan_activity row))
unfolding scan_activity
is_evidence-counts key r row = ground (arith, wants-in_types r.types row.payload_type)

reading-later :
    (at : ℤ) (rest : Option ℤ)
    → reading (some at) ≡ record { at = from_unix at; applicable = true }
    → reading (later at rest) ≡ joined (reading (some at)) (reading rest)
unfolding time_from
reading-later at none h = ground arith
reading-later at (some b) h = ground (arith, from_unix-max at b)

newest-piece :
    (key : Text) (r : Rule) (row : ActivityRow) (rows : List ActivityRow)
    → reading (newest_evidence key r (row ∷ rows))
      ≡ joined
          (if text_eq row.key key then piece r (scan_activity row) else nothing_seen)
          (reading (newest_evidence key r rows))
unfolding newest_evidence scan_activity time_from
newest-piece key r row rows = ground (
  arith,
  is_evidence-counts key r row,
  reading-later row.last_at (newest_evidence key r rows) refl,
)

next-best :
    (key : Text) (r : Rule) (row : ActivityRow) (gs : List ActivityRow)
    → best r (map scan_activity (if text_eq row.key key then add_group row gs else gs))
      ≡ joined
          (best r (map scan_activity gs))
          (if text_eq row.key key then piece r (scan_activity row) else nothing_seen)
next-best key r row gs =
    let was = best r (map scan_activity gs) in
    elim (Bool-cases (text_eq row.key key)) [
      | inl e ↦ rw e (best-add_group r row gs ∙ joined_comm (piece r (scan_activity row)) was)
      | inr e ↦ rw e (sym (joined_nothing was))
    ]

best-groups :
    (key : Text) (r : Rule) (gs rows : List ActivityRow)
    → best r (map scan_activity (groups key gs rows))
      ≡ joined (best r (map scan_activity gs)) (reading (newest_evidence key r rows))
unfolding best groups newest_evidence time_from
best-groups key r gs [] = sym (joined_nothing (best r (map scan_activity gs)))
best-groups key r gs (row ∷ rows) =
    let next = if text_eq row.key key then add_group row gs else gs in
    let this = if text_eq row.key key then piece r (scan_activity row) else nothing_seen in
    let was = best r (map scan_activity gs) in
    let more : best r (map scan_activity next) ≡ joined was this = next-best key r row gs in
    best-groups key r next rows
    ∙ ap (λ s. joined s (reading (newest_evidence key r rows))) more
    ∙ sym (joined_assoc was this (reading (newest_evidence key r rows)))
    ∙ ap (joined was) (sym (newest-piece key r row rows))

newest_evidence-none :
    (key : Text) (r : Rule) (rows : List ActivityRow)
    → r.types ≡ []
    → newest_evidence key r rows ≡ none
unfolding newest_evidence in_types
newest_evidence-none key r [] h = refl
newest_evidence-none key r (row ∷ rows) h =
    ground (arith, ap (λ ts. in_types ts row.payload_type) h, newest_evidence-none key r rows h)

evidence_at-reading :
    (key : Text) (r : Rule) (ts : List ℕ) (db : Db)
    → r.types ≡ ts
    → evidence_at key r ts db ≡ reading (newest_evidence key r db.target_activity)
unfolding time_from
evidence_at-reading key r [] db h = ground (arith, newest_evidence-none key r db.target_activity h)
evidence_at-reading key r (t ∷ ts) db h = refl

-- For a rule on packet types, what the query finds when the rule is written is what a poll would
-- judge it on with the evidence of the same moment, whatever the poll sees of the target itself.
pub rule_seed_observation_types :
    (kind : Kind) (key : Text) (r : Rule) (db : Db) (obs : Observation) (known : Bool)
    → r.source ≡ types
    → rule_seed_observation kind key r db ≡ rule_observation r obs known (all_activity db key)
unfolding rule_seed_observation rule_observation all_activity best
rule_seed_observation_types kind key r db obs known h =
    let rows = db.target_activity in
    let acts = map scan_activity (groups key [] rows) in
    let newest = reading (newest_evidence key r rows) in
    ap (λ s. seed_from s kind key r db) h
    ∙ evidence_at-reading key r r.types db refl
    ∙ sym (joined_comm nothing_seen newest ∙ joined_nothing newest)
    ∙ sym (best-groups key r [] rows)
    ∙ sym (
        latest-best r acts zero_time false
        ∙ joined_comm nothing_seen (best r acts)
        ∙ joined_nothing (best r acts))
    ∙ sym (ap (λ s. observed s r obs known acts) h)
