-- ===== src/Store/Targets/Forward.antt =====
-- What is stored about a target only moves forward, and a feed that stands still counts as such.
use hop_react.Common.{
  ◌*◌, ◌/◌, ◌≤◌, ◌≡◌, ◌≢◌, refl, Option, none, some, List, [], ◌∷◌, Text, text_eq_iff,
  if◌then◌else◌, arith, ℤ, pos, negsuc, All,
}
use hop_react.Clock.{Time}
use hop_react.Clock.Unix.{second, null_int, time_from, time_from-null_int}
use hop_react.Models.{Kind, kind_eq_iff, Observation}
use hop_react.Store.Tables.{Db, TargetRow}
use hop_react.Store.Targets.{
  max_time, is_target, find_target, put_target, last_seen_of, last_relayed_of, relay_ever_of,
  last_packet_of, target_row, advances, upsert_rows, upsert_targets,
}

-- A stored time is a whole number of seconds.
whole-time_from : (s : Option ℤ) → time_from s / second * second ≡ time_from s
unfolding time_from
whole-time_from none = omega arith
whole-time_from (some (pos n)) = omega arith
whole-time_from (some (negsuc n)) = omega arith

-- Writing the later of a stored time and a new one does not go back, and keeps the new one's seconds.
forward :
    (s : Option ℤ) (t : Time)
    → let t' = time_from (null_int (max_time (time_from s) t)) in
      (time_from s ≤ t') × (t / second * second ≤ t')
forward s t =
    let u = max_time (time_from s) t in ground (arith, time_from-null_int u, whole-time_from s)

-- No column of the new row is behind the old one, and a relay once observed stays observed.
pub record IsForward (before after : Option TargetRow) : Type 0 where
  pub seen : last_seen_of before ≤ last_seen_of after
  pub relayed : last_relayed_of before ≤ last_relayed_of after
  pub packet : last_packet_of before ≤ last_packet_of after
  pub ever : relay_ever_of before ≢ 0 → relay_ever_of after ≡ relay_ever_of before

-- The columns of the SELECT over an optional row.
columns : (prev : Option TargetRow) → Option ℤ × Option ℤ × Option ℤ × Option ℤ
columns none = (none, none, none, none)
columns (some row) =
    (row.last_seen_at, row.last_relayed_at, row.relay_ever_observed_at, row.last_packet_at)

stored :
    (prev : Option TargetRow)
    → (last_seen_of prev ≡ time_from (columns prev).0)
      × (last_relayed_of prev ≡ time_from (columns prev).1)
      × (relay_ever_of prev ≡ time_from (columns prev).2)
      × (last_packet_of prev ≡ time_from (columns prev).3)
unfolding columns
stored none = (refl, refl, refl, refl)
stored (some row) = (refl, refl, refl, refl)

target_row-IsForward :
    (now : Time) (o : Observation) (prev : Option TargetRow)
    → IsForward prev (some (target_row now o prev))
unfolding target_row
target_row-IsForward now o prev =
    let c = columns prev in
    let e = stored prev in
    ground (
      arith,
      e,
      forward c.0 o.last_seen,
      forward c.1 o.last_relayed,
      forward c.3 o.last_packet,
      time_from-null_int (time_from c.2),
      whole-time_from c.2,
    )

target_row_seen :
    (now : Time) (o : Observation) (prev : Option TargetRow)
    → o.last_seen / second * second ≤ last_seen_of (some (target_row now o prev))
unfolding target_row
target_row_seen now o prev = ground (arith, stored prev, forward (columns prev).0 o.last_seen)

row_key :
    (now : Time) (o : Observation) (prev : Option TargetRow)
    → ((target_row now o prev).kind ≡ o.kind) × ((target_row now o prev).key ≡ o.key)
unfolding target_row
row_key now o prev = (refl, refl)

-- The row that is read back after a write, but for when it was first indexed.
abbrev SeenSame : Option TargetRow → Option TargetRow → Type 0
SeenSame a b =
    (last_seen_of a ≡ last_seen_of b)
    × (last_relayed_of a ≡ last_relayed_of b)
    × (relay_ever_of a ≡ relay_ever_of b)
    × (last_packet_of a ≡ last_packet_of b)

find-put :
    (kind : Kind) (key : Text) (t : TargetRow) (rows : List TargetRow)
    → SeenSame
        (find_target kind key (put_target t rows))
        (if is_target kind key t then some t else find_target kind key rows)
unfolding find_target put_target
find-put kind key t [] = ground arith
find-put kind key t (row ∷ rows) = ground (
  arith,
  kind_eq_iff row.kind t.kind,
  kind_eq_iff row.kind kind,
  kind_eq_iff t.kind kind,
  text_eq_iff row.key t.key,
  text_eq_iff row.key key,
  text_eq_iff t.key key,
  find-put kind key t rows,
)

IsForward-trans : (a b c : Option TargetRow) → IsForward a b → IsForward b c → IsForward a c
IsForward-trans a b c p q = ground arith

-- One observation moves every row forward, and stores what it saw.
step :
    (now : Time) (o : Observation) (rows : List TargetRow) (kind : Kind) (key : Text)
    → IsForward
        (find_target kind key rows)
        (find_target kind key (put_target (target_row now o (find_target o.kind o.key rows)) rows))
step now o rows kind key =
    let prev = find_target o.kind o.key rows in
    ground (
      arith,
      find-put kind key (target_row now o prev) rows,
      row_key now o prev,
      target_row-IsForward now o prev,
      kind_eq_iff (target_row now o prev).kind kind,
      text_eq_iff (target_row now o prev).key key,
    )

step_seen :
    (now : Time) (o : Observation) (rows : List TargetRow)
    → o.last_seen / second * second
      ≤ last_seen_of (
          find_target o.kind o.key
            (put_target (target_row now o (find_target o.kind o.key rows)) rows))
step_seen now o rows =
    let prev = find_target o.kind o.key rows in
    ground (
      arith,
      find-put o.kind o.key (target_row now o prev) rows,
      row_key now o prev,
      target_row_seen now o prev,
      text_eq_iff (target_row now o prev).key o.key,
    )

rows-IsForward :
    (now : Time) (os : List Observation) (rows : List TargetRow) (kind : Kind) (key : Text)
    → IsForward (find_target kind key rows) (find_target kind key (upsert_rows now os rows).0)
unfolding upsert_rows
rows-IsForward now [] rows kind key = ground arith
rows-IsForward now (o ∷ os) rows kind key =
    let rows' = put_target (target_row now o (find_target o.kind o.key rows)) rows in
    IsForward-trans (find_target kind key rows) (find_target kind key rows')
      (find_target kind key (upsert_rows now os rows').0) (step now o rows kind key)
      (rows-IsForward now os rows' kind key)

-- An upsert takes no target's times back: for every kind and key, the last sighting, the last
-- relay and the last packet read back afterwards are no earlier than before, and a first relay
-- once observed reads back as it was.
pub upsert_targets-IsForward :
    (now : Time) (os : List Observation) (db : Db) (kind : Kind) (key : Text)
    → IsForward
        (find_target kind key db.targets)
        (find_target kind key (upsert_targets now os db).0.targets)
unfolding upsert_targets
upsert_targets-IsForward now os db kind key = rows-IsForward now os db.targets kind key

-- The stored last sighting of every target served is at least the one served.
abbrev pub Caught : List Observation → List TargetRow → Type 0
Caught os rows = All (λ o. o.last_seen ≤ last_seen_of (find_target o.kind o.key rows)) os

Caught-forward :
    (os : List Observation) (a b : List TargetRow)
    → ((kind : Kind) (key : Text) → IsForward (find_target kind key a) (find_target kind key b))
    → Caught os a
    → Caught os b
Caught-forward [] a b f h = tt
Caught-forward (o ∷ os) a b f h = (ground (arith, f o.kind o.key, h.0), Caught-forward os a b f h.1)

pub Caught-still :
    (now : Time) (os : List Observation) (rows : List TargetRow)
    → Caught os rows
    → (upsert_rows now os rows).1 ≡ 0
unfolding upsert_rows advances
Caught-still now [] rows h = refl
Caught-still now (o ∷ os) rows h =
    let rows' = put_target (target_row now o (find_target o.kind o.key rows)) rows in
    let later = Caught-forward os rows rows' (step now o rows) h.1 in
    ground (arith, h.0, Caught-still now os rows' later)

-- Each last sighting is a whole number of seconds.
abbrev pub Whole : List Observation → Type 0
Whole os = All (λ o. o.last_seen / second * second ≡ o.last_seen) os

Whole-Caught :
    (now : Time) (os : List Observation) (rows : List TargetRow)
    → Whole os
    → Caught os (upsert_rows now os rows).0
unfolding upsert_rows
Whole-Caught now [] rows w = tt
Whole-Caught now (o ∷ os) rows w =
    let rows' = put_target (target_row now o (find_target o.kind o.key rows)) rows in
    (
      ground (arith, w.0, step_seen now o rows, rows-IsForward now os rows' o.kind o.key),
      Whole-Caught now os rows' w.1,
    )

-- A feed that serves the same snapshot again, with last sightings in whole seconds, is seen to
-- stand still: the second upsert counts no target as advanced.
upsert_targets_still :
    (now later : Time) (os : List Observation) (db : Db)
    → Whole os
    → (upsert_targets later os (upsert_targets now os db).0).1 ≡ 0
unfolding upsert_targets
upsert_targets_still now later os db w =
    Caught-still later os (upsert_rows now os db.targets).0 (Whole-Caught now os db.targets w)
