-- ===== src/Store/Targets.antt =====
-- UpsertTargets of internal/store/queries.go. Positions and scores are left out: nothing but the
-- status board and the charts read them.
pub mod Forward
use hop_react.Common.{
  ℕ, ◌+◌, Bool, true, false, not, ◌&&◌, Option, none, some, List, [], ◌∷◌, Text, text_eq,
  if◌then◌else◌, ℤ,
}
use hop_react.Clock.{Time, is_zero, after}
use hop_react.Clock.Unix.{unix, null_int, time_from}
use hop_react.Models.{Kind, kind_eq, Observation}
use hop_react.Store.Tables.{Db, TargetRow}

abbrev pub max_time : Time → Time → Time
max_time a b = if after b a then b else a

abbrev pub is_target : Kind → Text → TargetRow → Bool
is_target kind key row = kind_eq row.kind kind && text_eq row.key key

unfoldable pub find_target : Kind → Text → List TargetRow → Option TargetRow
find_target kind key [] = none
find_target kind key (row ∷ rows) =
    if is_target kind key row then some row else find_target kind key rows

-- INSERT … ON CONFLICT(kind, key) DO UPDATE, which leaves first_indexed_at as it is.
unfoldable pub put_target : TargetRow → List TargetRow → List TargetRow
put_target t [] = t ∷ []
put_target t (row ∷ rows) =
    if is_target t.kind t.key row
    then record t { first_indexed_at = row.first_indexed_at } ∷ rows
    else row ∷ put_target t rows

-- A column of the SELECT, which is NULL at a first sighting.
abbrev pub column : (TargetRow → Option ℤ) → Option TargetRow → Time
column f none = time_from none
column f (some row) = time_from (f row)

abbrev pub last_seen_of : Option TargetRow → Time
last_seen_of = column (λ row. row.last_seen_at)

abbrev pub last_relayed_of : Option TargetRow → Time
last_relayed_of = column (λ row. row.last_relayed_at)

abbrev pub relay_ever_of : Option TargetRow → Time
relay_ever_of = column (λ row. row.relay_ever_observed_at)

abbrev pub last_packet_of : Option TargetRow → Time
last_packet_of = column (λ row. row.last_packet_at)

-- The row that one observation writes over the stored one.
unfoldable pub target_row : Time → Observation → Option TargetRow → TargetRow
target_row now o prev =
    let relayed = max_time (last_relayed_of prev) o.last_relayed in
    let ever = relay_ever_of prev in
    record {
      kind = o.kind;
      key = o.key;
      name = o.name;
      role = o.role;
      last_seen_at = null_int (max_time (last_seen_of prev) o.last_seen);
      last_relayed_at = null_int relayed;
      relay_ever_observed_at =
          null_int (if is_zero ever && not (is_zero relayed) then relayed else ever);
      last_packet_at = null_int (max_time (last_packet_of prev) o.last_packet);
      relay_count_1h = o.relay_count_1h;
      relay_count_24h = o.relay_count_24h;
      first_indexed_at = unix now;
      last_in_feed_at = unix now;
      updated_at = unix now;
    }

-- Whether the observation counts as an advance.
unfoldable pub advances : Observation → Option TargetRow → Bool
advances o prev =
    not (is_zero (last_seen_of prev))
    && after (max_time (last_seen_of prev) o.last_seen) (last_seen_of prev)

-- The loop over the observations; the number counts the targets that advanced.
unfoldable pub upsert_rows : Time → List Observation → List TargetRow → List TargetRow × ℕ
upsert_rows now [] rows = (rows, 0)
upsert_rows now (o ∷ os) rows =
    let prev = find_target o.kind o.key rows in
    let (after_rest, n) = upsert_rows now os (put_target (target_row now o prev) rows) in
    (after_rest, (if advances o prev then 1 else 0) + n)

unfoldable pub upsert_targets : Time → List Observation → Db → Db × ℕ
upsert_targets now os db =
    let (rows, n) = upsert_rows now os db.targets in (record db { targets = rows }, n)
