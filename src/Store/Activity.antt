-- ===== src/Store/Activity.antt =====
-- target_activity and feed_cursor: UpsertActivity, AllActivity, FeedCursor and SetFeedCursor of
-- internal/store/queries.go.
pub mod Cursor
use hop_react.Common.{
  ℕ, suc, ◌+◌, Bool, true, false, not, ◌&&◌, ◌||◌, Option, none, some, List, [], ◌∷◌, ◌++◌, Text,
  text_eq, ◌==◌, if◌then◌else◌, map, ltb, leb, leb_ℤ, ℤ, pos,
}
use hop_react.Clock.{Time, is_zero}
use hop_react.Clock.Unix.{unix, from_unix}
use hop_react.Models.{Kind, kind_eq, Direction, direction_eq, Activity}
use hop_react.Store.Tables.{Db, ActivityRow}

-- strings.ToLower on the ASCII letters; keys are hex digits.
abbrev pub to_lower : Text → Text
to_lower = map (λ c. if leb 65 c && leb c 90 then c + 32 else c)

abbrev pub max_ℤ : ℤ → ℤ → ℤ
max_ℤ a b = if leb_ℤ a b then b else a

abbrev pub is_slot : Kind → Text → ℕ → Direction → ActivityRow → Bool
is_slot kind key t dir row =
    kind_eq row.kind kind
    && text_eq row.key key
    && row.payload_type == t
    && direction_eq row.direction dir

-- The INSERT with its ON CONFLICT clause.
unfoldable pub put_activity : ActivityRow → List ActivityRow → List ActivityRow
put_activity a [] = a ∷ []
put_activity a (row ∷ rows) =
    if is_slot a.kind a.key a.payload_type a.direction row
    then record row {
      last_at = max_ℤ row.last_at a.last_at;
      evidence_count = row.evidence_count + a.evidence_count;
    }
      ∷ rows
    else row ∷ put_activity a rows

unfoldable pub upsert_activity : Kind → Text → ℕ → Direction → Time → ℕ → Db → Db
upsert_activity kind key t dir at n db = if is_zero at || leb n 0 then db else record db {
  target_activity =
      put_activity
        (record {
          kind = kind;
          key = to_lower key;
          payload_type = t;
          direction = dir;
          last_at = unix at;
          evidence_count = n;
        })
        db.target_activity;
}

-- One group of GROUP BY key, payload_type, direction, with MAX(last_at) and SUM(evidence_count).
unfoldable pub add_group : ActivityRow → List ActivityRow → List ActivityRow
add_group a [] = a ∷ []
add_group a (g ∷ gs) =
    if g.payload_type == a.payload_type && direction_eq g.direction a.direction
    then record g {
      last_at = max_ℤ g.last_at a.last_at;
      evidence_count = g.evidence_count + a.evidence_count;
    }
      ∷ gs
    else g ∷ add_group a gs

unfoldable pub groups : Text → List ActivityRow → List ActivityRow → List ActivityRow
groups key gs [] = gs
groups key gs (row ∷ rows) = groups key (if text_eq row.key key then add_group row gs else gs) rows

unfoldable pub scan_activity : ActivityRow → Activity
scan_activity row = record {
  payload_type = row.payload_type;
  direction = row.direction;
  last_at = from_unix row.last_at;
  evidence_count = row.evidence_count;
}

-- The entry for one key of the map that AllActivity builds.
unfoldable pub all_activity : Db → Text → List Activity
all_activity db key = map scan_activity (groups key [] db.target_activity)
