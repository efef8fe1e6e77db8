-- ===== src/Poller/Ingest.antt =====
-- ingest of internal/poller/poller.go: the packet feed folded into per-type evidence. The page
-- that the client fetches is an input, for a backfill or for a plain poll; none is a fetch error.
pub mod Evidence
pub mod Again
use hop_react.Common.{
  ℕ, suc, ◌≡◌, ◌↔◌, Bool, true, false, not, ◌&&◌, ◌||◌, Option, none, some, List, [], ◌∷◌, Text,
  text_eq, text_eq_iff, ◌==◌, if◌then◌else◌, ltb, leb, lookup, insert, Key, arith,
}
use hop_react.Clock.{Time, is_zero, after, zero_time}
use hop_react.Models.{Kind, Direction, direction_eq, Observation, Packet}
use hop_react.Attribute.Index.{Index, build_index}
use hop_react.Attribute.Evidence.{Hit, attribute}
use hop_react.Store.Tables.{Db}
use hop_react.Store.Activity.{upsert_activity}
use hop_react.Store.Activity.Cursor.{Cursor, feed_cursor, set_feed_cursor}

-- The slot of a hit. Its kind is always that of a node.
pub record Slot : Type 0 where
  pub key : Text
  pub typ : ℕ
  pub dir : Direction

pub record Agg : Type 0 where
  pub at : Time
  pub n : ℕ

abbrev pub slot_eq : Slot → Slot → Bool
slot_eq a b = text_eq a.key b.key && a.typ == b.typ && direction_eq a.dir b.dir

direction_eq_iff : (a b : Direction) → (direction_eq a b ≡ true) ↔ (a ≡ b)
direction_eq_iff a b = (λ h. ground arith, λ h. ground arith)

pub slot_eq_iff : (a b : Slot) → (slot_eq a b ≡ true) ↔ (a ≡ b)
slot_eq_iff a b = (
  λ h. ground (arith, text_eq_iff a.key b.key, direction_eq_iff a.dir b.dir),
  λ h. ground (arith, text_eq_iff a.key b.key, direction_eq_iff a.dir b.dir),
)

instance abbrev pub slot_key : Key Slot
slot_key = record { beq = slot_eq; beq_iff = slot_eq_iff }

abbrev pub Rows : Type 0
Rows = List (Slot × Agg)

abbrev pub or_agg : Option Agg → Agg
or_agg none = record { at = zero_time; n = 0 }
or_agg (some a) = a

abbrev pub slot_of : Hit → Slot
slot_of h = record { key = h.key; typ = h.type_; dir = h.direction }

-- The loop over the hits of one packet.
unfoldable pub add_hits : Time → List Hit → Rows → Rows
add_hits at [] rows = rows
add_hits at (h ∷ hs) rows =
    let a = or_agg (lookup (slot_of h) rows) in
    let b : Agg = record { at = if after at a.at then at else a.at; n = suc a.n } in
    add_hits at hs (insert (slot_of h) b rows)

-- The variables of the loop over the packets.
pub record Reading : Type 0 where
  pub low : ℕ
  pub high : ℕ
  pub fresh : ℕ
  pub rows : Rows

abbrev pub low_known : Cursor → ℕ
low_known c = if c.low == 0 then c.high else c.low

abbrev pub seen_before : Cursor → ℕ → Bool
seen_before c i = ltb 0 c.high && leb i c.high && leb (low_known c) i

-- One round of the loop over the packets.
unfoldable pub read_packet : Index → Cursor → Packet → Reading → Reading
read_packet idx c p r =
    let low = if r.low == 0 || ltb p.id r.low then p.id else r.low in
    let high = if ltb r.high p.id then p.id else r.high in
    if is_zero p.at
    then r
    else if seen_before c p.id
    then record r { low = low; high = high }
    else record {
      low = low;
      high = high;
      fresh = suc r.fresh;
      rows = add_hits p.at (attribute p idx) r.rows;
    }

unfoldable pub read_packets : Index → Cursor → List Packet → Reading → Reading
read_packets idx c [] r = r
read_packets idx c (p ∷ ps) r = read_packets idx c ps (read_packet idx c p r)

abbrev pub start : Cursor → Reading
start c = record { low = c.low; high = c.high; fresh = 0; rows = [] }

-- The upserts of the transaction. The source takes them in the order of a Go map.
unfoldable pub upsert_all : Rows → Db → Db
upsert_all [] db = db
upsert_all ((s, a) ∷ rows) db =
    upsert_all rows (upsert_activity Kind.node s.key s.typ s.dir a.at a.n db)

abbrev pub is_empty : Rows → Bool
is_empty [] = true
is_empty (_ ∷ _) = false

-- A page that was fetched.
unfoldable pub record_page : Time → List Observation → Bool → List Packet → Db → Db × ℕ
record_page now nodes backfilling packets db =
    let c = feed_cursor db in
    let r = read_packets (build_index nodes) c packets (start c) in
    if is_empty r.rows && not backfilling && leb r.high c.high
    then (db, 0)
    else (set_feed_cursor now r.low r.high backfilling (upsert_all r.rows db), r.fresh)

abbrev pub is_backfilling : ℕ → Db → Bool
is_backfilling backfill_hours db = is_zero (feed_cursor db).backfilled_at && ltb 0 backfill_hours

-- The number of fresh packets, or none where the fetch failed.
unfoldable pub ingest :
    ℕ → Time → List Observation → (Bool → Option (List Packet)) → Db → Db × Option ℕ
ingest backfill_hours now nodes page db =
    let backfilling = is_backfilling backfill_hours db in
    elim (page backfilling) [
      | none ↦ (db, none)
      | some packets ↦
          let (db', fresh) = record_page now nodes backfilling packets db in (db', some fresh)
    ]
