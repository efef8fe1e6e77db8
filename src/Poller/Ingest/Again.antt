-- ===== src/Poller/Ingest/Again.antt =====
-- No packet is counted twice.
use hop_react.Common.{
  ℕ, ◌≤◌, ◌<◌, ◌≡◌, ◌≢◌, refl, Bool, true, some, List, [], ◌∷◌, leb, All, arith, not, ◌&&◌, ◌⊎◌,
  inl, inr, subst, sym, Bool-cases,
}
use hop_react.Clock.{Time}
use hop_react.Models.{Kind, Observation, Packet}
use hop_react.Store.Activity.{upsert_activity}
use hop_react.Attribute.Index.{Index, build_index}
use hop_react.Store.Tables.{Db}
use hop_react.Store.Activity.Cursor.{Cursor, feed_cursor, set_feed_cursor}
use hop_react.Poller.Ingest.{
  Rows, Reading, start, seen_before, read_packet, read_packets, upsert_all, is_empty, record_page,
  is_backfilling, ingest,
}

-- The packets that have a time lie in the range that a cursor has consumed.
abbrev Consumed : Cursor → List Packet → Type 0
Consumed c = All (λ p. p.at ≢ 0 → seen_before c p.id ≡ true)

-- They lie between the two ends.
abbrev Within : ℕ → ℕ → List Packet → Type 0
Within low high = All (λ p. p.at ≢ 0 → (low ≤ p.id) × (p.id ≤ high))

abbrev Numbered : List Packet → Type 0
Numbered = All (λ p. 0 < p.id)

read-Consumed :
    (idx : Index) (c : Cursor) (ps : List Packet) (r : Reading)
    → Consumed c ps
    → ((read_packets idx c ps r).fresh ≡ r.fresh) × ((read_packets idx c ps r).rows ≡ r.rows)
unfolding read_packets read_packet
read-Consumed idx c [] r h = (refl, refl)
read-Consumed idx c (p ∷ ps) r h =
    ground (arith, h.0, read-Consumed idx c ps (read_packet idx c p r) h.1)

-- The ends only move apart, and the low one is not 0 once a numbered packet was read.
read_widens :
    (idx : Index) (c : Cursor) (ps : List Packet) (r : Reading)
    → Numbered ps
    → let r' = read_packets idx c ps r in
      (r.high ≤ r'.high) × (0 < r.low → (0 < r'.low) × (r'.low ≤ r.low))
unfolding read_packets read_packet
read_widens idx c [] r n = ground arith
read_widens idx c (p ∷ ps) r n =
    ground (arith, n.0, read_widens idx c ps (read_packet idx c p r) n.1)

read-Within :
    (idx : Index) (c : Cursor) (ps : List Packet) (r : Reading)
    → Numbered ps
    → let r' = read_packets idx c ps r in
      All (λ p. p.at ≢ 0 → (0 < r'.low) × (r'.low ≤ p.id) × (p.id ≤ r'.high)) ps
unfolding read_packets read_packet
read-Within idx c [] r n = tt
read-Within idx c (p ∷ ps) r n = (
  λ dated. ground (arith, n.0, dated, read_widens idx c ps (read_packet idx c p r) n.1),
  read-Within idx c ps (read_packet idx c p r) n.1,
)

cursor-upsert_all : (rows : Rows) (db : Db) → feed_cursor (upsert_all rows db) ≡ feed_cursor db
unfolding upsert_all upsert_activity feed_cursor
cursor-upsert_all [] db = refl
cursor-upsert_all ((s, a) ∷ rows) db =
    ground (arith, cursor-upsert_all rows (upsert_activity Kind.node s.key s.typ s.dir a.at a.n db))

-- The range stored after a page holds what was read.
stored_range :
    (now : Time) (low high : ℕ) (backfilling : Bool) (db : Db)
    → 0 < low
    → let c = feed_cursor (set_feed_cursor now low high backfilling db) in
      (0 < c.low) × (c.low ≤ low) × (high ≤ c.high)
unfolding feed_cursor set_feed_cursor
stored_range now low high backfilling db h = ground arith

Within-Consumed :
    (c : Cursor) (low high : ℕ) (ps : List Packet)
    → Numbered ps
    → (0 < low → (0 < c.low) × (c.low ≤ low) × (high ≤ c.high))
    → All (λ p. p.at ≢ 0 → (0 < low) × (low ≤ p.id) × (p.id ≤ high)) ps
    → Consumed c ps
Within-Consumed c low high [] n f h = tt
Within-Consumed c low high (p ∷ ps) n f h =
    (λ dated. ground (arith, n.0, f, h.0 dated), Within-Consumed c low high ps n.1 f h.1)

activity-set_feed_cursor :
    (now : Time) (low high : ℕ) (b : Bool) (db : Db)
    → (set_feed_cursor now low high b db).target_activity ≡ db.target_activity
unfolding set_feed_cursor
activity-set_feed_cursor now low high b db = refl

-- A page that the cursor has consumed adds nothing.
record_page-Consumed :
    (now : Time) (nodes : List Observation) (b : Bool) (ps : List Packet) (db : Db)
    → Consumed (feed_cursor db) ps
    → let (db', fresh) = record_page now nodes b ps db in
      (db'.target_activity ≡ db.target_activity) × (fresh ≡ 0)
unfolding record_page upsert_all
record_page-Consumed now nodes b ps db h =
    let c = feed_cursor db in
    let r = read_packets (build_index nodes) c ps (start c) in
    ground (
      arith,
      read-Consumed (build_index nodes) c ps (start c) h,
      activity-set_feed_cursor now r.low r.high b db,
    )

-- A page that was written is consumed.
record_page_consumes :
    (now : Time) (nodes : List Observation) (b : Bool) (ps : List Packet) (db : Db)
    → Numbered ps
    → ((t : Time) → record_page t nodes b ps db ≡ (db, 0))
      ⊎ Consumed (feed_cursor (record_page now nodes b ps db).0) ps
unfolding record_page
record_page_consumes now nodes b ps db n =
    let c = feed_cursor db in
    let r = read_packets (build_index nodes) c ps (start c) in
    elim (Bool-cases (is_empty r.rows && not b && leb r.high c.high)) [
      | inl e ↦ inl (λ t. ground (arith, e))
      | inr e ↦
          let written = set_feed_cursor now r.low r.high b (upsert_all r.rows db) in
          let same : record_page now nodes b ps db ≡ (written, r.fresh) = ground (arith, e) in
          inr (
            subst (λ (t : Db × ℕ). Consumed (feed_cursor t.0) ps) (sym same)
              (Within-Consumed (feed_cursor written) r.low r.high ps n
                (stored_range now r.low r.high b (upsert_all r.rows db))
                (read-Within (build_index nodes) c ps (start c) n)))
    ]

-- A page read again is not counted again: where every packet has an id from 1 on, a second ingest
-- that is served the packets of the first, at a later time, leaves the
-- stored evidence as the first one left it.
pub ingest_again :
    (backfill_hours : ℕ) (now later : Time) (nodes : List Observation) (ps : List Packet) (db : Db)
    → All (λ p. 0 < p.id) ps
    → let (db', fresh) = ingest backfill_hours now nodes (λ _. some ps) db in
      let (db'', fresh') = ingest backfill_hours later nodes (λ _. some ps) db' in
      (db''.target_activity ≡ db'.target_activity) × (fresh' ≡ some 0)
unfolding ingest
ingest_again backfill_hours now later nodes ps db n =
    let b = is_backfilling backfill_hours db in
    let db' = (record_page now nodes b ps db).0 in
    elim (record_page_consumes now nodes b ps db n) [
      | inl same ↦ ground (arith, same now, same later)
      | inr seen ↦
          ground (
            arith,
            record_page-Consumed later nodes (is_backfilling backfill_hours db') ps db' seen,
          )
    ]
