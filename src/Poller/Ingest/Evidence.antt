-- ===== src/Poller/Ingest/Evidence.antt =====
-- What ingest writes is what the fresh packets prove.
use hop_react.Common.{
  ℕ, suc, ◌+◌, ◌<◌, ◌≡◌, ◌≢◌, ap, ◌∙◌, Bool, true, ◌&&◌, ◌||◌, some, List, [], ◌∷◌, Text, text_eq,
  text_eq_iff, ◌==◌, if◌then◌else◌, All, arith, lookup, insert,
}
use hop_react.Clock.{Time, is_zero, after}
use hop_react.Clock.Unix.{unix}
use hop_react.Models.{Kind, Direction, direction_eq, Observation, Packet}
use hop_react.Attribute.Index.{Index, build_index}
use hop_react.Attribute.Evidence.{Hit, attribute}
use hop_react.Store.Tables.{Db, ActivityRow}
use hop_react.Store.Activity.{to_lower, is_slot, put_activity, upsert_activity}
use hop_react.Store.Activity.Cursor.{Cursor, feed_cursor, set_feed_cursor}
use hop_react.Poller.Ingest.{
  Slot, slot_eq_iff, slot_key, Agg, Rows, or_agg, slot_of, add_hits, Reading, start, seen_before,
  read_packet, read_packets, upsert_all, is_empty, record_page, is_backfilling, ingest,
}

module _ (key : Text) (t : ℕ) (dir : Direction) where
  -- The evidence stored about a node, a type and a direction.
  unfoldable pub stored : List ActivityRow → ℕ
  stored [] = 0
  stored (row ∷ rows) =
      (if is_slot Kind.node key t dir row then row.evidence_count else 0) + stored rows

  -- Slots are told apart before their keys are written in lower case.
  abbrev is_for : Slot → Bool
  is_for s = text_eq (to_lower s.key) key && s.typ == t && direction_eq s.dir dir

  unfoldable pub hits_for : List Hit → ℕ
  hits_for [] = 0
  hits_for (h ∷ hs) = (if is_for (slot_of h) then 1 else 0) + hits_for hs

  -- The hits of the packets that have a time and lie outside the consumed range.
  unfoldable pub fresh_hits : Index → Cursor → List Packet → ℕ
  fresh_hits idx c [] = 0
  fresh_hits idx c (p ∷ ps) =
      (if is_zero p.at || seen_before c p.id then 0 else hits_for (attribute p idx))
      + fresh_hits idx c ps

  tallied : Rows → ℕ
  tallied [] = 0
  tallied ((s, a) ∷ rows) = (if is_for s then a.n else 0) + tallied rows

  -- An entry that was counted has a time.
  Dated : Rows → Type 0
  Dated = All (λ (e : Slot × Agg). (0 < e.1.at) × (0 < e.1.n))

  insert-tallied :
      (s : Slot) (a : Agg) (rows : Rows)
      → tallied (insert s a rows) + (if is_for s then (or_agg (lookup s rows)).n else 0)
        ≡ tallied rows + (if is_for s then a.n else 0)
  unfolding insert lookup tallied
  insert-tallied s a [] = ground arith
  insert-tallied s a ((s', a') ∷ rows) = ground (arith, slot_eq_iff s' s, insert-tallied s a rows)

  insert-Dated :
      (s : Slot) (a : Agg) (rows : Rows)
      → (0 < a.at) × (0 < a.n)
      → Dated rows
      → Dated (insert s a rows)
  unfolding insert Dated
  insert-Dated s a [] h d = (h, tt)
  insert-Dated s a ((s', a') ∷ rows) h d = ground (arith, insert-Dated s a rows h d.1)

  add_hits-Dated :
      (at : Time) (hs : List Hit) (rows : Rows) → at ≢ 0 → Dated rows → Dated (add_hits at hs rows)
  unfolding add_hits
  add_hits-Dated at [] rows h d = d
  add_hits-Dated at (x ∷ hs) rows h d =
      let a = or_agg (lookup (slot_of x) rows) in
      let b : Agg = record { at = if after at a.at then at else a.at; n = suc a.n } in
      add_hits-Dated at hs (insert (slot_of x) b rows) h
        (insert-Dated (slot_of x) b rows (ground arith) d)

  add_hits-tallied :
      (at : Time) (hs : List Hit) (rows : Rows)
      → tallied (add_hits at hs rows) ≡ tallied rows + hits_for hs
  unfolding add_hits hits_for
  add_hits-tallied at [] rows = omega arith
  add_hits-tallied at (x ∷ hs) rows =
      let a = or_agg (lookup (slot_of x) rows) in
      let b : Agg = record { at = if after at a.at then at else a.at; n = suc a.n } in
      ground (
        arith,
        add_hits-tallied at hs (insert (slot_of x) b rows),
        insert-tallied (slot_of x) b rows,
      )

  read-tallied :
      (idx : Index) (c : Cursor) (ps : List Packet) (r : Reading)
      → Dated r.rows
      → Dated (read_packets idx c ps r).rows
        × (tallied (read_packets idx c ps r).rows ≡ tallied r.rows + fresh_hits idx c ps)
  unfolding read_packets read_packet fresh_hits
  read-tallied idx c [] r d = (d, omega arith)
  read-tallied idx c (p ∷ ps) r d = ground (
    arith,
    add_hits-Dated p.at (attribute p idx) r.rows,
    add_hits-tallied p.at (attribute p idx) r.rows,
    read-tallied idx c ps (read_packet idx c p r),
  )

  put-stored :
      (a : ActivityRow) (rows : List ActivityRow)
      → stored (put_activity a rows)
        ≡ stored rows + (if is_slot Kind.node key t dir a then a.evidence_count else 0)
  unfolding put_activity stored
  put-stored a [] = ground arith
  put-stored a (row ∷ rows) = ground (arith, text_eq_iff row.key a.key, put-stored a rows)

  upsert-stored :
      (rows : Rows) (db : Db)
      → Dated rows
      → stored (upsert_all rows db).target_activity ≡ stored db.target_activity + tallied rows
  unfolding upsert_all upsert_activity tallied Dated
  upsert-stored [] db d = omega arith
  upsert-stored ((s, a) ∷ rows) db d =
      let row : ActivityRow = record {
        kind = Kind.node;
        key = to_lower s.key;
        payload_type = s.typ;
        direction = s.dir;
        last_at = unix a.at;
        evidence_count = a.n;
      } in
      ground (
        arith,
        d.0,
        put-stored row db.target_activity,
        upsert-stored rows (upsert_activity Kind.node s.key s.typ s.dir a.at a.n db) d.1,
      )

  read_start :
      (idx : Index) (c : Cursor) (ps : List Packet)
      → Dated (read_packets idx c ps (start c)).rows
        × (tallied (read_packets idx c ps (start c)).rows ≡ fresh_hits idx c ps)
  unfolding Dated tallied
  read_start idx c ps = let r = read-tallied idx c ps (start c) tt in (r.0, ground (arith, r.1))

  upsert_empty : (rows : Rows) (db : Db) → is_empty rows ≡ true → upsert_all rows db ≡ db
  unfolding upsert_all
  upsert_empty rows db h = ground arith

  page-stored :
      (now : Time) (nodes : List Observation) (b : Bool) (ps : List Packet) (db : Db)
      → stored (record_page now nodes b ps db).0.target_activity
        ≡ stored
            (upsert_all
              (read_packets (build_index nodes) (feed_cursor db) ps (start (feed_cursor db))).rows
              db).target_activity
  unfolding record_page set_feed_cursor
  page-stored now nodes b ps db =
      let rows =
        (read_packets (build_index nodes) (feed_cursor db) ps (start (feed_cursor db))).rows in
      ground (arith, upsert_empty rows db)

  -- A page that is ingested adds to the evidence about a node, a type and a direction the number
  -- of hits that attribution gives for them in the page's packets that have a time and lie
  -- outside the range consumed before, and nothing else.
  pub ingest_counts :
      (backfill_hours : ℕ) (now : Time) (nodes : List Observation) (ps : List Packet) (db : Db)
      → stored (ingest backfill_hours now nodes (λ _. some ps) db).0.target_activity
        ≡ stored db.target_activity + fresh_hits (build_index nodes) (feed_cursor db) ps
  unfolding ingest
  ingest_counts backfill_hours now nodes ps db =
      let c = feed_cursor db in
      let rows = (read_packets (build_index nodes) c ps (start c)).rows in
      let read = read_start (build_index nodes) c ps in
      page-stored now nodes (is_backfilling backfill_hours db) ps db
      ∙ upsert-stored rows db read.0
      ∙ ap (λ n. stored db.target_activity + n) read.1
