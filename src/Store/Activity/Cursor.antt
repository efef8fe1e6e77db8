-- ===== src/Store/Activity/Cursor.antt =====
-- How far through the packet feed ingest has read. Packet ids are natural numbers.
pub mod Widen
use hop_react.Common.{
  ℕ, Bool, true, false, Option, none, some, ltb, ◌==◌, leb_ℤ, if◌then◌else◌, ℤ, pos,
}
use hop_react.Clock.{Time, zero_time}
use hop_react.Clock.Unix.{unix, from_unix}
use hop_react.Store.Tables.{Db, CursorRow}

pub record Cursor : Type 0 where
  pub low : ℕ
  pub high : ℕ
  pub backfilled_at : Time

unfoldable pub feed_cursor : Db → Cursor
feed_cursor db = elim db.feed_cursor [
  | none ↦ record { low = 0; high = 0; backfilled_at = zero_time }
  | some c ↦ record {
    low = c.low_packet_id;
    high = c.last_packet_id;
    backfilled_at = if leb_ℤ c.backfilled_at (pos 0) then zero_time else from_unix c.backfilled_at;
  }
]

-- The CASE over low_packet_id, and MAX.
abbrev pub lower : ℕ → ℕ → ℕ
lower stored new =
    if stored == 0 then new else if new == 0 then stored else if ltb new stored then new else stored

abbrev pub higher : ℕ → ℕ → ℕ
higher stored new = if ltb stored new then new else stored

unfoldable pub set_feed_cursor : Time → ℕ → ℕ → Bool → Db → Db
set_feed_cursor now low high backfilled db =
    let at = if backfilled then unix now else pos 0 in
    record db {
      feed_cursor = some (elim db.feed_cursor [
        | none ↦ record {
          low_packet_id = low;
          last_packet_id = high;
          updated_at = unix now;
          backfilled_at = at;
        }
        | some c ↦ record {
          low_packet_id = lower c.low_packet_id low;
          last_packet_id = higher c.last_packet_id high;
          updated_at = unix now;
          backfilled_at = if leb_ℤ c.backfilled_at at then at else c.backfilled_at;
        }
      ]);
    }
