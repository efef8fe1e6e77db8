-- ===== src/Store/Activity/Cursor/Widen.antt =====
-- The consumed range of packet ids only grows.
use hop_react.Common.{ℕ, ◌≤◌, ◌<◌, Bool, arith}
use hop_react.Clock.{Time}
use hop_react.Store.Tables.{Db}
use hop_react.Store.Activity.Cursor.{feed_cursor, set_feed_cursor}

-- Where the low end is known, a packet id that lies in the consumed range stays in it, whatever
-- range is written over it.
set_feed_cursor_widens :
    (now : Time) (low high : ℕ) (backfilled : Bool) (db : Db) (i : ℕ)
    → 0 < (feed_cursor db).low
    → (feed_cursor db).low ≤ i
    → i ≤ (feed_cursor db).high
    → let after = feed_cursor (set_feed_cursor now low high backfilled db) in
      (after.low ≤ i) × (i ≤ after.high)
unfolding feed_cursor set_feed_cursor
set_feed_cursor_widens now low high backfilled db i known above below = ground arith
