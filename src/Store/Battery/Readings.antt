-- ===== src/Store/Battery/Readings.antt =====
-- The latest battery report of each repeater: SaveBatteryReadings, BatteryReadingsFor and
-- PruneBatteryReadings of internal/store/battery.go, with PackSamples and UnpackSamples of
-- internal/corescope/battery.go. The samples are stored as the pairs that their JSON text holds.
use hop_react.Common.{
  ℕ, ◌*◌, ◌/◌, ◌≡◌, refl, Bool, true, false, ◌&&◌, Option, none, some, List, [], ◌∷◌, Text, text_eq,
  text_eq_iff, if◌then◌else◌, ℤ, arith,
}
use hop_react.Clock.Unix.{
  second, unix, from_unix, null_int, time_from, from_unix-unix, time_from-null_int,
}
use hop_react.Models.{Kind, kind_eq}
use hop_react.Models.Battery.{BatterySample, BatteryReadings}
use hop_react.Store.Tables.{Db, WatchRow, BatteryReadingsRow}

unfoldable pub pack_samples : List BatterySample → List (ℤ × ℕ)
pack_samples [] = []
pack_samples (s ∷ ss) = (unix s.at, s.mv) ∷ pack_samples ss

unfoldable pub unpack_samples : List (ℤ × ℕ) → List BatterySample
unpack_samples [] = []
unpack_samples ((t, mv) ∷ ps) = record { at = from_unix t; mv = mv } ∷ unpack_samples ps

unfoldable pub readings_row : BatteryReadings → BatteryReadingsRow
readings_row r = record {
  key = r.key;
  status = r.status;
  latest_mv = r.latest_mv;
  latest_at = null_int r.latest_at;
  reporter = r.reporter;
  stale = r.stale;
  cs_low_mv = r.cs_low_mv;
  cs_critical_mv = r.cs_critical_mv;
  samples = pack_samples r.samples;
  fetched_at = unix r.fetched_at;
}

unfoldable pub scan_readings : BatteryReadingsRow → BatteryReadings
scan_readings row = record {
  key = row.key;
  status = row.status;
  latest_mv = row.latest_mv;
  latest_at = time_from row.latest_at;
  reporter = row.reporter;
  stale = row.stale;
  cs_low_mv = row.cs_low_mv;
  cs_critical_mv = row.cs_critical_mv;
  samples = unpack_samples row.samples;
  fetched_at = from_unix row.fetched_at;
}

-- INSERT … ON CONFLICT(key) DO UPDATE of every column.
unfoldable pub put_readings : BatteryReadingsRow → List BatteryReadingsRow → List BatteryReadingsRow
put_readings r [] = r ∷ []
put_readings r (row ∷ rows) = if text_eq row.key r.key then r ∷ rows else row ∷ put_readings r rows

unfoldable pub save_battery_readings : BatteryReadings → Db → Db
save_battery_readings r db = record db {
  battery_readings = put_readings (readings_row r) db.battery_readings;
}

unfoldable pub find_readings : Text → List BatteryReadingsRow → Option BatteryReadingsRow
find_readings key [] = none
find_readings key (row ∷ rows) = if text_eq row.key key then some row else find_readings key rows

abbrev scanned : Option BatteryReadingsRow → Option BatteryReadings
scanned none = none
scanned (some row) = some (scan_readings row)

-- The entry for a key of the map that BatteryReadingsFor returns, where the key was asked for.
unfoldable pub battery_readings_for : Text → Db → Option BatteryReadings
battery_readings_for key db = scanned (find_readings key db.battery_readings)

-- key IN (SELECT target_key FROM watches WHERE target_kind = 'node').
unfoldable pub is_watched : Text → List WatchRow → Bool
is_watched key [] = false
is_watched key (w ∷ ws) =
    let rest = is_watched key ws in
    if kind_eq w.target_kind Kind.node && text_eq w.target_key key then true else rest

unfoldable pub keep_watched : List WatchRow → List BatteryReadingsRow → List BatteryReadingsRow
keep_watched ws [] = []
keep_watched ws (row ∷ rows) =
    let rest = keep_watched ws rows in if is_watched row.key ws then row ∷ rest else rest

unfoldable pub prune_battery_readings : Db → Db
prune_battery_readings db = record db {
  battery_readings = keep_watched db.watches db.battery_readings;
}

-- Every time of the report is a whole number of seconds.
abbrev pub WholeSamples : List BatterySample → Type 0
WholeSamples [] = Unit
WholeSamples (s ∷ ss) = (s.at / second * second ≡ s.at) × WholeSamples ss

unpack_samples-pack_samples :
    (ss : List BatterySample) → WholeSamples ss → unpack_samples (pack_samples ss) ≡ ss
unfolding pack_samples unpack_samples
unpack_samples-pack_samples [] h = refl
unpack_samples-pack_samples (s ∷ ss) h =
    cc (from_unix-unix s.at, h.0, unpack_samples-pack_samples ss h.1)

find-put :
    (key : Text) (r : BatteryReadingsRow) (rows : List BatteryReadingsRow)
    → find_readings key (put_readings r rows)
      ≡ (if text_eq r.key key then some r else find_readings key rows)
unfolding find_readings put_readings
find-put key r [] = refl
find-put key r (row ∷ rows) = ground (
  arith,
  text_eq_iff row.key r.key,
  text_eq_iff row.key key,
  text_eq_iff r.key key,
  find-put key r rows,
)

row-scan :
    (r : BatteryReadings)
    → r.latest_at / second * second ≡ r.latest_at
    → r.fetched_at / second * second ≡ r.fetched_at
    → WholeSamples r.samples
    → scan_readings (readings_row r) ≡ r
unfolding scan_readings readings_row
row-scan r a b h = cc (
  time_from-null_int r.latest_at,
  from_unix-unix r.fetched_at,
  unpack_samples-pack_samples r.samples h,
  a,
  b,
)

row_key : (r : BatteryReadings) → (readings_row r).key ≡ r.key
unfolding readings_row
row_key r = refl

-- A report in whole seconds, once saved, reads back as it was, and every other repeater's report
-- reads as before.
pub battery_readings_for-save :
    (r : BatteryReadings) (key : Text) (db : Db)
    → r.latest_at / second * second ≡ r.latest_at
    → r.fetched_at / second * second ≡ r.fetched_at
    → WholeSamples r.samples
    → battery_readings_for key (save_battery_readings r db)
      ≡ (if text_eq r.key key then some r else battery_readings_for key db)
unfolding battery_readings_for save_battery_readings
battery_readings_for-save r key db a b h =
    ground (arith, find-put key (readings_row r) db.battery_readings, row-scan r a b h, row_key r)
