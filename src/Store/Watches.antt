-- ===== src/Store/Watches.antt =====
-- The watches and watch_rules tables as the evaluator reads them: ActiveWatches and AllRules of
-- internal/store/queries.go.
use hop_react.Common.{ℕ, false, List, [], ◌∷◌, ◌==◌, if◌then◌else◌, map}
use hop_react.Clock.Unix.{from_unix, time_from}
use hop_react.Models.{Watch, Rule}
use hop_react.Store.Tables.{Db, WatchRow}

-- The fields that only creation reads have their zero values.
unfoldable pub scan_watch : WatchRow → Watch
scan_watch w = record {
  id = w.id;
  user_id = w.user_id;
  target_kind = w.target_kind;
  target_key = w.target_key;
  threshold_hours = w.threshold_hours;
  template_id = [];
  alert_on_relay = w.alert_on_relay;
  label = w.label;
  muted_until = time_from w.muted_until;
  notify_recovery = w.notify_recovery;
  created_at = from_unix w.created_at;
  battery_added_at = time_from w.battery_added_at;
  no_battery = false;
  with_battery = false;
}

unfoldable pub active_watches : Db → List Watch
unfolding scan_watch
active_watches db = map scan_watch db.watches

unfoldable pub of_watch : ℕ → List Rule → List Rule
of_watch w [] = []
of_watch w (r ∷ rs) = let rest = of_watch w rs in if r.watch_id == w then r ∷ rest else rest

-- The entry for one watch of the map that AllRules builds.
unfoldable pub all_rules : Db → ℕ → List Rule
all_rules db w = of_watch w db.watch_rules
