-- ===== src/Poller/Plan.antt =====
-- The first half of evaluate in internal/poller/poller.go: what every rule of every watch would do.
use hop_react.Common.{
  ℕ, ◌+◌, Bool, true, false, not, ◌&&◌, Option, none, some, List, [], ◌∷◌, ◌++◌, Text, text_eq,
  if◌then◌else◌, ltb,
}
use hop_react.Clock.{Time, is_zero, zero_time, hours}
use hop_react.Models.{Kind, kind_eq, Observation, Watch, Rule, WatchState, State}
use hop_react.Alert.Watch.{Policy, Prefs, Outcome, evaluate}
use hop_react.Store.Tables.{Db}
use hop_react.Store.States.{all_watch_state}
use hop_react.Store.Watches.{all_rules}
use hop_react.Store.Activity.{all_activity}
use hop_react.Poller.Observe.{rule_observation}

pub record Snapshot : Type 0 where
  pub nodes : List Observation
  pub observers : List Observation

-- Snapshot.All.
abbrev pub all_of : Snapshot → List Observation
all_of snap = snap.nodes ++ snap.observers

-- byKey[kind|key]; the last observation of a key wins.
unfoldable pub by_key : Kind → Text → List Observation → Option Observation
by_key kind key [] = none
by_key kind key (o ∷ os) = elim (by_key kind key os) [
  | some x ↦ some x
  | none ↦ if kind_eq o.kind kind && text_eq o.key key then some o else none
]

-- The zero Observation of a missing key.
abbrev pub no_observation : Observation
no_observation = record {
  kind = Kind.node;
  key = [];
  name = [];
  role = [];
  last_seen = zero_time;
  last_relayed = zero_time;
  last_packet = zero_time;
  relay_count_1h = 0;
  relay_count_24h = 0;
}

abbrev pub or_none : Option Observation → Observation
or_none none = no_observation
or_none (some o) = o

abbrev pub is_some : Option Observation → Bool
is_some none = false
is_some (some o) = true

-- The stored state, or a new unknown one; its ids are set either way.
abbrev pub current : Time → ℕ → ℕ → Option WatchState → WatchState
current now w r none = record {
  watch_id = w;
  rule_id = r;
  state = State.unknown;
  since = now;
  consecutive = 0;
  observed_at = zero_time;
  alerting_since = zero_time;
  last_notified = zero_time;
  notify_count = 0;
  seeded = false;
}
current now w r (some st) = record st { watch_id = w; rule_id = r }

pub record Planned : Type 0 where
  pub watch : Watch
  pub rule : Rule
  pub out : Outcome

abbrev pub is_muted : Time → Watch → Bool
is_muted now w = not (is_zero w.muted_until) && ltb now w.muted_until

abbrev with_ids : ℕ → ℕ → Outcome → Outcome
with_ids w r out = record out { state = record (out.state) { watch_id = w; rule_id = r } }

module _ (now : Time) (pol : Policy) (snap : Snapshot) (db : Db) where
  unfoldable pub plan_rule : Watch → Rule → Planned
  plan_rule w r =
      let found = by_key w.target_kind w.target_key (all_of snap) in
      let obs = rule_observation r (or_none found) (is_some found) (all_activity db w.target_key) in
      let prefs : Prefs = record { muted = is_muted now w; notify_recovery = w.notify_recovery } in
      let cur = current now w.id r.id (all_watch_state db w.id r.id) in
      record {
        watch = w;
        rule = r;
        out = with_ids w.id r.id (evaluate now obs cur (hours r.threshold_hours) prefs pol);
      }

  unfoldable pub plan_rules : Watch → List Rule → List Planned
  plan_rules w [] = []
  plan_rules w (r ∷ rs) = plan_rule w r ∷ plan_rules w rs

  unfoldable pub plan : List Watch → List Planned
  plan [] = []
  plan (w ∷ ws) = plan_rules w (all_rules db w.id) ++ plan ws

unfoldable pub entering : List Planned → ℕ
entering [] = 0
entering (p ∷ ps) = (if p.out.entering then 1 else 0) + entering ps
