-- ===== src/Store/Rules.antt =====
-- DefaultRules, insertRuleTx and ruleSeedObservation of internal/store/queries.go: the rules that
-- a watch begins with, and the state that a rule begins in.
pub mod Seed
pub mod Silent
use hop_react.Common.{
  ℕ, Bool, true, false, not, ◌&&◌, ◌||◌, Option, none, some, List, [], ◌∷◌, ◌++◌, Text, text_eq,
  ◌==◌, ltb, leb_ℤ, if◌then◌else◌, map, ℤ, codes,
}
use hop_react.Clock.{Time, zero_time, is_zero, hours, sub}
use hop_react.Clock.Unix.{unix, from_unix, null_int, time_from}
use hop_react.Models.{Kind, Source, Direction, direction_eq, Rule, State}
use hop_react.Alert.Watch.{Signal}
use hop_react.Store.Tables.{Db, TargetRow, ActivityRow, StateRow, next_id}
use hop_react.Store.Activity.{max_ℤ}
use hop_react.Store.Targets.{find_target}
use hop_react.Store.Templates.{
  RuleTemplate, template_by_id, default_template_id, suits, source_of, rule_of,
}

-- The template that is named, if it suits the kind, or the kind's default one.
abbrev pub suited : Kind → Option RuleTemplate → Option RuleTemplate
suited kind none = template_by_id (default_template_id kind)
suited kind (some t) =
    if suits kind t.kind then some t else template_by_id (default_template_id kind)

abbrev pub not_heard : ℕ → Rule
not_heard threshold = record {
  id = 0;
  watch_id = 0;
  label = codes "Not heard at all";
  source = Source.seen;
  types = [];
  direction = Direction.either;
  threshold_hours = threshold;
  created_at = zero_time;
}

abbrev pub not_relaying : ℕ → Rule
not_relaying threshold = record {
  id = 0;
  watch_id = 0;
  label = codes "Stopped passing traffic";
  source = Source.relayed;
  types = [];
  direction = Direction.carried;
  threshold_hours = threshold;
  created_at = zero_time;
}

abbrev pub is_observer : Kind → Bool
is_observer Kind.observer = true
is_observer Kind.node = false

abbrev pub is_types : Source → Bool
is_types Source.types = true
is_types _ = false

abbrev pub rules_from : Kind → ℕ → Bool → RuleTemplate → List Rule
rules_from kind threshold on_relay t =
    let tuned = record t {
      threshold_hours = if ltb 0 threshold then threshold else t.threshold_hours;
    } in
    if is_observer kind
    then rule_of tuned ∷ []
    else rule_of tuned
      ∷ ((if is_types (source_of t.source) then not_heard tuned.threshold_hours ∷ [] else [])
          ++ (if on_relay then not_relaying tuned.threshold_hours ∷ [] else []))

unfoldable pub default_rules : Kind → Text → ℕ → Bool → List Rule
default_rules kind id threshold on_relay = elim (suited kind (template_by_id id)) [
  | none ↦ []
  | some t ↦ rules_from kind threshold on_relay t
]

-- payload_type IN (…).
unfoldable pub in_types : List ℕ → ℕ → Bool
in_types [] t = false
in_types (x ∷ xs) t = x == t || in_types xs t

-- The WHERE clause of activityQuery.
abbrev pub is_evidence : Text → Rule → ActivityRow → Bool
is_evidence key r row =
    text_eq row.key key
    && in_types r.types row.payload_type
    && ((not (direction_eq r.direction Direction.sent)
          && not (direction_eq r.direction Direction.carried))
        || direction_eq row.direction r.direction)

abbrev pub later : ℤ → Option ℤ → Option ℤ
later a none = some a
later a (some b) = some (max_ℤ a b)

-- MAX(last_at), NULL over no rows.
unfoldable pub newest_evidence : Text → Rule → List ActivityRow → Option ℤ
newest_evidence key r [] = none
newest_evidence key r (row ∷ rows) =
    let rest = newest_evidence key r rows in
    if is_evidence key r row then later row.last_at rest else rest

abbrev pub is_valid : Option ℤ → Bool
is_valid none = false
is_valid (some _) = true

abbrev pub nothing_seen : Signal
nothing_seen = record { at = zero_time; applicable = false }

abbrev seen_at : Option TargetRow → Signal
seen_at none = nothing_seen
seen_at (some t) = record { at = time_from t.last_seen_at; applicable = true }

abbrev relayed_at : Option TargetRow → Signal
relayed_at none = nothing_seen
relayed_at (some t) = record {
  at = time_from t.last_relayed_at;
  applicable = not (is_zero (time_from t.relay_ever_observed_at));
}

abbrev packet_at : Option TargetRow → Signal
packet_at none = nothing_seen
packet_at (some t) = record {
  at = time_from t.last_packet_at;
  applicable = is_valid t.last_packet_at;
}

abbrev evidence_at : Text → Rule → List ℕ → Db → Signal
evidence_at key r [] db = nothing_seen
evidence_at key r (_ ∷ _) db =
    let at = newest_evidence key r db.target_activity in
    record { at = time_from at; applicable = is_valid at }

abbrev pub seed_from : Source → Kind → Text → Rule → Db → Signal
seed_from Source.seen kind key r db = seen_at (find_target kind key db.targets)
seed_from Source.relayed kind key r db = relayed_at (find_target kind key db.targets)
seed_from Source.packets kind key r db = packet_at (find_target kind key db.targets)
seed_from Source.types kind key r db = evidence_at key r r.types db
seed_from (Source.other s) kind key r db = nothing_seen

unfoldable pub rule_seed_observation : Kind → Text → Rule → Db → Signal
rule_seed_observation kind key r db = seed_from r.source kind key r db

-- The state of a rule that sees the signal when it is written.
abbrev pub seed_state : Time → Signal → ℕ → State
seed_state now obs threshold =
    if obs.applicable && not (is_zero obs.at)
    then (if leb_ℤ (hours threshold) (sub now obs.at) then State.alerting else State.ok)
    else State.unknown

abbrev pub is_alerting : State → Bool
is_alerting State.alerting = true
is_alerting _ = false

abbrev pub first_state : Time → ℕ → Signal → Rule → StateRow
first_state now id obs r =
    let st = seed_state now obs r.threshold_hours in
    record {
      watch_id = r.watch_id;
      rule_id = id;
      state = st;
      since = unix now;
      consecutive = 0;
      observed_at = null_int obs.at;
      alerting_since = if is_alerting st then some (unix now) else none;
      last_notified_at = none;
      notify_count = 0;
      seeded = is_alerting st;
    }

-- INSERT INTO watch_rules, and INSERT INTO watch_state.
unfoldable pub insert_rule : Time → Kind → Text → Rule → Db → Db × ℕ
insert_rule now kind key r db =
    let id = next_id (map (λ x. x.id) db.watch_rules) in
    let obs = rule_seed_observation kind key r db in
    (
      record db {
        watch_rules =
            db.watch_rules ++ (record r { id = id; created_at = from_unix (unix now) } ∷ []);
        watch_state = db.watch_state ++ (first_state now id obs r ∷ []);
      },
      id,
    )
