-- ===== src/Poller/Observe.antt =====
-- ruleObservation of internal/poller/poller.go: what a rule judges.
pub mod Latest
use hop_react.Common.{ℕ, Bool, true, false, not, ◌&&◌, ◌||◌, List, [], ◌∷◌, ◌==◌, if◌then◌else◌}
use hop_react.Clock.{Time, zero_time, is_zero, after}
use hop_react.Models.{
  Observation, Rule, Source, seen, relayed, packets, types, Direction, either, direction_eq,
  Activity,
}
use hop_react.Alert.Watch.{Signal}

unfoldable pub wants : List ℕ → ℕ → Bool
wants [] t = false
wants (x ∷ xs) t = x == t || wants xs t

-- The two tests of the loop over the evidence.
abbrev pub counts : Rule → Activity → Bool
counts r a =
    wants r.types a.payload_type
    && (direction_eq r.direction either || direction_eq a.direction r.direction)

-- The loop: the latest time, and whether anything was found.
unfoldable pub latest : Rule → List Activity → Time → Bool → Signal
latest r [] at found = record { at = at; applicable = found }
latest r (a ∷ acts) at found =
    latest r acts (if counts r a && after a.last_at at then a.last_at else at) (found || counts r a)

abbrev pub observed : Source → Rule → Observation → Bool → List Activity → Signal
observed seen r obs known acts = record { at = obs.last_seen; applicable = known }
observed relayed r obs known acts = record {
  at = obs.last_relayed;
  applicable = known && not (is_zero obs.last_relayed);
}
observed packets r obs known acts = record {
  at = obs.last_packet;
  applicable = known && not (is_zero obs.last_packet);
}
observed types r obs known acts = latest r acts zero_time false
observed (Source.other s) r obs known acts = record { at = zero_time; applicable = false }

unfoldable pub rule_observation : Rule → Observation → Bool → List Activity → Signal
rule_observation r obs known acts = observed r.source r obs known acts
