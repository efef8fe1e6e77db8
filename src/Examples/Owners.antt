-- ===== src/Examples/Owners.antt =====
-- Two owners and their watches, from an empty database on.
use hop_react.Common.{
  ℕ, ◌≡◌, ◌+◌, ◌*◌, ◌-◌, refl, true, false, none, some, List, [], ◌∷◌, text_eq, pos, codes, arith,
}
use hop_react.Clock.{Time, hour, zero_time, hours, sub}
use hop_react.Clock.Unix.{from_unix, time_from}
use hop_react.Models.{node, WatchState, State, Rule, Source, types, either, Watch}
use hop_react.Alert.Watch.{Policy, alert, recovered, is_over}
use hop_react.Alert.Watch.Trace.{Poll, advance, messages}
use hop_react.Store.Tables.{Db, TargetRow, ActivityRow}
use hop_react.Store.States.{all_watch_state}
use hop_react.Store.Targets.{find_target}
use hop_react.Store.Activity.{all_activity}
use hop_react.Store.Prune.{prune}
use hop_react.Store.Rules.{insert_rule, rule_seed_observation}
use hop_react.Store.Rules.Seed.{rule_seed_observation_types}
use hop_react.Store.Rules.Silent.{insert_rule_silent}
use hop_react.Store.Owner.Linked.{IsLinked}
use hop_react.Store.Owner.Acts.{
  Act, create_watch_act, delete_watch_act, add_rule_act, delete_rule_act, delete_user_act, act,
  acts, acts-IsLinked,
}
use hop_react.Store.Owner.{watch_count, rule_count}
use hop_react.Store.Owner.Limits.{IsBounded, count}
use hop_react.Store.Owner.Limits.Kept.{acts-IsBounded}
use hop_react.Store.Owner.Others.{Leaves}
use hop_react.Store.Owner.Others.Always.{acts-Leaves}
use hop_react.Poller.Observe.{rule_observation}
use hop_react.System.{◌⟼◌, ◌⟼*◌}
use hop_react.System.Invariant.{steps-IsLinked}
use hop_react.Examples.Mesh.{hill, repeater}
use hop_react.Examples.Tables.{today, user}

-- A repeater that fell silent two days ago, and a database without watches.
abbrev pub silent_hill : TargetRow
silent_hill = record {
  kind = node;
  key = hill;
  name = codes "Hill";
  role = codes "repeater";
  last_seen_at = some (pos 1_699_827_200);
  last_relayed_at = none;
  relay_ever_observed_at = none;
  last_packet_at = none;
  relay_count_1h = 0;
  relay_count_24h = 0;
  first_indexed_at = pos 1_690_000_000;
  last_in_feed_at = pos 1_699_827_200;
  updated_at = pos 1_699_827_200;
}

abbrev advert : ActivityRow
advert = record {
  kind = node;
  key = hill;
  payload_type = 4;
  direction = either;
  last_at = pos 1_699_827_200;
  evidence_count = 3;
}

abbrev pub unwatched : Db
unwatched = record {
  users = user 1 ∷ user 2 ∷ [];
  sessions = [];
  targets = silent_hill ∷ [];
  watches = [];
  watch_rules = [];
  watch_state = [];
  target_activity = advert ∷ [];
  feed_cursor = none;
  poll_runs = [];
  notifications = [];
  alert_events = [];
  battery_rules = [];
  battery_readings = [];
}

pub unwatched-IsLinked : IsLinked unwatched
unwatched-IsLinked = record {
  ruled = λ w i e. ground (arith, e);
  tracked = λ w i. refl;
  unique = tt;
  powered = λ w e. ground (arith, e);
}

unwatched-IsBounded : (limit : ℕ) → IsBounded limit unwatched
unfolding watch_count count rule_count
unwatched-IsBounded limit = record {
  within = λ u. ground arith;
  once = λ u kind key. ground arith;
  named = λ w. ground arith;
  few = λ w. ground arith;
}

abbrev pub hill_watch : ℕ → Watch
hill_watch u = record {
  id = 0;
  user_id = u;
  target_kind = node;
  target_key = hill;
  threshold_hours = 12;
  template_id = codes "standard";
  alert_on_relay = true;
  label = [];
  muted_until = zero_time;
  notify_recovery = true;
  created_at = zero_time;
  battery_added_at = zero_time;
  no_battery = false;
  with_battery = true;
}

abbrev seen_rule : ℕ → Rule
seen_rule w = record {
  id = 0;
  watch_id = w;
  label = codes "Hill";
  source = Source.seen;
  types = [];
  direction = either;
  threshold_hours = 12;
  created_at = zero_time;
}

abbrev first : List Act
first = create_watch_act today 1 (hill_watch 1) ∷ []

abbrev second_owner : List Act
second_owner =
    create_watch_act today 1 (hill_watch 2)
    ∷ add_rule_act today 2 (seen_rule 1)
    ∷ add_rule_act today 2 (seen_rule 2)
    ∷ delete_rule_act 2 1
    ∷ delete_watch_act 2 1
    ∷ delete_user_act 2
    ∷ []

acts-IsBounded_example : IsBounded 1 (acts second_owner unwatched)
acts-IsBounded_example =
    acts-IsBounded second_owner 1 unwatched (refl, (tt, (tt, (tt, (tt, (tt, tt))))))
      unwatched-IsLinked (unwatched-IsBounded 1)

-- The first owner has a watch already.
abbrev watched : Db
watched = acts first unwatched

watched-IsLinked : IsLinked watched
watched-IsLinked = acts-IsLinked first unwatched unwatched-IsLinked

watched-IsBounded : IsBounded 1 watched
watched-IsBounded =
    acts-IsBounded first 1 unwatched (refl, tt) unwatched-IsLinked (unwatched-IsBounded 1)

acts-Leaves_example : Leaves 1 watched (acts second_owner watched)
acts-Leaves_example =
    acts-Leaves second_owner 1 1 watched
      (
        λ e. ground (arith, e),
        (
          λ e. ground (arith, e),
          (
            λ e. ground (arith, e),
            (λ e. ground (arith, e), (λ e. ground (arith, e), (λ e. ground (arith, e), tt))),
          ),
        ),
      )
      (refl, (tt, (tt, (tt, (tt, (tt, tt)))))) watched-IsLinked watched-IsBounded

steps-IsLinked_example :
    IsLinked (prune today (act (create_watch_act today 5 (hill_watch 1)) unwatched))
steps-IsLinked_example =
    steps-IsLinked
      (◌⟼*◌.next (◌⟼*◌.next ◌⟼*◌.stay (◌⟼◌.owner (create_watch_act today 5 (hill_watch 1))))
        (◌⟼◌.housekeep today))
      unwatched-IsLinked

abbrev advert_rule : Rule
advert_rule = record (seen_rule 1) { source = types; types = 4 ∷ [] }

rule_seed_observation_types_example :
    rule_seed_observation node hill advert_rule unwatched
    ≡ rule_observation advert_rule (repeater hill 3) true (all_activity unwatched hill)
rule_seed_observation_types_example =
    rule_seed_observation_types node hill advert_rule unwatched (repeater hill 3) true refl

abbrev twice : Policy
twice = record { confirm_polls = 2 }

-- A poll `n` hours on, that saw the target at the given time.
abbrev poll : ℕ → Time → Poll
poll n at = record {
  now = today + n * hour;
  signal = record { at = at; applicable = true };
  threshold = pos (12 * hour);
  prefs = record { muted = false; notify_recovery = true };
}

abbrev still_silent : List Poll
still_silent = poll 1 (today - 48 * hour) ∷ []

abbrev back : List Poll
back = poll 3 (today + 3 * hour) ∷ poll 2 (today + 2 * hour) ∷ []

insert_rule_silent_example :
    let (db', id) = insert_rule today node hill (seen_rule 1) unwatched in
    (st : WatchState) × (all_watch_state db' 1 id ≡ some st)
    × (st.state ≡ State.alerting)
    × (messages alert twice st still_silent ≡ 0)
    × (messages recovered twice (advance twice st still_silent) back ≡ 0)
unfolding rule_seed_observation find_target time_from from_unix is_over sub hours text_eq
insert_rule_silent_example =
    insert_rule_silent today node hill (seen_rule 1) unwatched twice still_silent back
      unwatched-IsLinked refl refl (refl, refl, tt) (refl, refl, refl, (refl, refl, refl, tt))
      (omega arith)
