-- ===== src/Store/Owner.antt =====
-- What the owner of an account does to watches and rules: CreateWatch, DeleteWatch, SetWatchMute,
-- SetWatchRecovery, AddRule, UpdateRule, DeleteRule and DeleteUser of internal/store/queries.go,
-- with the cascades of the tables. A failed transaction leaves the database as it was.
pub mod Acts
pub mod Linked
pub mod Limits
pub mod Others
use hop_react.Common.{
  ℕ, suc, ◌+◌, Bool, true, false, not, ◌&&◌, Option, none, some, List, [], ◌∷◌, ◌++◌, Text, text_eq,
  ◌==◌, leb, if◌then◌else◌, map, ℤ,
}
use hop_react.Clock.{Time}
use hop_react.Clock.Unix.{unix, null_int}
use hop_react.Models.{Kind, kind_eq, Rule, Watch}
use hop_react.Store.Tables.{Db, WatchRow, StateRow, SessionRow, NotificationRow, UserRow, next_id}
use hop_react.Store.Activity.{to_lower}
use hop_react.Store.Battery.{update_watch, insert_battery_rule}
use hop_react.Store.Battery.State.{find_watch}
use hop_react.Store.Battery.Owner.{Done, done, not_found, owns, blank_rule, without_watch}
use hop_react.Store.Rules.{default_rules, insert_rule}

-- SELECT COUNT(*) FROM watches WHERE user_id = ?.
unfoldable pub watch_count : ℕ → List WatchRow → ℕ
watch_count u [] = 0
watch_count u (w ∷ ws) = (if w.user_id == u then 1 else 0) + watch_count u ws

-- UNIQUE (user_id, target_kind, target_key).
unfoldable pub is_watching : ℕ → Kind → Text → List WatchRow → Bool
is_watching u kind key [] = false
is_watching u kind key (w ∷ ws) =
    let rest = is_watching u kind key ws in
    if w.user_id == u && (kind_eq w.target_kind kind && text_eq w.target_key key)
    then true
    else rest

-- The loop over the default rules.
unfoldable pub insert_rules : Time → Kind → Text → ℕ → List Rule → Db → Db
insert_rules now kind key w [] db = db
insert_rules now kind key w (r ∷ rs) db =
    insert_rules now kind key w rs (insert_rule now kind key (record r { watch_id = w }) db).0

-- The threshold that is recorded: the first rule's, where none was asked for.
abbrev pub recorded_threshold : ℕ → List Rule → ℕ
recorded_threshold asked [] = asked
recorded_threshold asked (r ∷ rs) = if asked == 0 then r.threshold_hours else asked

unfoldable pub new_watch : Time → ℕ → List Rule → Watch → WatchRow
new_watch now id rules w = record {
  id = id;
  user_id = w.user_id;
  target_kind = w.target_kind;
  target_key = to_lower w.target_key;
  threshold_hours = recorded_threshold w.threshold_hours rules;
  alert_on_relay = w.alert_on_relay;
  label = w.label;
  muted_until = null_int w.muted_until;
  notify_recovery = w.notify_recovery;
  created_at = unix now;
  battery_added_at = if w.no_battery then null_int now else none;
}

pub data Created : Type 0 where
  created : ℕ → Created
  watch_limit duplicate_watch : Created

-- The inserts of a watch that is accepted.
unfoldable pub insert_watch : Time → Watch → Db → Db × ℕ
insert_watch now w db =
    let rules = default_rules w.target_kind w.template_id w.threshold_hours w.alert_on_relay in
    let id = next_id (map (λ x. x.id) db.watches) in
    let added = record db { watches = db.watches ++ (new_watch now id rules w ∷ []) } in
    let ruled = insert_rules now w.target_kind (to_lower w.target_key) id rules added in
    (
      if w.with_battery && not w.no_battery
          then insert_battery_rule now (blank_rule id) ruled
          else ruled,
      id,
    )

unfoldable pub create_watch : Time → ℕ → Watch → Db → Db × Created
create_watch now limit w db =
    if leb limit (watch_count w.user_id db.watches)
    then (db, watch_limit)
    else if is_watching w.user_id w.target_kind (to_lower w.target_key) db.watches
    then (db, duplicate_watch)
    else let (db', id) = insert_watch now w db in (db', created id)

-- DELETE FROM watches WHERE id = ?, and the rows that refer to them.
unfoldable pub remove_watch : ℕ → List WatchRow → List WatchRow
remove_watch w [] = []
remove_watch w (x ∷ xs) = let rest = remove_watch w xs in if x.id == w then rest else x ∷ rest

unfoldable pub remove_rules_of : ℕ → List Rule → List Rule
remove_rules_of w [] = []
remove_rules_of w (r ∷ rs) =
    let rest = remove_rules_of w rs in if r.watch_id == w then rest else r ∷ rest

unfoldable pub remove_states_of : ℕ → List StateRow → List StateRow
remove_states_of w [] = []
remove_states_of w (s ∷ ss) =
    let rest = remove_states_of w ss in if s.watch_id == w then rest else s ∷ rest

unfoldable pub cascade_watch : ℕ → Db → Db
cascade_watch w db = record db {
  watches = remove_watch w db.watches;
  watch_rules = remove_rules_of w db.watch_rules;
  watch_state = remove_states_of w db.watch_state;
  battery_rules = without_watch w db.battery_rules;
}

unfoldable pub delete_watch : ℕ → ℕ → Db → Db × Done
delete_watch u w db = if owns u w db.watches then (cascade_watch w db, done) else (db, not_found)

unfoldable pub set_watch_mute : ℕ → ℕ → Time → Db → Db × Done
set_watch_mute u w until db =
    if owns u w db.watches
    then (
      record db {
        watches = update_watch (λ x. record x { muted_until = null_int until }) w db.watches;
      },
      done,
    )
    else (db, not_found)

unfoldable pub set_watch_recovery : ℕ → ℕ → Bool → Db → Db × Done
set_watch_recovery u w on db =
    if owns u w db.watches
    then (
      record db { watches = update_watch (λ x. record x { notify_recovery = on }) w db.watches },
      done,
    )
    else (db, not_found)

abbrev pub max_rules_per_watch : ℕ
max_rules_per_watch = 12

unfoldable pub rule_count : ℕ → List Rule → ℕ
rule_count w [] = 0
rule_count w (r ∷ rs) = (if r.watch_id == w then 1 else 0) + rule_count w rs

pub data Added : Type 0 where
  added : ℕ → Added
  no_watch rule_limit : Added

-- SELECT target_kind, target_key FROM watches WHERE id = ? AND user_id = ?.
unfoldable pub watch_owned : ℕ → ℕ → List WatchRow → Option WatchRow
watch_owned u w [] = none
watch_owned u w (x ∷ xs) =
    let rest = watch_owned u w xs in if x.id == w && x.user_id == u then some x else rest

unfoldable pub add_rule : Time → ℕ → Rule → Db → Db × Added
add_rule now u r db = elim (watch_owned u r.watch_id db.watches) [
  | none ↦ (db, no_watch)
  | some w ↦
      let (db', id) = insert_rule now w.target_kind w.target_key r db in
      if leb max_rules_per_watch (rule_count r.watch_id db.watch_rules)
      then (db, rule_limit)
      else (db', added id)
]

-- id = ? AND watch_id IN (SELECT id FROM watches WHERE user_id = ?).
abbrev pub is_own_rule : ℕ → ℕ → List WatchRow → Rule → Bool
is_own_rule u i ws r = r.id == i && owns u r.watch_id ws

unfoldable pub has_rule : ℕ → ℕ → List WatchRow → List Rule → Bool
has_rule u i ws [] = false
has_rule u i ws (r ∷ rs) =
    let rest = has_rule u i ws rs in if is_own_rule u i ws r then true else rest

abbrev pub rule_written : Rule → Rule → Rule
rule_written new old = record old {
  label = new.label;
  types = new.types;
  direction = new.direction;
  threshold_hours = new.threshold_hours;
}

unfoldable pub update_rules : ℕ → Rule → List WatchRow → List Rule → List Rule
update_rules u new ws [] = []
update_rules u new ws (r ∷ rs) =
    (if is_own_rule u new.id ws r then rule_written new r else r) ∷ update_rules u new ws rs

unfoldable pub update_rule : ℕ → Rule → Db → Db × Done
update_rule u r db =
    if has_rule u r.id db.watches db.watch_rules
    then (record db { watch_rules = update_rules u r db.watches db.watch_rules }, done)
    else (db, not_found)

unfoldable pub remove_rule : ℕ → ℕ → List WatchRow → List Rule → List Rule
remove_rule u i ws [] = []
remove_rule u i ws (r ∷ rs) =
    let rest = remove_rule u i ws rs in if is_own_rule u i ws r then rest else r ∷ rest

-- ON DELETE CASCADE from watch_rules to watch_state.
unfoldable pub remove_state_of_rule : ℕ → List StateRow → List StateRow
remove_state_of_rule i [] = []
remove_state_of_rule i (s ∷ ss) =
    let rest = remove_state_of_rule i ss in if s.rule_id == i then rest else s ∷ rest

unfoldable pub delete_rule : ℕ → ℕ → Db → Db × Done
delete_rule u i db =
    if has_rule u i db.watches db.watch_rules
    then (
      record db {
        watch_rules = remove_rule u i db.watches db.watch_rules;
        watch_state = remove_state_of_rule i db.watch_state;
      },
      done,
    )
    else (db, not_found)
