-- ===== src/Store/Rules/Silent.antt =====
-- A rule that is added to a target that is broken already: nobody is told of an outage that they
-- set the rule up in.
use hop_react.Common.{
  ℕ, ◌≡◌, ◌≤◌, ◌∙◌, refl, ap, true, false, some, List, [], ◌∷◌, ◌++◌, Text, ==_iff, map, length,
  arith,
}
use hop_react.Clock.{Time, hours}
use hop_react.Models.{Kind, Rule, State, WatchState}
use hop_react.Alert.Watch.{Policy, Signal, evaluate, alert, recovered, is_blind, is_over}
use hop_react.Alert.Watch.Trace.{Poll, over, outcome, advance, messages, is_notice}
use hop_react.Alert.Watch.Outage.{Down}
use hop_react.Alert.Watch.Dropout.{Up, messages-Up}
use hop_react.Alert.Watch.{confirmations}
use hop_react.Store.Tables.{Db, StateRow, next_id}
use hop_react.Store.States.{scanned, find_row, all_watch_state, scan_state, is_row}
use hop_react.Store.Owner.Linked.{IsLinked, state_in, rule_in-next_id}
use hop_react.Store.Rules.{insert_rule, first_state, rule_seed_observation}

step_quiet :
    (pol : Policy) (s : WatchState) (p : Poll)
    → s.state ≡ State.alerting
    → over p ≡ true
    → let out = outcome pol s p in
      (out.state.state ≡ State.alerting)
      × (out.state.notify_count ≡ s.notify_count)
      × (is_notice alert out.kind ≡ 0)
unfolding outcome evaluate
step_quiet pol s p e o = ground (arith, e, o)

Down-quiet :
    (pol : Policy) (s : WatchState) (ps : List Poll)
    → s.state ≡ State.alerting
    → Down ps
    → ((advance pol s ps).state ≡ State.alerting)
      × ((advance pol s ps).notify_count ≡ s.notify_count)
      × (messages alert pol s ps ≡ 0)
unfolding advance messages
Down-quiet pol s [] e d = (e, refl, refl)
Down-quiet pol s (p ∷ ps) e d =
    let (still, told, sent) = Down-quiet pol s ps e d.2 in
    let (a, b, c) = step_quiet pol (advance pol s ps) p still d.0 in
    (a, b ∙ told, ground (arith, c, sent))

find_row-snoc :
    (w r : ℕ) (s : StateRow) (ss : List StateRow)
    → state_in w r ss ≡ false
    → is_row w r s ≡ true
    → find_row w r (ss ++ (s ∷ [])) ≡ some s
unfolding find_row
find_row-snoc w r s [] n e = ground (arith, e)
find_row-snoc w r s (x ∷ xs) n e = ground (arith, e, n, find_row-snoc w r s xs)

-- The state that a rule is written with.
insert_rule-state :
    (now : Time) (kind : Kind) (key : Text) (r : Rule) (db : Db)
    → IsLinked db
    → let (db', id) = insert_rule now kind key r db in
      all_watch_state db' r.watch_id id
      ≡ some (scan_state (first_state now id (rule_seed_observation kind key r db) r))
unfolding insert_rule all_watch_state
insert_rule-state now kind key r db l =
    let id = next_id (map (λ x. x.id) db.watch_rules) in
    let row = first_state now id (rule_seed_observation kind key r db) r in
    let fresh : state_in r.watch_id id db.watch_state ≡ false =
      l.tracked r.watch_id id ∙ ground (arith, rule_in-next_id r.watch_id id db.watch_rules) in
    ap scanned (
      find_row-snoc r.watch_id id row db.watch_state fresh
        (ground (arith, ==_iff r.watch_id r.watch_id, ==_iff id id)))

first_state-alerting :
    (now : Time) (id : ℕ) (obs : Signal) (r : Rule)
    → is_blind obs ≡ false
    → is_over now obs (hours r.threshold_hours) ≡ true
    → let st = scan_state (first_state now id obs r) in
      (st.state ≡ State.alerting) × (st.notify_count ≡ 0)
unfolding scan_state is_over
first_state-alerting now id obs r b o = ground (arith, b, o)

-- In a linked database, a rule that is written when its signal is over the threshold begins as
-- alerting, and stays silent: no alert however long the outage goes on, and no recovery when it is
-- over.
pub insert_rule_silent :
    (now : Time) (kind : Kind) (key : Text) (r : Rule) (db : Db) (pol : Policy)
    (down up : List Poll)
    → IsLinked db
    → is_blind (rule_seed_observation kind key r db) ≡ false
    → is_over now (rule_seed_observation kind key r db) (hours r.threshold_hours) ≡ true
    → Down down
    → Up up
    → confirmations pol ≤ length up
    → let (db', id) = insert_rule now kind key r db in
      (st : WatchState) × (all_watch_state db' r.watch_id id ≡ some st)
      × (st.state ≡ State.alerting)
      × (messages alert pol st down ≡ 0)
      × (messages recovered pol (advance pol st down) up ≡ 0)
insert_rule_silent now kind key r db pol down up l b o d u h =
    let obs = rule_seed_observation kind key r db in
    let id = (insert_rule now kind key r db).1 in
    let st = scan_state (first_state now id obs r) in
    let begins = first_state-alerting now id obs r b o in
    let (still, told, sent) = Down-quiet pol st down begins.0 d in
    let (_, back) = messages-Up pol (advance pol st down) up still u h in
    (
      st,
      insert_rule-state now kind key r db l,
      begins.0,
      sent,
      ground (arith, back, told, begins.1),
    )
