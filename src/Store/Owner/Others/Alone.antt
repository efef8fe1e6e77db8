-- ===== src/Store/Owner/Others/Alone.antt =====
-- No call of one account reaches what is another's.
use hop_react.Common.{
  ℕ, ◌≡◌, ◌≢◌, ◌≤◌, refl, ◌∙◌, ap, sym, Bool, true, false, not, ◌&&◌, List, [], ◌∷◌, ◌++◌, ◌==◌,
  if◌then◌else◌, if_cases, map, Bool-cases, Option-cases, inl, inr, some, leb, arith,
}
use hop_react.Clock.{Time}
use hop_react.Clock.Unix.{null_int}
use hop_react.Models.{Rule, Watch}
use hop_react.Store.Tables.{Db, WatchRow, next_id}
use hop_react.Store.Activity.{to_lower}
use hop_react.Store.Battery.{
  update_watch, mark_added, find_battery_row, has_row, insert_battery_rule,
}
use hop_react.Store.Battery.Owner.{
  owns, blank_rule, without_watch, update_battery_row, levels_written, switched_off,
  add_battery_rule, delete_battery_rule, update_battery_levels, set_auto_battery,
  dismiss_battery_banner,
}
use hop_react.Store.Rules.{default_rules}
use hop_react.Store.Accounts.{cascade_watches, delete_user}
use hop_react.Store.Owner.{
  Created, Added, new_watch, insert_rules, insert_watch, create_watch, cascade_watch, delete_watch,
  set_watch_mute, set_watch_recovery, add_rule, update_rule, delete_rule, watch_owned, watch_count,
  is_watching, has_rule, max_rules_per_watch, rule_count,
}
use hop_react.Store.Owner.Linked.{IsLinked, has_rule-rule_in}
use hop_react.Store.Owner.Linked.Unique.{one_watch}
use hop_react.Store.Owner.Linked.Inserts.{insert_rules-watches, owns-has_watch}
use hop_react.Store.Owner.Limits.{count, same_id, has_watch-next_id}
use hop_react.Store.Owner.Others.{
  batteries_of, Leaves, owns_one, owns-watches_of, watches_of-snoc, batteries_of-without,
  batteries_of-update, rules_of-update, rules_of-remove, states_of-remove,
}
use hop_react.Store.Owner.Acts.{
  Act, create_watch_act, delete_watch_act, mute_act, recovery_act, add_rule_act, update_rule_act,
  delete_rule_act, add_battery_act, delete_battery_act, battery_levels_act, auto_battery_act,
  dismiss_banner_act, delete_user_act, act,
}
use hop_react.Store.Owner.Others.Isolation.{
  LeavesAfter, Leaves-refl, Leaves-owns, Leaves-trans, cascade_watch-Leaves, update_watch-Leaves,
  batteries-Leaves, insert_battery_rule-Leaves, insert_rule-Leaves, insert_rules-Leaves,
}

-- The account that calls.
abbrev pub actor : Act → ℕ
actor (create_watch_act now limit w) = w.user_id
actor (delete_watch_act u w) = u
actor (mute_act u w until) = u
actor (recovery_act u w on) = u
actor (add_rule_act now u r) = u
actor (update_rule_act u r) = u
actor (delete_rule_act u i) = u
actor (add_battery_act now u w) = u
actor (delete_battery_act now u w) = u
actor (battery_levels_act now u w low crit on over) = u
actor (auto_battery_act u on) = u
actor (dismiss_banner_act u) = u
actor (delete_user_act u) = u

insert_watch-Leaves :
    (v : ℕ) (now : Time) (w : Watch) (db : Db)
    → w.user_id ≢ v
    → Leaves v db (insert_watch now w db).0
unfolding insert_watch new_watch
insert_watch-Leaves v now w db n =
    let rules = default_rules w.target_kind w.template_id w.threshold_hours w.alert_on_relay in
    let id = next_id (map (λ x. x.id) db.watches) in
    let row = new_watch now id rules w in
    let key = to_lower w.target_key in
    let added : Db = record db { watches = db.watches ++ (row ∷ []) } in
    let ruled : Db = insert_rules now w.target_kind key id rules added in
    let kept = watches_of-snoc v row db.watches n in
    let fresh : owns v id db.watches ≡ false =
      ground (arith, owns-has_watch v id db.watches, has_watch-next_id id db.watches) in
    let foreign : owns v id added.watches ≡ false =
      sym (owns-watches_of v id added.watches)
      ∙ ap (owns v id) kept
      ∙ owns-watches_of v id db.watches
      ∙ fresh in
    let grown : Leaves v db added = record {
      watches = kept;
      rules = λ x p. refl;
      states = λ x p. refl;
      batteries = λ x p. refl;
    } in
    let both : Leaves v db ruled =
      Leaves-trans v db added ruled grown
        (insert_rules-Leaves v now w.target_kind key id rules added foreign) in
    if_cases (Leaves v db) (w.with_battery && not w.no_battery)
      (λ _. Leaves-trans v db ruled (insert_battery_rule now (blank_rule id) ruled) both (
        insert_battery_rule-Leaves v now (blank_rule id) ruled
          (ap (owns v id) (insert_rules-watches now w.target_kind key id rules added) ∙ foreign)))
      (λ _. both)

watch_owned-owns :
    (u w : ℕ) (ws : List WatchRow) (x : WatchRow) → watch_owned u w ws ≡ some x → owns u w ws ≡ true
unfolding watch_owned owns
watch_owned-owns u w [] x h = ground (arith, h)
watch_owned-owns u w (y ∷ ys) x h = ground (arith, watch_owned-owns u w ys x)

module _ (v u : ℕ) (db : Db) (other : u ≢ v)
    (named : (w : ℕ) → count (same_id w) db.watches ≤ 1) where
  foreign : (w : ℕ) → owns u w db.watches ≡ true → owns v w db.watches ≡ false
  foreign w o = ground (arith, owns_one u v w db.watches (named w) o)

  not_mine : (w : ℕ) → owns v w db.watches ≡ true → owns u w db.watches ≡ false
  not_mine w o = ground (arith, foreign w)

  add_rule-Leaves : (now : Time) (r : Rule) → Leaves v db (add_rule now u r db).0
  unfolding add_rule
  add_rule-Leaves now r = elim (Option-cases (watch_owned u r.watch_id db.watches)) [
    | inl h ↦ rw (add_rule, h) (Leaves-refl v db)
    | inr (w, h) ↦
        rw (add_rule, h)
          (if_cases (λ (d : Db × Added). Leaves v db d.0)
            (leb max_rules_per_watch (rule_count r.watch_id db.watch_rules)) (λ _. Leaves-refl v db)
            (λ _.
              insert_rule-Leaves v now w.target_kind w.target_key r db
                (foreign r.watch_id (watch_owned-owns u r.watch_id db.watches w h))))
  ]

  update_rule-Leaves : (r : Rule) → Leaves v db (update_rule u r db).0
  unfolding update_rule
  update_rule-Leaves r =
      if_cases (LeavesAfter v db) (has_rule u r.id db.watches db.watch_rules)
        (λ _. record {
          watches = refl;
          rules = λ x o. rules_of-update x u r db.watches db.watch_rules (not_mine x o);
          states = λ x o. refl;
          batteries = λ x o. refl;
        })
        (λ _. Leaves-refl v db)

  delete_rule-Leaves : (i : ℕ) → IsLinked db → Leaves v db (delete_rule u i db).0
  unfolding delete_rule
  delete_rule-Leaves i l =
      if_cases (LeavesAfter v db) (has_rule u i db.watches db.watch_rules)
        (λ h.
          let (w, found, own) = has_rule-rule_in u i db.watches db.watch_rules h in
          record {
            watches = refl;
            rules = λ x o. rules_of-remove x u i db.watches db.watch_rules (not_mine x o);
            states = λ x o. states_of-remove x i db.watch_state (
                ground (
                  arith,
                  l.tracked x i,
                  one_watch x w i db.watch_rules l.unique,
                  found,
                  own,
                  not_mine x o,
                ));
            batteries = λ x o. refl;
          })
        (λ _. Leaves-refl v db)

  levels-Leaves :
      (now : Time) (w low crit : ℕ) (on : Bool) (over : ℕ)
      → Leaves v db (update_battery_levels now u w low crit on over db).0
  unfolding update_battery_levels
  levels-Leaves now w low crit on over =
      let f = levels_written low crit on over in
      let rows = update_battery_row f w db.battery_rules in
      let written : (x : ℕ) → x ≢ w → batteries_of x rows ≡ batteries_of x db.battery_rules =
        λ x n. batteries_of-update f (λ b. refl) x w db.battery_rules n in
      elim (Bool-cases (owns u w db.watches)) [
        | inr e ↦ rw (update_battery_levels, e) (Leaves-refl v db)
        | inl e ↦
            rw (update_battery_levels, e)
              (if_cases (LeavesAfter v db) (not (has_row (find_battery_row w db.battery_rules)))
                (λ _. Leaves-refl v db)
                (λ _. batteries-Leaves v w db _ (foreign w e) (λ x n.
                  if_cases (λ bs. batteries_of x bs ≡ batteries_of x db.battery_rules) on
                    (λ _. written x n)
                    (λ _.
                      batteries_of-update (switched_off now) (λ b. ground arith) x w rows n
                      ∙ written x n))))
      ]

  delete_battery_rule-Leaves : (now : Time) (w : ℕ) → Leaves v db (delete_battery_rule now u w db).0
  unfolding delete_battery_rule
  delete_battery_rule-Leaves now w =
      let rows = without_watch w db.battery_rules in
      let mid : Db = record db { battery_rules = rows } in
      if_cases (LeavesAfter v db) (owns u w db.watches)
        (λ e.
          Leaves-trans v db mid
            (record mid { watches = update_watch (mark_added now) w mid.watches })
            (batteries-Leaves v w db rows (foreign w e)
              (λ x n. batteries_of-without x w db.battery_rules n))
            (update_watch-Leaves (mark_added now) (λ x. refl) v w mid (foreign w e)))
        (λ _. Leaves-refl v db)

cascade_watches-Leaves :
    (v u : ℕ) (ws : List WatchRow) (db : Db)
    → ((x : ℕ) → owns u x ws ≡ true → owns v x db.watches ≡ false)
    → Leaves v db (cascade_watches u ws db)
unfolding cascade_watches owns
cascade_watches-Leaves v u [] db h = Leaves-refl v db
cascade_watches-Leaves v u (w ∷ ws) db h =
    let next = if w.user_id == u then cascade_watch w.id db else db in
    let first : Leaves v db next =
      if_cases (Leaves v db) (w.user_id == u)
        (λ e. cascade_watch-Leaves v w.id db (h w.id (ground (arith, e))))
        (λ _. Leaves-refl v db) in
    Leaves-trans v db next (cascade_watches u ws next) first (
      cascade_watches-Leaves v u ws next
        (λ x e. Leaves-owns v x db next first ∙ h x (ground (arith, e))))

-- In a linked database where no two watches share an id, a call of one account, whatever it answers,
-- leaves every other account's watches as they were, with their rules, states and battery rules.
pub act-Leaves :
    (a : Act) (v : ℕ) (db : Db)
    → actor a ≢ v
    → IsLinked db
    → ((w : ℕ) → count (same_id w) db.watches ≤ 1)
    → Leaves v db (act a db)
unfolding act create_watch delete_watch set_watch_mute set_watch_recovery add_battery_rule
    set_auto_battery dismiss_battery_banner delete_user
act-Leaves (create_watch_act now limit w) v db n l c =
    if_cases (λ (r : Db × Created). Leaves v db r.0) (leb limit (watch_count w.user_id db.watches))
      (λ _. Leaves-refl v db)
      (λ _.
        if_cases (λ (r : Db × Created). Leaves v db r.0)
          (is_watching w.user_id w.target_kind (to_lower w.target_key) db.watches)
          (λ _. Leaves-refl v db) (λ _. insert_watch-Leaves v now w db n))
act-Leaves (delete_watch_act u w) v db n l c =
    if_cases (LeavesAfter v db) (owns u w db.watches)
      (λ e. cascade_watch-Leaves v w db (foreign v u db n c w e)) (λ _. Leaves-refl v db)
act-Leaves (mute_act u w until) v db n l c =
    if_cases (LeavesAfter v db) (owns u w db.watches)
      (λ e.
        update_watch-Leaves (λ x. record x { muted_until = null_int until }) (λ x. refl) v w db
          (foreign v u db n c w e))
      (λ _. Leaves-refl v db)
act-Leaves (recovery_act u w on) v db n l c =
    if_cases (LeavesAfter v db) (owns u w db.watches)
      (λ e.
        update_watch-Leaves (λ x. record x { notify_recovery = on }) (λ x. refl) v w db
          (foreign v u db n c w e))
      (λ _. Leaves-refl v db)
act-Leaves (add_rule_act now u r) v db n l c = add_rule-Leaves v u db n c now r
act-Leaves (update_rule_act u r) v db n l c = update_rule-Leaves v u db n c r
act-Leaves (delete_rule_act u i) v db n l c = delete_rule-Leaves v u db n c i l
act-Leaves (add_battery_act now u w) v db n l c =
    if_cases (LeavesAfter v db) (owns u w db.watches)
      (λ e. insert_battery_rule-Leaves v now (blank_rule w) db (foreign v u db n c w e))
      (λ _. Leaves-refl v db)
act-Leaves (delete_battery_act now u w) v db n l c = delete_battery_rule-Leaves v u db n c now w
act-Leaves (battery_levels_act now u w low crit on over) v db n l c =
    levels-Leaves v u db n c now w low crit on over
act-Leaves (auto_battery_act u on) v db n l c = record {
  watches = refl;
  rules = λ x p. refl;
  states = λ x p. refl;
  batteries = λ x p. refl;
}
act-Leaves (dismiss_banner_act u) v db n l c = record {
  watches = refl;
  rules = λ x p. refl;
  states = λ x p. refl;
  batteries = λ x p. refl;
}
act-Leaves (delete_user_act u) v db n l c =
    let rest = cascade_watches u db.watches db in
    Leaves-trans v db rest (delete_user u db)
      (cascade_watches-Leaves v u db.watches db (λ x e. foreign v u db n c x e))
      (record {
        watches = refl;
        rules = λ x p. refl;
        states = λ x p. refl;
        batteries = λ x p. refl;
      })
