-- ===== src/Store/Owner/Linked/Changes.antt =====
-- Watches, rules and battery rules that are changed or go.
use hop_react.Common.{
  ℕ, ◌≡◌, if_cases, refl, Bool, not, List, [], ◌∷◌, ◌==◌, ==_iff, if◌then◌else◌, arith,
}
use hop_react.Clock.{Time}
use hop_react.Models.{Rule}
use hop_react.Store.Tables.{Db, WatchRow, BatteryRuleRow}
use hop_react.Store.Battery.{find_battery_row, has_row, update_watch, mark_added}
use hop_react.Store.Battery.Owner.{
  add_battery_rule, delete_battery_rule, update_battery_levels, blank_rule, owns, without_watch,
  update_battery_row, levels_written, switched_off,
}
use hop_react.Store.Accounts.{cascade_watches}
use hop_react.Store.Owner.{cascade_watch, update_rule, delete_rule, has_rule}
use hop_react.Store.Owner.Linked.{
  IsLinked, IsLinkedAfter, has_rule-rule_in, has_watch-remove, rule_in-remove_of,
  state_in-remove_of, battery_in-without, rule_in-remove, state_in-remove, rule_in-update,
  has_watch-update, battery_in-update,
}
use hop_react.Store.Owner.Linked.Unique.{
  one_watch, remove_rules_of-IsUnique, remove_rule-IsUnique, update_rules-IsUnique,
}
use hop_react.Store.Owner.Linked.Inserts.{insert_battery_rule-IsLinked, owns-has_watch}

pub cascade_watch-IsLinked : (w : ℕ) (db : Db) → IsLinked db → IsLinked (cascade_watch w db)
unfolding cascade_watch
cascade_watch-IsLinked w db l = record {
  ruled = λ x i e.
      ground (
        arith,
        l.ruled x i,
        rule_in-remove_of x i w db.watch_rules,
        has_watch-remove x w db.watches,
      );
  tracked = λ x i. ground (
    arith,
    l.tracked x i,
    rule_in-remove_of x i w db.watch_rules,
    state_in-remove_of x i w db.watch_state,
  );
  unique = remove_rules_of-IsUnique w db.watch_rules l.unique;
  powered = λ x e. ground (
    arith,
    l.powered x,
    battery_in-without x w db.battery_rules,
    has_watch-remove x w db.watches,
  );
}

pub update_watch-IsLinked :
    (f : WatchRow → WatchRow)
    → ((x : WatchRow) → (f x).id ≡ x.id)
    → (w : ℕ) (db : Db) → IsLinked db
    → IsLinked (record db { watches = update_watch f w db.watches })
update_watch-IsLinked f h w db l = record {
  ruled = λ x i e. ground (arith, l.ruled x i, has_watch-update f h x w db.watches);
  tracked = l.tracked;
  unique = l.unique;
  powered = λ x e. ground (arith, l.powered x, has_watch-update f h x w db.watches);
}

pub update_battery_row-IsLinked :
    (f : BatteryRuleRow → BatteryRuleRow)
    → ((b : BatteryRuleRow) → (f b).watch_id ≡ b.watch_id)
    → (w : ℕ) (db : Db) → IsLinked db
    → IsLinked (record db { battery_rules = update_battery_row f w db.battery_rules })
update_battery_row-IsLinked f h w db l = record {
  ruled = l.ruled;
  tracked = l.tracked;
  unique = l.unique;
  powered = λ x e. ground (arith, l.powered x, battery_in-update f h x w db.battery_rules);
}

pub update_rule-IsLinked :
    (u : ℕ) (r : Rule) (db : Db) → IsLinked db → IsLinked (update_rule u r db).0
unfolding update_rule
update_rule-IsLinked u r db l =
    if_cases IsLinkedAfter (has_rule u r.id db.watches db.watch_rules)
      (λ _. record {
        ruled =
            λ x i e. ground (arith, l.ruled x i, rule_in-update x i u r db.watches db.watch_rules);
        tracked =
            λ x i. ground (arith, l.tracked x i, rule_in-update x i u r db.watches db.watch_rules);
        unique = update_rules-IsUnique u r db.watches db.watch_rules l.unique;
        powered = l.powered;
      })
      (λ _. l)

pub delete_rule-IsLinked : (u i : ℕ) (db : Db) → IsLinked db → IsLinked (delete_rule u i db).0
unfolding delete_rule
delete_rule-IsLinked u j db l =
    let gone : (x i : ℕ) → _ = λ x i. rule_in-remove x i u j db.watches db.watch_rules in
    if_cases IsLinkedAfter (has_rule u j db.watches db.watch_rules)
      (λ h.
        let (w, found, own) = has_rule-rule_in u j db.watches db.watch_rules h in
        record {
          ruled = λ x i e. ground (arith, l.ruled x i, gone x i);
          tracked = λ x i. ground (
            arith,
            l.tracked x i,
            gone x i,
            state_in-remove x i j db.watch_state,
            one_watch x w j db.watch_rules l.unique,
            found,
            own,
            ==_iff i j,
          );
          unique = remove_rule-IsUnique u j db.watches db.watch_rules l.unique;
          powered = l.powered;
        })
      (λ _. l)

pub add_battery_rule-IsLinked :
    (now : Time) (u w : ℕ) (db : Db) → IsLinked db → IsLinked (add_battery_rule now u w db).0
unfolding add_battery_rule
add_battery_rule-IsLinked now u w db l =
    if_cases IsLinkedAfter (owns u w db.watches)
      (λ e. insert_battery_rule-IsLinked now (blank_rule w) db (owns-has_watch u w db.watches e) l)
      (λ _. l)

pub delete_battery_rule-IsLinked :
    (now : Time) (u w : ℕ) (db : Db) → IsLinked db → IsLinked (delete_battery_rule now u w db).0
unfolding delete_battery_rule
delete_battery_rule-IsLinked now u w db l =
    if_cases IsLinkedAfter (owns u w db.watches)
      (λ _.
        update_watch-IsLinked (mark_added now) (λ y. refl) w
          (record db { battery_rules = without_watch w db.battery_rules })
          (record {
            ruled = l.ruled;
            tracked = l.tracked;
            unique = l.unique;
            powered = λ x e. ground (arith, l.powered x, battery_in-without x w db.battery_rules);
          }))
      (λ _. l)

pub update_battery_levels-IsLinked :
    (now : Time) (u w low crit : ℕ) (on : Bool) (over : ℕ) (db : Db)
    → IsLinked db
    → IsLinked (update_battery_levels now u w low crit on over db).0
unfolding update_battery_levels
update_battery_levels-IsLinked now u w low crit on over db l =
    let f = levels_written low crit on over in
    let written = update_battery_row-IsLinked f (λ b. refl) w db l in
    if_cases IsLinkedAfter (not (owns u w db.watches)) (λ _. l)
      (λ _.
        if_cases IsLinkedAfter (not (has_row (find_battery_row w db.battery_rules))) (λ _. l)
          (λ _.
            if_cases (λ bs. IsLinked (record db { battery_rules = bs })) on (λ _. written)
              (λ _.
                update_battery_row-IsLinked (switched_off now) (λ b. ground arith) w
                  (record db { battery_rules = update_battery_row f w db.battery_rules }) written)))

pub cascade_watches-IsLinked :
    (u : ℕ) (ws : List WatchRow) (db : Db) → IsLinked db → IsLinked (cascade_watches u ws db)
unfolding cascade_watches
cascade_watches-IsLinked u [] db l = l
cascade_watches-IsLinked u (w ∷ ws) db l =
    cascade_watches-IsLinked u ws (if w.user_id == u then cascade_watch w.id db else db)
      (if_cases IsLinked (w.user_id == u) (λ _. cascade_watch-IsLinked w.id db l) (λ _. l))
