-- ===== src/Store/Owner/Limits/Kept.antt =====
-- The limits on watches and rules, over a sequence of calls of the owners.
use hop_react.Common.{ℕ, ◌≡◌, refl, sym, subst, Bool, not, List, [], ◌∷◌, if_cases, All, arith}
use hop_react.Clock.{Time}
use hop_react.Clock.Unix.{null_int}
use hop_react.Models.{Rule}
use hop_react.Store.Tables.{Db}
use hop_react.Store.Battery.{find_battery_row, has_row, mark_added}
use hop_react.Store.Battery.Owner.{
  owns, add_battery_rule, delete_battery_rule, update_battery_levels, set_auto_battery,
  dismiss_battery_banner,
}
use hop_react.Store.Accounts.{cascade_watches, delete_user}
use hop_react.Store.Owner.{
  create_watch, delete_watch, set_watch_mute, set_watch_recovery, update_rule, delete_rule,
  has_rule,
}
use hop_react.Store.Owner.Linked.{IsLinked}
use hop_react.Store.Owner.Acts.{
  Act, create_watch_act, delete_watch_act, mute_act, recovery_act, add_rule_act, update_rule_act,
  delete_rule_act, add_battery_act, delete_battery_act, battery_levels_act, auto_battery_act,
  dismiss_banner_act, delete_user_act, act, acts, act-IsLinked,
}
use hop_react.Store.Owner.Limits.{IsBounded}
use hop_react.Store.Owner.Limits.Shrinking.{
  Shrinks, ShrinksAfter, Shrinks-refl, Shrinks-trans, Shrinks-same, update_watch-Shrinks,
  cascade_watch-Shrinks, cascade_watches-Shrinks, rule_count-remove, rule_count-update,
}
use hop_react.Store.Owner.Limits.Added.{
  Shrinks-IsBounded, insert_battery_rule-Shrinks, create_watch-IsBounded, add_rule-IsBounded,
}

update_rule-Shrinks : (u : ℕ) (r : Rule) (db : Db) → Shrinks db (update_rule u r db).0
unfolding update_rule
update_rule-Shrinks u r db =
    if_cases (ShrinksAfter db) (has_rule u r.id db.watches db.watch_rules)
      (λ _. record {
        watches = λ q. omega arith;
        rules = λ w. ground (arith, rule_count-update w u r db.watches db.watch_rules);
      })
      (λ _. Shrinks-refl db)

delete_rule-Shrinks : (u i : ℕ) (db : Db) → Shrinks db (delete_rule u i db).0
unfolding delete_rule
delete_rule-Shrinks u i db =
    if_cases (ShrinksAfter db) (has_rule u i db.watches db.watch_rules)
      (λ _. record {
        watches = λ q. omega arith;
        rules = λ w. rule_count-remove w u i db.watches db.watch_rules;
      })
      (λ _. Shrinks-refl db)

update_battery_levels-Shrinks :
    (now : Time) (u w low crit : ℕ) (on : Bool) (over : ℕ) (db : Db)
    → Shrinks db (update_battery_levels now u w low crit on over db).0
unfolding update_battery_levels
update_battery_levels-Shrinks now u w low crit on over db =
    if_cases (ShrinksAfter db) (not (owns u w db.watches)) (λ _. Shrinks-refl db)
      (λ _.
        if_cases (ShrinksAfter db) (not (has_row (find_battery_row w db.battery_rules)))
          (λ _. Shrinks-refl db)
          (λ _. record { watches = λ q. omega arith; rules = λ x. omega arith }))

-- The account limit is the same for every call.
abbrev pub Obeys : ℕ → Act → Type 0
Obeys limit (create_watch_act now l w) = l ≡ limit
Obeys limit _ = Unit

pub act-IsBounded :
    (a : Act) (limit : ℕ) (db : Db)
    → Obeys limit a
    → IsLinked db
    → IsBounded limit db
    → IsBounded limit (act a db)
unfolding act delete_watch set_watch_mute set_watch_recovery add_battery_rule delete_battery_rule
    set_auto_battery dismiss_battery_banner delete_user
act-IsBounded (create_watch_act now m w) limit db o l b =
    subst (λ k. IsBounded limit (create_watch now k w db).0) (sym o)
      (create_watch-IsBounded now limit w db l b)
act-IsBounded (add_rule_act now u r) limit db o l b = add_rule-IsBounded now limit u r db b
act-IsBounded (delete_watch_act u w) limit db o l b =
    Shrinks-IsBounded limit db (delete_watch u w db).0
      (if_cases (ShrinksAfter db) (owns u w db.watches) (λ _. cascade_watch-Shrinks w db)
        (λ _. Shrinks-refl db))
      b
act-IsBounded (mute_act u w until) limit db o l b =
    Shrinks-IsBounded limit db (set_watch_mute u w until db).0
      (if_cases (ShrinksAfter db) (owns u w db.watches)
        (λ _.
          update_watch-Shrinks (λ x. record x { muted_until = null_int until }) (λ q x. refl) w db _
            refl refl)
        (λ _. Shrinks-refl db))
      b
act-IsBounded (recovery_act u w on) limit db o l b =
    Shrinks-IsBounded limit db (set_watch_recovery u w on db).0
      (if_cases (ShrinksAfter db) (owns u w db.watches)
        (λ _.
          update_watch-Shrinks (λ x. record x { notify_recovery = on }) (λ q x. refl) w db _ refl
            refl)
        (λ _. Shrinks-refl db))
      b
act-IsBounded (update_rule_act u r) limit db o l b =
    Shrinks-IsBounded limit db (update_rule u r db).0 (update_rule-Shrinks u r db) b
act-IsBounded (delete_rule_act u i) limit db o l b =
    Shrinks-IsBounded limit db (delete_rule u i db).0 (delete_rule-Shrinks u i db) b
act-IsBounded (add_battery_act now u w) limit db o l b =
    Shrinks-IsBounded limit db (add_battery_rule now u w db).0
      (if_cases (ShrinksAfter db) (owns u w db.watches) (λ _. insert_battery_rule-Shrinks now w db)
        (λ _. Shrinks-refl db))
      b
act-IsBounded (delete_battery_act now u w) limit db o l b =
    Shrinks-IsBounded limit db (delete_battery_rule now u w db).0
      (if_cases (ShrinksAfter db) (owns u w db.watches)
        (λ _. update_watch-Shrinks (mark_added now) (λ q x. refl) w db _ refl refl)
        (λ _. Shrinks-refl db))
      b
act-IsBounded (battery_levels_act now u w low crit on over) limit db o l b =
    Shrinks-IsBounded limit db (update_battery_levels now u w low crit on over db).0
      (update_battery_levels-Shrinks now u w low crit on over db) b
act-IsBounded (auto_battery_act u on) limit db o l b =
    Shrinks-IsBounded limit db (set_auto_battery u on db) (Shrinks-same db _ refl refl) b
act-IsBounded (dismiss_banner_act u) limit db o l b =
    Shrinks-IsBounded limit db (dismiss_battery_banner u db) (Shrinks-same db _ refl refl) b
act-IsBounded (delete_user_act u) limit db o l b =
    let rest = cascade_watches u db.watches db in
    Shrinks-IsBounded limit db (delete_user u db)
      (Shrinks-trans db rest (delete_user u db) (cascade_watches-Shrinks u db.watches db)
        (Shrinks-same rest (delete_user u db) refl refl))
      b

-- Whatever the owners do, with one limit for every new watch, in a database that is linked and within
-- the limits: no account exceeds the limit, watches a target twice or shares an id of a watch, and
-- no watch has more than 12 rules.
pub acts-IsBounded :
    (done : List Act) (limit : ℕ) (db : Db)
    → All (Obeys limit) done
    → IsLinked db
    → IsBounded limit db
    → IsBounded limit (acts done db)
unfolding acts
acts-IsBounded [] limit db o l b = b
acts-IsBounded (a ∷ rest) limit db o l b =
    acts-IsBounded rest limit (act a db) o.1 (act-IsLinked a db l)
      (act-IsBounded a limit db o.0 l b)
