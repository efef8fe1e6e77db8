-- ===== src/Store/Owner/Acts.antt =====
-- The calls of the Store that a signed-in user's pages make, in any order, as values: none of them
-- leaves a rule, a state or a battery rule hanging.
use hop_react.Common.{ℕ, if_cases, refl, Bool, List, [], ◌∷◌}
use hop_react.Clock.{Time}
use hop_react.Clock.Unix.{null_int}
use hop_react.Models.{Rule, Watch}
use hop_react.Store.Tables.{Db}
use hop_react.Store.Battery.Owner.{
  add_battery_rule, delete_battery_rule, update_battery_levels, owns, set_auto_battery,
  dismiss_battery_banner,
}
use hop_react.Store.Accounts.{delete_user, cascade_watches}
use hop_react.Store.Owner.{
  create_watch, delete_watch, set_watch_mute, set_watch_recovery, add_rule, update_rule,
  delete_rule,
}
use hop_react.Store.Owner.Linked.{IsLinked, IsLinkedAfter, same_tables}
use hop_react.Store.Owner.Linked.Inserts.{create_watch-IsLinked, add_rule-IsLinked}
use hop_react.Store.Owner.Linked.Changes.{
  cascade_watch-IsLinked, update_watch-IsLinked, update_rule-IsLinked, delete_rule-IsLinked,
  add_battery_rule-IsLinked, delete_battery_rule-IsLinked, update_battery_levels-IsLinked,
  cascade_watches-IsLinked,
}

pub data Act : Type 0 where
  create_watch_act : Time → ℕ → Watch → Act
  delete_watch_act : ℕ → ℕ → Act
  mute_act : ℕ → ℕ → Time → Act
  recovery_act : ℕ → ℕ → Bool → Act
  add_rule_act : Time → ℕ → Rule → Act
  update_rule_act : ℕ → Rule → Act
  delete_rule_act : ℕ → ℕ → Act
  add_battery_act : Time → ℕ → ℕ → Act
  delete_battery_act : Time → ℕ → ℕ → Act
  battery_levels_act : Time → ℕ → ℕ → ℕ → ℕ → Bool → ℕ → Act
  auto_battery_act : ℕ → Bool → Act
  dismiss_banner_act : ℕ → Act
  delete_user_act : ℕ → Act

unfoldable pub act : Act → Db → Db
act (create_watch_act now limit w) db = (create_watch now limit w db).0
act (delete_watch_act u w) db = (delete_watch u w db).0
act (mute_act u w until) db = (set_watch_mute u w until db).0
act (recovery_act u w on) db = (set_watch_recovery u w on db).0
act (add_rule_act now u r) db = (add_rule now u r db).0
act (update_rule_act u r) db = (update_rule u r db).0
act (delete_rule_act u i) db = (delete_rule u i db).0
act (add_battery_act now u w) db = (add_battery_rule now u w db).0
act (delete_battery_act now u w) db = (delete_battery_rule now u w db).0
act (battery_levels_act now u w low crit on over) db =
    (update_battery_levels now u w low crit on over db).0
act (auto_battery_act u on) db = set_auto_battery u on db
act (dismiss_banner_act u) db = dismiss_battery_banner u db
act (delete_user_act u) db = delete_user u db

unfoldable pub acts : List Act → Db → Db
acts [] db = db
acts (a ∷ rest) db = acts rest (act a db)

pub act-IsLinked : (a : Act) (db : Db) → IsLinked db → IsLinked (act a db)
unfolding act delete_watch set_watch_mute set_watch_recovery set_auto_battery dismiss_battery_banner
    delete_user
act-IsLinked (create_watch_act now limit w) db l = create_watch-IsLinked now limit w db l
act-IsLinked (delete_watch_act u w) db l =
    if_cases IsLinkedAfter (owns u w db.watches) (λ _. cascade_watch-IsLinked w db l) (λ _. l)
act-IsLinked (mute_act u w until) db l =
    if_cases IsLinkedAfter (owns u w db.watches)
      (λ _.
        update_watch-IsLinked (λ x. record x { muted_until = null_int until }) (λ x. refl) w db l)
      (λ _. l)
act-IsLinked (recovery_act u w on) db l =
    if_cases IsLinkedAfter (owns u w db.watches)
      (λ _. update_watch-IsLinked (λ x. record x { notify_recovery = on }) (λ x. refl) w db l)
      (λ _. l)
act-IsLinked (add_rule_act now u r) db l = add_rule-IsLinked now u r db l
act-IsLinked (update_rule_act u r) db l = update_rule-IsLinked u r db l
act-IsLinked (delete_rule_act u i) db l = delete_rule-IsLinked u i db l
act-IsLinked (add_battery_act now u w) db l = add_battery_rule-IsLinked now u w db l
act-IsLinked (delete_battery_act now u w) db l = delete_battery_rule-IsLinked now u w db l
act-IsLinked (battery_levels_act now u w low crit on over) db l =
    update_battery_levels-IsLinked now u w low crit on over db l
act-IsLinked (auto_battery_act u on) db l =
    same_tables db (set_auto_battery u on db) refl refl refl refl l
act-IsLinked (dismiss_banner_act u) db l =
    same_tables db (dismiss_battery_banner u db) refl refl refl refl l
act-IsLinked (delete_user_act u) db l =
    let rest = cascade_watches u db.watches db in
    same_tables rest (delete_user u db) refl refl refl refl
      (cascade_watches-IsLinked u db.watches db l)

-- Whatever the owners do, in any order and with any results, from a linked database every rule and
-- every battery rule belongs to a watch that exists, and exactly the rules have a state.
pub acts-IsLinked : (done : List Act) (db : Db) → IsLinked db → IsLinked (acts done db)
unfolding acts
acts-IsLinked [] db l = l
acts-IsLinked (a ∷ rest) db l = acts-IsLinked rest (act a db) (act-IsLinked a db l)
