-- ===== src/Store/Owner/Linked/Inserts.antt =====
-- Watches, rules and battery rules that are added.
use hop_react.Common.{
  ℕ, ◌≡◌, Option-cases, inl, inr, if_cases, refl, ◌∙◌, ap, some, leb, true, not, ◌&&◌, ◌||◌, List,
  [], ◌∷◌, ◌++◌, Text, ◌==◌, ==_iff, map, arith,
}
use hop_react.Clock.{Time}
use hop_react.Clock.Unix.{unix, from_unix}
use hop_react.Models.{Kind, Rule, Watch}
use hop_react.Models.Battery.{BatteryRule}
use hop_react.Store.Tables.{Db, WatchRow, BatteryRuleRow, next_id}
use hop_react.Store.Activity.{to_lower}
use hop_react.Store.Battery.{
  find_battery_row, has_row, mark_added, battery_row, insert_battery_rule,
}
use hop_react.Store.Battery.Owner.{blank_rule, owns}
use hop_react.Store.Rules.{insert_rule, default_rules, first_state, rule_seed_observation}
use hop_react.Store.Owner.{
  new_watch, insert_rules, insert_watch, create_watch, add_rule, watch_owned, watch_count,
  is_watching, max_rules_per_watch, rule_count,
}
use hop_react.Store.Owner.Linked.{
  has_watch, battery_in, IsLinked, IsLinkedAfter, has_watch-snoc, rule_in-snoc, state_in-snoc,
  battery_in-snoc, has_watch-update,
}
use hop_react.Store.Owner.Linked.Unique.{IsUnique-next_id}

pub insert_rule-IsLinked :
    (now : Time) (kind : Kind) (key : Text) (r : Rule) (db : Db)
    → has_watch r.watch_id db.watches ≡ true
    → IsLinked db
    → IsLinked (insert_rule now kind key r db).0
unfolding insert_rule
insert_rule-IsLinked now kind key r db h l =
    let id = next_id (map (λ x. x.id) db.watch_rules) in
    let ruled : (w i : ℕ) → _ = λ w i.
      rule_in-snoc w i (record r { id = id; created_at = from_unix (unix now) }) db.watch_rules in
    record {
      ruled = λ w i e. ground (arith, ruled w i, l.ruled w i);
      tracked = λ w i. ground (
        arith,
        ruled w i,
        l.tracked w i,
        state_in-snoc w i (first_state now id (rule_seed_observation kind key r db) r)
            db.watch_state,
      );
      unique =
          IsUnique-next_id (record r { id = id; created_at = from_unix (unix now) }) db.watch_rules
            refl l.unique;
      powered = l.powered;
    }

pub insert_rule-watches :
    (now : Time) (kind : Kind) (key : Text) (r : Rule) (db : Db)
    → (insert_rule now kind key r db).0.watches ≡ db.watches
unfolding insert_rule
insert_rule-watches now kind key r db = refl

pub insert_rules-watches :
    (now : Time) (kind : Kind) (key : Text) (w : ℕ) (rs : List Rule) (db : Db)
    → (insert_rules now kind key w rs db).watches ≡ db.watches
unfolding insert_rules
insert_rules-watches now kind key w [] db = refl
insert_rules-watches now kind key w (r ∷ rs) db =
    insert_rules-watches now kind key w rs
      (insert_rule now kind key (record r { watch_id = w }) db).0
    ∙ insert_rule-watches now kind key (record r { watch_id = w }) db

pub insert_rules-IsLinked :
    (now : Time) (kind : Kind) (key : Text) (w : ℕ) (rs : List Rule) (db : Db)
    → has_watch w db.watches ≡ true
    → IsLinked db
    → IsLinked (insert_rules now kind key w rs db)
unfolding insert_rules
insert_rules-IsLinked now kind key w [] db h l = l
insert_rules-IsLinked now kind key w (r ∷ rs) db h l =
    let r' = record r { watch_id = w } in
    insert_rules-IsLinked now kind key w rs (insert_rule now kind key r' db).0
      (ap (has_watch w) (insert_rule-watches now kind key r' db) ∙ h)
      (insert_rule-IsLinked now kind key r' db h l)

pub battery_in-row :
    (w : ℕ) (bs : List BatteryRuleRow) → battery_in w bs ≡ has_row (find_battery_row w bs)
unfolding find_battery_row
battery_in-row w [] = refl
battery_in-row w (b ∷ bs) = ground (arith, battery_in-row w bs)

pub insert_battery_rule-IsLinked :
    (now : Time) (r : BatteryRule) (db : Db)
    → has_watch r.watch_id db.watches ≡ true
    → IsLinked db
    → IsLinked (insert_battery_rule now r db)
unfolding insert_battery_rule
insert_battery_rule-IsLinked now r db h l =
    let kept : (x : ℕ) → _ =
      λ x. has_watch-update (mark_added now) (λ y. refl) x r.watch_id db.watches in
    record {
      ruled = λ x i e. ground (arith, kept x, l.ruled x i);
      tracked = l.tracked;
      unique = l.unique;
      powered = λ x e. ground (
        arith,
        kept x,
        l.powered x,
        h,
        battery_in-snoc x (battery_row now r) db.battery_rules,
        ==_iff r.watch_id x,
      );
    }

pub owns-has_watch : (u w : ℕ) (ws : List WatchRow) → owns u w ws ≡ true → has_watch w ws ≡ true
unfolding owns
owns-has_watch u w [] h = ground (arith, h)
owns-has_watch u w (x ∷ xs) h = ground (arith, owns-has_watch u w xs)

watch_owned-has_watch :
    (u w : ℕ) (ws : List WatchRow) (x : WatchRow)
    → watch_owned u w ws ≡ some x
    → has_watch w ws ≡ true
unfolding watch_owned
watch_owned-has_watch u w [] x h = ground (arith, h)
watch_owned-has_watch u w (y ∷ ys) x h = ground (arith, watch_owned-has_watch u w ys x)

pub insert_watch-IsLinked :
    (now : Time) (w : Watch) (db : Db) → IsLinked db → IsLinked (insert_watch now w db).0
unfolding insert_watch new_watch
insert_watch-IsLinked now w db l =
    let rules = default_rules w.target_kind w.template_id w.threshold_hours w.alert_on_relay in
    let id = next_id (map (λ x. x.id) db.watches) in
    let row = new_watch now id rules w in
    let added : Db = record db { watches = db.watches ++ (row ∷ []) } in
    let more : (x : ℕ) → has_watch x added.watches ≡ (has_watch x db.watches || row.id == x) =
      λ x. has_watch-snoc x row db.watches in
    let linked : IsLinked added = record {
      ruled = λ x i e. ground (arith, l.ruled x i, more x);
      tracked = l.tracked;
      unique = l.unique;
      powered = λ x e. ground (arith, l.powered x, more x);
    } in
    let there : has_watch id added.watches ≡ true = ground (arith, more id) in
    let key = to_lower w.target_key in
    let ruled = insert_rules-IsLinked now w.target_kind key id rules added there linked in
    if_cases IsLinked (w.with_battery && not w.no_battery)
      (λ _.
        insert_battery_rule-IsLinked now (blank_rule id)
          (insert_rules now w.target_kind key id rules added)
          (ap (has_watch id) (insert_rules-watches now w.target_kind key id rules added) ∙ there)
          ruled)
      (λ _. ruled)

pub create_watch-IsLinked :
    (now : Time) (limit : ℕ) (w : Watch) (db : Db)
    → IsLinked db
    → IsLinked (create_watch now limit w db).0
unfolding create_watch
create_watch-IsLinked now limit w db l =
    if_cases IsLinkedAfter (leb limit (watch_count w.user_id db.watches)) (λ _. l)
      (λ _.
        if_cases IsLinkedAfter
          (is_watching w.user_id w.target_kind (to_lower w.target_key) db.watches) (λ _. l)
          (λ _. insert_watch-IsLinked now w db l))

pub add_rule-IsLinked :
    (now : Time) (u : ℕ) (r : Rule) (db : Db) → IsLinked db → IsLinked (add_rule now u r db).0
unfolding add_rule
add_rule-IsLinked now u r db l = elim (Option-cases (watch_owned u r.watch_id db.watches)) [
  | inl h ↦ rw (add_rule, h) l
  | inr (w, h) ↦
      rw (add_rule, h)
        (if_cases IsLinkedAfter (leb max_rules_per_watch (rule_count r.watch_id db.watch_rules))
          (λ _. l)
          (λ _.
            insert_rule-IsLinked now w.target_kind w.target_key r db
              (watch_owned-has_watch u r.watch_id db.watches w h) l))
]
