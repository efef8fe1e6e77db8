-- ===== src/Store/Owner/Limits/Added.antt =====
-- The calls that add a watch or a rule, and the limits on them.
use hop_react.Common.{
  ℕ, ◌≡◌, ◌≤◌, ◌<◌, ◌+◌, refl, ◌∙◌, ap, Bool, false, not, leb, ◌&&◌, Option-cases, inl, inr, List,
  [], ◌∷◌, ◌++◌, Text, text_eq_iff, ◌==◌, ==_iff, if◌then◌else◌, if_cases, map, length, arith,
}
use hop_react.Clock.{Time}
use hop_react.Clock.Unix.{from_unix, unix}
use hop_react.Models.{Kind, kind_eq_iff, Rule, Watch}
use hop_react.Store.Tables.{Db, next_id}
use hop_react.Store.Activity.{to_lower}
use hop_react.Store.Battery.{mark_added, insert_battery_rule}
use hop_react.Store.Battery.Owner.{blank_rule}
use hop_react.Store.Rules.{insert_rule, default_rules}
use hop_react.Store.Owner.{
  Created, Added, new_watch, insert_rules, insert_watch, create_watch, add_rule, watch_owned,
  watch_count, is_watching, rule_count, max_rules_per_watch,
}
use hop_react.Store.Owner.Linked.{has_watch, IsLinked}
use hop_react.Store.Owner.Linked.Inserts.{insert_rules-watches}
use hop_react.Store.Owner.Limits.{
  Test, holds, count, same_target, same_id, of_user, IsBounded, count-of_user, count-is_watching,
  has_watch-next_id, count-has_watch, count-snoc, rule_count-snoc, rule_count-none,
}
use hop_react.Store.Owner.Limits.Shrinking.{Shrinks, update_watch-Shrinks}

pub Shrinks-IsBounded :
    (limit : ℕ) (db db' : Db) → Shrinks db db' → IsBounded limit db → IsBounded limit db'
Shrinks-IsBounded limit db db' s b = record {
  within = λ u. ground (
    arith,
    s.watches (of_user u),
    b.within u,
    count-of_user u db.watches,
    count-of_user u db'.watches,
  );
  once = λ u kind key. ground (arith, s.watches (same_target u kind key), b.once u kind key);
  named = λ w. ground (arith, s.watches (same_id w), b.named w);
  few = λ w. ground (arith, s.rules w, b.few w);
}

length-default_rules :
    (kind : Kind) (id : Text) (threshold : ℕ) (on_relay : Bool)
    → length (default_rules kind id threshold on_relay) ≤ 3
unfolding default_rules
length-default_rules kind id threshold on_relay = ground arith

insert_rule-count :
    (x : ℕ) (now : Time) (kind : Kind) (key : Text) (r : Rule) (db : Db)
    → rule_count x (insert_rule now kind key r db).0.watch_rules
      ≡ rule_count x db.watch_rules + (if r.watch_id == x then 1 else 0)
unfolding insert_rule
insert_rule-count x now kind key r db =
    rule_count-snoc x
      (record r {
        id = next_id (map (λ x. x.id) db.watch_rules);
        created_at = from_unix (unix now);
      })
      db.watch_rules

insert_rules-count :
    (x : ℕ) (now : Time) (kind : Kind) (key : Text) (w : ℕ) (rs : List Rule) (db : Db)
    → rule_count x (insert_rules now kind key w rs db).watch_rules
      ≡ rule_count x db.watch_rules + (if w == x then length rs else 0)
unfolding insert_rules
insert_rules-count x now kind key w [] db = ground arith
insert_rules-count x now kind key w (r ∷ rs) db =
    let r' = record r { watch_id = w } in
    ground (
      arith,
      insert_rule-count x now kind key r' db,
      insert_rules-count x now kind key w rs (insert_rule now kind key r' db).0,
    )

pub insert_battery_rule-Shrinks :
    (now : Time) (w : ℕ) (db : Db) → Shrinks db (insert_battery_rule now (blank_rule w) db)
unfolding insert_battery_rule
insert_battery_rule-Shrinks now w db =
    update_watch-Shrinks (mark_added now) (λ q x. refl) w db
      (insert_battery_rule now (blank_rule w) db) refl refl

-- An id that no watch has has no rule either.
IsLinked-fresh :
    (db : Db)
    → IsLinked db
    → let id = next_id (map (λ x. x.id) db.watches) in
      (has_watch id db.watches ≡ false) × (rule_count id db.watch_rules ≡ 0)
IsLinked-fresh db l =
    let id = next_id (map (λ x. x.id) db.watches) in
    let fresh : has_watch id db.watches ≡ false = ground (arith, has_watch-next_id id db.watches) in
    (fresh, rule_count-none id db.watch_rules (λ i. ground (arith, l.ruled id i, fresh)))

-- A watch that is inserted is one more for its owner and its target; its rules are its own.
insert_watch-IsBounded :
    (now : Time) (limit : ℕ) (w : Watch) (db : Db)
    → IsLinked db
    → IsBounded limit db
    → watch_count w.user_id db.watches < limit
    → is_watching w.user_id w.target_kind (to_lower w.target_key) db.watches ≡ false
    → IsBounded limit (insert_watch now w db).0
unfolding insert_watch new_watch
insert_watch-IsBounded now limit w db l b room new =
    let rules = default_rules w.target_kind w.template_id w.threshold_hours w.alert_on_relay in
    let id = next_id (map (λ x. x.id) db.watches) in
    let row = new_watch now id rules w in
    let key = to_lower w.target_key in
    let added : Db = record db { watches = db.watches ++ (row ∷ []) } in
    let ruled : Db = insert_rules now w.target_kind key id rules added in
    let same : ruled.watches ≡ added.watches =
      insert_rules-watches now w.target_kind key id rules added in
    let (fresh, empty) = IsLinked-fresh db l in
    let more : (q : Test)
        → count q ruled.watches ≡ count q db.watches + (if holds q row then 1 else 0) =
      λ q. ap (count q) same ∙ count-snoc q row db.watches in
    let bounded : IsBounded limit ruled = record {
      within = λ u. ground (
        arith,
        more (of_user u),
        b.within u,
        room,
        count-of_user u db.watches,
        count-of_user u ruled.watches,
        ==_iff w.user_id u,
      );
      once = λ u kind t. ground (
        arith,
        more (same_target u kind t),
        b.once u kind t,
        ==_iff w.user_id u,
        text_eq_iff key t,
        kind_eq_iff w.target_kind kind,
        count-is_watching w.user_id w.target_kind key db.watches,
      );
      named = λ i.
          ground
            (arith, more (same_id i), b.named i, count-has_watch id db.watches, fresh, ==_iff id i);
      few = λ x. ground (
        arith,
        insert_rules-count x now w.target_kind key id rules added,
        b.few x,
        empty,
        ==_iff id x,
        length-default_rules w.target_kind w.template_id w.threshold_hours w.alert_on_relay,
      );
    } in
    if_cases (IsBounded limit) (w.with_battery && not w.no_battery)
      (λ _.
        Shrinks-IsBounded limit ruled (insert_battery_rule now (blank_rule id) ruled)
          (insert_battery_rule-Shrinks now id ruled) bounded)
      (λ _. bounded)

pub create_watch-IsBounded :
    (now : Time) (limit : ℕ) (w : Watch) (db : Db)
    → IsLinked db
    → IsBounded limit db
    → IsBounded limit (create_watch now limit w db).0
unfolding create_watch
create_watch-IsBounded now limit w db l b =
    if_cases (λ (r : Db × Created). IsBounded limit r.0)
      (leb limit (watch_count w.user_id db.watches)) (λ _. b)
      (λ room.
        if_cases (λ (r : Db × Created). IsBounded limit r.0)
          (is_watching w.user_id w.target_kind (to_lower w.target_key) db.watches) (λ _. b)
          (λ new. insert_watch-IsBounded now limit w db l b (ground (arith, room)) new))

pub add_rule-IsBounded :
    (now : Time) (limit u : ℕ) (r : Rule) (db : Db)
    → IsBounded limit db
    → IsBounded limit (add_rule now u r db).0
unfolding add_rule insert_rule
add_rule-IsBounded now limit u r db b = elim (Option-cases (watch_owned u r.watch_id db.watches)) [
  | inl h ↦ rw (add_rule, h) b
  | inr (w, h) ↦
      rw (add_rule, h)
        (if_cases (λ (d : Db × Added). IsBounded limit d.0)
          (leb max_rules_per_watch (rule_count r.watch_id db.watch_rules)) (λ _. b)
          (λ room. record {
            within = b.within;
            once = b.once;
            named = b.named;
            few = λ x. ground (
              arith,
              insert_rule-count x now w.target_kind w.target_key r db,
              b.few x,
              room,
              ==_iff r.watch_id x,
            );
          }))
]
