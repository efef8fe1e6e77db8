-- ===== src/Store/Owner/Others/Isolation.antt =====
-- Each call of one account leaves every other account's watches alone.
use hop_react.Common.{
  ℕ, ◌≡◌, ◌≢◌, refl, ◌∙◌, ap, sym, true, false, List, [], ◌∷◌, ◌++◌, Text, if◌then◌else◌, map,
  arith,
}
use hop_react.Clock.{Time}
use hop_react.Clock.Unix.{unix, from_unix}
use hop_react.Models.{Kind, Rule}
use hop_react.Models.Battery.{BatteryRule}
use hop_react.Store.Tables.{Db, WatchRow, BatteryRuleRow, next_id}
use hop_react.Store.Battery.{
  update_watch, mark_added, battery_row, find_battery_row, has_row, insert_battery_rule,
}
use hop_react.Store.Battery.Owner.{owns}
use hop_react.Store.Rules.{insert_rule, first_state, rule_seed_observation}
use hop_react.Store.Owner.{insert_rules, cascade_watch}
use hop_react.Store.Owner.Linked.Inserts.{insert_rule-watches}
use hop_react.Store.Owner.Others.{
  batteries_of, Leaves, owns-watches_of, watches_of-update, watches_of-remove, rules_of-remove_of,
  states_of-remove_of, batteries_of-without, rules_of-snoc, states_of-snoc, batteries_of-snoc,
}

abbrev pub LeavesAfter : {R : Type 0} → ℕ → Db → Db × R → Type 0
LeavesAfter v db r = Leaves v db r.0

pub Leaves-refl : (v : ℕ) (db : Db) → Leaves v db db
Leaves-refl v db = record {
  watches = refl;
  rules = λ w o. refl;
  states = λ w o. refl;
  batteries = λ w o. refl;
}

pub Leaves-owns : (v w : ℕ) (a b : Db) → Leaves v a b → owns v w b.watches ≡ owns v w a.watches
Leaves-owns v w a b l =
    sym (owns-watches_of v w b.watches) ∙ ap (owns v w) l.watches ∙ owns-watches_of v w a.watches

pub Leaves-trans : (v : ℕ) (a b c : Db) → Leaves v a b → Leaves v b c → Leaves v a c
Leaves-trans v a b c l m = record {
  watches = m.watches ∙ l.watches;
  rules = λ w o. m.rules w (Leaves-owns v w a b l ∙ o) ∙ l.rules w o;
  states = λ w o. m.states w (Leaves-owns v w a b l ∙ o) ∙ l.states w o;
  batteries = λ w o. m.batteries w (Leaves-owns v w a b l ∙ o) ∙ l.batteries w o;
}

-- A watch that is the account's is not one that is not.
pub apart : (v x w : ℕ) (ws : List WatchRow) → owns v w ws ≡ false → owns v x ws ≡ true → x ≢ w
apart v x w ws a b = ground (arith, a, b)

pub cascade_watch-Leaves :
    (v w : ℕ) (db : Db) → owns v w db.watches ≡ false → Leaves v db (cascade_watch w db)
unfolding cascade_watch
cascade_watch-Leaves v w db o = record {
  watches = watches_of-remove v w db.watches o;
  rules = λ x h. rules_of-remove_of x w db.watch_rules (apart v x w db.watches o h);
  states = λ x h. states_of-remove_of x w db.watch_state (apart v x w db.watches o h);
  batteries = λ x h. batteries_of-without x w db.battery_rules (apart v x w db.watches o h);
}

pub update_watch-Leaves :
    (f : WatchRow → WatchRow)
    → ((x : WatchRow) → (f x).user_id ≡ x.user_id)
    → (v w : ℕ) (db : Db) → owns v w db.watches ≡ false
    → Leaves v db (record db { watches = update_watch f w db.watches })
update_watch-Leaves f h v w db o = record {
  watches = watches_of-update f h v w db.watches o;
  rules = λ x p. refl;
  states = λ x p. refl;
  batteries = λ x p. refl;
}

pub batteries-Leaves :
    (v w : ℕ) (db : Db) (bs : List BatteryRuleRow)
    → owns v w db.watches ≡ false
    → ((x : ℕ) → x ≢ w → batteries_of x bs ≡ batteries_of x db.battery_rules)
    → Leaves v db (record db { battery_rules = bs })
batteries-Leaves v w db bs o h = record {
  watches = refl;
  rules = λ x p. refl;
  states = λ x p. refl;
  batteries = λ x p. h x (apart v x w db.watches o p);
}

pub insert_battery_rule-Leaves :
    (v : ℕ) (now : Time) (r : BatteryRule) (db : Db)
    → owns v r.watch_id db.watches ≡ false
    → Leaves v db (insert_battery_rule now r db)
unfolding insert_battery_rule
insert_battery_rule-Leaves v now r db o =
    let bs =
      if has_row (find_battery_row r.watch_id db.battery_rules)
      then db.battery_rules
      else db.battery_rules ++ (battery_row now r ∷ []) in
    let mid : Db = record db { battery_rules = bs } in
    Leaves-trans v db mid (insert_battery_rule now r db)
      (batteries-Leaves v r.watch_id db bs o (λ x n.
        ground (arith, batteries_of-snoc x (battery_row now r) db.battery_rules (λ e. n (sym e)))))
      (update_watch-Leaves (mark_added now) (λ x. refl) v r.watch_id mid o)

pub insert_rule-Leaves :
    (v : ℕ) (now : Time) (kind : Kind) (key : Text) (r : Rule) (db : Db)
    → owns v r.watch_id db.watches ≡ false
    → Leaves v db (insert_rule now kind key r db).0
unfolding insert_rule
insert_rule-Leaves v now kind key r db o =
    let id = next_id (map (λ x. x.id) db.watch_rules) in
    record {
      watches = refl;
      rules = λ x p.
          rules_of-snoc x (record r { id = id; created_at = from_unix (unix now) }) db.watch_rules
            (λ e. apart v x r.watch_id db.watches o p (sym e));
      states = λ x p.
          states_of-snoc x (first_state now id (rule_seed_observation kind key r db) r)
            db.watch_state (λ e. apart v x r.watch_id db.watches o p (sym e));
      batteries = λ x p. refl;
    }

pub insert_rules-Leaves :
    (v : ℕ) (now : Time) (kind : Kind) (key : Text) (w : ℕ) (rs : List Rule) (db : Db)
    → owns v w db.watches ≡ false
    → Leaves v db (insert_rules now kind key w rs db)
unfolding insert_rules
insert_rules-Leaves v now kind key w [] db o = Leaves-refl v db
insert_rules-Leaves v now kind key w (r ∷ rs) db o =
    let r' = record r { watch_id = w } in
    let next = (insert_rule now kind key r' db).0 in
    Leaves-trans v db next (insert_rules now kind key w rs next)
      (insert_rule-Leaves v now kind key r' db o)
      (insert_rules-Leaves v now kind key w rs next
        (ap (owns v w) (insert_rule-watches now kind key r' db) ∙ o))
