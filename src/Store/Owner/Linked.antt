-- ===== src/Store/Owner/Linked.antt =====
-- The foreign keys between watches, rules, states and battery rules.
pub mod Inserts
pub mod Changes
pub mod Unique
use hop_react.Common.{
  ℕ, ◌≡◌, ◌<◌, refl, sym, subst, Bool-cases, inl, inr, map, ==_iff, Bool, true, false, not, ◌&&◌,
  ◌||◌, List, [], ◌∷◌, ◌++◌, Text, ◌==◌, if◌then◌else◌, arith,
}
use hop_react.Clock.{Time}
use hop_react.Models.{Kind, Rule, Watch}
use hop_react.Models.Battery.{BatteryRule}
use hop_react.Store.Tables.{Db, WatchRow, StateRow, BatteryRuleRow, next_id}
use hop_react.Store.Battery.{find_battery_row, has_row, update_watch, insert_battery_rule}
use hop_react.Store.Battery.Owner.{owns, without_watch, update_battery_row}
use hop_react.Store.Rules.{insert_rule}
use hop_react.Store.Owner.{
  insert_rules, remove_watch, remove_rules_of, remove_states_of, cascade_watch, remove_rule,
  remove_state_of_rule, update_rules, is_own_rule, has_rule,
}

abbrev pub has_watch : ℕ → List WatchRow → Bool
has_watch w [] = false
has_watch w (x ∷ xs) = x.id == w || has_watch w xs

abbrev pub rule_in : ℕ → ℕ → List Rule → Bool
rule_in w i [] = false
rule_in w i (r ∷ rs) = (r.watch_id == w && r.id == i) || rule_in w i rs

abbrev pub state_in : ℕ → ℕ → List StateRow → Bool
state_in w i [] = false
state_in w i (s ∷ ss) = (s.watch_id == w && s.rule_id == i) || state_in w i ss

abbrev pub battery_in : ℕ → List BatteryRuleRow → Bool
battery_in w [] = false
battery_in w (b ∷ bs) = b.watch_id == w || battery_in w bs

abbrev pub has_id : ℕ → List Rule → Bool
has_id i [] = false
has_id i (r ∷ rs) = r.id == i || has_id i rs

abbrev pub IsUnique : List Rule → Type 0
IsUnique [] = Unit
IsUnique (r ∷ rs) = (has_id r.id rs ≡ false) × IsUnique rs

-- Rules and battery rules hang on watches that exist; no two rules share an id; there is a state
-- for each rule, and no other.
pub record IsLinked (db : Db) : Type 0 where
  pub ruled : (w i : ℕ) → rule_in w i db.watch_rules ≡ true → has_watch w db.watches ≡ true
  pub tracked : (w i : ℕ) → state_in w i db.watch_state ≡ rule_in w i db.watch_rules
  pub unique : IsUnique db.watch_rules
  pub powered : (w : ℕ) → battery_in w db.battery_rules ≡ true → has_watch w db.watches ≡ true

abbrev pub IsLinkedAfter : {R : Type 0} → Db × R → Type 0
IsLinkedAfter r = IsLinked r.0

pub has_watch-snoc :
    (w : ℕ) (x : WatchRow) (ws : List WatchRow)
    → has_watch w (ws ++ (x ∷ [])) ≡ (has_watch w ws || x.id == w)
has_watch-snoc w x [] = ground (arith)
has_watch-snoc w x (y ∷ ys) = ground (arith, has_watch-snoc w x ys)

pub rule_in-snoc :
    (w i : ℕ) (r : Rule) (rs : List Rule)
    → rule_in w i (rs ++ (r ∷ [])) ≡ (rule_in w i rs || (r.watch_id == w && r.id == i))
rule_in-snoc w i r [] = ground (arith)
rule_in-snoc w i r (y ∷ ys) = ground (arith, rule_in-snoc w i r ys)

pub state_in-snoc :
    (w i : ℕ) (s : StateRow) (ss : List StateRow)
    → state_in w i (ss ++ (s ∷ [])) ≡ (state_in w i ss || (s.watch_id == w && s.rule_id == i))
state_in-snoc w i s [] = ground (arith)
state_in-snoc w i s (y ∷ ys) = ground (arith, state_in-snoc w i s ys)

pub battery_in-snoc :
    (w : ℕ) (b : BatteryRuleRow) (bs : List BatteryRuleRow)
    → battery_in w (bs ++ (b ∷ [])) ≡ (battery_in w bs || b.watch_id == w)
battery_in-snoc w b [] = ground (arith)
battery_in-snoc w b (y ∷ ys) = ground (arith, battery_in-snoc w b ys)

pub has_watch-remove :
    (x w : ℕ) (ws : List WatchRow)
    → has_watch x (remove_watch w ws) ≡ (has_watch x ws && not (x == w))
unfolding remove_watch
has_watch-remove x w [] = refl
has_watch-remove x w (y ∷ ys) = ground (arith, has_watch-remove x w ys)

pub rule_in-remove_of :
    (x i w : ℕ) (rs : List Rule)
    → rule_in x i (remove_rules_of w rs) ≡ (rule_in x i rs && not (x == w))
unfolding remove_rules_of
rule_in-remove_of x i w [] = refl
rule_in-remove_of x i w (r ∷ rs) = ground (arith, rule_in-remove_of x i w rs)

pub state_in-remove_of :
    (x i w : ℕ) (ss : List StateRow)
    → state_in x i (remove_states_of w ss) ≡ (state_in x i ss && not (x == w))
unfolding remove_states_of
state_in-remove_of x i w [] = refl
state_in-remove_of x i w (s ∷ ss) = ground (arith, state_in-remove_of x i w ss)

pub battery_in-without :
    (x w : ℕ) (bs : List BatteryRuleRow)
    → battery_in x (without_watch w bs) ≡ (battery_in x bs && not (x == w))
unfolding without_watch
battery_in-without x w [] = refl
battery_in-without x w (b ∷ bs) = ground (arith, battery_in-without x w bs)

pub rule_in-remove :
    (x i u j : ℕ) (ws : List WatchRow) (rs : List Rule)
    → rule_in x i (remove_rule u j ws rs) ≡ (rule_in x i rs && not (i == j && owns u x ws))
unfolding remove_rule
rule_in-remove x i u j ws [] = refl
rule_in-remove x i u j ws (r ∷ rs) =
    ground (arith, ==_iff r.watch_id x, ==_iff r.id i, rule_in-remove x i u j ws rs)

-- A rule that the user may change is one of a watch of theirs.
pub has_rule-rule_in :
    (u j : ℕ) (ws : List WatchRow) (rs : List Rule)
    → has_rule u j ws rs ≡ true
    → (w : ℕ) × (rule_in w j rs ≡ true) × (owns u w ws ≡ true)
unfolding has_rule
has_rule-rule_in u j ws [] h = ground (arith, h)
has_rule-rule_in u j ws (r ∷ rs) h = elim (Bool-cases (is_own_rule u j ws r)) [
  | inl e ↦ (r.watch_id, ground (arith, e), ground (arith, e))
  | inr e ↦
      let (w, a, b) = has_rule-rule_in u j ws rs (ground (arith, h, e)) in (w, ground (arith, a), b)
]

pub rule_in-next_id :
    (w i : ℕ) (rs : List Rule) → rule_in w i rs ≡ true → i < next_id (map (λ x. x.id) rs)
rule_in-next_id w i [] h = ground (arith, h)
rule_in-next_id w i (r ∷ rs) h = ground (arith, rule_in-next_id w i rs)

pub state_in-remove :
    (x i j : ℕ) (ss : List StateRow)
    → state_in x i (remove_state_of_rule j ss) ≡ (state_in x i ss && not (i == j))
unfolding remove_state_of_rule
state_in-remove x i j [] = refl
state_in-remove x i j (s ∷ ss) = ground (arith, state_in-remove x i j ss)

pub rule_in-update :
    (x i u : ℕ) (new : Rule) (ws : List WatchRow) (rs : List Rule)
    → rule_in x i (update_rules u new ws rs) ≡ rule_in x i rs
unfolding update_rules
rule_in-update x i u new ws [] = refl
rule_in-update x i u new ws (r ∷ rs) = ground (arith, rule_in-update x i u new ws rs)

pub has_watch-update :
    (f : WatchRow → WatchRow)
    → ((x : WatchRow) → (f x).id ≡ x.id)
    → (x w : ℕ) (ws : List WatchRow) → has_watch x (update_watch f w ws) ≡ has_watch x ws
unfolding update_watch
has_watch-update f h x w [] = refl
has_watch-update f h x w (y ∷ ys) = ground (arith, h y, has_watch-update f h x w ys)

pub battery_in-update :
    (f : BatteryRuleRow → BatteryRuleRow)
    → ((b : BatteryRuleRow) → (f b).watch_id ≡ b.watch_id)
    → (x w : ℕ) (bs : List BatteryRuleRow)
    → battery_in x (update_battery_row f w bs) ≡ battery_in x bs
unfolding update_battery_row
battery_in-update f h x w [] = refl
battery_in-update f h x w (b ∷ bs) = ground (arith, h b, battery_in-update f h x w bs)

pub same_tables :
    (db : Db) (db' : Db)
    → db'.watches ≡ db.watches
    → db'.watch_rules ≡ db.watch_rules
    → db'.watch_state ≡ db.watch_state
    → db'.battery_rules ≡ db.battery_rules
    → IsLinked db
    → IsLinked db'
same_tables db db' a b c d l = record {
  ruled = λ x i e. ground (arith, l.ruled x i, a, b);
  tracked = λ x i. ground (arith, l.tracked x i, b, c);
  unique = subst IsUnique (sym b) l.unique;
  powered = λ x e. ground (arith, l.powered x, a, d);
}
