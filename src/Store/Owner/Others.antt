-- ===== src/Store/Owner/Others.antt =====
-- What an owner does is nothing to anybody else.
pub mod Isolation
pub mod Alone
pub mod Always
use hop_react.Common.{
  ℕ, ◌≡◌, ◌≢◌, ◌≤◌, ◌+◌, refl, ◌∙◌, ap, Bool, true, false, not, ◌&&◌, ◌||◌, List, [], ◌∷◌, ◌++◌,
  Text, ◌==◌, ==_iff, if◌then◌else◌, if_cases, Option-cases, inl, inr, some, leb, ltb, arith,
}
use hop_react.Clock.{Time}
use hop_react.Models.{Kind, Rule, Watch}
use hop_react.Store.Tables.{Db, WatchRow, StateRow, BatteryRuleRow, next_id}
use hop_react.Store.Battery.{update_watch, insert_battery_rule}
use hop_react.Store.Battery.Owner.{owns, without_watch, update_battery_row}
use hop_react.Store.Owner.{
  remove_watch, remove_rules_of, remove_states_of, remove_rule, remove_state_of_rule, update_rules,
  is_own_rule, watch_owned, cascade_watch,
}
use hop_react.Store.Owner.Limits.{count, same_id}
use hop_react.Store.Owner.Linked.{rule_in, state_in}

-- The rows of a watch, and the watches of an account.
unfoldable pub rules_of : ℕ → List Rule → List Rule
rules_of w [] = []
rules_of w (r ∷ rs) = let rest = rules_of w rs in if r.watch_id == w then r ∷ rest else rest

unfoldable pub states_of : ℕ → List StateRow → List StateRow
states_of w [] = []
states_of w (s ∷ ss) = let rest = states_of w ss in if s.watch_id == w then s ∷ rest else rest

unfoldable pub batteries_of : ℕ → List BatteryRuleRow → List BatteryRuleRow
batteries_of w [] = []
batteries_of w (b ∷ bs) = let rest = batteries_of w bs in if b.watch_id == w then b ∷ rest else rest

unfoldable pub watches_of : ℕ → List WatchRow → List WatchRow
watches_of u [] = []
watches_of u (w ∷ ws) = let rest = watches_of u ws in if w.user_id == u then w ∷ rest else rest

-- Nothing that belongs to the account has changed: neither its watches nor what hangs on them.
pub record Leaves (v : ℕ) (db db' : Db) : Type 0 where
  pub watches : watches_of v db'.watches ≡ watches_of v db.watches
  pub rules :
      (w : ℕ) → owns v w db.watches ≡ true → rules_of w db'.watch_rules ≡ rules_of w db.watch_rules
  pub states :
      (w : ℕ)
      → owns v w db.watches ≡ true
      → states_of w db'.watch_state ≡ states_of w db.watch_state
  pub batteries :
      (w : ℕ)
      → owns v w db.watches ≡ true
      → batteries_of w db'.battery_rules ≡ batteries_of w db.battery_rules

-- With ids that no two watches share, a watch has one owner.
count-owns : (u w : ℕ) (ws : List WatchRow) → owns u w ws ≡ true → 1 ≤ count (same_id w) ws
unfolding owns count
count-owns u w [] h = ground (arith, h)
count-owns u w (x ∷ xs) h = ground (arith, count-owns u w xs)

pub owns_one :
    (u v w : ℕ) (ws : List WatchRow)
    → count (same_id w) ws ≤ 1
    → owns u w ws ≡ true
    → owns v w ws ≡ true
    → u ≡ v
unfolding owns count
owns_one u v w [] c a b = ground (arith, a)
owns_one u v w (x ∷ xs) c a b =
    ground (arith, owns_one u v w xs, count-owns u w xs, count-owns v w xs)

pub owns-watches_of : (v w : ℕ) (ws : List WatchRow) → owns v w (watches_of v ws) ≡ owns v w ws
unfolding owns watches_of
owns-watches_of v w [] = refl
owns-watches_of v w (x ∷ xs) = ground (arith, owns-watches_of v w xs)

pub watches_of-update :
    (f : WatchRow → WatchRow)
    → ((x : WatchRow) → (f x).user_id ≡ x.user_id)
    → (v w : ℕ) (ws : List WatchRow) → owns v w ws ≡ false
    → watches_of v (update_watch f w ws) ≡ watches_of v ws
unfolding watches_of update_watch owns
watches_of-update f h v w [] o = refl
watches_of-update f h v w (x ∷ xs) o = ground (arith, h x, watches_of-update f h v w xs)

pub watches_of-remove :
    (v w : ℕ) (ws : List WatchRow)
    → owns v w ws ≡ false
    → watches_of v (remove_watch w ws) ≡ watches_of v ws
unfolding watches_of remove_watch owns
watches_of-remove v w [] o = refl
watches_of-remove v w (x ∷ xs) o = ground (arith, watches_of-remove v w xs)

pub watches_of-snoc :
    (v : ℕ) (x : WatchRow) (ws : List WatchRow)
    → x.user_id ≢ v
    → watches_of v (ws ++ (x ∷ [])) ≡ watches_of v ws
unfolding watches_of
watches_of-snoc v x [] n = ground (arith)
watches_of-snoc v x (y ∷ ys) n = ground (arith, watches_of-snoc v x ys n)

pub rules_of-remove_of :
    (x w : ℕ) (rs : List Rule) → x ≢ w → rules_of x (remove_rules_of w rs) ≡ rules_of x rs
unfolding rules_of remove_rules_of
rules_of-remove_of x w [] n = refl
rules_of-remove_of x w (r ∷ rs) n = ground (arith, rules_of-remove_of x w rs n)

pub states_of-remove_of :
    (x w : ℕ) (ss : List StateRow) → x ≢ w → states_of x (remove_states_of w ss) ≡ states_of x ss
unfolding states_of remove_states_of
states_of-remove_of x w [] n = refl
states_of-remove_of x w (s ∷ ss) n = ground (arith, states_of-remove_of x w ss n)

pub batteries_of-without :
    (x w : ℕ) (bs : List BatteryRuleRow)
    → x ≢ w
    → batteries_of x (without_watch w bs) ≡ batteries_of x bs
unfolding batteries_of without_watch
batteries_of-without x w [] n = refl
batteries_of-without x w (b ∷ bs) n = ground (arith, batteries_of-without x w bs n)

pub batteries_of-update :
    (f : BatteryRuleRow → BatteryRuleRow)
    → ((b : BatteryRuleRow) → (f b).watch_id ≡ b.watch_id)
    → (x w : ℕ) (bs : List BatteryRuleRow) → x ≢ w
    → batteries_of x (update_battery_row f w bs) ≡ batteries_of x bs
unfolding batteries_of update_battery_row
batteries_of-update f h x w [] n = refl
batteries_of-update f h x w (b ∷ bs) n = ground (arith, h b, batteries_of-update f h x w bs n)

pub rules_of-snoc :
    (w : ℕ) (r : Rule) (rs : List Rule)
    → r.watch_id ≢ w
    → rules_of w (rs ++ (r ∷ [])) ≡ rules_of w rs
unfolding rules_of
rules_of-snoc w r [] n = ground (arith)
rules_of-snoc w r (x ∷ xs) n = ground (arith, rules_of-snoc w r xs n)

pub states_of-snoc :
    (w : ℕ) (s : StateRow) (ss : List StateRow)
    → s.watch_id ≢ w
    → states_of w (ss ++ (s ∷ [])) ≡ states_of w ss
unfolding states_of
states_of-snoc w s [] n = ground (arith)
states_of-snoc w s (x ∷ xs) n = ground (arith, states_of-snoc w s xs n)

pub batteries_of-snoc :
    (w : ℕ) (b : BatteryRuleRow) (bs : List BatteryRuleRow)
    → b.watch_id ≢ w
    → batteries_of w (bs ++ (b ∷ [])) ≡ batteries_of w bs
unfolding batteries_of
batteries_of-snoc w b [] n = ground (arith)
batteries_of-snoc w b (x ∷ xs) n = ground (arith, batteries_of-snoc w b xs n)

pub rules_of-update :
    (x u : ℕ) (new : Rule) (ws : List WatchRow) (rs : List Rule)
    → owns u x ws ≡ false
    → rules_of x (update_rules u new ws rs) ≡ rules_of x rs
unfolding rules_of update_rules
rules_of-update x u new ws [] o = refl
rules_of-update x u new ws (r ∷ rs) o =
    ground (arith, ==_iff r.watch_id x, rules_of-update x u new ws rs o)

pub rules_of-remove :
    (x u i : ℕ) (ws : List WatchRow) (rs : List Rule)
    → owns u x ws ≡ false
    → rules_of x (remove_rule u i ws rs) ≡ rules_of x rs
unfolding rules_of remove_rule
rules_of-remove x u i ws [] o = refl
rules_of-remove x u i ws (r ∷ rs) o =
    ground (arith, ==_iff r.watch_id x, rules_of-remove x u i ws rs o)

-- The states of a watch that has no rule of that id stay.
pub states_of-remove :
    (x i : ℕ) (ss : List StateRow)
    → state_in x i ss ≡ false
    → states_of x (remove_state_of_rule i ss) ≡ states_of x ss
unfolding states_of remove_state_of_rule
states_of-remove x i [] o = refl
states_of-remove x i (s ∷ ss) o = ground (arith, states_of-remove x i ss)
