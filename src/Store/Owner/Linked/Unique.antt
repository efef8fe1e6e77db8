-- ===== src/Store/Owner/Linked/Unique.antt =====
-- The ids of the rules.
use hop_react.Common.{
  ℕ, ◌≡◌, ◌<◌, refl, true, false, List, [], ◌∷◌, ◌++◌, ◌||◌, ◌==◌, ==_iff, map, arith,
}
use hop_react.Models.{Rule}
use hop_react.Store.Tables.{WatchRow, next_id}
use hop_react.Store.Owner.{remove_rules_of, remove_rule, update_rules}
use hop_react.Store.Owner.Linked.{rule_in, has_id, IsUnique}

rule_in-has_id : (w i : ℕ) (rs : List Rule) → rule_in w i rs ≡ true → has_id i rs ≡ true
rule_in-has_id w i [] h = ground (arith, h)
rule_in-has_id w i (r ∷ rs) h = ground (arith, rule_in-has_id w i rs)

-- One id is one rule, so of one watch.
pub one_watch :
    (v w i : ℕ) (rs : List Rule)
    → IsUnique rs
    → rule_in v i rs ≡ true
    → rule_in w i rs ≡ true
    → v ≡ w
one_watch v w i [] u a b = ground (arith, a)
one_watch v w i (r ∷ rs) u a b = ground (
  arith,
  one_watch v w i rs,
  rule_in-has_id v i rs,
  rule_in-has_id w i rs,
  ==_iff r.watch_id v,
  ==_iff r.watch_id w,
  ==_iff r.id i,
)

has_id-snoc :
    (i : ℕ) (r : Rule) (rs : List Rule) → has_id i (rs ++ r ∷ []) ≡ (has_id i rs || r.id == i)
has_id-snoc i r [] = ground arith
has_id-snoc i r (x ∷ xs) = ground (arith, has_id-snoc i r xs)

has_id-lt-next_id : (i : ℕ) (rs : List Rule) → has_id i rs ≡ true → i < next_id (map (λ x. x.id) rs)
has_id-lt-next_id i [] h = ground (arith, h)
has_id-lt-next_id i (r ∷ rs) h = ground (arith, has_id-lt-next_id i rs)

IsUnique-snoc :
    (r : Rule) (rs : List Rule) → has_id r.id rs ≡ false → IsUnique rs → IsUnique (rs ++ r ∷ [])
IsUnique-snoc r [] h u = (refl, tt)
IsUnique-snoc r (x ∷ xs) h u =
    (ground (arith, has_id-snoc x.id r xs), IsUnique-snoc r xs (ground arith) u.1)

-- The id that a new rule gets is nobody's.
pub IsUnique-next_id :
    (r : Rule) (rs : List Rule)
    → r.id ≡ next_id (map (λ x. x.id) rs)
    → IsUnique rs
    → IsUnique (rs ++ r ∷ [])
IsUnique-next_id r rs e u = IsUnique-snoc r rs (ground (arith, has_id-lt-next_id r.id rs)) u

has_id-remove_of :
    (i w : ℕ) (rs : List Rule) → has_id i rs ≡ false → has_id i (remove_rules_of w rs) ≡ false
unfolding remove_rules_of
has_id-remove_of i w [] h = refl
has_id-remove_of i w (r ∷ rs) h = ground (arith, has_id-remove_of i w rs)

pub remove_rules_of-IsUnique :
    (w : ℕ) (rs : List Rule) → IsUnique rs → IsUnique (remove_rules_of w rs)
unfolding remove_rules_of
remove_rules_of-IsUnique w [] u = tt
remove_rules_of-IsUnique w (r ∷ rs) u =
    ground (arith, remove_rules_of-IsUnique w rs, has_id-remove_of r.id w rs)

has_id-remove :
    (i u j : ℕ) (ws : List WatchRow) (rs : List Rule)
    → has_id i rs ≡ false
    → has_id i (remove_rule u j ws rs) ≡ false
unfolding remove_rule
has_id-remove i u j ws [] h = refl
has_id-remove i u j ws (r ∷ rs) h = ground (arith, has_id-remove i u j ws rs)

pub remove_rule-IsUnique :
    (u j : ℕ) (ws : List WatchRow) (rs : List Rule) → IsUnique rs → IsUnique (remove_rule u j ws rs)
unfolding remove_rule
remove_rule-IsUnique u j ws [] q = tt
remove_rule-IsUnique u j ws (r ∷ rs) q =
    ground (arith, remove_rule-IsUnique u j ws rs, has_id-remove r.id u j ws rs)

has_id-update :
    (i u : ℕ) (new : Rule) (ws : List WatchRow) (rs : List Rule)
    → has_id i (update_rules u new ws rs) ≡ has_id i rs
unfolding update_rules
has_id-update i u new ws [] = refl
has_id-update i u new ws (r ∷ rs) = ground (arith, has_id-update i u new ws rs)

pub update_rules-IsUnique :
    (u : ℕ) (new : Rule) (ws : List WatchRow) (rs : List Rule)
    → IsUnique rs
    → IsUnique (update_rules u new ws rs)
unfolding update_rules
update_rules-IsUnique u new ws [] q = tt
update_rules-IsUnique u new ws (r ∷ rs) q =
    ground (arith, update_rules-IsUnique u new ws rs q.1, has_id-update r.id u new ws rs)
