-- ===== src/Store/Owner/Limits.antt =====
-- The limits that the Store keeps: on the watches of an account, on the watches of one target by an
-- account, and on the rules of a watch.
pub mod Shrinking
pub mod Added
pub mod Kept
use hop_react.Common.{
  ℕ, ◌≡◌, ◌≤◌, ◌<◌, ◌+◌, refl, Bool, true, false, not, ◌&&◌, ◌||◌, List, [], ◌∷◌, ◌++◌, Text,
  text_eq, text_eq_iff, ◌==◌, ==_iff, if◌then◌else◌, map, length, arith,
}
use hop_react.Models.{Kind, kind_eq, Rule}
use hop_react.Store.Tables.{Db, WatchRow, next_id}
use hop_react.Store.Battery.{update_watch}
use hop_react.Store.Owner.{
  watch_count, is_watching, rule_count, max_rules_per_watch, remove_watch, remove_rules_of,
  remove_rule, update_rules, is_own_rule,
}
use hop_react.Store.Owner.Linked.{has_watch, rule_in}

-- What of a watch no change touches: its id, its account and its target.
abbrev pub Test : Type 0
Test = ℕ → ℕ → Kind → Text → Bool

abbrev pub holds : Test → WatchRow → Bool
holds q w = q w.id w.user_id w.target_kind w.target_key

unfoldable pub count : Test → List WatchRow → ℕ
count q [] = 0
count q (w ∷ ws) = (if holds q w then 1 else 0) + count q ws

abbrev pub same_target : ℕ → Kind → Text → Test
same_target u kind key _ v k t = v == u && (kind_eq k kind && text_eq t key)

abbrev pub same_id : ℕ → Test
same_id w i _ _ _ = i == w

abbrev pub of_user : ℕ → Test
of_user u _ v _ _ = v == u

-- At most `limit` watches of an account, one of a target, one of an id, and 12 rules of a watch.
pub record IsBounded (limit : ℕ) (db : Db) : Type 0 where
  pub within : (u : ℕ) → watch_count u db.watches ≤ limit
  pub once : (u : ℕ) (kind : Kind) (key : Text) → count (same_target u kind key) db.watches ≤ 1
  pub named : (w : ℕ) → count (same_id w) db.watches ≤ 1
  pub few : (w : ℕ) → rule_count w db.watch_rules ≤ max_rules_per_watch

pub count-of_user : (u : ℕ) (ws : List WatchRow) → count (of_user u) ws ≡ watch_count u ws
unfolding count watch_count
count-of_user u [] = refl
count-of_user u (w ∷ ws) = ground (arith, count-of_user u ws)

pub count-is_watching :
    (u : ℕ) (kind : Kind) (key : Text) (ws : List WatchRow)
    → is_watching u kind key ws ≡ false
    → count (same_target u kind key) ws ≡ 0
unfolding count is_watching
count-is_watching u kind key [] h = refl
count-is_watching u kind key (w ∷ ws) h = ground (arith, count-is_watching u kind key ws)

pub has_watch-next_id :
    (w : ℕ) (ws : List WatchRow) → has_watch w ws ≡ true → w < next_id (map (λ x. x.id) ws)
has_watch-next_id w [] h = ground (arith, h)
has_watch-next_id w (x ∷ xs) h = ground (arith, has_watch-next_id w xs)

pub count-has_watch :
    (w : ℕ) (ws : List WatchRow) → has_watch w ws ≡ false → count (same_id w) ws ≡ 0
unfolding count
count-has_watch w [] h = refl
count-has_watch w (x ∷ xs) h = ground (arith, count-has_watch w xs)

pub count-snoc :
    (q : Test) (x : WatchRow) (ws : List WatchRow)
    → count q (ws ++ (x ∷ [])) ≡ count q ws + (if holds q x then 1 else 0)
unfolding count
count-snoc q x [] = ground (arith)
count-snoc q x (w ∷ ws) = ground (arith, count-snoc q x ws)

pub rule_count-snoc :
    (w : ℕ) (r : Rule) (rs : List Rule)
    → rule_count w (rs ++ (r ∷ [])) ≡ rule_count w rs + (if r.watch_id == w then 1 else 0)
unfolding rule_count
rule_count-snoc w r [] = ground (arith)
rule_count-snoc w r (x ∷ xs) = ground (arith, rule_count-snoc w r xs)

pub rule_count-none :
    (w : ℕ) (rs : List Rule) → ((i : ℕ) → rule_in w i rs ≡ false) → rule_count w rs ≡ 0
unfolding rule_count
rule_count-none w [] h = refl
rule_count-none w (r ∷ rs) h =
    ground (arith, h r.id, rule_count-none w rs (λ i. ground (arith, h i)))
