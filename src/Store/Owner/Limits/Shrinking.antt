-- ===== src/Store/Owner/Limits/Shrinking.antt =====
-- The changes that add neither a watch nor a rule.
use hop_react.Common.{ℕ, ◌≡◌, ◌≤◌, refl, List, [], ◌∷◌, ◌==◌, if◌then◌else◌, if_cases, arith}
use hop_react.Models.{Rule}
use hop_react.Store.Tables.{Db, WatchRow}
use hop_react.Store.Battery.{update_watch}
use hop_react.Store.Accounts.{cascade_watches}
use hop_react.Store.Owner.{
  rule_count, remove_watch, remove_rules_of, remove_rule, update_rules, cascade_watch,
}
use hop_react.Store.Owner.Limits.{Test, holds, count}

pub record Shrinks (db db' : Db) : Type 0 where
  pub watches : (q : Test) → count q db'.watches ≤ count q db.watches
  pub rules : (w : ℕ) → rule_count w db'.watch_rules ≤ rule_count w db.watch_rules

abbrev pub ShrinksAfter : {R : Type 0} → Db → Db × R → Type 0
ShrinksAfter db r = Shrinks db r.0

pub Shrinks-refl : (db : Db) → Shrinks db db
Shrinks-refl db = record { watches = λ q. omega arith; rules = λ w. omega arith }

pub Shrinks-trans : (a b c : Db) → Shrinks a b → Shrinks b c → Shrinks a c
Shrinks-trans a b c s t = record {
  watches = λ q. ground (arith, s.watches q, t.watches q);
  rules = λ w. ground (arith, s.rules w, t.rules w);
}

pub Shrinks-same :
    (db db' : Db) → db'.watches ≡ db.watches → db'.watch_rules ≡ db.watch_rules → Shrinks db db'
Shrinks-same db db' a b = record {
  watches = λ q. ground (arith, a);
  rules = λ w. ground (arith, b);
}

count-update :
    (q : Test) (f : WatchRow → WatchRow)
    → ((x : WatchRow) → holds q (f x) ≡ holds q x)
    → (w : ℕ) (ws : List WatchRow) → count q (update_watch f w ws) ≡ count q ws
unfolding count update_watch
count-update q f h w [] = refl
count-update q f h w (x ∷ xs) = ground (arith, h x, count-update q f h w xs)

pub update_watch-Shrinks :
    (f : WatchRow → WatchRow)
    → ((q : Test) (x : WatchRow) → holds q (f x) ≡ holds q x)
    → (w : ℕ) (db db' : Db) → db'.watches ≡ update_watch f w db.watches
    → db'.watch_rules ≡ db.watch_rules
    → Shrinks db db'
update_watch-Shrinks f h w db db' a b = record {
  watches = λ q. ground (arith, a, count-update q f (h q) w db.watches);
  rules = λ x. ground (arith, b);
}

count-remove : (q : Test) (w : ℕ) (ws : List WatchRow) → count q (remove_watch w ws) ≤ count q ws
unfolding count remove_watch
count-remove q w [] = omega arith
count-remove q w (x ∷ xs) = ground (arith, count-remove q w xs)

rule_count-remove_of :
    (x w : ℕ) (rs : List Rule) → rule_count x (remove_rules_of w rs) ≤ rule_count x rs
unfolding rule_count remove_rules_of
rule_count-remove_of x w [] = omega arith
rule_count-remove_of x w (r ∷ rs) = ground (arith, rule_count-remove_of x w rs)

pub cascade_watch-Shrinks : (w : ℕ) (db : Db) → Shrinks db (cascade_watch w db)
unfolding cascade_watch
cascade_watch-Shrinks w db = record {
  watches = λ q. count-remove q w db.watches;
  rules = λ x. rule_count-remove_of x w db.watch_rules;
}

pub rule_count-remove :
    (x u i : ℕ) (ws : List WatchRow) (rs : List Rule)
    → rule_count x (remove_rule u i ws rs) ≤ rule_count x rs
unfolding rule_count remove_rule
rule_count-remove x u i ws [] = omega arith
rule_count-remove x u i ws (r ∷ rs) = ground (arith, rule_count-remove x u i ws rs)

pub rule_count-update :
    (x u : ℕ) (new : Rule) (ws : List WatchRow) (rs : List Rule)
    → rule_count x (update_rules u new ws rs) ≡ rule_count x rs
unfolding rule_count update_rules
rule_count-update x u new ws [] = refl
rule_count-update x u new ws (r ∷ rs) = ground (arith, rule_count-update x u new ws rs)

pub cascade_watches-Shrinks :
    (u : ℕ) (ws : List WatchRow) (db : Db) → Shrinks db (cascade_watches u ws db)
unfolding cascade_watches
cascade_watches-Shrinks u [] db = Shrinks-refl db
cascade_watches-Shrinks u (w ∷ ws) db =
    let next = if w.user_id == u then cascade_watch w.id db else db in
    Shrinks-trans db next (cascade_watches u ws next)
      (if_cases (Shrinks db) (w.user_id == u) (λ _. cascade_watch-Shrinks w.id db)
        (λ _. Shrinks-refl db))
      (cascade_watches-Shrinks u ws next)
