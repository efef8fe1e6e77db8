-- ===== src/Store/Owner/Others/Always.antt =====
-- What other accounts do, call after call.
use hop_react.Common.{ℕ, ◌≢◌, List, [], ◌∷◌, All}
use hop_react.Store.Tables.{Db}
use hop_react.Store.Owner.Linked.{IsLinked}
use hop_react.Store.Owner.Acts.{Act, act, acts, act-IsLinked}
use hop_react.Store.Owner.Limits.{IsBounded}
use hop_react.Store.Owner.Limits.Kept.{Obeys, act-IsBounded}
use hop_react.Store.Owner.Others.{Leaves}
use hop_react.Store.Owner.Others.Isolation.{Leaves-refl, Leaves-trans}
use hop_react.Store.Owner.Others.Alone.{actor, act-Leaves}

-- Whatever other accounts do, in any order and with any results, in a database that is linked and
-- within the limits, an account's watches stay as they were, with their rules, states and battery
-- rules.
pub acts-Leaves :
    (done : List Act) (v limit : ℕ) (db : Db)
    → All (λ a. actor a ≢ v) done
    → All (Obeys limit) done
    → IsLinked db
    → IsBounded limit db
    → Leaves v db (acts done db)
unfolding acts
acts-Leaves [] v limit db n o l b = Leaves-refl v db
acts-Leaves (a ∷ rest) v limit db n o l b =
    Leaves-trans v db (act a db) (acts rest (act a db)) (act-Leaves a v db n.0 l b.named) (
      acts-Leaves rest v limit (act a db) n.1 o.1 (act-IsLinked a db l)
        (act-IsBounded a limit db o.0 l b))
