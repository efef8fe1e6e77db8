-- ===== src/Attribute/Index.antt =====
-- BuildIndex and Lookup: prefixes of three bytes that belong to one node.
pub mod Unique
use hop_react.Common.{
  ℕ, suc, Bool, true, false, ◌&&◌, Option, none, some, List, [], ◌∷◌, Text, text_eq, length, take,
  lookup, insert, text_key, leb, ◌==◌, if◌then◌else◌,
}
use hop_react.Models.{Observation, kind_eq, node}

abbrev pub prefix_hex : ℕ
prefix_hex = 6

pub record Index : Type 0 where
  pub by_prefix : List (Text × Text)

-- The two maps of the counting loop. A missing count reads as 0, a missing owner as "".
pub record Tally : Type 0 where
  pub count : List (Text × ℕ)
  pub owner : List (Text × Text)

abbrev pub or_zero : Option ℕ → ℕ
or_zero none = 0
or_zero (some n) = n

abbrev pub or_empty : Option Text → Text
or_empty none = []
or_empty (some s) = s

abbrev pub is_indexed : Observation → Bool
is_indexed o = kind_eq o.kind node && leb prefix_hex (length o.key)

-- One round of the loop, for a node with the prefix p.
unfoldable pub tally_key : Text → Tally → Tally
tally_key key t =
    let p = take prefix_hex key in
    if text_eq (or_empty (lookup p t.owner)) key then t else record {
      count = insert p (suc (or_zero (lookup p t.count))) t.count;
      owner = insert p key t.owner;
    }

unfoldable pub tally : List Observation → Tally → Tally
tally [] t = t
tally (o ∷ os) t = tally os (if is_indexed o then tally_key o.key t else t)

-- The second loop keeps the prefixes that were counted once.
unfoldable pub keep_unique : List (Text × ℕ) → List (Text × Text) → List (Text × Text)
keep_unique [] owner = []
keep_unique ((p, n) ∷ m) owner =
    let rest = keep_unique m owner in if n == 1 then (p, or_empty (lookup p owner)) ∷ rest else rest

unfoldable pub build_index : List Observation → Index
build_index obs =
    let t = tally obs (record { count = []; owner = [] }) in
    record { by_prefix = keep_unique t.count t.owner }

unfoldable pub lookup_hop : Index → Text → Option Text
lookup_hop idx hop =
    if leb prefix_hex (length hop) then lookup (take prefix_hex hop) idx.by_prefix else none
