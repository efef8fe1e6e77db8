-- ===== src/Attribute/Index/Unique.antt =====
-- The index resolves a hop exactly where one node's key has its prefix.
use hop_react.Common.{
  ℕ, suc, ◌≤◌, ◌≡◌, ◌↔◌, refl, ap, ◌∙◌, Bool, true, false, ◌&&◌, none, some, List, [], ◌∷◌, Text,
  text_eq, text_eq_iff, length, take, lookup, lookup-insert, Distinct, insert-Distinct, text_key,
  ◌==◌, if◌then◌else◌, arith, ◌⊎◌, inl, inr, subst,
}
use hop_react.Models.{Observation}
use hop_react.Attribute.Index.{
  Index, Tally, or_zero, or_empty, is_indexed, prefix_hex, tally_key, tally, keep_unique,
  build_index, lookup_hop,
}

-- How the loop sees one prefix: the count, and the key that last claimed it.
abbrev Claim : Type 0
Claim = ℕ × Text

abbrev claim : Text → Tally → Claim
claim p t = (or_zero (lookup p t.count), or_empty (lookup p t.owner))

abbrev pub has_prefix : Text → Observation → Bool
has_prefix p o = is_indexed o && text_eq (take prefix_hex o.key) p

-- The rounds that concern one prefix.
abbrev claim_key : Text → Claim → Claim
claim_key key (n, owner) = if text_eq owner key then (n, owner) else (suc n, key)

claims : Text → List Observation → Claim → Claim
claims p [] c = c
claims p (o ∷ os) c = claims p os (if has_prefix p o then claim_key o.key c else c)

claim-tally_key :
    (p key : Text) (t : Tally)
    → claim p (tally_key key t)
      ≡ (if text_eq (take prefix_hex key) p then claim_key key (claim p t) else claim p t)
unfolding tally_key
claim-tally_key p key t =
    let q = take prefix_hex key in
    ground (
      arith,
      text_eq_iff q p,
      text_eq_iff (or_empty (lookup q t.owner)) key,
      text_eq_iff (or_empty (lookup p t.owner)) key,
      lookup-insert q p (suc (or_zero (lookup q t.count))) t.count,
      lookup-insert q p key t.owner,
    )

claim_round :
    (p : Text) (o : Observation) (t : Tally)
    → claim p (if is_indexed o then tally_key o.key t else t)
      ≡ (if has_prefix p o then claim_key o.key (claim p t) else claim p t)
claim_round p o t = ground (arith, claim-tally_key p o.key t)

claim-tally :
    (p : Text) (os : List Observation) (t : Tally) → claim p (tally os t) ≡ claims p os (claim p t)
unfolding tally claims
claim-tally p [] t = refl
claim-tally p (o ∷ os) t =
    claim-tally p os (if is_indexed o then tally_key o.key t else t)
    ∙ ap (claims p os) (claim_round p o t)

-- Every node whose key has the prefix has this key; and there is one.
abbrev pub Only : Text → Text → List Observation → Type 0
Only p k [] = Unit {0}
Only p k (o ∷ os) = (has_prefix p o ≡ true → o.key ≡ k) × Only p k os

abbrev pub Occurs : Text → Text → List Observation → Type 0
Occurs p k [] = ⊥
Occurs p k (o ∷ os) = ((has_prefix p o ≡ true) × (o.key ≡ k)) ⊎ Occurs p k os

claims_kept :
    (p k : Text) (n : ℕ) (os : List Observation) → Only p k os → claims p os (n, k) ≡ (n, k)
unfolding claims
claims_kept p k n [] h = refl
claims_kept p k n (o ∷ os) h = ground (arith, h.0, text_eq_iff k o.key, claims_kept p k n os h.1)

claims_grow : (p : Text) (os : List Observation) (c : Claim) → c.0 ≤ (claims p os c).0
unfolding claims
claims_grow p [] c = omega arith
claims_grow p (o ∷ os) c = ground (arith, claims_grow p os c, claims_grow p os (suc c.0, o.key))

claims_one :
    (p k : Text) (os : List Observation)
    → (claims p os (1, k)).0 ≡ 1
    → Only p k os × ((claims p os (1, k)).1 ≡ k)
unfolding claims
claims_one p k [] h = (tt, refl)
claims_one p k (o ∷ os) h =
    ground (arith, text_eq_iff k o.key, claims_one p k os, claims_grow p os (2, o.key))

no_empty_key :
    (p key : Text) (o : Observation) → o.key ≡ key → has_prefix p o ≡ true → text_eq [] key ≡ false
unfolding text_eq
no_empty_key p [] o e h = ground (arith, ap length e)
no_empty_key p (c ∷ key) o e h = refl

claims_first :
    (p : Text) (os : List Observation)
    → (claims p os (0, [])).0 ≡ 1
    → Occurs p (claims p os (0, [])).1 os × Only p (claims p os (0, [])).1 os
unfolding claims
claims_first p [] h = absurd (omega arith)
claims_first p (o ∷ os) h =
    ground (arith, no_empty_key p o.key o refl, claims_one p o.key os, claims_first p os)

claims-Only :
    (p k : Text) (os : List Observation)
    → Occurs p k os
    → Only p k os
    → claims p os (0, []) ≡ (1, k)
unfolding claims
claims-Only p k [] a h = absurd a
claims-Only p k (o ∷ os) (inl a) h =
    ground (arith, a, no_empty_key p o.key o refl, claims_kept p k 1 os h.1)
claims-Only p k (o ∷ os) (inr a) h =
    ground
      (arith, no_empty_key p o.key o refl, h.0, claims-Only p k os a h.1, claims_kept p k 1 os h.1)

lookup-keep_unique :
    (p : Text) (count : List (Text × ℕ)) (owner : List (Text × Text))
    → Distinct count
    → lookup p (keep_unique count owner)
      ≡ (if or_zero (lookup p count) == 1 then some (or_empty (lookup p owner)) else none)
unfolding keep_unique lookup
lookup-keep_unique p [] owner d = refl
lookup-keep_unique p ((q, n) ∷ m) owner d =
    ground (arith, text_eq_iff q p, lookup-keep_unique p m owner d.1)

tally_key-Distinct : (key : Text) (t : Tally) → Distinct t.count → Distinct (tally_key key t).count
unfolding tally_key
tally_key-Distinct key t d =
    let q = take prefix_hex key in
    ground (arith, insert-Distinct q (suc (or_zero (lookup q t.count))) t.count d)

tally-Distinct :
    (os : List Observation) (t : Tally) → Distinct t.count → Distinct (tally os t).count
unfolding tally
tally-Distinct [] t d = d
tally-Distinct (o ∷ os) t d =
    tally-Distinct os (if is_indexed o then tally_key o.key t else t)
      (ground (arith, tally_key-Distinct o.key t d))

abbrev empty_tally : Tally
empty_tally = record { count = []; owner = [] }

claim_empty : (p : Text) → claim p empty_tally ≡ (0, [])
unfolding lookup
claim_empty p = refl

lookup-build_index :
    (p : Text) (obs : List Observation)
    → let c = claims p obs (0, []) in
      lookup p (build_index obs).by_prefix ≡ (if c.0 == 1 then some c.1 else none)
unfolding build_index
lookup-build_index p obs = ground (
  arith,
  lookup-keep_unique p (tally obs empty_tally).count (tally obs empty_tally).owner
      (tally-Distinct obs empty_tally tt),
  claim-tally p obs empty_tally,
  ap (claims p obs) (claim_empty p),
)

claims_resolved :
    (p k : Text) (obs : List Observation)
    → lookup p (build_index obs).by_prefix ≡ some k
    → ((claims p obs (0, [])).0 ≡ 1) × ((claims p obs (0, [])).1 ≡ k)
claims_resolved p k obs e = ground (arith, lookup-build_index p obs)

resolved :
    (p k : Text) (obs : List Observation)
    → lookup p (build_index obs).by_prefix ≡ some k
    → Occurs p k obs × Only p k obs
resolved p k obs e =
    let (one, key) = claims_resolved p k obs e in
    subst (λ x. Occurs p x obs × Only p x obs) key (claims_first p obs one)

long_hop :
    (idx : Index) (hop k : Text)
    → lookup_hop idx hop ≡ some k
    → (6 ≤ length hop) × (lookup (take 6 hop) idx.by_prefix ≡ some k)
unfolding lookup_hop
long_hop idx hop k e = ground arith

-- A hop resolves to a key exactly if it has three bytes or more, some node in the snapshot has that
-- key with the hop's first three bytes, and every node whose key begins with them has that key.
pub lookup_hop-build_index :
    (obs : List Observation) (hop k : Text)
    → (lookup_hop (build_index obs) hop ≡ some k)
      ↔ ((6 ≤ length hop) × Occurs (take 6 hop) k obs × Only (take 6 hop) k obs)
unfolding lookup_hop
lookup_hop-build_index obs hop k = (
  λ e.
      let (long, found) = long_hop (build_index obs) hop k e in
      let (some_node, every_node) = resolved (take 6 hop) k obs found in
      (long, some_node, every_node),
  λ h. ground (arith, lookup-build_index (take 6 hop) obs, claims-Only (take 6 hop) k obs h.1 h.2),
)
