-- ===== src/Web/Types.antt =====
-- The packet types that a form names: read once each, and sorted.
use hop_react.Common.{
  ℕ, ◌≡◌, ◌∙◌, refl, Bool, true, false, ◌&&◌, ◌||◌, some, Option-cases, inl, inr, List, [], ◌∷◌,
  Text, ◌==◌, ==_iff, ltb, ℤ, pos, negsuc, arith,
}
use hop_react.Web.{contains, known_type, insert_sorted, sort_ints, keep_type, read_types}

unfoldable pub ascending : List ℕ → Bool
ascending [] = true
ascending (n ∷ []) = true
ascending (n ∷ m ∷ ms) = ltb n m && ascending (m ∷ ms)

unfoldable pub all_known : List ℕ → Bool
all_known [] = true
all_known (n ∷ ns) = known_type n && all_known ns

contains-insert :
    (t n : ℕ) (ms : List ℕ) → contains t (insert_sorted n ms) ≡ (n == t || contains t ms)
unfolding contains insert_sorted
contains-insert t n [] = refl
contains-insert t n (m ∷ ms) = ground (arith, contains-insert t n ms)

contains-sort : (t : ℕ) (ns : List ℕ) → contains t (sort_ints ns) ≡ contains t ns
unfolding contains sort_ints
contains-sort t [] = refl
contains-sort t (n ∷ ns) = ground (arith, contains-insert t n (sort_ints ns), contains-sort t ns)

ascending-insert :
    (n : ℕ) (ms : List ℕ)
    → ascending ms ≡ true
    → contains n ms ≡ false
    → ascending (insert_sorted n ms) ≡ true
unfolding ascending contains insert_sorted
ascending-insert n [] a c = refl
ascending-insert n (m ∷ []) a c = ground arith
ascending-insert n (m ∷ k ∷ ms) a c = ground (arith, ascending-insert n (k ∷ ms))

all_known-insert :
    (n : ℕ) (ms : List ℕ) → all_known (insert_sorted n ms) ≡ (known_type n && all_known ms)
unfolding all_known insert_sorted
all_known-insert n [] = refl
all_known-insert n (m ∷ ms) = ground (arith, all_known-insert n ms)

pub all_known-sort : (ns : List ℕ) → all_known (sort_ints ns) ≡ all_known ns
unfolding all_known sort_ints
all_known-sort [] = refl
all_known-sort (n ∷ ns) = ground (arith, all_known-insert n (sort_ints ns), all_known-sort ns)

pub contains_head : (n : ℕ) (ns : List ℕ) → contains n (n ∷ ns) ≡ true
unfolding contains
contains_head n ns = ground (arith, ==_iff n n)

module _ (atoi : Text → ℤ × Bool) (trim_space : Text → Text) where
  kept_type :
      (p : ℤ × Bool) (seen : List ℕ) (n : ℕ)
      → keep_type atoi trim_space p seen ≡ some n
      → (contains n seen ≡ false) × (known_type n ≡ true)
  kept_type (pos m, true) seen n h = ground (arith, h)
  kept_type (pos m, false) seen n h = ground (arith, h)
  kept_type (negsuc m, b) seen n h = ground (arith, h)

  read_types_new :
      (t : ℕ) (vs : List Text) (seen : List ℕ)
      → contains t seen ≡ true
      → contains t (read_types atoi trim_space vs seen) ≡ false
  unfolding read_types contains
  read_types_new t [] seen h = refl
  read_types_new t (v ∷ vs) seen h = elim (Option-cases (keep_type atoi trim_space (atoi v) seen)) [
    | inl e ↦ rw (read_types, e) (read_types_new t vs seen h)
    | inr (n, e) ↦
        let (fresh, _) = kept_type (atoi v) seen n e in
        rw (read_types, e) (ground (arith, fresh, h, ==_iff n t, read_types_new t vs (n ∷ seen)))
  ]

  pub read_types_sound :
      (vs : List Text) (seen : List ℕ)
      → let ns = read_types atoi trim_space vs seen in
        (all_known ns ≡ true) × (ascending (sort_ints ns) ≡ true)
  unfolding read_types all_known sort_ints ascending
  read_types_sound [] seen = (refl, refl)
  read_types_sound (v ∷ vs) seen = elim (Option-cases (keep_type atoi trim_space (atoi v) seen)) [
    | inl e ↦ rw (read_types, e) (read_types_sound vs seen)
    | inr (n, e) ↦
        let (fresh, known) = kept_type (atoi v) seen n e in
        let (k, a) = read_types_sound vs (n ∷ seen) in
        let rest = read_types atoi trim_space vs (n ∷ seen) in
        rw (read_types, e)
          (
            ground (arith, known, k),
            ascending-insert n (sort_ints rest) a
                (contains-sort n rest ∙ read_types_new n vs (n ∷ seen) (contains_head n seen)),
          )
  ]
