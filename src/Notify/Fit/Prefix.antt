-- ===== src/Notify/Fit/Prefix.antt =====
-- Beginnings of a text, by characters and by lines.
use hop_react.Common.{
  ℕ, zero, suc, ◌≡◌, ◌≢◌, refl, sym, subst, true, false, List, [], ◌∷◌, Text, ◌==◌, take, arith,
  Bool-cases, inl, inr,
}
use hop_react.Notify.Fit.{newline, split_lines, more_lines, join_lines}

abbrev pub IsPrefix : Text → Text → Type 0
IsPrefix [] s = Unit
IsPrefix (c ∷ p) [] = c ≢ c
IsPrefix (c ∷ p) (d ∷ s) = (c ≡ d) × IsPrefix p s

prefix_self : (s : Text) → IsPrefix s s
prefix_self [] = tt
prefix_self (c ∷ s) = (refl, prefix_self s)

pub prefix-take : (k : ℕ) (s : Text) → IsPrefix (take k s) s
prefix-take zero s = tt
prefix-take (suc k) [] = tt
prefix-take (suc k) (c ∷ s) = (refl, prefix-take k s)

-- There is always a line.
pub lines_cases : (s : Text) → (l : Text) × (ls : List Text) × (split_lines s ≡ l ∷ ls)
unfolding split_lines
lines_cases [] = ([], [], refl)
lines_cases (c ∷ s) = elim (Bool-cases (c == newline)) [
  | inl e ↦ ([], split_lines s, ground (arith, e))
  | inr e ↦ let (l, ls, h) = lines_cases s in (c ∷ l, ls, ground (arith, e, h))
]

prefix-more :
    (k : ℕ) (l : Text) (ls : List Text) (s : Text)
    → IsPrefix (join_lines (take k (l ∷ ls))) s
    → IsPrefix (more_lines (take k (l ∷ ls))) (newline ∷ s)
unfolding more_lines
prefix-more zero l ls s h = tt
prefix-more (suc k) l ls s h = (refl, h)

prefix-cons :
    (k c : ℕ) (l : Text) (ls : List Text) (s : Text)
    → IsPrefix (join_lines (take k (l ∷ ls))) s
    → IsPrefix (join_lines (take k ((c ∷ l) ∷ ls))) (c ∷ s)
unfolding more_lines
prefix-cons zero c l ls s h = tt
prefix-cons (suc k) c l ls s h = (refl, h)

prefix_empty : (k : ℕ) → IsPrefix (more_lines (take k [])) []
unfolding more_lines
prefix_empty zero = tt
prefix_empty (suc k) = tt

newline_split :
    (c : ℕ) (s l : Text) (ls : List Text)
    → (c == newline) ≡ true
    → split_lines s ≡ l ∷ ls
    → split_lines (c ∷ s) ≡ [] ∷ l ∷ ls
unfolding split_lines
newline_split c s l ls e h = ground (arith, e, h)

other_split :
    (c : ℕ) (s l : Text) (ls : List Text)
    → (c == newline) ≡ false
    → split_lines s ≡ l ∷ ls
    → split_lines (c ∷ s) ≡ (c ∷ l) ∷ ls
unfolding split_lines
other_split c s l ls e h = ground (arith, e, h)

pub prefix-lines : (k : ℕ) (s : Text) → IsPrefix (join_lines (take k (split_lines s))) s
unfolding split_lines join_lines
prefix-lines zero s = tt
prefix-lines (suc k) [] = prefix_empty k
prefix-lines (suc k) (c ∷ s) =
    let (l, ls, h) = lines_cases s in
    let ih = subst (λ ls'. IsPrefix (join_lines (take k ls')) s) h (prefix-lines k s) in
    let ih' =
      subst (λ ls'. IsPrefix (join_lines (take (suc k) ls')) s) h (prefix-lines (suc k) s) in
    elim (Bool-cases (c == newline)) [
      | inl e ↦
          subst (λ ls'. IsPrefix (join_lines (take (suc k) ls')) (c ∷ s))
            (sym (newline_split c s l ls e h))
            (subst (λ d. IsPrefix (more_lines (take k (l ∷ ls))) (d ∷ s)) (ground (arith, e))
              (prefix-more k l ls s ih))
      | inr e ↦
          subst (λ ls'. IsPrefix (join_lines (take (suc k) ls')) (c ∷ s))
            (sym (other_split c s l ls e h)) (prefix-cons (suc k) c l ls s ih')
    ]
