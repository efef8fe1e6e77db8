-- ===== src/Notify/Fit.antt =====
-- fitContent of internal/notify/notify.go, on texts as lists of code points.
pub mod Prefix
pub mod Limit
use hop_react.Common.{
  ℕ, zero, suc, ◌+◌, ◌-◌, Bool, Option, none, some, List, [], ◌∷◌, ◌++◌, Text, ◌==◌, leb, length,
  take, if◌then◌else◌, codes, decimal,
}

abbrev pub max_content : ℕ
max_content = 2000

abbrev pub newline : ℕ
newline = 10

abbrev pub cons_head : ℕ → List Text → List Text
cons_head c [] = (c ∷ []) ∷ []
cons_head c (l ∷ ls) = (c ∷ l) ∷ ls

-- strings.Split(s, "\n").
unfoldable pub split_lines : Text → List Text
split_lines [] = [] ∷ []
split_lines (c ∷ s) = let ls = split_lines s in if c == newline then [] ∷ ls else cons_head c ls

unfoldable pub more_lines : List Text → Text
more_lines [] = []
more_lines (l ∷ ls) = newline ∷ l ++ more_lines ls

-- strings.Join(lines, "\n").
abbrev pub join_lines : List Text → Text
unfolding more_lines
join_lines [] = []
join_lines (l ∷ ls) = l ++ more_lines ls

abbrev pub note : ℕ → Text
note left = newline ∷ codes "…and " ++ decimal 20 left [] ++ codes " more lines, see the site."

-- The loop over the numbers of lines to keep, from the largest: the first cut that fits.
unfoldable pub cut_lines : List Text → Text → ℕ → Option Text
cut_lines lines tail zero = none
cut_lines lines tail (suc m) =
    let rest = cut_lines lines tail m in
    let cut = join_lines (take (suc m) lines) ++ note (length lines - suc m) in
    if leb (length cut + length tail) max_content then some (cut ++ tail) else rest

abbrev pub cut_text : Text → Text → Text
cut_text body tail = take (max_content - length tail - 1) body ++ codes "…" ++ tail

unfoldable pub fit_content : Text → Text → Text
fit_content body tail =
    let lines = split_lines body in
    if leb (length body + length tail) max_content
    then body ++ tail
    else elim (cut_lines lines tail (length lines - 1)) [
      | some text ↦ text
      | none ↦ cut_text body tail
    ]
