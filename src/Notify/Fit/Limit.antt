-- ===== src/Notify/Fit/Limit.antt =====
-- The length and the parts of a fitted message.
use hop_react.Common.{
  ℕ, zero, suc, ◌+◌, ◌-◌, ◌≤◌, ◌<◌, ◌≡◌, refl, sym, ap, ◌∙◌, subst, Bool, none, some, Option,
  if◌then◌else◌, [], ◌∷◌, ◌++◌, Text, ◌==◌, ==_iff, leb, length, take, length-append, arith, codes,
  Bool-cases, inl, inr,
}
use hop_react.Notify.Fit.{
  max_content, split_lines, join_lines, note, cut_lines, cut_text, fit_content,
}
use hop_react.Notify.Fit.Prefix.{IsPrefix, prefix-take, lines_cases, prefix-lines}

-- The message that keeps n whole lines of the body and says how many it leaves out.
unfoldable pub with_lines : Text → Text → ℕ → Text
with_lines body tail n =
    (join_lines (take n (split_lines body)) ++ note (length (split_lines body) - n)) ++ tail

-- Longer than a message may be.
abbrev pub Overflows : Text → Type 0
Overflows text = max_content < length text

-- No number of lines from m on, short of all of them, makes a message that fits.
abbrev pub NoneFrom : Text → Text → ℕ → Type 0
NoneFrom body tail m =
    (k : ℕ) → m ≤ k → k < length (split_lines body) → Overflows (with_lines body tail k)

-- What a fitted message is.
pub data IsFit (body tail text : Text) : Type 0 where
  whole : text ≡ body ++ tail → length text ≤ max_content → IsFit body tail text
  lines :
      (n : ℕ)
      → Overflows (body ++ tail)
      → 0 < n
      → n < length (split_lines body)
      → NoneFrom body tail (suc n)
      → IsPrefix (join_lines (take n (split_lines body))) body
      → text ≡ with_lines body tail n
      → length text ≤ max_content
      → IsFit body tail text
  characters :
      (kept : Text)
      → Overflows (body ++ tail)
      → NoneFrom body tail 1
      → IsPrefix kept body
      → text ≡ kept ++ codes "…" ++ tail
      → length text ≡ max_content
      → IsFit body tail text

length-take_long : (k : ℕ) (s : Text) → k ≤ length s → length (take k s) ≡ k
length-take_long zero s h = refl
length-take_long (suc k) [] h = omega arith
length-take_long (suc k) (c ∷ s) h = ground (arith, length-take_long k s)

NoneFrom-pred :
    (body tail : Text) (m : ℕ)
    → Overflows (with_lines body tail m)
    → NoneFrom body tail (suc m)
    → NoneFrom body tail m
NoneFrom-pred body tail m h above k below short =
    let over : k ≡ m → Overflows (with_lines body tail k) =
      λ e. subst (λ n. Overflows (with_lines body tail n)) (sym e) h in
    elim (Bool-cases (k == m)) [
      | inl e ↦ over ((==_iff k m).0 e)
      | inr e ↦ above k (ground (arith, e)) short
    ]

-- What the loop over the numbers of lines comes to.
Cut : Text → Text → Option Text → Type 0
Cut body tail none = NoneFrom body tail 1
Cut body tail (some text) =
    (n : ℕ) × (0 < n)
    × (n < length (split_lines body))
    × NoneFrom body tail (suc n)
    × (text ≡ with_lines body tail n)
    × (length text ≤ max_content)

-- The test of the loop.
fits_lines : Text → Text → ℕ → Bool
fits_lines body tail n =
    let lines = split_lines body in
    leb (length (join_lines (take n lines) ++ note (length lines - n)) + length tail) max_content

length-with_lines :
    (body tail : Text) (n : ℕ)
    → fits_lines body tail n ≡ leb (length (with_lines body tail n)) max_content
unfolding fits_lines with_lines
length-with_lines body tail n =
    let lines = split_lines body in
    ap (λ l. leb l max_content)
      (sym (length-append (join_lines (take n lines) ++ note (length lines - n)) tail))

cut_lines-step :
    (body tail : Text) (m : ℕ)
    → cut_lines (split_lines body) tail (suc m) ≡ (
        if leb (length (with_lines body tail (suc m))) max_content
        then some (with_lines body tail (suc m))
        else cut_lines (split_lines body) tail m)
unfolding cut_lines with_lines fits_lines
cut_lines-step body tail m =
    ap (λ b. if b then some (with_lines body tail (suc m)) else cut_lines (split_lines body) tail m)
      (length-with_lines body tail (suc m))

cut_lines-Cut :
    (body tail : Text) (m : ℕ)
    → m < length (split_lines body)
    → NoneFrom body tail (suc m)
    → Cut body tail (cut_lines (split_lines body) tail m)
unfolding Cut
cut_lines-Cut body tail zero h above = unfold cut_lines in above
cut_lines-Cut body tail (suc m) h above =
    let text = with_lines body tail (suc m) in
    elim (Bool-cases (leb (length text) max_content)) [
      | inl e ↦
          rw (cut_lines-step body tail m, e) (suc m, omega arith, h, above, refl, ground (arith, e))
      | inr e ↦
          rw (cut_lines-step body tail m, e)
            (cut_lines-Cut body tail m (omega arith)
              (NoneFrom-pred body tail (suc m) (ground (arith, e)) above))
    ]

length-cut_text :
    (body tail : Text)
    → length tail < max_content
    → Overflows (body ++ tail)
    → length (cut_text body tail) ≡ max_content
length-cut_text body tail h over =
    let keep = max_content - length tail - 1 in
    let kept = take keep body in
    length-append (kept ++ codes "…") tail
    ∙ omega (
      arith,
      length-append kept (codes "…"),
      length-append body tail,
      length-take_long keep body,
      h,
      over,
    )

cut_IsFit :
    (body tail : Text) (cut : Option Text)
    → length tail < max_content
    → Overflows (body ++ tail)
    → Cut body tail cut
    → IsFit body tail (elim cut [ some text ↦ text | none ↦ cut_text body tail ])
unfolding Cut
cut_IsFit body tail none h over c =
    let keep = max_content - length tail - 1 in
    IsFit.characters (take keep body) over c (prefix-take keep body) refl
      (length-cut_text body tail h over)
cut_IsFit body tail (some text) h over (n, pos, short, above, same, fits) =
    IsFit.lines n over pos short above (prefix-lines n body) same fits

-- Where the tail is shorter than the limit of 2000 characters: if the body and the tail fit, the
-- message is just these. If not, it is a beginning of the body, of as many whole lines as leave
-- room for saying how many lines are left out, that note, and the tail; and where not even one line
-- leaves room, it is a beginning of the body, an ellipsis and the tail, 2000 characters together.
pub fit_content-IsFit :
    (body tail : Text) → length tail < max_content → IsFit body tail (fit_content body tail)
unfolding fit_content
fit_content-IsFit body tail h =
    let last = length (split_lines body) - 1 in
    elim (Bool-cases (leb (length body + length tail) max_content)) [
      | inl e ↦ rw e (IsFit.whole refl (ground (arith, e, length-append body tail)))
      | inr e ↦ rw e (
          cut_IsFit body tail (cut_lines (split_lines body) tail last) h
            (ground (arith, e, length-append body tail))
            (cut_lines-Cut body tail last (omega (arith, ap length (lines_cases body).2))
              (λ k above below. absurd (omega arith))))
    ]
