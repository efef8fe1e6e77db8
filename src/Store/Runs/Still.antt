-- ===== src/Store/Runs/Still.antt =====
-- How many polls in a row the feed has stood still.
use hop_react.Common.{
  ℕ, zero, suc, ◌≡◌, refl, ap, ◌∙◌, true, Bool-cases, inl, inr, List, [], ◌∷◌, ◌++◌, All, take,
  if◌then◌else◌, ltb, leb, leb_ℤ, arith,
}
use hop_react.Store.Tables.{Db, PollRunRow}
use hop_react.Store.Runs.{
  is_failed, place, newest_first, judged, count_still, consecutive_non_advancing_polls,
}

-- The rows that started no later.
abbrev pub Before : PollRunRow → List PollRunRow → Type 0
Before row = All (λ (r : PollRunRow). leb_ℤ r.started_at row.started_at ≡ true)

abbrev min : ℕ → ℕ → ℕ
min a b = if leb a b then a else b

place-Before :
    (row r : PollRunRow) (rows : List PollRunRow)
    → leb_ℤ r.started_at row.started_at ≡ true
    → Before row rows
    → Before row (place r rows)
unfolding place
place-Before row r [] h hs = (h, tt)
place-Before row r (x ∷ xs) h hs = ground (arith, place-Before row r xs)

place-newest :
    (row : PollRunRow) (rows : List PollRunRow) → Before row rows → place row rows ≡ row ∷ rows
unfolding place
place-newest row [] h = refl
place-newest row (x ∷ xs) h = ground arith

-- The newest row comes first.
newest_first-snoc :
    (row : PollRunRow) (rows sorted : List PollRunRow)
    → Before row rows
    → Before row sorted
    → newest_first (rows ++ row ∷ []) sorted ≡ row ∷ newest_first rows sorted
unfolding newest_first
newest_first-snoc row [] sorted h s = place-newest row sorted s
newest_first-snoc row (r ∷ rows) sorted h s =
    newest_first-snoc row rows (place r sorted) h.1 (place-Before row r sorted h.0 s)

judged-Before :
    (row : PollRunRow) (rows : List PollRunRow) → Before row rows → Before row (judged rows)
unfolding judged
judged-Before row [] h = tt
judged-Before row (r ∷ rows) h = ground (arith, judged-Before row rows h.1)

judged-snoc :
    (row : PollRunRow) (rows : List PollRunRow)
    → judged (rows ++ row ∷ [])
      ≡ (if is_failed row.status then judged rows else judged rows ++ row ∷ [])
unfolding judged
judged-snoc row [] = ground arith
judged-snoc row (r ∷ rows) = ground (arith, judged-snoc row rows)

count_still-take :
    (n : ℕ) (rows : List PollRunRow) → count_still (take n rows) ≡ min n (count_still rows)
unfolding count_still
count_still-take zero rows = ground arith
count_still-take (suc n) [] = ground arith
count_still-take (suc n) (row ∷ rows) = ground (arith, count_still-take n rows)

-- With a run that started no earlier than the others: a failed one leaves the count of still polls
-- as it was, one that brought anything newer resets it, and any other is one more, up to twenty.
pub consecutive_non_advancing_polls-snoc :
    (row : PollRunRow) (db : Db)
    → Before row db.poll_runs
    → let old = consecutive_non_advancing_polls db in
      consecutive_non_advancing_polls (record db { poll_runs = db.poll_runs ++ row ∷ [] }) ≡ (
        if is_failed row.status
        then old
        else if ltb 0 row.advanced_count
        then 0
        else if ltb old 20
        then suc old
        else 20)
unfolding consecutive_non_advancing_polls count_still
consecutive_non_advancing_polls-snoc row db h =
    let rows = newest_first (judged db.poll_runs) [] in
    elim (Bool-cases (is_failed row.status)) [
      | inl failed ↦
          ap (λ rs. count_still (take 20 (newest_first rs []))) (judged-snoc row db.poll_runs)
          ∙ rw failed
      | inr ok ↦ ground (
        arith,
        ok,
        judged-snoc row db.poll_runs,
        newest_first-snoc row (judged db.poll_runs) [] (judged-Before row db.poll_runs h) tt,
        count_still-take 19 rows,
        count_still-take 20 rows,
      )
    ]
