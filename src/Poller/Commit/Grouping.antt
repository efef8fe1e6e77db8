-- ===== src/Poller/Commit/Grouping.antt =====
-- How a poll's transitions become messages.
use mathlib.Core.List.{append-nil, append_assoc}
use hop_react.Common.{
  ℕ, ◌≡◌, ◌≢◌, ◌↔◌, inl, inr, refl, sym, Bool, ◌&&◌, Option, none, some, List, [], ◌∷◌, ◌++◌,
  if◌then◌else◌, arith, lookup, lookup-insert, Distinct, insert-Distinct, Option-cases,
}
use hop_react.Clock.{Time}
use hop_react.Store.Tables.{Db, RuleTrip, AlertPayload}
use hop_react.Poller.Plan.{Snapshot, Planned}
use hop_react.Poller.Commit.{
  MsgKey, msg_key, key_eq, key_eq_iff, key_of, trip, new_message, or_new, Messages, add_trip,
  commit_one, commit_all,
}

-- The transition sends something, under the key.
abbrev pub tells : MsgKey → Planned → Bool
tells k pl = pl.out.changed && pl.out.notify && key_eq (key_of pl) k

-- The trips that the plan has for a key, in order.
unfoldable pub trips : MsgKey → List Planned → List RuleTrip
trips k [] = []
trips k (pl ∷ ps) = let rest = trips k ps in if tells k pl then trip pl ∷ rest else rest

abbrev pub rules_of : Option AlertPayload → List RuleTrip
rules_of none = []
rules_of (some m) = m.rules

module _ (stamp : Time) (snap : Snapshot) (run : ℕ) where
  one_trip :
      (old db : Db) (pl : Planned) (msgs : Messages) (k : MsgKey)
      → rules_of (lookup k (commit_one stamp snap run old pl (db, msgs)).1)
        ≡ rules_of (lookup k msgs) ++ trips k (pl ∷ [])
  unfolding commit_one add_trip trips
  one_trip old db pl msgs k =
      let m = or_new (new_message snap pl) (lookup (key_of pl) msgs) in
      ground (
        arith,
        key_eq_iff (key_of pl) k,
        lookup-insert (key_of pl) k (record m { rules = m.rules ++ trip pl ∷ [] }) msgs,
        append-nil (rules_of (lookup k msgs)),
      )

  all_trips :
      (old : Db) (ps : List Planned) (acc : Db × Messages) (k : MsgKey)
      → rules_of (lookup k (commit_all stamp snap run old ps acc).1)
        ≡ rules_of (lookup k acc.1) ++ trips k ps
  unfolding commit_all trips
  all_trips old [] acc k = sym (append-nil (rules_of (lookup k acc.1)))
  all_trips old (pl ∷ ps) (db, msgs) k = ground (
    arith,
    all_trips old ps (commit_one stamp snap run old pl (db, msgs)) k,
    one_trip old db pl msgs k,
    append_assoc (rules_of (lookup k msgs)) (trip pl ∷ []) (trips k ps),
    append-nil (rules_of (lookup k msgs)),
  )

  -- Every message lists a trip.
  abbrev Full : MsgKey → Messages → Type 0
  Full k msgs = (lookup k msgs ≢ none) → (rules_of (lookup k msgs) ≢ [])

  append_ne-nil {ℓ} : {A : Type ℓ} (xs : List A) (y : A) → xs ++ y ∷ [] ≢ []
  append_ne-nil [] y = λ e. ground arith
  append_ne-nil (x ∷ xs) y = λ e. ground arith

  one_Full :
      (old db : Db) (pl : Planned) (msgs : Messages) (k : MsgKey)
      → Full k msgs
      → Full k (commit_one stamp snap run old pl (db, msgs)).1
  unfolding commit_one add_trip
  one_Full old db pl msgs k f h =
      let m = or_new (new_message snap pl) (lookup (key_of pl) msgs) in
      ground (
        arith,
        key_eq_iff (key_of pl) k,
        lookup-insert (key_of pl) k (record m { rules = m.rules ++ trip pl ∷ [] }) msgs,
        append_ne-nil m.rules (trip pl),
      )

  all_Full :
      (old : Db) (ps : List Planned) (acc : Db × Messages) (k : MsgKey)
      → Full k acc.1
      → Full k (commit_all stamp snap run old ps acc).1
  unfolding commit_all
  all_Full old [] acc k f = f
  all_Full old (pl ∷ ps) (db, msgs) k f =
      all_Full old ps (commit_one stamp snap run old pl (db, msgs)) k (one_Full old db pl msgs k f)

  one-Distinct :
      (old db : Db) (pl : Planned) (msgs : Messages)
      → Distinct msgs
      → Distinct (commit_one stamp snap run old pl (db, msgs)).1
  unfolding commit_one add_trip
  one-Distinct old db pl msgs d =
      let m = or_new (new_message snap pl) (lookup (key_of pl) msgs) in
      ground
        (arith, insert-Distinct (key_of pl) (record m { rules = m.rules ++ trip pl ∷ [] }) msgs d)

  all-Distinct :
      (old : Db) (ps : List Planned) (acc : Db × Messages)
      → Distinct acc.1
      → Distinct (commit_all stamp snap run old ps acc).1
  unfolding commit_all
  all-Distinct old [] acc d = d
  all-Distinct old (pl ∷ ps) (db, msgs) d =
      all-Distinct old ps (commit_one stamp snap run old pl (db, msgs))
        (one-Distinct old db pl msgs d)

  no_messages : (k : MsgKey) → lookup {V = AlertPayload} k [] ≡ none
  unfolding lookup
  no_messages k = refl

  -- The transaction groups what is to be sent by watch and direction of change: no key has two
  -- messages, a key has one exactly if some transition of the plan sends under it, and its message
  -- lists just those transitions, in the plan's order.
  pub commit_all_groups :
      (old db : Db) (ps : List Planned) (k : MsgKey)
      → let msgs = (commit_all stamp snap run old ps (db, [])).1 in
        Distinct msgs
        × ((lookup k msgs ≡ none) ↔ (trips k ps ≡ []))
        × (rules_of (lookup k msgs) ≡ trips k ps)
  commit_all_groups old db ps k =
      let msgs = (commit_all stamp snap run old ps (db, [])).1 in
      let listed : rules_of (lookup k msgs) ≡ trips k ps =
        ground (arith, all_trips old ps (db, []) k, no_messages k) in
      let full : Full k msgs = all_Full old ps (db, []) k (λ h. absurd (h (no_messages k))) in
      (
        all-Distinct old ps (db, []) tt,
        (
          λ e. ground (arith, listed),
          λ e. elim (Option-cases (lookup k msgs)) [
            | inl n ↦ n
            | inr (m, s) ↦ absurd (full (λ n. ground arith) (ground (arith, listed)))
          ],
        ),
        listed,
      )
