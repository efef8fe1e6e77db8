-- ===== src/Notify/Drain/Groups.antt =====
-- Messages by user: grouping loses none and adds none.
use hop_react.Common.{
  ℕ, ◌≡◌, subst, sym, false, List, [], ◌∷◌, ◌++◌, All, arith, lookup, insert, nat_key, Bool-cases,
  ◌==◌, inl, inr,
}
use hop_react.Store.Outbox.{Notification}
use hop_react.Notify.Drain.{Groups, or_nil, group_by_user}

-- Grouping loses no message.
abbrev pub AllGroups : (Notification → Type 0) → Groups → Type 0
AllGroups P [] = Unit
AllGroups P ((u, g) ∷ groups) = All P g × AllGroups P groups

All-append :
    (P : Notification → Type 0) (xs : List Notification) (n : Notification)
    → All P (xs ++ n ∷ [])
    → All P xs × P n
All-append P [] n h = (tt, h.0)
All-append P (x ∷ xs) n h = let r = All-append P xs n h.1 in ((h.0, r.0), r.1)

other_group :
    (u v : ℕ) (n : Notification) (g : List Notification) (groups : Groups)
    → (v == u) ≡ false
    → insert u (or_nil (lookup u ((v, g) ∷ groups)) ++ n ∷ []) ((v, g) ∷ groups)
      ≡ (v, g) ∷ insert u (or_nil (lookup u groups) ++ n ∷ []) groups
unfolding insert lookup
other_group u v n g groups e = ground (arith, e)

insert_group :
    (P : Notification → Type 0) (u : ℕ) (n : Notification) (groups : Groups)
    → AllGroups P (insert u (or_nil (lookup u groups) ++ n ∷ []) groups)
    → AllGroups P groups × P n
unfolding insert lookup
insert_group P u n [] h = (tt, h.0.0)
insert_group P u n ((v, g) ∷ groups) h = elim (Bool-cases (v == u)) [
  | inl e ↦ let k = rw e at h in let r = All-append P g n k.0 in ((r.0, k.1), r.1)
  | inr e ↦
      let k = subst (AllGroups P) (other_group u v n g groups e) h in
      let r = insert_group P u n groups k.1 in ((k.0, r.0), r.1)
]

pub grouped :
    (P : Notification → Type 0) (ns : List Notification) (groups : Groups)
    → AllGroups P (group_by_user ns groups)
    → All P ns × AllGroups P groups
unfolding group_by_user
grouped P [] groups h = (tt, h)
grouped P (n ∷ ns) groups h =
    let u = n.row.user_id in
    let r = grouped P ns (insert u (or_nil (lookup u groups) ++ n ∷ []) groups) h in
    let s = insert_group P u n groups r.1 in ((s.1, r.0), s.0)

All-snoc :
    (P : Notification → Type 0) (xs : List Notification) (n : Notification)
    → All P xs
    → P n
    → All P (xs ++ n ∷ [])
All-snoc P [] n h p = (p, tt)
All-snoc P (x ∷ xs) n h p = (h.0, All-snoc P xs n h.1 p)

AllGroups-insert :
    (P : Notification → Type 0) (u : ℕ) (n : Notification) (groups : Groups)
    → AllGroups P groups
    → P n
    → AllGroups P (insert u (or_nil (lookup u groups) ++ n ∷ []) groups)
unfolding insert lookup
AllGroups-insert P u n [] h p = ((p, tt), tt)
AllGroups-insert P u n ((v, g) ∷ groups) h p = elim (Bool-cases (v == u)) [
  | inl e ↦ rw e (All-snoc P g n h.0 p, h.1)
  | inr e ↦
      subst (AllGroups P) (sym (other_group u v n g groups e))
        (h.0, AllGroups-insert P u n groups h.1 p)
]

pub ungrouped :
    (P : Notification → Type 0) (ns : List Notification) (groups : Groups)
    → All P ns
    → AllGroups P groups
    → AllGroups P (group_by_user ns groups)
unfolding group_by_user
ungrouped P [] groups h k = k
ungrouped P (n ∷ ns) groups h k =
    let u = n.row.user_id in
    ungrouped P ns (insert u (or_nil (lookup u groups) ++ n ∷ []) groups) h.1
      (AllGroups-insert P u n groups k h.0)
