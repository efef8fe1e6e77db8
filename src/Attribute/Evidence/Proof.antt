-- ===== src/Attribute/Evidence/Proof.antt =====
-- A packet's hits are what it proves, each once.
use hop_react.Common.{
  ℕ, ◌+◌, ◌<◌, ◌≡◌, ◌≢◌, ◌⊎◌, inl, inr, refl, Bool, true, false, ◌&&◌, some, List, [], ◌∷◌, ◌++◌,
  Text, text_eq, text_eq_iff, length, ◌==◌, if◌then◌else◌, arith, ◌↔◌, ◌≤◌, ltb, Bool-cases,
  Option-cases,
}
use hop_react.Models.{Packet, Direction, sent, carried}
use hop_react.Attribute.Index.{Index, lookup_hop}
use hop_react.Attribute.Evidence.{
  Hit, originator, attribute, carriers, new_key, contains, is_flood_route, type_trace, type_advert,
}

-- Some hop of the route resolves to the key.
abbrev pub Passed : Index → Text → List Text → Type 0
Passed idx k [] = ⊥
Passed idx k (hop ∷ hops) = (lookup_hop idx hop ≡ some k) ⊎ Passed idx k hops

-- How many hits carry the key in the direction.
abbrev pub direction_is : Direction → Direction → Bool
direction_is sent sent = true
direction_is carried carried = true
direction_is _ _ = false

unfoldable pub hits_of : Text → Direction → List Hit → ℕ
hits_of k d [] = 0
hits_of k d (h ∷ hs) =
    (if text_eq h.key k then (if direction_is h.direction d then 1 else 0) else 0) + hits_of k d hs

hits_of-append :
    (k : Text) (d : Direction) (xs ys : List Hit)
    → hits_of k d (xs ++ ys) ≡ hits_of k d xs + hits_of k d ys
unfolding hits_of
hits_of-append k d [] ys = omega arith
hits_of-append k d (x ∷ xs) ys = omega (arith, hits_of-append k d xs ys)

module _ (idx : Index) (t : ℕ) (k : Text) where
  -- A key that was seen is not hit again.
  carriers_seen :
      (seen hops : List Text)
      → contains seen k ≡ true
      → hits_of k carried (carriers idx t seen hops) ≡ 0
  unfolding carriers hits_of new_key contains
  carriers_seen seen [] c = refl
  carriers_seen seen (hop ∷ hops) c = elim (Option-cases (lookup_hop idx hop)) [
    | inl e ↦ ground (arith, e, carriers_seen seen hops c)
    | inr (j, e) ↦
        ground (arith, e, text_eq_iff j k, carriers_seen seen hops c, carriers_seen (j ∷ seen) hops)
  ]

  carriers-Passed :
      (seen hops : List Text)
      → contains seen k ≡ false
      → Passed idx k hops
      → hits_of k carried (carriers idx t seen hops) ≡ 1
  unfolding carriers hits_of new_key contains
  carriers-Passed seen [] c h = absurd h
  carriers-Passed seen (hop ∷ hops) c (inl e) =
      ground (arith, text_eq_iff k k, carriers_seen (k ∷ seen) hops)
  carriers-Passed seen (hop ∷ hops) c (inr h) = elim (Option-cases (lookup_hop idx hop)) [
    | inl e ↦ ground (arith, e, carriers-Passed seen hops c h)
    | inr (j, e) ↦ ground (
      arith,
      e,
      text_eq_iff j k,
      text_eq_iff k k,
      carriers_seen (j ∷ seen) hops,
      carriers-Passed seen hops c h,
      carriers-Passed (j ∷ seen) hops,
      h,
    )
  ]

  carriers_hit :
      (seen hops : List Text) → 0 < hits_of k carried (carriers idx t seen hops) → Passed idx k hops
  unfolding carriers hits_of new_key contains
  carriers_hit seen [] h = absurd (omega arith)
  carriers_hit seen (hop ∷ hops) h = elim (Option-cases (lookup_hop idx hop)) [
    | inl e ↦ ground (arith, e, carriers_hit seen hops)
    | inr (j, e) ↦
        ground (arith, e, text_eq_iff j k, carriers_hit seen hops, carriers_hit (j ∷ seen) hops)
  ]

  carriers_sent : (seen hops : List Text) → hits_of k sent (carriers idx t seen hops) ≡ 0
  unfolding carriers hits_of new_key contains
  carriers_sent seen [] = refl
  carriers_sent seen (hop ∷ hops) = elim (Option-cases (lookup_hop idx hop)) [
    | inl e ↦ ground (arith, e, carriers_sent seen hops)
    | inr (j, e) ↦ ground (arith, e, carriers_sent seen hops, carriers_sent (j ∷ seen) hops)
  ]

module _ (p : Packet) (idx : Index) (k : Text) where
  -- The path is a record of where the packet has been.
  abbrev pub IsHistory : Type 0
  IsHistory = (is_flood_route p.route_type ≡ true) × (p.payload_type ≢ type_trace)

  originator_carried : hits_of k carried (originator p) ≡ 0
  unfolding hits_of
  originator_carried = ground arith

  abbrev pub states_key : Bool
  states_key =
      p.payload_type == type_advert && length p.advert_pub_key == 64 && text_eq p.advert_pub_key k

  originator_sent : hits_of k sent (originator p) ≡ (if states_key then 1 else 0)
  unfolding hits_of
  originator_sent = ground arith

  carried_once : IsHistory → Passed idx k p.path_hops → hits_of k carried (attribute p idx) ≡ 1
  unfolding attribute contains
  carried_once hist pass =
      let loop = carriers idx p.payload_type [] p.path_hops in
      ground (
        arith,
        originator_carried,
        hits_of-append k carried (originator p) loop,
        carriers-Passed idx p.payload_type k [] p.path_hops,
      )

  carried_found : 0 < hits_of k carried (attribute p idx) → IsHistory × Passed idx k p.path_hops
  unfolding attribute
  carried_found h =
      let loop = carriers idx p.payload_type [] p.path_hops in
      ground (
        arith,
        originator_carried,
        hits_of-append k carried (originator p) loop,
        carriers_hit idx p.payload_type k [] p.path_hops,
      )

  sent_stated : hits_of k sent (attribute p idx) ≡ (if states_key then 1 else 0)
  unfolding attribute
  sent_stated =
      let loop = carriers idx p.payload_type [] p.path_hops in
      ground (
        arith,
        originator_sent,
        hits_of-append k sent (originator p) loop,
        carriers_sent idx p.payload_type k [] p.path_hops,
      )

  -- A key is hit as carrier exactly if the path is history and some hop resolves to it, and never
  -- more than once, however often the route lists it; and once as sender exactly if the packet is
  -- an advert that states this key in 64 characters.
  pub attribute_hits :
      ((0 < hits_of k carried (attribute p idx)) ↔ (IsHistory × Passed idx k p.path_hops))
      × (hits_of k carried (attribute p idx) ≤ 1)
      × (hits_of k sent (attribute p idx) ≡ (if states_key then 1 else 0))
  attribute_hits = (
    (carried_found, λ h. ground (arith, carried_once h.0 h.1)),
    elim (Bool-cases (ltb 0 (hits_of k carried (attribute p idx)))) [
      | inl some_hit ↦
          let h = carried_found (ground (arith, some_hit)) in ground (arith, carried_once h.0 h.1)
      | inr no_hit ↦ ground (arith, no_hit)
    ],
    sent_stated,
  )
