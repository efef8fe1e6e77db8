-- ===== src/Attribute/Evidence.antt =====
-- Attribute: the hits of one packet (internal/attribute/attribute.go), with the payload and route
-- types of internal/corescope/corescope.go.
pub mod Proof
use hop_react.Common.{
  ℕ, Bool, true, false, not, ◌&&◌, ◌||◌, Option, none, some, List, [], ◌∷◌, ◌++◌, Text, text_eq,
  length, ◌==◌, if◌then◌else◌,
}
use hop_react.Models.{Packet, Direction, sent, carried}
use hop_react.Attribute.Index.{Index, lookup_hop}

abbrev pub type_advert : ℕ
type_advert = 4

abbrev pub type_trace : ℕ
type_trace = 9

abbrev pub route_transport_flood : ℕ
route_transport_flood = 0

abbrev pub route_flood : ℕ
route_flood = 1

abbrev pub is_flood_route : ℕ → Bool
is_flood_route route_type = route_type == route_transport_flood || route_type == route_flood

pub record Hit : Type 0 where
  pub key : Text
  pub type_ : ℕ
  pub direction : Direction

pub contains : List Text → Text → Bool
contains [] k = false
contains (x ∷ xs) k = text_eq x k || contains xs k

-- The key that a hop adds, if it resolves to one that is not in `seen`.
unfoldable pub new_key : Index → List Text → Text → Option Text
unfolding contains
new_key idx seen hop = elim (lookup_hop idx hop) [
  | none ↦ none
  | some k ↦ if contains seen k then none else some k
]

-- The loop over the hops.
unfoldable pub carriers : Index → ℕ → List Text → List Text → List Hit
carriers idx t seen [] = []
carriers idx t seen (hop ∷ hops) = elim (new_key idx seen hop) [
  | none ↦ carriers idx t seen hops
  | some k ↦ record { key = k; type_ = t; direction = carried } ∷ carriers idx t (k ∷ seen) hops
]

abbrev originator : Packet → List Hit
originator p =
    if p.payload_type == type_advert && length p.advert_pub_key == 64
    then record { key = p.advert_pub_key; type_ = p.payload_type; direction = sent } ∷ []
    else []

unfoldable pub attribute : Packet → Index → List Hit
attribute p idx =
    if not (is_flood_route p.route_type) || p.payload_type == type_trace
    then originator p
    else originator p ++ carriers idx p.payload_type [] p.path_hops
