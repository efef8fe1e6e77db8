-- ===== src/Examples/Mesh.antt =====
-- Two repeaters with different first bytes, and a flood that passed through one of them twice.
use hop_react.Common.{
  ℕ, ◌≤◌, ◌<◌, ◌≡◌, ◌↔◌, List, [], ◌∷◌, Text, length, take, some, codes, if◌then◌else◌,
}
use hop_react.Clock.{zero_time}
use hop_react.Models.{Observation, node, Packet, carried, sent}
use hop_react.Attribute.Index.{build_index, lookup_hop}
use hop_react.Attribute.Index.Unique.{Only, Occurs, lookup_hop-build_index}
use hop_react.Attribute.Evidence.{attribute}
use hop_react.Attribute.Evidence.Proof.{Passed, hits_of, IsHistory, states_key, attribute_hits}

abbrev pub repeater : Text → ℕ → Observation
repeater key seen = record {
  kind = node;
  key = key;
  name = codes "hill";
  role = codes "repeater";
  last_seen = seen;
  last_relayed = zero_time;
  last_packet = zero_time;
  relay_count_1h = 0;
  relay_count_24h = 0;
}

abbrev pub hill : Text
hill = codes "a1b2c3d4"

abbrev pub valley : Text
valley = codes "e5f6a7b8"

abbrev pub mesh : List Observation
mesh = repeater hill 5_000_000_000 ∷ repeater valley 7_000_000_000 ∷ []

abbrev pub flood : Packet
flood = record {
  id = 41;
  at = 9_000_000_000;
  payload_type = 2;
  route_type = 1;
  path_hops = codes "a1b2c3" ∷ codes "00ff00" ∷ codes "a1b2c3" ∷ [];
  advert_pub_key = [];
}

lookup_hop-build_index_example : (lookup_hop (build_index mesh) (codes "a1b2c3") ≡ some hill) ↔ (
    (6 ≤ length (codes "a1b2c3"))
    × Occurs (take 6 (codes "a1b2c3")) hill mesh
    × Only (take 6 (codes "a1b2c3")) hill mesh)
lookup_hop-build_index_example = lookup_hop-build_index mesh (codes "a1b2c3") hill

attribute_hits_example :
    ((0 < hits_of hill carried (attribute flood (build_index mesh)))
      ↔ (IsHistory flood (build_index mesh) hill × Passed (build_index mesh) hill flood.path_hops))
    × (hits_of hill carried (attribute flood (build_index mesh)) ≤ 1)
    × (hits_of hill sent (attribute flood (build_index mesh))
        ≡ (if states_key flood (build_index mesh) hill then 1 else 0))
attribute_hits_example = attribute_hits flood (build_index mesh) hill
