-- ===== src/Poller/Label.antt =====
-- ruleLabel of internal/poller/poller.go, with TypeName of internal/corescope/corescope.go. Labels
-- are lists of code points.
use hop_react.Common.{
  ℕ, Bool, true, ◌&&◌, ◌||◌, List, [], ◌∷◌, ◌++◌, Text, ◌==◌, leb, if◌then◌else◌, map, codes,
  decimal,
}
use hop_react.Models.{Rule, Source, seen, relayed, packets, types}

-- unicode.IsSpace.
abbrev pub is_space : ℕ → Bool
is_space c =
    (leb 9 c && leb c 13)
    || c == 32
    || c == 0x85
    || c == 0xa0
    || c == 0x1680
    || (leb 0x2000 c && leb c 0x200a)
    || c == 0x2028
    || c == 0x2029
    || c == 0x202f
    || c == 0x205f
    || c == 0x3000

-- strings.TrimSpace(s) == "".
unfoldable pub is_blank_text : Text → Bool
is_blank_text [] = true
is_blank_text (c ∷ s) = is_space c && is_blank_text s

unfoldable pub type_name : ℕ → Text
type_name t =
    if t == 0
    then codes "REQ"
    else if t == 1
    then codes "RESPONSE"
    else if t == 2
    then codes "TXT_MSG"
    else if t == 3
    then codes "ACK"
    else if t == 4
    then codes "ADVERT"
    else if t == 5
    then codes "GRP_TXT"
    else if t == 6
    then codes "GRP_DATA"
    else if t == 7
    then codes "ANON_REQ"
    else if t == 8
    then codes "PATH"
    else if t == 9
    then codes "TRACE"
    else if t == 10
    then codes "MULTIPART"
    else if t == 11
    then codes "CONTROL"
    else if t == 15
    then codes "RAW_CUSTOM"
    else codes "TYPE_" ++ decimal 20 t []

-- strings.Join(parts, ", ").
unfoldable pub join : List Text → Text
join [] = []
join (s ∷ []) = s
join (s ∷ t ∷ rest) = s ++ codes ", " ++ join (t ∷ rest)

abbrev type_names : List ℕ → Text
type_names [] = codes "Custom rule"
type_names (t ∷ ts) = join (map type_name (t ∷ ts))

abbrev label_of : Source → List ℕ → Text
label_of seen ts = codes "Not heard at all"
label_of relayed ts = codes "Stopped passing traffic"
label_of packets ts = codes "Stopped hearing traffic"
label_of types ts = type_names ts
label_of (Source.other s) ts = type_names ts

unfoldable pub rule_label : Rule → Text
unfolding type_name join is_blank_text
rule_label r = if is_blank_text r.label then label_of r.source r.types else r.label
