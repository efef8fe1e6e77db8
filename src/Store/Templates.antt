-- ===== src/Store/Templates.antt =====
-- The ready-made rules of internal/store/templates.go, without the notes that the pages show.
use hop_react.Common.{
  ℕ, Bool, true, Option, none, some, List, [], ◌∷◌, Text, text_eq, if◌then◌else◌, codes,
}
use hop_react.Clock.{zero_time}
use hop_react.Models.{Kind, kind_eq, Source, Direction, Rule}

-- An empty Kind or Source is `none`.
pub record RuleTemplate : Type 0 where
  pub id : Text
  pub name : Text
  pub kind : Option Kind
  pub source : Option Source
  pub types : List ℕ
  pub direction : Direction
  pub threshold_hours : ℕ

abbrev pub rule_templates : List RuleTemplate
rule_templates =
    record {
      id = codes "standard-observer";
      name = codes "Standard observer";
      kind = some Kind.observer;
      source = some Source.seen;
      types = [];
      direction = Direction.either;
      threshold_hours = 1;
    }
    ∷ record {
      id = codes "standard";
      name = codes "Standard";
      kind = some Kind.node;
      source = none;
      types = 1 ∷ 2 ∷ 3 ∷ 4 ∷ 5 ∷ 8 ∷ [];
      direction = Direction.either;
      threshold_hours = 12;
    }
    ∷ record {
      id = codes "adverts";
      name = codes "Adverts only";
      kind = some Kind.node;
      source = none;
      types = 4 ∷ [];
      direction = Direction.either;
      threshold_hours = 25;
    }
    ∷ record {
      id = codes "traffic";
      name = codes "Carrying traffic";
      kind = some Kind.node;
      source = none;
      types = 2 ∷ 5 ∷ 6 ∷ 10 ∷ [];
      direction = Direction.carried;
      threshold_hours = 12;
    }
    ∷ []

unfoldable pub find_template : Text → List RuleTemplate → Option RuleTemplate
find_template id [] = none
find_template id (t ∷ ts) = if text_eq t.id id then some t else find_template id ts

unfoldable pub template_by_id : Text → Option RuleTemplate
template_by_id id = find_template id rule_templates

-- t.Kind == "" || t.Kind == kind.
abbrev pub suits : Kind → Option Kind → Bool
suits kind none = true
suits kind (some k) = kind_eq k kind

unfoldable pub suiting : Kind → List RuleTemplate → List RuleTemplate
suiting kind [] = []
suiting kind (t ∷ ts) = let rest = suiting kind ts in if suits kind t.kind then t ∷ rest else rest

unfoldable pub templates_for : Kind → List RuleTemplate
templates_for kind = suiting kind rule_templates

abbrev first_id : List RuleTemplate → Text
first_id [] = []
first_id (t ∷ ts) = t.id

-- The loop stops at the first template that suits.
unfoldable pub default_template_id : Kind → Text
unfolding suiting
default_template_id kind = first_id (suiting kind rule_templates)

abbrev pub source_of : Option Source → Source
source_of none = Source.types
source_of (some s) = s

unfoldable pub rule_of : RuleTemplate → Rule
rule_of t = record {
  id = 0;
  watch_id = 0;
  label = t.name;
  source = source_of t.source;
  types = t.types;
  direction = t.direction;
  threshold_hours = t.threshold_hours;
  created_at = zero_time;
}
