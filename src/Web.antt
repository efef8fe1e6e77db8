-- ===== src/Web.antt =====
-- The forms for rules: handleAddRule, handleUpdateRule and knownType of internal/web/web.go, from a
-- request's session and form to the Store's call and the kind of answer. strconv.Atoi, with the
-- number that it returns beside an error, and strings.TrimSpace are parameters.
pub mod Types
pub mod Fairness
use hop_react.Common.{
  ℕ, Bool, true, false, not, ◌&&◌, ◌||◌, Option, none, some, List, [], ◌∷◌, Text, text_eq, codes,
  ◌==◌, ltb, leb, ℤ, pos, negsuc, pos_part, if◌then◌else◌,
}
use hop_react.Clock.{Time, zero_time}
use hop_react.Models.{Kind, Source, Direction, Rule}
use hop_react.Store.Tables.{Db, WatchRow}
use hop_react.Store.Templates.{RuleTemplate, template_by_id, suits, rule_of}
use hop_react.Store.Battery.Owner.{Done, done, not_found}
use hop_react.Store.Owner.{Added, added, no_watch, rule_limit, add_rule, update_rule, watch_owned}

pub record RuleForm : Type 0 where
  pub threshold_hours : Text
  pub label : Text
  pub template : Text
  pub source : Text
  pub direction : Text
  pub types : List Text

-- A redirect to the start, 404, a redirect with an error, or a redirect with the success.
pub data Page : Type 0 where
  start missing : Page
  wrong_kind unnamed untyped too_many : Page
  saved : Page

-- What is made of a form: a rule, or the answer that refuses it.
pub data Reading : Type 0 where
  refused : Page → Reading
  accepted : Rule → Reading

-- corescope.AllTypes.
abbrev pub all_types : List ℕ
all_types = 0 ∷ 1 ∷ 2 ∷ 3 ∷ 4 ∷ 5 ∷ 6 ∷ 7 ∷ 8 ∷ 9 ∷ 10 ∷ 11 ∷ 15 ∷ []

unfoldable pub contains : ℕ → List ℕ → Bool
contains t [] = false
contains t (k ∷ ks) = k == t || contains t ks

abbrev pub known_type : ℕ → Bool
known_type t = contains t all_types

-- sort.Ints.
unfoldable pub insert_sorted : ℕ → List ℕ → List ℕ
insert_sorted n [] = n ∷ []
insert_sorted n (m ∷ ms) = let rest = insert_sorted n ms in if leb n m then n ∷ m ∷ ms else m ∷ rest

unfoldable pub sort_ints : List ℕ → List ℕ
sort_ints [] = []
sort_ints (n ∷ ns) = insert_sorted n (sort_ints ns)

module _ (atoi : Text → ℤ × Bool) (trim_space : Text → Text) where
  -- hours, no less than MinThresholdHours.
  abbrev pub read_hours : Text → ℕ
  read_hours s = let n = pos_part (atoi s).0 in if leb 1 n then n else 1

  abbrev pub keep_type : ℤ × Bool → List ℕ → Option ℕ
  keep_type (pos n, true) seen = if contains n seen || not (known_type n) then none else some n
  keep_type _ seen = none

  abbrev pub with_type : Option ℕ → List ℕ → List ℕ
  with_type none rest = rest
  with_type (some n) rest = n ∷ rest

  -- The loop over the form's types. `seen` has those that were kept.
  unfoldable pub read_types : List Text → List ℕ → List ℕ
  read_types [] seen = []
  read_types (v ∷ vs) seen =
      let n = keep_type (atoi v) seen in with_type n (read_types vs (with_type n seen))

  unfoldable pub read_direction : Text → Direction
  read_direction d =
      if text_eq d (codes "sent")
      then Direction.sent
      else if text_eq d (codes "carried")
      then Direction.carried
      else Direction.either

  abbrev pub typed : List ℕ → Rule → Reading
  typed [] r = refused untyped
  typed (t ∷ ts) r = accepted (record r { types = t ∷ ts })

  abbrev pub from_template : RuleTemplate → Kind → Rule → Reading
  from_template t kind r =
      if not (suits kind t.kind)
      then refused wrong_kind
      else let tr = rule_of t in
        accepted (record r {
          source = tr.source;
          types = tr.types;
          direction = tr.direction;
          threshold_hours = tr.threshold_hours;
          label = elim (r.label) [ [] ↦ t.name | c ∷ s ↦ c ∷ s ];
        })

  abbrev pub blank : ℕ → RuleForm → Rule
  blank id f = record {
    id = 0;
    watch_id = id;
    label = trim_space f.label;
    source = Source.other [];
    types = [];
    direction = Direction.either;
    threshold_hours = read_hours f.threshold_hours;
    created_at = zero_time;
  }

  abbrev pub by_hand : RuleForm → Rule → Reading
  by_hand f r =
      if text_eq f.source (codes "seen")
      then accepted (record r { source = Source.seen; direction = Direction.either })
      else if text_eq f.source (codes "relayed")
      then accepted (record r { source = Source.relayed; direction = Direction.carried })
      else typed (sort_ints (read_types f.types []))
          (record r { source = Source.types; direction = read_direction f.direction })

  abbrev pub named : Text → Reading → Reading
  named [] r = refused unnamed
  named (_ ∷ _) r = r

  abbrev pub from_form : Option RuleTemplate → Kind → RuleForm → Rule → Reading
  from_form (some t) kind f r = from_template t kind r
  from_form none kind f r = named r.label (by_hand f r)

  unfoldable pub read_rule : ℕ → Kind → RuleForm → Reading
  read_rule id kind f = from_form (template_by_id f.template) kind f (blank id f)

  abbrev pub page_of_added : Added → Page
  page_of_added (added _) = saved
  page_of_added no_watch = missing
  page_of_added rule_limit = too_many

  abbrev pub store_rule : Time → ℕ → Reading → Db → Db × Page
  store_rule now u (refused p) db = (db, p)
  store_rule now u (accepted r) db = let (db', a) = add_rule now u r db in (db', page_of_added a)

  abbrev pub for_watch : Time → ℕ → ℕ → RuleForm → Option WatchRow → Db → Db × Page
  for_watch now u id f none db = (db, missing)
  for_watch now u id f (some w) db = store_rule now u (read_rule id w.target_kind f) db

  -- The user is none without a session.
  unfoldable pub handle_add_rule : Time → Option ℕ → ℕ → RuleForm → Db → Db × Page
  handle_add_rule now none id f db = (db, start)
  handle_add_rule now (some u) id f db = for_watch now u id f (watch_owned u id db.watches) db

  -- The edited rule: types are read only for a rule on types.
  unfoldable pub read_edit : ℕ → RuleForm → Reading
  read_edit id f =
      let r = record (blank 0 f) { id = id; direction = read_direction f.direction } in
      named r.label (
        if text_eq f.source [] || text_eq f.source (codes "types")
        then typed (sort_ints (read_types f.types [])) r
        else accepted r)

  abbrev pub page_of_done : Done → Page
  page_of_done done = saved
  page_of_done not_found = missing

  abbrev pub store_edit : ℕ → Reading → Db → Db × Page
  store_edit u (refused p) db = (db, p)
  store_edit u (accepted r) db = let (db', d) = update_rule u r db in (db', page_of_done d)

  unfoldable pub handle_update_rule : Option ℕ → ℕ → RuleForm → Db → Db × Page
  handle_update_rule none id f db = (db, start)
  handle_update_rule (some u) id f db = store_edit u (read_edit id f) db
