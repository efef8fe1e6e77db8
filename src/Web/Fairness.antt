-- ===== src/Web/Fairness.antt =====
-- What the form for a new rule lets through.
use hop_react.Common.{
  ℕ, ◌≡◌, ◌⊎◌, ◌∙◌, refl, sym, subst, ap, Bool, true, false, not, ◌&&◌, ◌||◌, Option, none, some,
  Option-cases, Bool-cases, inl, inr, List, [], ◌∷◌, Text, text_eq, ltb, leb, ℤ, if◌then◌else◌,
  arith,
}
use hop_react.Clock.{Time}
use hop_react.Models.{Kind, Source, Rule}
use hop_react.Store.Tables.{Db}
use hop_react.Store.Rules.{is_types, insert_rule}
use hop_react.Store.Templates.{RuleTemplate, rule_templates, find_template, template_by_id, rule_of}
use hop_react.Store.Owner.{added, add_rule, watch_owned, max_rules_per_watch, rule_count}
use hop_react.Web.{
  RuleForm, Page, saved, Reading, refused, accepted, contains, sort_ints, read_types,
  read_direction, typed, from_template, blank, by_hand, from_form, read_rule, page_of_added,
  store_rule, handle_add_rule,
}
use hop_react.Web.Types.{ascending, all_known, all_known-sort, read_types_sound}

abbrev pub is_named : Text → Bool
is_named [] = false
is_named (_ ∷ _) = true

abbrev pub has_some : List ℕ → Bool
has_some [] = false
has_some (_ ∷ _) = true

-- A rule has a name and a threshold of an hour or more; on types, it has some, all of them known,
-- each once and in order.
abbrev pub is_fair : Rule → Bool
is_fair r =
    is_named r.label
    && ltb 0 r.threshold_hours
    && (not (is_types r.source) || (has_some r.types && all_known r.types && ascending r.types))

module _ (atoi : Text → ℤ × Bool) (trim_space : Text → Text) where
  typed-fair :
      (ns : List ℕ) (r r' : Rule)
      → all_known ns ≡ true
      → ascending ns ≡ true
      → is_named r.label ≡ true
      → ltb 0 r.threshold_hours ≡ true
      → typed atoi trim_space ns r ≡ accepted r'
      → is_fair r' ≡ true
  typed-fair [] r r' k a l t h = ground (arith, h)
  typed-fair (n ∷ ns) r r' k a l t h = ground (arith, h, k, a, l, t)

  by_hand-fair :
      (f : RuleForm) (r r' : Rule)
      → is_named r.label ≡ true
      → ltb 0 r.threshold_hours ≡ true
      → by_hand atoi trim_space f r ≡ accepted r'
      → is_fair r' ≡ true
  by_hand-fair f r r' l t h =
      let ns = read_types atoi trim_space f.types [] in
      let (k, a) = read_types_sound atoi trim_space f.types [] in
      let tr = record r {
        source = Source.types;
        direction = read_direction atoi trim_space f.direction;
      } in
      ground (arith, h, l, t, typed-fair (sort_ints ns) tr r' (all_known-sort ns ∙ k) a l t)

  from_template-fair :
      (t : RuleTemplate) (kind : Kind) (r r' : Rule)
      → is_fair (rule_of t) ≡ true
      → from_template atoi trim_space t kind r ≡ accepted r'
      → is_fair r' ≡ true
  unfolding rule_of
  from_template-fair t kind r r' e h = ground (arith, e, h)

-- Every ready-made rule is fair.
abbrev all_fair : List RuleTemplate → Bool
all_fair [] = true
all_fair (t ∷ ts) = is_fair (rule_of t) && all_fair ts

templates_fair : all_fair rule_templates ≡ true
unfolding rule_of ascending all_known contains
templates_fair = refl

if_true :
    {b : Bool} {x : Option RuleTemplate} (y : Option RuleTemplate)
    → b ≡ true
    → (if b then x else y) ≡ x
if_true y e = ground (arith, e)

if_false :
    {b : Bool} {y : Option RuleTemplate} (x : Option RuleTemplate)
    → b ≡ false
    → (if b then x else y) ≡ y
if_false x e = ground (arith, e)

some_inj : {x y : RuleTemplate} → some x ≡ some y → x ≡ y
some_inj e = ground (arith, e)

find_template-fair :
    (id : Text) (ts : List RuleTemplate) (t : RuleTemplate)
    → all_fair ts ≡ true
    → find_template id ts ≡ some t
    → is_fair (rule_of t) ≡ true
unfolding find_template
find_template-fair id [] t a h = ground (arith, h)
find_template-fair id (x ∷ xs) t a h = elim (Bool-cases (text_eq x.id id)) [
  | inl e ↦
      subst (λ y. is_fair (rule_of y) ≡ true) (some_inj (sym (if_true _ e) ∙ h)) (ground (arith, a))
  | inr e ↦ find_template-fair id xs t (ground (arith, a)) (sym (if_false _ e) ∙ h)
]

module _ (atoi : Text → ℤ × Bool) (trim_space : Text → Text) where
  blank-fair : (id : ℕ) (f : RuleForm) → ltb 0 (blank atoi trim_space id f).threshold_hours ≡ true
  blank-fair id f = ground arith

  from_form-fair :
      (o : Option RuleTemplate) (kind : Kind) (f : RuleForm) (r r' : Rule)
      → ((t : RuleTemplate) → o ≡ some t → is_fair (rule_of t) ≡ true)
      → ltb 0 r.threshold_hours ≡ true
      → from_form atoi trim_space o kind f r ≡ accepted r'
      → is_fair r' ≡ true
  from_form-fair (some t) kind f r r' e l h =
      from_template-fair atoi trim_space t kind r r' (e t refl) h
  from_form-fair none kind f r r' e l h = elim (Bool-cases (is_named r.label)) [
    | inl n ↦ by_hand-fair atoi trim_space f r r' n l (ground (arith, n, h))
    | inr n ↦ absurd (ground (arith, n, h))
  ]

  -- A rule that the form for a new rule lets through, ready-made or not, has a name and a threshold of
  -- an hour or more; a rule on packet types has some, all of them known, each once and in order.
  pub read_rule-fair :
      (id : ℕ) (kind : Kind) (f : RuleForm) (r : Rule)
      → read_rule atoi trim_space id kind f ≡ accepted r
      → is_fair r ≡ true
  unfolding read_rule template_by_id
  read_rule-fair id kind f r h =
      from_form-fair (template_by_id f.template) kind f (blank atoi trim_space id f) r
        (λ t e. find_template-fair f.template rule_templates t templates_fair e) (blank-fair id f) h

  typed-watch :
      (ns : List ℕ) (r r' : Rule)
      → typed atoi trim_space ns r ≡ accepted r'
      → r'.watch_id ≡ r.watch_id
  typed-watch [] r r' h = ground (arith, h)
  typed-watch (n ∷ ns) r r' h = ground (arith, h)

  from_form-watch :
      (o : Option RuleTemplate) (kind : Kind) (f : RuleForm) (r r' : Rule)
      → from_form atoi trim_space o kind f r ≡ accepted r'
      → r'.watch_id ≡ r.watch_id
  from_form-watch (some t) kind f r r' h = ground (arith, h)
  from_form-watch none kind f r r' h =
      let tr = record r {
        source = Source.types;
        direction = read_direction atoi trim_space f.direction;
      } in
      elim (Bool-cases (is_named r.label)) [
        | inl n ↦
            ground
              (arith, n, h, typed-watch (sort_ints (read_types atoi trim_space f.types [])) tr r')
        | inr n ↦ absurd (ground (arith, n, h))
      ]

  -- What a post comes to: nothing but an answer, or one fair rule more for the watch.
  abbrev pub Outcome : Time → Option ℕ → ℕ → Db → Db × Page → Type 0
  Outcome now user id db r' =
      (r'.0 ≡ db)
      ⊎ ((u : ℕ) × (r : Rule) × (i : ℕ) × (user ≡ some u)
          × (is_fair r ≡ true)
          × (r.watch_id ≡ id)
          × (add_rule now u r db ≡ (r'.0, added i))
          × (r'.1 ≡ saved))

  add_rule-refused :
      (now : Time) (u : ℕ) (r : Rule) (db : Db)
      → ((add_rule now u r db).0 ≡ db) ⊎ ((i : ℕ) × ((add_rule now u r db).1 ≡ added i))
  unfolding add_rule
  add_rule-refused now u r db = elim (Option-cases (watch_owned u r.watch_id db.watches)) [
    | inl e ↦ inl (rw (add_rule, e) refl)
    | inr (w, e) ↦
        elim (Bool-cases (leb max_rules_per_watch (rule_count r.watch_id db.watch_rules))) [
          | inl full ↦ inl (rw (add_rule, e, full) refl)
          | inr room ↦
              inr ((insert_rule now w.target_kind w.target_key r db).1, rw (add_rule, e, room) refl)
        ]
  ]

  store_rule-Outcome :
      (now : Time) (u id : ℕ) (o : Reading) (db : Db)
      → ((r : Rule) → o ≡ accepted r → (is_fair r ≡ true) × (r.watch_id ≡ id))
      → Outcome now (some u) id db (store_rule atoi trim_space now u o db)
  store_rule-Outcome now u id (refused p) db h = inl refl
  store_rule-Outcome now u id (accepted r) db h = elim (add_rule-refused now u r db) [
    | inl e ↦ inl e
    | inr (i, e) ↦
        let (fair, watch) = h r refl in
        inr (
          u,
          r,
          i,
          refl,
          fair,
          watch,
          ap (λ a. ((add_rule now u r db).0, a)) e,
          ap (page_of_added atoi trim_space) e,
        )
  ]

  -- A post of the form for a new rule, whoever sends it and whatever it holds, changes nothing, or it
  -- is answered as saved and adds one rule to that watch for the signed-in user: one with a name and
  -- a threshold of an hour or more, and, on packet types, some types, all known, each once and in
  -- order.
  pub handle_add_rule_outcome :
      (now : Time) (user : Option ℕ) (id : ℕ) (f : RuleForm) (db : Db)
      → Outcome now user id db (handle_add_rule atoi trim_space now user id f db)
  unfolding handle_add_rule read_rule
  handle_add_rule_outcome now none id f db = inl refl
  handle_add_rule_outcome now (some u) id f db = elim (Option-cases (watch_owned u id db.watches)) [
    | inl e ↦ rw (handle_add_rule, e) (inl refl)
    | inr (w, e) ↦
        rw (handle_add_rule, e)
          (store_rule-Outcome now u id (read_rule atoi trim_space id w.target_kind f) db (λ r h. (
            read_rule-fair id w.target_kind f r h,
            from_form-watch (template_by_id f.template) w.target_kind f (blank atoi trim_space id f)
                r h,
          )))
  ]
