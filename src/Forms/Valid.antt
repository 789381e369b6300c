-- ===== src/Forms/Valid.antt =====
-- What IsValid answers (internal/http/handler/webui/common/form/form.go): it accepts the forms whose
-- rules all pass, and records the first error of each field.
use oplet.Prelude.{
  String, ◌≡◌, refl, sym, ◌∙◌, ◌↔◌, ◌==◌, Bool, true, false, Option, none, some, List, [], ◌∷◌,
  Memᴰ, All, Bool-cases, Option-cases, inl, inr, eq_refl, eq_iff, arith, differ_sym, All-Memᴰ, ap,
  ◌++◌, ◌⊎◌,
}
use oplet.Prelude.Sorting.{Pairwise}
use oplet.Task.Label.{put}
use oplet.Forms.{ValidationRule, Field, Form, lookup, find_field, remove}
use oplet.Forms.Rules.{
  validate, first_error, or_next, check_fields, is_valid, validate_field, is_empty, succeeded,
}

-- No rule of the field has an error.
abbrev pub Passes : Form → Field → Type 0
Passes form field =
    All (λ (rule : ValidationRule). validate rule form field ≡ none) field.validation

or_next_iff : (a b : Option String) → (or_next a b ≡ none) ↔ ((a ≡ none) × (b ≡ none))
or_next_iff none b = (λ h. (refl, h), λ h. h.1)
or_next_iff (some e) b = (λ h. absurd cc, λ h. absurd (let (bad, _) = h in cc))

first_error_iff :
    (rules : List ValidationRule) (form : Form) (field : Field)
    → (first_error rules form field ≡ none) ↔ All (λ rule. validate rule form field ≡ none) rules
unfolding first_error
first_error_iff [] form field = (λ _. tt, λ _. refl)
first_error_iff (rule ∷ rules) form field =
    let rest = first_error_iff rules form field in
    let here = or_next_iff (validate rule form field) (first_error rules form field) in
    (λ h. let (a, b) = here.0 h in (a, rest.0 b), λ h. here.1 (h.0, rest.1 h.1))

module _ (form : Form) where
  abbrev with_errors : List (String × String) → Form
  with_errors errors = record form { errors = errors }

  -- No rule reads the errors.
  validate-same :
      (rule : ValidationRule) (errors : List (String × String)) (field : Field)
      → validate rule (with_errors errors) field ≡ validate rule form field
  unfolding validate
  validate-same ValidationRule.required_rule errors field = refl
  validate-same (ValidationRule.min_length_rule n) errors field = refl
  validate-same (ValidationRule.number_range_rule low high) errors field = refl
  validate-same (ValidationRule.constraint_rule input constraint) errors field = refl

  first_error-same :
      (rules : List ValidationRule) (errors : List (String × String)) (field : Field)
      → first_error rules (with_errors errors) field ≡ first_error rules form field
  unfolding first_error
  first_error-same [] errors field = refl
  first_error-same (rule ∷ rules) errors field =
      rw (validate-same rule errors field, first_error-same rules errors field) refl

  abbrev note : String → Option String → List (String × String) → List (String × String)
  note name none errors = errors
  note name (some e) errors = put name e errors

  abbrev collect : List Field → List (String × String) → List (String × String)
  collect [] errors = errors
  collect (field ∷ fields) errors =
      collect fields (note field.name (first_error field.validation form field) errors)

  check_fields-collect :
      (fields : List Field) (errors : List (String × String))
      → check_fields fields (with_errors errors) ≡ with_errors (collect fields errors)
  unfolding check_fields
  check_fields-collect [] errors = refl
  check_fields-collect (field ∷ fields) errors =
      rw (first_error-same field.validation errors field)
        (elim (Option-cases (first_error field.validation form field)) [
          | inl passes ↦ rw (passes, check_fields-collect fields errors) refl
          | inr (e, fails) ↦ rw (fails, check_fields-collect fields (put field.name e errors)) refl
        ])

  put-filled :
      (name e : String) (errors : List (String × String)) → is_empty (put name e errors) ≡ false
  put-filled name e [] = refl
  put-filled name e ((k, v) ∷ errors) = elim (Bool-cases (k == name)) [
    | inl same ↦ rw same refl
    | inr other ↦ rw other refl
  ]

  collect-filled :
      (fields : List Field) (errors : List (String × String))
      → is_empty errors ≡ false
      → is_empty (collect fields errors) ≡ false
  collect-filled [] errors h = h
  collect-filled (field ∷ fields) errors h =
      elim (Option-cases (first_error field.validation form field)) [
        | inl passes ↦ rw passes (collect-filled fields errors h)
        | inr (e, fails) ↦
            rw fails
              (collect-filled fields (put field.name e errors) (put-filled field.name e errors))
      ]

  collect_iff :
      (fields : List Field) → (is_empty (collect fields []) ≡ true) ↔ All (Passes form) fields
  collect_iff [] = (λ _. tt, λ _. refl)
  collect_iff (field ∷ fields) =
      let here = first_error_iff field.validation form field in
      elim (Option-cases (first_error field.validation form field)) [
        | inl passes ↦
            rw passes
              (let rest = collect_iff fields in (λ h. (here.0 passes, rest.0 h), λ h. rest.1 h.1))
        | inr (e, fails) ↦
            let filled = collect-filled fields (put field.name e []) refl in
            rw fails (
              λ h. absurd (let g : ◌≡◌ {A = Bool} true false = sym h ∙ filled in cc),
              λ h.
                  absurd
                    (let g : ◌≡◌ {A = Option String} (some e) none = sym fails ∙ here.1 h.0 in cc),
            )
      ]

  is_valid-collect :
      is_valid form ≡ (is_empty (collect form.fields []), with_errors (collect form.fields []))
  unfolding is_valid
  is_valid-collect = rw (check_fields-collect form.fields []) refl

  -- IsValid leaves the values as they are.
  pub is_valid-values : (is_valid form).1.values ≡ form.values
  is_valid-values = ap (λ (o : Bool × Form). o.1.values) is_valid-collect

  -- IsValid accepts a form exactly if no rule of any of its fields fails.
  pub is_valid_iff : ((is_valid form).0 ≡ true) ↔ All (Passes form) form.fields
  is_valid_iff = rw is_valid-collect (collect_iff form.fields)

-- The errors that a field may show: none if its rules all pass, else the error of a rule that fails
-- while the rules before it pass.
pub data FirstFailure (form : Form) (field : Field) : Option String → Type 0 where
  all_pass : Passes form field → FirstFailure form field none
  failure :
      (before after : List ValidationRule) (rule : ValidationRule) (e : String)
      → field.validation ≡ before ++ rule ∷ after
      → All (λ (r : ValidationRule). validate r form field ≡ none) before
      → validate rule form field ≡ some e
      → FirstFailure form field (some e)

module _ (form : Form) (field : Field) where
  first_error-cases :
      (rules : List ValidationRule)
      → ((first_error rules form field ≡ none)
          × All (λ (r : ValidationRule). validate r form field ≡ none) rules)
        ⊎ ((before : List ValidationRule) × (after : List ValidationRule) × (rule : ValidationRule)
            × (e : String) × (first_error rules form field ≡ some e)
            × (rules ≡ before ++ rule ∷ after)
            × All (λ (r : ValidationRule). validate r form field ≡ none) before
            × (validate rule form field ≡ some e))
  unfolding first_error
  first_error-cases [] = inl (refl, tt)
  first_error-cases (rule ∷ rules) = elim (Option-cases (validate rule form field)) [
    | inr (e, fails) ↦ inr ([], rules, rule, e, rw fails refl, refl, tt, fails)
    | inl passes ↦ elim (first_error-cases rules) [
      | inl (no_error, pass) ↦ inl (rw (passes, no_error) refl, (passes, pass))
      | inr (before, after, other, e, first, split, pass, fails) ↦ inr (
        rule ∷ before,
        after,
        other,
        e,
        rw (passes, first) refl,
        ap (λ rs. rule ∷ rs) split,
        (passes, pass),
        fails,
      )
    ]
  ]

  first_error-FirstFailure : FirstFailure form field (first_error field.validation form field)
  first_error-FirstFailure = elim (first_error-cases field.validation) [
    | inl (no_error, pass) ↦ rw no_error (all_pass pass)
    | inr (before, after, rule, e, first, split, pass, fails) ↦
        rw first (failure before after rule e split pass fails)
  ]

succeeded_iff : (o : Option String) → (succeeded o ≡ true) ↔ (o ≡ none)
succeeded_iff none = ground arith
succeeded_iff (some e) = (λ h. absurd cc, λ h. absurd cc)

-- The names of the fields differ.
abbrev pub AreNamed : List Field → Type 0
AreNamed = Pairwise (λ (a b : Field). (a.name == b.name) ≡ false)

pub lookup-put_same :
    {A : Type 0} (name : String) (a : A) (entries : List (String × A))
    → lookup name (put name a entries) ≡ some a
lookup-put_same name a [] = rw (eq_refl name) refl
lookup-put_same name a ((k, v) ∷ entries) = elim (Bool-cases (k == name)) [
  | inl same ↦ rw (same, eq_refl name) refl
  | inr other ↦ rw (other, other, lookup-put_same name a entries) refl
]

pub lookup-put_other :
    {A : Type 0} (name key : String) (a : A) (entries : List (String × A))
    → (key == name) ≡ false
    → lookup name (put key a entries) ≡ lookup name entries
lookup-put_other name key a [] h = rw h refl
lookup-put_other name key a ((k, v) ∷ entries) h = elim (Bool-cases (k == key)) [
  | inl same ↦
      let differs : (k == name) ≡ false = rw ((eq_iff k key).0 same) h in rw (same, h, differs) refl
  | inr other ↦ rw (other, lookup-put_other name key a entries h) refl
]

module _ (form : Form) where
  collect-lookup_other :
      (name : String) (fields : List Field) (errors : List (String × String))
      → All (λ (f : Field). (name == f.name) ≡ false) fields
      → lookup name (collect form fields errors) ≡ lookup name errors
  collect-lookup_other name [] errors h = refl
  collect-lookup_other name (field ∷ fields) errors h =
      elim (Option-cases (first_error field.validation form field)) [
        | inl passes ↦ rw passes (collect-lookup_other name fields errors h.1)
        | inr (e, fails) ↦ rw fails (
            collect-lookup_other name fields (put field.name e errors) h.1
            ∙ lookup-put_other name field.name e errors (differ_sym name field.name h.0))
      ]

  note-clear :
      (name : String) (o : Option String) (fields : List Field) (errors : List (String × String))
      → All (λ (f : Field). (name == f.name) ≡ false) fields
      → All (λ (f : Field). lookup f.name errors ≡ none) fields
      → All (λ (f : Field). lookup f.name (note form name o errors) ≡ none) fields
  note-clear name none fields errors differ clear = clear
  note-clear name (some e) [] errors differ clear = tt
  note-clear name (some e) (f ∷ fields) errors differ clear = (
    lookup-put_other f.name name e errors differ.0 ∙ clear.0,
    note-clear name (some e) fields errors differ.1 clear.1,
  )

  collect-lookup :
      (field : Field) (fields : List Field) (errors : List (String × String))
      → AreNamed fields
      → Memᴰ field fields
      → All (λ (f : Field). lookup f.name errors ≡ none) fields
      → lookup field.name (collect form fields errors) ≡ first_error field.validation form field
  collect-lookup field [] errors named m clear = elim m [ ]
  collect-lookup field (f ∷ fields) errors named (Memᴰ.head same) clear =
      rw same (elim (Option-cases (first_error f.validation form f)) [
        | inl passes ↦ rw passes (collect-lookup_other f.name fields errors named.0 ∙ clear.0)
        | inr (e, fails) ↦ rw fails (
            collect-lookup_other f.name fields (put f.name e errors) named.0
            ∙ lookup-put_same f.name e errors)
      ])
  collect-lookup field (f ∷ fields) errors named (Memᴰ.tail m) clear =
      let e = first_error f.validation form f in
      collect-lookup field fields (note form f.name e errors) named.1 m
        (note-clear f.name e fields errors named.0 clear.1)

  AreClear :
      (fields : List Field) → All (λ (f : Field). lookup {A = String} f.name [] ≡ none) fields
  AreClear [] = tt
  AreClear (f ∷ fields) = (refl, AreClear fields)

  errors-first_error :
      (field : Field)
      → AreNamed form.fields
      → Memᴰ field form.fields
      → lookup field.name (is_valid form).1.errors ≡ first_error field.validation form field
  errors-first_error field named m =
      rw (is_valid-collect form)
        (collect-lookup field form.fields [] named m (AreClear form.fields))

  -- If the names of the fields differ, then IsValid records for each field the error of a rule that
  -- fails while the rules before it pass, and no error only if all its rules pass.
  pub is_valid-errors :
      (field : Field)
      → AreNamed form.fields
      → Memᴰ field form.fields
      → FirstFailure form field (lookup field.name (is_valid form).1.errors)
  is_valid-errors field named m =
      rw (errors-first_error field named m) (first_error-FirstFailure form field)

  find_field-Memᴰ :
      (field : Field) (fields : List Field)
      → AreNamed fields
      → Memᴰ field fields
      → find_field field.name fields ≡ some field
  find_field-Memᴰ field [] named m = elim m [ ]
  find_field-Memᴰ field (f ∷ fields) named (Memᴰ.head same) = rw (same, eq_refl f.name) refl
  find_field-Memᴰ field (f ∷ fields) named (Memᴰ.tail m) =
      rw (All-Memᴰ (λ (g : Field). (f.name == g.name) ≡ false) fields named.0 m)
        (find_field-Memᴰ field fields named.1 m)

  -- If the names of the fields differ, then ValidateField accepts a field of the form exactly if
  -- IsValid records no error for it.
  pub validate_field_iff :
      (field : Field)
      → AreNamed form.fields
      → Memᴰ field form.fields
      → ((validate_field field.name form).0 ≡ true)
        ↔ (lookup field.name (is_valid form).1.errors ≡ none)
  unfolding validate_field
  validate_field_iff field named m =
      rw
        (
          errors-first_error field named m,
          find_field-Memᴰ field form.fields named m,
          first_error-same form field.validation (remove field.name form.errors) field,
        )
        (succeeded_iff (first_error field.validation form field))
