-- ===== src/Forms/Task/Provided.antt =====
-- What a task's form holds once it is accepted: newForm of
-- internal/http/handler/webui/common/task/form.go with Handle and IsValid of
-- internal/http/handler/webui/common/form/form.go.
use mathlib.Core.Path.{subst}
use oplet.Strings.{trim_space}
use oplet.Prelude.{
  String, ◌≡◌, ◌≢◌, refl, ◌∙◌, ◌==◌, Bool, true, false, Option, none, some, List, [], ◌∷◌, map, All,
  All-Permᴰ, ok, Bool-cases, Option-cases, inl, inr, distinct_texts, equal_texts, ◌++◌,
  if◌then◌else◌,
}
use oplet.Forms.{
  ValidationRule, required_rule, FileHeader, Field, is_file, Form, lookup, Request, handle,
  constraint_rule,
}
use oplet.Forms.Rules.{validate, is_valid, required_found}
use oplet.Forms.Valid.{Passes, is_valid_iff}
use oplet.Forms.Handled.{handle-fields}
use oplet.Forms.Task.{TaskInput, input_field, new_form, new_input_form, map_input_type_to_html_type}
use oplet.Forms.Task.Arranged.{new_form-Leads}

-- An input is not required, or it has its files, or it has a value that is not blank; and no rule of it
-- fails.
pub data Provided (form : Form) (ti : TaskInput) : Type 0 where
  optional : ti.input.required ≡ false → Passes form (input_field ti) → Provided form ti
  with_files :
      (headers : List FileHeader)
      → (ti.input.type_ == "file") ≡ true
      → lookup ti.input.name form.files ≡ some headers
      → Passes form (input_field ti)
      → Provided form ti
  with_value :
      (value : String)
      → (ti.input.type_ == "file") ≡ false
      → lookup ti.input.name form.values ≡ some value
      → trim_space value ≢ ""
      → Passes form (input_field ti)
      → Provided form ti

-- The form's field is one for files exactly if the input is.
is_file-input_field : (ti : TaskInput) → is_file (input_field ti) ≡ (ti.input.type_ == "file")
is_file-input_field ti = typed ti.input.type_
  where
    typed : (t : String) → (map_input_type_to_html_type t == "file") ≡ (t == "file")
    typed t = elim (Bool-cases (t == "number")) [
      | inl e ↦ rw (e, equal_texts t "number" e) refl
      | inr e1 ↦ elim (Bool-cases (t == "file")) [
        | inl e ↦ rw (e1, e) refl
        | inr e2 ↦ elim (Bool-cases (t == "text")) [
          | inl e ↦ rw (e1, e2, e) refl
          | inr e3 ↦ elim (Bool-cases (t == "secret")) [
            | inl e ↦ rw (e1, e2, e3, e) refl
            | inr e4 ↦ elim (Bool-cases (t == "boolean")) [
              | inl e ↦ rw (e1, e2, e3, e4, e) refl
              | inr e ↦ rw (e1, e2, e3, e4, e) refl
            ]
          ]
        ]
      ]
    ]

required_found-passes :
    (form : Form) (field : Field)
    → validate required_rule form field ≡ none
    → required_found form field ≡ true
unfolding validate
required_found-passes form field h = elim (Bool-cases (required_found form field)) [
  | inl found ↦ found
  | inr missing ↦
      let g : ◌≡◌ {A = Option String} (some "this field is required") none = rw missing at h in cc
]

found_files :
    (form : Form) (field : Field)
    → is_file field ≡ true
    → required_found form field ≡ true
    → (headers : List FileHeader) × (lookup field.name form.files ≡ some headers)
found_files form field file h = elim (Option-cases (lookup field.name form.files)) [
  | inl missing ↦ absurd (let g : ◌≡◌ {A = Bool} false true = rw (file, missing) at h in cc)
  | inr found ↦ found
]

found_value :
    (form : Form) (field : Field)
    → is_file field ≡ false
    → required_found form field ≡ true
    → (value : String) × (lookup field.name form.values ≡ some value) × (trim_space value ≢ "")
found_value form field text h = elim (Option-cases (lookup field.name form.values)) [
  | inl missing ↦ absurd (let g : ◌≡◌ {A = Bool} false true = rw (text, missing) at h in cc)
  | inr (v, found) ↦ elim (Bool-cases (trim_space v == "")) [
    | inl blank ↦ absurd (let g : ◌≡◌ {A = Bool} false true = rw (text, found, blank) at h in cc)
    | inr filled ↦ (v, found, distinct_texts (trim_space v) "" filled)
  ]
]

module _ (form : Form) where
  Passes-required :
      (ti : TaskInput)
      → Passes form (input_field ti)
      → ti.input.required ≡ true
      → required_found form (input_field ti) ≡ true
  Passes-required ti passes required =
      let h : validate required_rule form (input_field ti) ≡ none =
        first ti.input.required required passes in
      required_found-passes form (input_field ti) h
    where
      first :
          (b : Bool)
          → b ≡ true
          → All
              (λ (rule : ValidationRule). validate rule form (input_field ti) ≡ none)
              ((if b then required_rule ∷ [] else [])
                ++ map (constraint_rule ti.input) ti.constraints)
          → validate required_rule form (input_field ti) ≡ none
      first true e h = h.0
      first false e h = absurd cc

  Passes-Provided : (ti : TaskInput) → Passes form (input_field ti) → Provided form ti
  Passes-Provided ti passes = elim (Bool-cases ti.input.required) [
    | inr not_required ↦ optional not_required passes
    | inl required ↦
        let found = Passes-required ti passes required in
        elim (Bool-cases (ti.input.type_ == "file")) [
          | inl file ↦
              let (headers, stored) =
                found_files form (input_field ti) (is_file-input_field ti ∙ file) found in
              with_files headers file stored passes
          | inr text ↦
              let (value, stored, filled) =
                found_value form (input_field ti) (is_file-input_field ti ∙ text) found in
              with_value value text stored filled passes
        ]
  ]

  All-Provided :
      (inputs : List TaskInput)
      → All (Passes form) (map input_field inputs)
      → All (Provided form) inputs
  All-Provided [] h = tt
  All-Provided (ti ∷ inputs) h = (Passes-Provided ti h.0, All-Provided inputs h.1)

-- If a form made of inputs handles a request and is valid, then every required input has its files or
-- a value that is not blank, and no rule of any input fails.
pub new_form-Provided :
    (inputs : List TaskInput) (default_values : List (String × String)) (r : Request) (form : Form)
    → handle r (new_form inputs default_values) ≡ ok form
    → (is_valid form).0 ≡ true
    → All (Provided form) inputs
new_form-Provided inputs default_values r form handled valid = All-Provided form inputs (
    All-Permᴰ (Passes form) (new_form-Leads inputs default_values).0 (
      subst (All (Passes form)) (handle-fields r (new_form inputs default_values) form handled)
        ((is_valid_iff form).0 valid)))

-- If the form of a task's inputs handles a request and is valid, then every required input has its
-- files or a value that is not blank, and no rule of any input fails.
pub is_valid-Provided :
    (inputs : List TaskInput) (r : Request) (form : Form)
    → handle r (new_input_form inputs) ≡ ok form
    → (is_valid form).0 ≡ true
    → All (Provided form) inputs
unfolding new_input_form
is_valid-Provided inputs = new_form-Provided inputs []
