-- ===== src/Forms/Handled.antt =====
-- What Handle stores (internal/http/handler/webui/common/form/form.go).
use mathlib.Core.Path.{subst}
use oplet.Prelude.{
  String, ◌≡◌, refl, sym, ap, ◌∙◌, ◌==◌, Bool, true, false, Option, none, some, List, [], ◌∷◌, Memᴰ,
  All, Result, ok, err, Bool-cases, Option-cases, inl, inr,
}
use oplet.Task.Label.{get, put}
use oplet.Forms.{
  FileHeader, Field, is_file, Form, Request, lookup, read_field, parse_error, read_fields,
  put_files, handle,
}

-- A field of the list has this name, and is a field for files or not as said.
pub record Owns (fields : List Field) (file : Bool) (name : String) : Type 0 where
  pub field : Field
  pub present : Memᴰ field fields
  pub named : field.name ≡ name
  pub typed : is_file field ≡ file

-- The values stand under fields that take a text, and the files under fields that take files.
pub record IsTyped (fields : List Field) (form : Form) : Type 0 where
  pub values_typed : All (λ (entry : String × String). Owns fields false entry.0) form.values
  pub files_typed : All (λ (entry : String × List FileHeader). Owns fields true entry.0) form.files

All-put :
    {A : Type 0} (P : String → Type 0) (key : String) (a : A) (entries : List (String × A))
    → P key
    → All (λ (entry : String × A). P entry.0) entries
    → All (λ (entry : String × A). P entry.0) (put key a entries)
All-put P key a [] p h = (p, tt)
All-put P key a ((k, v) ∷ entries) p h = elim (Bool-cases (k == key)) [
  | inl same ↦ rw same (p, h.1)
  | inr other ↦ rw other (h.0, All-put P key a entries p h.1)
]

module _ (r : Request) (fields : List Field) where
  put_files-IsTyped :
      (name : String) (o : Option (List FileHeader)) (form : Form)
      → Owns fields true name
      → IsTyped fields form
      → IsTyped fields (put_files name o form)
  put_files-IsTyped name none form owns typed = typed
  put_files-IsTyped name (some headers) form owns typed = record {
    values_typed = typed.values_typed;
    files_typed = All-put (Owns fields true) name headers form.files owns typed.files_typed;
  }

  read_field-IsTyped :
      (field : Field) (form : Form)
      → Memᴰ field fields
      → IsTyped fields form
      → IsTyped fields (read_field r field form)
  read_field-IsTyped field form present typed = elim (Bool-cases (is_file field)) [
    | inl file ↦
        let owns : Owns fields true field.name = record {
          field = field;
          present = present;
          named = refl;
          typed = file;
        } in
        rw file (put_files-IsTyped field.name (lookup field.name r.form_files) form owns typed)
    | inr text ↦
        let owns : Owns fields false field.name = record {
          field = field;
          present = present;
          named = refl;
          typed = text;
        } in
        let value = get "" field.name r.form_values in
        rw text record {
          values_typed =
              All-put (Owns fields false) field.name value form.values owns typed.values_typed;
          files_typed = typed.files_typed;
        }
  ]

  read_fields-IsTyped :
      (part : List Field) (form : Form)
      → ((f : Field) → Memᴰ f part → Memᴰ f fields)
      → IsTyped fields form
      → IsTyped fields (read_fields r part form)
  unfolding read_fields
  read_fields-IsTyped [] form present typed = typed
  read_fields-IsTyped (field ∷ part) form present typed =
      read_fields-IsTyped part (read_field r field form) (λ f m. present f (Memᴰ.tail m))
        (read_field-IsTyped field form (present field (Memᴰ.head refl)) typed)

  put_files-fields :
      (name : String) (o : Option (List FileHeader)) (form : Form)
      → (put_files name o form).fields ≡ form.fields
  put_files-fields name none form = refl
  put_files-fields name (some headers) form = refl

  read_field-fields : (field : Field) (form : Form) → (read_field r field form).fields ≡ form.fields
  read_field-fields field form = elim (Bool-cases (is_file field)) [
    | inl file ↦ rw file (put_files-fields field.name (lookup field.name r.form_files) form)
    | inr text ↦ rw text refl
  ]

  read_fields-fields :
      (part : List Field) (form : Form) → (read_fields r part form).fields ≡ form.fields
  unfolding read_fields
  read_fields-fields [] form = refl
  read_fields-fields (field ∷ part) form =
      read_fields-fields part (read_field r field form) ∙ read_field-fields field form

module _ (r : Request) (form handled : Form) where
  handle-cases : handle r form ≡ ok handled → handled ≡ read_fields r form.fields form
  unfolding handle
  handle-cases h = elim (Option-cases (parse_error r form.fields)) [
    | inl fine ↦
        let g : ◌≡◌ {A = Result String Form} (ok (read_fields r form.fields form)) (ok handled) =
          rw fine at h in
        cc
    | inr (e, broken) ↦
        let g : ◌≡◌ {A = Result String Form} (err e) (ok handled) = rw broken at h in cc
  ]

  -- Handle keeps the fields of the form.
  pub handle-fields : handle r form ≡ ok handled → handled.fields ≡ form.fields
  handle-fields h =
      ap (λ (f : Form). f.fields) (handle-cases h)
      ∙ read_fields-fields r form.fields form.fields form

  -- If the values of a form stand under its fields that take a text, and its files under its
  -- fields that take files, then a successful Handle keeps it so.
  pub handle-IsTyped :
      handle r form ≡ ok handled → IsTyped form.fields form → IsTyped form.fields handled
  handle-IsTyped h typed =
      subst (λ (f : Form). IsTyped form.fields f) (sym (handle-cases h))
        (read_fields-IsTyped r form.fields form.fields form (λ f m. m) typed)
