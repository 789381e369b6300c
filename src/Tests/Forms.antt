-- ===== src/Tests/Forms.antt =====
-- A task's form with a required text, whose value must not be "no", and a file.
use oplet.Prelude.{
  String, ◌≡◌, refl, ◌↔◌, ◌==◌, Bool, true, false, none, some, List, [], ◌∷◌, map, Memᴰ, Permᴰ, All,
  ok, if◌then◌else◌,
}
use oplet.Prelude.Sorting.{Pairwise, sort_by}
use oplet.Prelude.Int.{pos, negsuc}
use oplet.Strings.{trim_space, len}
use oplet.Strconv.{atoi}
use oplet.Task.Label.Definition.{Input}
use oplet.Forms.{accepted, rejected, value_constraint, Field, Form, Request, handle, lookup}
use oplet.Forms.Rules.{validate, first_error, is_valid}
use oplet.Forms.Valid.{Passes, is_valid_iff, is_valid-errors, FirstFailure}
use oplet.Forms.Handled.{IsTyped, handle-IsTyped}
use oplet.Forms.Task.{TaskInput, input_field, new_form, new_input_form, new_image_ref_form}
use oplet.Forms.Task.Arranged.{Leads, new_form-Leads}
use oplet.Forms.Task.Provided.{Provided, is_valid-Provided}

abbrev pub input : String → String → Bool → Input
input name type_ required = record {
  name = name;
  label = name;
  type_ = type_;
  description = "";
  required = required;
  default_value = "";
  tags = [];
}

abbrev inputs : List TaskInput
inputs =
    record { input = input "SOURCE" "file" false; constraints = [] }
    ∷ record {
      input = input "TITLE" "text" true;
      constraints =
          value_constraint (λ i v. if v == "no" then rejected "refused" else accepted) ∷ [];
    }
    ∷ []

abbrev request : String → Request
request title = record {
  parse_form = none;
  parse_multipart_form = none;
  form_values = ("TITLE", title) ∷ [];
  form_files = [];
}

abbrev form_with : String → Form
form_with title = record (new_input_form inputs) { values = ("TITLE", title) ∷ [] }

abbrev title_field : Field
title_field = input_field (record {
  input = input "TITLE" "text" true;
  constraints = value_constraint (λ i v. if v == "no" then rejected "refused" else accepted) ∷ [];
})

handled : handle (request "yes") (new_input_form inputs) ≡ ok (form_with "yes")
unfolding handle new_input_form new_form sort_by
handled = refl

trimmed : trim_space " \t a b\n" ≡ "a b"
unfolding trim_space
trimmed = refl

bytes_of_text : len "né" ≡ 3
unfolding len
bytes_of_text = refl

numbers : (atoi "-12" ≡ some (negsuc 11)) × (atoi "+7" ≡ some (pos 7)) × (atoi "-" ≡ none)
unfolding atoi
numbers = (refl, refl, refl)

refused : lookup "TITLE" (is_valid (form_with "no")).1.errors ≡ some "refused"
unfolding is_valid validate new_input_form new_form sort_by first_error trim_space
refused = refl

accepted_form : (is_valid (form_with "yes")).0 ≡ true
unfolding is_valid validate new_input_form new_form sort_by first_error trim_space
accepted_form = refl

-- The form of an image reference accepts an empty one.
empty_reference : (is_valid new_image_ref_form).0 ≡ true
unfolding is_valid new_image_ref_form first_error
empty_reference = refl

is_valid_iff_example :
    ((is_valid (form_with "no")).0 ≡ true) ↔ All (Passes (form_with "no")) (form_with "no").fields
is_valid_iff_example = is_valid_iff (form_with "no")

is_valid-errors_example :
    FirstFailure (form_with "no") title_field (lookup "TITLE" (is_valid (form_with "no")).1.errors)
unfolding new_input_form new_form sort_by
is_valid-errors_example =
    is_valid-errors (form_with "no") title_field ((refl, tt), (tt, tt)) (Memᴰ.head refl)

new_form-Leads_example :
    Permᴰ (new_form inputs []).fields (map input_field inputs)
    × Pairwise Leads (new_form inputs []).fields
new_form-Leads_example = new_form-Leads inputs []

handle-IsTyped_example : IsTyped (new_input_form inputs).fields (form_with "yes")
unfolding new_input_form new_form
handle-IsTyped_example =
    handle-IsTyped (request "yes") (new_input_form inputs) (form_with "yes") handled
      record { values_typed = tt; files_typed = tt }

is_valid-Provided_example : All (Provided (form_with "yes")) inputs
is_valid-Provided_example =
    is_valid-Provided inputs (request "yes") (form_with "yes") handled accepted_form
