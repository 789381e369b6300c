-- ===== src/Forms/Task.antt =====
-- The forms of a task (internal/http/handler/webui/common/task/form.go): its inputs, its
-- configuration, and the reference of its image.
pub mod Arranged
pub mod Provided
use oplet.Strings.{text_le}
use oplet.Prelude.{
  String, ◌==◌, Bool, true, false, not, ◌&&◌, List, [], ◌∷◌, ◌++◌, map, if◌then◌else◌,
}
use oplet.Prelude.Sorting.{sort_by}
use oplet.Task.Label.{put}
use oplet.Task.Label.Definition.{Input}
use oplet.Forms.{Constraint, ValidationRule, required_rule, constraint_rule, Field, Form, new}

-- An input with its constraints, one field of it in Go.
pub record TaskInput : Type 0 where
  pub input : Input
  pub constraints : List Constraint

abbrev pub map_input_type_to_html_type : String → String
map_input_type_to_html_type t =
    if t == "number"
    then "number"
    else if t == "file"
    then "file"
    else if t == "text"
    then "text"
    else if t == "secret"
    then "password"
    else if t == "boolean"
    then "checkbox"
    else "text"

abbrev pub build_validation_rules : TaskInput → List ValidationRule
build_validation_rules ti =
    (if ti.input.required then required_rule ∷ [] else [])
    ++ map (constraint_rule ti.input) ti.constraints

-- the body of the loop of newForm
abbrev pub input_field : TaskInput → Field
input_field ti =
    let type_ = map_input_type_to_html_type ti.input.type_ in
    record {
      name = ti.input.name;
      label = ti.input.label;
      type_ = type_;
      required = ti.input.required;
      validation = build_validation_rules ti;
      placeholder = ti.input.description;
      attributes = if type_ == "password" then ("autocomplete", "one-time-code") ∷ [] else [];
    }

-- The comparison given to slices.SortFunc, as the test that it is not positive.
abbrev pub comes_first : Field → Field → Bool
comes_first f1 f2 =
    if f1.required && not f2.required
    then true
    else if not f1.required && f2.required
    then false
    else text_le f1.name f2.name

-- Up to twelve fields SortFunc inserts as here; above it may order fields of the same name and
-- requirement in another way.
unfoldable pub new_form : List TaskInput → List (String × String) → Form
new_form inputs default_values = record (new (sort_by comes_first (map input_field inputs))) {
  values = default_values;
}

unfoldable pub new_input_form : List TaskInput → Form
new_input_form inputs = new_form inputs []

abbrev configured_values : List (String × String) → List (String × String) → List (String × String)
configured_values [] values = values
configured_values ((name, value) ∷ configurations) values =
    configured_values configurations (put name value values)

-- The second argument holds the name and the value of each configuration of the task.
unfoldable pub new_configuration_form : List TaskInput → List (String × String) → Form
new_configuration_form configuration task_configurations =
    new_form configuration (configured_values task_configurations [])

unfoldable pub new_image_ref_form : Form
new_image_ref_form = new (
    record {
      name = "image_ref";
      label = "Image Reference";
      type_ = "text";
      required = true;
      validation = [];
      placeholder = "The Docker image reference";
      attributes = [];
    }
    ∷ [])
