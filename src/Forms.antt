-- ===== src/Forms.antt =====
-- Forms whose fields are known at run time (internal/http/handler/webui/common/form), and the rule
-- that wraps a task's constraint (internal/http/handler/webui/common/task/form.go). A Go map is an
-- association list. A constraint is the function that it was made with.
pub mod Rules
pub mod Valid
pub mod Task
pub mod Handled
use Prim.Native.String
use oplet.Prelude.{
  ℕ, String, ◌==◌, ◌||◌, Bool, true, false, Option, none, some, List, [], ◌∷◌, map, any, Result, ok,
  err, if◌then◌else◌,
}
use oplet.Prelude.Int.{ℤ}
use oplet.Task.Label.{get, put}
use oplet.Task.Label.Definition.{Input}

-- multipart.FileHeader: its name, and its content if it can be opened
pub record FileHeader : Type 0 where
  pub filename : String
  pub opened : Result String String

-- What an assertion answers: nil, ErrSkipConstraint or another error.
pub data Asserted : Type 0 where
  accepted skipped : Asserted
  rejected : String → Asserted

-- NewValueConstraint and NewFileConstraint (internal/task/definition.go)
pub data Constraint : Type 0 where
  value_constraint file_constraint : (Input → String → Asserted) → Constraint

abbrev pub assert_value : Constraint → Input → String → Asserted
assert_value (value_constraint assert) input value = assert input value
assert_value (file_constraint assert) input value = skipped

abbrev pub assert_file : Constraint → Input → String → Asserted
assert_file (value_constraint assert) input content = skipped
assert_file (file_constraint assert) input content = assert input content

pub data ValidationRule : Type 0 where
  required_rule : ValidationRule
  min_length_rule : ℤ → ValidationRule
  number_range_rule : Option ℤ → Option ℤ → ValidationRule
  constraint_rule : Input → Constraint → ValidationRule

-- The options of a select field are left out: no code sets them.
pub record Field : Type 0 where
  pub name : String
  pub label : String
  pub type_ : String
  pub required : Bool
  pub validation : List ValidationRule
  pub placeholder : String
  pub attributes : List (String × String)

abbrev pub is_file : Field → Bool
is_file field = field.type_ == "file"

pub record Form : Type 0 where
  pub fields : List Field
  pub values : List (String × String)
  pub files : List (String × List FileHeader)
  pub errors : List (String × String)

-- form.New
abbrev pub new : List Field → Form
new fields = record { fields = fields; values = []; files = []; errors = [] }

-- m[key] with the test that the key exists
abbrev pub lookup : {A : Type 0} → String → List (String × A) → Option A
lookup key [] = none
lookup key ((k, value) ∷ rest) = let next = lookup key rest in if k == key then some value else next

-- delete(m, key)
abbrev pub remove : {A : Type 0} → String → List (String × A) → List (String × A)
remove key [] = []
remove key ((k, value) ∷ rest) =
    let next = remove key rest in if k == key then next else (k, value) ∷ next

-- The request: the errors of its two parsers, the values and the files that it carries.
pub record Request : Type 0 where
  pub parse_form : Option String
  pub parse_multipart_form : Option String
  pub form_values : List (String × String)
  pub form_files : List (String × List FileHeader)

abbrev pub has_file_fields : List Field → Bool
has_file_fields = any is_file

abbrev pub parse_error : Request → List Field → Option String
parse_error r fields = if has_file_fields fields then r.parse_multipart_form else r.parse_form

abbrev pub put_files : String → Option (List FileHeader) → Form → Form
put_files name none form = form
put_files name (some headers) form = record form { files = put name headers form.files }

-- the body of the loop of Handle; FormValue is "" for a missing value
abbrev pub read_field : Request → Field → Form → Form
read_field r field form =
    if is_file field
    then put_files field.name (lookup field.name r.form_files) form
    else record form { values = put field.name (get "" field.name r.form_values) form.values }

unfoldable pub read_fields : Request → List Field → Form → Form
read_fields r [] form = form
read_fields r (field ∷ fields) form = read_fields r fields (read_field r field form)

abbrev handle_parsed : Request → Form → Option String → Result String Form
handle_parsed r form (some e) = err e
handle_parsed r form none = ok (read_fields r form.fields form)

unfoldable pub handle : Request → Form → Result String Form
unfolding read_fields
handle r form = handle_parsed r form (parse_error r form.fields)

abbrev pub find_field : String → List Field → Option Field
find_field name [] = none
find_field name (field ∷ fields) =
    let rest = find_field name fields in if field.name == name then some field else rest

-- What is needed to render a field.
pub record FieldContext : Type 0 where
  pub name : String
  pub value : String
  pub label : String
  pub type_ : String
  pub error : String
  pub required : Bool
  pub placeholder : String
  pub attributes : List (String × String)

abbrev context : Form → Field → FieldContext
context form field = record {
  name = field.name;
  value = get "" field.name form.values;
  label = field.label;
  type_ = field.type_;
  error = get "" field.name form.errors;
  required = field.required;
  placeholder = field.placeholder;
  attributes = field.attributes;
}

abbrev context_of : String → Form → Option Field → Result String FieldContext
context_of name form none = err (String.◌++◌ (String.◌++◌ "field " name) " not found")
context_of name form (some field) = ok (context form field)

unfoldable pub get_field_context : String → Form → Result String FieldContext
get_field_context name form = context_of name form (find_field name form.fields)

abbrev pub get_field_names : Form → List String
get_field_names form = map (λ (f : Field). f.name) form.fields

-- NewFormOptions without its limit on memory; a renderer is a value of any type
pub record FormOptions (Renderer : Type 0) : Type 0 where
  pub field_renderers : List (String × Renderer)
  pub default_renderer : Renderer

module _ {Renderer : Type 0} where
  abbrev or_else : Option Renderer → Renderer → Renderer
  or_else none r = r
  or_else (some r) _ = r

  abbrev pub find_renderer : FormOptions Renderer → String → String → Renderer
  find_renderer options field_name field_type =
      or_else (lookup field_name options.field_renderers)
        (or_else (lookup field_type options.field_renderers) options.default_renderer)
