-- ===== src/Task/Label/Definition.antt =====
-- BuildTaskDefinition and convertToTaskInput (internal/task/label/parser.go), with the types of
-- internal/task/definition.go.
pub mod Converted
use Prim.Native.String
use oplet.Prelude.{
  String, ◌==◌, Bool, true, false, Option, none, some, List, [], ◌∷◌, any, Result, ok, err,
  if◌then◌else◌,
}
use oplet.Task.Label.{Map, InputLabels, ParsedLabels}

-- the constraints of an input are always empty and are left out
pub record Input : Type 0 where
  pub name : String
  pub label : String
  pub type_ : String
  pub description : String
  pub required : Bool
  pub default_value : String
  pub tags : List String

pub record Definition : Type 0 where
  pub name : String
  pub description : String
  pub author : String
  pub url : String
  pub image_ref : String
  pub inputs : List Input
  pub configuration : List Input

abbrev is_one_of : List String → String → Bool
is_one_of spellings s = any (λ t. s == t) spellings

-- strconv.ParseBool
unfoldable pub parse_bool : String → Option Bool
parse_bool s =
    if is_one_of ("1" ∷ "t" ∷ "T" ∷ "true" ∷ "TRUE" ∷ "True" ∷ []) s
    then some true
    else if is_one_of ("0" ∷ "f" ∷ "F" ∷ "false" ∷ "FALSE" ∷ "False" ∷ []) s
    then some false
    else none

-- the field is false unless it is given
abbrev pub parse_required : String → Option Bool
parse_required s = if s == "" then some false else parse_bool s

abbrev with_required : String → InputLabels → Option Bool → Result String Input
with_required name labels none = err (
    String.◌++◌ (String.◌++◌ "invalid required value '" labels.required)
      "', must be 'true' or 'false'")
with_required name labels (some required) = ok record {
  name = name;
  label = labels.label;
  type_ = labels.type_;
  description = labels.description;
  required = required;
  default_value = "";
  tags = [];
}

unfoldable pub convert_to_task_input : String → InputLabels → Result String Input
unfolding parse_bool
convert_to_task_input name labels = with_required name labels (parse_required labels.required)

-- errors.Wrapf with the kind and the name of the entry
abbrev pub not_converted : String → String → String → String
not_converted kind name e =
    String.◌++◌
      (String.◌++◌ (String.◌++◌ (String.◌++◌ "failed to convert " kind) (String.◌++◌ " '" name))
        "': ")
      e

abbrev append_input :
    String → String → Result String Input → Result String (List Input) → Result String (List Input)
append_input kind name (err e) rest = err (not_converted kind name e)
append_input kind name (ok input) (err e) = err e
append_input kind name (ok input) (ok rest) = ok (input ∷ rest)

-- one of the two loops, over the entries of this kind
unfoldable pub convert_inputs : String → Map InputLabels → Result String (List Input)
unfolding convert_to_task_input
convert_inputs kind [] = ok []
convert_inputs kind ((name, labels) ∷ rest) =
    append_input kind name (convert_to_task_input name labels) (convert_inputs kind rest)

abbrev define :
    ParsedLabels
    → String
    → Result String (List Input)
    → Result String (List Input)
    → Result String Definition
define parsed image_ref (err e) configuration = err e
define parsed image_ref (ok inputs) (err e) = err e
define parsed image_ref (ok inputs) (ok configuration) = ok record {
  name = parsed.meta.name;
  description = parsed.meta.description;
  author = parsed.meta.author;
  url = parsed.meta.url;
  image_ref = image_ref;
  inputs = inputs;
  configuration = configuration;
}

unfoldable pub build_task_definition : ParsedLabels → String → Result String Definition
unfolding convert_inputs
build_task_definition parsed image_ref =
    let built =
      define parsed image_ref (convert_inputs "input" parsed.inputs)
        (convert_inputs "config" parsed.config) in
    if parsed.meta.name == "" then err "missing required meta.name label" else built
