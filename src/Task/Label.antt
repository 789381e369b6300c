-- ===== src/Task/Label.antt =====
-- The parser of image labels (internal/task/label/parser.go and types.go). A Go map is an association
-- list; a list of labels stands for the map and for the order in which one loop visits it.
pub mod Valid
pub mod Definition
use Prim.Native.Char.{Char, code}
use Prim.Native.String
use oplet.Prelude.{
  ℕ, String, ◌==◌, ◌||◌, Bool, true, false, Option, none, some, List, [], ◌∷◌, Result, ok, err,
  nat_eq, if◌then◌else◌,
}

-- types.go
abbrev pub prefix_inputs : String
prefix_inputs = "io.oplet.task.inputs"

abbrev pub prefix_config : String
prefix_config = "io.oplet.task.config"

abbrev Map : Type 0 → Type 0
Map A = List (String × A)

-- m[key], the zero value for a missing key
abbrev pub get : {A : Type 0} → A → String → Map A → A
get zero key [] = zero
get zero key ((k, value) ∷ rest) = let next = get zero key rest in if k == key then value else next

-- m[key] = value
abbrev pub put : {A : Type 0} → String → A → Map A → Map A
put key value [] = (key, value) ∷ []
put key value ((k, v) ∷ rest) =
    let next = put key value rest in if k == key then (key, value) ∷ rest else (k, v) ∷ next

-- strings.HasPrefix and strings.TrimPrefix: what follows the prefix
unfoldable pub strip_prefix : String → String → Option String
strip_prefix String.[] s = some s
strip_prefix (String.◌∷◌ p prefix) String.[] = none
strip_prefix (String.◌∷◌ p prefix) (String.◌∷◌ c s) =
    let rest = strip_prefix prefix s in if nat_eq (code p) (code c) then rest else none

abbrev push : Char → Option (String × String) → Option (String × String)
push c none = none
push c (some (name, property)) = some (String.◌∷◌ c name, property)

-- strings.SplitN(s, ".", 2), `none` if there is one part only
unfoldable pub split_dot : String → Option (String × String)
split_dot String.[] = none
split_dot (String.◌∷◌ c s) =
    let rest = push c (split_dot s) in if nat_eq (code c) 46 then some ("", s) else rest

abbrev onto_first : Char → List String → List String
onto_first c [] = []
onto_first c (part ∷ parts) = String.◌∷◌ c part ∷ parts

-- strings.Split(s, " ")
unfoldable pub split_spaces : String → List String
split_spaces String.[] = "" ∷ []
split_spaces (String.◌∷◌ c s) =
    let rest = split_spaces s in if nat_eq (code c) 32 then "" ∷ rest else onto_first c rest

pub record MetaLabels : Type 0 where
  pub name : String
  pub description : String
  pub author : String
  pub url : String

pub record InputLabels : Type 0 where
  pub label : String
  pub type_ : String
  pub description : String
  pub required : String
  pub default_value : String
  pub tags : List String

pub record ParsedLabels : Type 0 where
  pub meta : MetaLabels
  pub inputs : Map InputLabels
  pub config : Map InputLabels

unfoldable pub parse_meta_labels : Map String → MetaLabels
parse_meta_labels labels = record {
  name = get "" "io.oplet.task.meta.name" labels;
  description = get "" "io.oplet.task.meta.description" labels;
  author = get "" "io.oplet.task.meta.author" labels;
  url = get "" "io.oplet.task.meta.url" labels;
}

abbrev Groups : Type 0
Groups = Map (Map String)

abbrev add_property : String → String → Option (String × String) → Groups → Result String Groups
add_property key value none groups = err (String.◌++◌ "invalid label format: " key)
add_property key value (some (name, property)) groups =
    ok (put name (put property value (get [] name groups)) groups)

-- `suffix` is the key without its prefix.
unfoldable pub group_label : String → String → String → Groups → Result String Groups
unfolding split_dot
group_label key suffix value groups = add_property key value (split_dot suffix) groups

abbrev pub is_valid_type : String → Bool
is_valid_type input_type =
    input_type == "text"
    || input_type == "number"
    || input_type == "file"
    || input_type == "secret"
    || input_type == "boolean"

unfoldable pub build_input_labels : Map String → Result String InputLabels
unfolding split_spaces
build_input_labels props =
    let labels : InputLabels = record {
      label = get "" "label" props;
      type_ = get "" "type" props;
      description = get "" "description" props;
      required = get "" "required" props;
      default_value = "";
      tags = split_spaces (get "" "tags" props);
    } in
    if labels.type_ == ""
    then err "missing required property 'type'"
    else if is_valid_type labels.type_
    then ok labels
    else err (
        String.◌++◌ (String.◌++◌ "invalid type '" labels.type_)
          "', must be 'text', 'number', 'file', 'secret' or 'boolean'")

-- one round of the loop over a group, and `if inputLabels.Label == "" { … = name }`
abbrev named : String → InputLabels → InputLabels
named name labels = if labels.label == "" then record labels { label = name } else labels

abbrev join :
    String
    → Result String InputLabels
    → Result String (Map InputLabels)
    → Result String (Map InputLabels)
join name (err e) rest = err (String.◌++◌ (String.◌++◌ name ": ") e)
join name (ok labels) (err e) = err e
join name (ok labels) (ok rest) = ok ((name, named name labels) ∷ rest)

-- The names of a group are distinct, so an assignment to the result's map is a new entry.
unfoldable pub build_group : Groups → Result String (Map InputLabels)
unfolding build_input_labels
build_group [] = ok []
build_group ((name, props) ∷ groups) = join name (build_input_labels props) (build_group groups)

abbrev both : Result String Groups → Groups → Result String (Groups × Groups)
both (err e) config = err e
both (ok inputs) config = ok (inputs, config)

abbrev both_config : Groups → Result String Groups → Result String (Groups × Groups)
both_config inputs (err e) = err e
both_config inputs (ok config) = ok (inputs, config)

abbrev group_config :
    String → String → Option String → Groups × Groups → Result String (Groups × Groups)
group_config key value none groups = ok groups
group_config key value (some suffix) (inputs, config) =
    both_config inputs (group_label key suffix value config)

abbrev group_input :
    String → String → Option String → Groups × Groups → Result String (Groups × Groups)
group_input key value none groups =
    group_config key value (strip_prefix (String.◌++◌ prefix_config ".") key) groups
group_input key value (some suffix) (inputs, config) =
    both (group_label key suffix value inputs) config

abbrev proceed_with :
    (Groups × Groups → Result String (Groups × Groups))
    → Result String (Groups × Groups)
    → Result String (Groups × Groups)
proceed_with f (err e) = err e
proceed_with f (ok groups) = f groups

-- the loop that groups the labels
unfoldable pub group_labels : Map String → Groups × Groups → Result String (Groups × Groups)
unfolding group_label strip_prefix
group_labels [] groups = ok groups
group_labels ((key, value) ∷ labels) groups =
    proceed_with (group_labels labels)
      (group_input key value (strip_prefix (String.◌++◌ prefix_inputs ".") key) groups)

abbrev assemble :
    MetaLabels
    → Result String (Map InputLabels)
    → Result String (Map InputLabels)
    → Result String ParsedLabels
assemble meta (err e) config = err e
assemble meta (ok inputs) (err e) = err e
assemble meta (ok inputs) (ok config) = ok record { meta = meta; inputs = inputs; config = config }

abbrev build_groups : MetaLabels → Result String (Groups × Groups) → Result String ParsedLabels
build_groups meta (err e) = err e
build_groups meta (ok (inputs, config)) = assemble meta (build_group inputs) (build_group config)

unfoldable pub parse_labels : Map String → Result String ParsedLabels
unfolding parse_meta_labels group_labels build_group
parse_labels labels = build_groups (parse_meta_labels labels) (group_labels labels ([], []))
