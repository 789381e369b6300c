-- ===== src/Api/Environment.antt =====
-- The environment that handleTaskRequest (internal/http/handler/runner/task.go) builds for an
-- execution, from the task's definition, the submitted parameters and the task's configuration.
pub mod Declared
use oplet.Store.Rows.{TaskConfiguration}
use oplet.Prelude.{
  String, ◌==◌, Bool, true, false, Option, none, some, List, [], ◌∷◌, Result, ok, err,
  if◌then◌else◌,
}
use oplet.Store.Orm.{Error}
use oplet.Task.Label.{put}
use oplet.Task.Label.Definition.{Input, Definition}

abbrev pub Env : Type 0
Env = List (String × String)

-- A value that the JSON decoder answers: a Boolean, or another value with the text that the verb %v
-- prints for it.
pub data Param : Type 0 where
  bool_param : Bool → Param
  other_param : String → Param

abbrev pub Params : Type 0
Params = List (String × Param)

abbrev pub bool_text : Bool → String
bool_text true = "true"
bool_text false = "false"

abbrev printed : Param → String
printed (bool_param b) = bool_text b
printed (other_param s) = s

abbrev as_bool : Param → Option String
as_bool (bool_param b) = some (bool_text b)
as_bool (other_param s) = none

-- what a parameter becomes for an input of this type
abbrev pub input_value : String → Param → Option String
input_value type_ p = if type_ == "boolean" then as_bool p else some (printed p)

-- params[name]
abbrev pub find_param : String → Params → Option Param
find_param name [] = none
find_param name ((key, p) ∷ params) =
    let rest = find_param name params in if key == name then some p else rest

abbrev pub set_value : String → Option String → Env → Env
set_value name none env = env
set_value name (some value) env = put name value env

abbrev pub set_param : Input → Option Param → Env → Env
set_param input none env = env
set_param input (some p) env = set_value input.name (input_value input.type_ p) env

-- the loop over `taskDef.Inputs`
unfoldable pub add_inputs : Params → List Input → Env → Env
add_inputs params [] env = env
add_inputs params (input ∷ inputs) env =
    add_inputs params inputs
      (if input.type_ == "file" then env else set_param input (find_param input.name params) env)

-- the search in `taskDef.Configuration`
abbrev pub find_input : String → List Input → Option Input
find_input name [] = none
find_input name (ci ∷ inputs) =
    let rest = find_input name inputs in if ci.name == name then some ci else rest

abbrev pub config_value : String → String → String
config_value type_ value =
    if type_ == "boolean" then (if value == "on" then "true" else "false") else value

abbrev pub set_config : Option Input → TaskConfiguration → Env → Env
set_config none config env = env
set_config (some ci) config env = put config.name (config_value ci.type_ config.value) env

-- the loop over `nextExecution.Task.Configurations`
unfoldable pub add_configs : List Input → List TaskConfiguration → Env → Env
add_configs declared [] env = env
add_configs declared (config ∷ configs) env =
    add_configs declared configs (set_config (find_input config.name declared) config env)

abbrev pub add_parsed : Option Params → List Input → Env → Env
unfolding add_inputs
add_parsed none inputs env = env
add_parsed (some params) inputs env = add_inputs params inputs env

-- `parse` is the JSON decoder on a map, `fetched` the task's definition or the error of its provider.
unfoldable pub environment :
    (String → Option Params) → Result Error Definition → String → List TaskConfiguration → Env
unfolding add_inputs add_configs
environment parse (err e) parameters configs = []
environment parse (ok definition) parameters configs =
    add_configs definition.configuration configs
      (if parameters == "" then [] else add_parsed (parse parameters) definition.inputs [])
