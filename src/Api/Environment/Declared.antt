-- ===== src/Api/Environment/Declared.antt =====
-- Where the variables of an execution's environment come from.
use oplet.Store.Rows.{TaskConfiguration}
use oplet.Prelude.{String, ◌==◌, ◌≡◌, ◌⊎◌, false, Option, some, List, Memᴰ}
use oplet.Task.Label.Definition.{Input, Definition}
use oplet.Api.Environment.{Env, Params, Param, input_value, find_param, config_value}

module _ (definition : Definition) where
  -- A submitted parameter, for an input of the definition that is not a file.
  pub record FromInput (params : Params) (k v : String) : Type 0 where
    pub input : Input
    pub param : Param
    pub member : Memᴰ input definition.inputs
    pub named : input.name ≡ k
    pub no_file : (input.type_ == "file") ≡ false
    pub found : find_param k params ≡ some param
    pub value : input_value input.type_ param ≡ some v

  -- A configuration of the task, for a configuration of the definition.
  pub record FromConfig (configs : List TaskConfiguration) (k v : String) : Type 0 where
    pub declared : Input
    pub config : TaskConfiguration
    pub declared_member : Memᴰ declared definition.configuration
    pub declared_named : declared.name ≡ k
    pub member : Memᴰ config configs
    pub named : config.name ≡ k
    pub value : v ≡ config_value declared.type_ config.value

-- Every variable has this property.
abbrev Only : (String → String → Type 0) → Env → Type 0
Only P env = (k v : String) → Memᴰ (k, v) env → P k v

module _ (parse : String → Option Params) (definition : Definition) (parameters : String) where
  -- Where a variable comes from: a parameter that was submitted for an input that is not a file, or
  -- a configuration of the task that the definition declares.
  abbrev pub Declared : List TaskConfiguration → String → String → Type 0
  Declared configs k v =
      ((params : Params) × (parse parameters ≡ some params) × FromInput definition params k v)
      ⊎ FromConfig definition configs k v
