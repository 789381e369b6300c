-- ===== src/Web/Submission/Delivered.antt =====
-- From a submitted form to the environment of the container.
use oplet.Store.Rows.{TaskConfiguration}
use oplet.Prelude.{
  String, ◌==◌, ◌≡◌, ◌≢◌, inl, inr, false, Option, none, some, List, [], ◌∷◌, Memᴰ, All, Bool-cases,
  equal_texts, if◌then◌else◌,
}
use oplet.Task.Label.Definition.{Input, Definition}
use oplet.Api.Environment.{Env, Params, bool_text, find_param, set_param}

not_equal : (a b : String) → a ≢ b → (a == b) ≡ false
not_equal a b ne = elim (Bool-cases (a == b)) [
  | inl e ↦ elim (ne (equal_texts a b e)) [ ]
  | inr e ↦ e
]

-- values[name]
abbrev pub find_value : String → List (String × String) → Option String
find_value name [] = none
find_value name ((key, v) ∷ values) =
    let rest = find_value name values in if key == name then some v else rest

-- The input is the only one of its name.
abbrev pub IsOnly : Input → List Input → Type 0
IsOnly input inputs = (i : Input) → Memᴰ i inputs → i.name ≡ input.name → i ≡ input

module _ (input : Input) (params : Params) (value : String) where
  abbrev step_env : Input → Env → Env
  step_env i env = if i.type_ == "file" then env else set_param i (find_param i.name params) env

-- No configuration of the task has this name.
abbrev pub Unconfigured : String → List TaskConfiguration → Type 0
Unconfigured k configs = All (λ (c : TaskConfiguration). (c.name == k) ≡ false) configs

-- what the container reads for a submitted value
abbrev pub delivered : String → String → String
delivered type_ v = if type_ == "boolean" then bool_text (v == "on") else v
