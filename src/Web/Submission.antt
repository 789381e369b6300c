-- ===== src/Web/Submission.antt =====
-- The submission of a task's form (internal/http/handler/webui/task/new_task.go). The form's own
-- work, its validation, and the JSON encoder are parameters.
pub mod Queued
pub mod Delivered
use Prim.Native.String
use oplet.Prelude.{
  ℕ, String, ◌==◌, Bool, true, false, Option, none, some, List, [], ◌∷◌, map, Result, ok, err,
  if◌then◌else◌, not,
}
use oplet.Prelude.Int.{ℤ, negsuc}
use oplet.Crypto.{Random}
use oplet.Store.Rows.{Time, User, TaskExecution, TaskExecutionFile}
use oplet.Store.Orm.{Error}
use oplet.Store.Session.{Database, Gorm}
use oplet.Store.Status
use oplet.Execution.{create, add_file, set_completed}
use oplet.Storage.{Disk, Os, StoredFile, store_input_file}
use oplet.Api.Status.{new_model}
use oplet.Api.Environment.{Param, bool_param, other_param, Params}
use oplet.Api.Transfer.{State}
use oplet.Task.Label.Definition.{Input}

-- The files of a field: their names, and of the first one its content if it can be opened, and what
-- the system does when it is stored.
pub record Uploaded : Type 0 where
  pub original_names : List String
  pub opened : Result String String
  pub os : Os

-- What the form holds: whether `Handle` succeeds, whether it is valid, and its values and files.
pub record Form : Type 0 where
  pub handled : Bool
  pub valid : Bool
  pub values : List (String × String)
  pub files : List (String × Uploaded)

pub data Page : Type 0 where
  forbidden_page error_page form_page : Page
  -- the redirection to an execution of a task
  progress : ℕ → ℕ → Page

-- inputTypes[key]; the last input of a name counts
abbrev pub input_type : String → List Input → Option String
input_type key [] = none
input_type key (input ∷ inputs) = elim (input_type key inputs) [
  | some t ↦ some t
  | none ↦ if input.name == key then some input.type_ else none
]

abbrev pub value_param : Option String → String → Param
value_param none value = other_param value
value_param (some t) value =
    if t == "boolean" then bool_param (value == "on") else other_param value

-- the loop over the values
unfoldable pub form_params : List Input → List (String × String) → Params
form_params inputs [] = []
form_params inputs ((key, value) ∷ values) =
    (key, value_param (input_type key inputs) value) ∷ form_params inputs values

-- `encode` is json.Marshal on the parameters and the names of the files of each field, `none` for an error.
unfoldable pub marshal_input_parameters :
    (Params → List (String × List String) → Option String) → List Input → Form → String
unfolding form_params
marshal_input_parameters encode inputs form =
    elim (encode (form_params inputs form.values)
      (map (λ (f : String × Uploaded). (f.0, f.1.original_names)) form.files)) [
        | none ↦ "{}"
        | some text ↦ text
      ]

-- files[input.Name]
abbrev pub find_upload : String → List (String × Uploaded) → Option Uploaded
find_upload name [] = none
find_upload name ((key, u) ∷ files) =
    let rest = find_upload name files in if key == name then some u else rest

abbrev pub input_row : ℕ → StoredFile → TaskExecutionFile
input_row execution_id stored = record {
  model = new_model;
  execution_id = execution_id;
  filename = stored.original_name;
  file_path = stored.stored_path;
  file_size = stored.size;
  mime_type = stored.mime_type;
  is_output = false;
}

-- errors.Wrapf with a message about a name
abbrev about : String → String → String → String
about message name e = String.◌++◌ (String.◌++◌ message name) (String.◌++◌ ": " e)

module _ (gorm : Gorm) (base : String) (execution_id : ℕ) where
  -- A row that cannot be recorded is only logged.
  abbrev pub record_input :
      String → Result String StoredFile → State → Result String (Unit {0}) × State
  record_input name (err e) s = (err (about "failed to store input file " name e), s)
  record_input name (ok stored) (db, disk) =
      (ok tt, ((add_file gorm execution_id (input_row execution_id stored) db).1, disk))

  abbrev store_content :
      String → Os → Result String String → State → Result String (Unit {0}) × State
  store_content name os (err e) s = (err (about "failed to open uploaded file " name e), s)
  store_content name os (ok content) (db, disk) =
      let (r, disk') = store_input_file base execution_id name content os disk in
      record_input name r (db, disk')

  -- the body of the loop for an input that is a file
  abbrev pub store_input : Input → Option Uploaded → State → Result String (Unit {0}) × State
  store_input input none s =
      if input.required
      then (err (String.◌++◌ (String.◌++◌ "required file " input.name) " not provided"), s)
      else (ok tt, s)
  store_input input (some u) s = store_content input.name u.os u.opened s

  -- `return err` in the loop
  abbrev pub unless_err :
      Result String (Unit {0}) × State
      → (State → Result String (Unit {0}) × State)
      → Result String (Unit {0}) × State
  unless_err (err e, s) rest = (err e, s)
  unless_err (ok done, s) rest = rest s

  abbrev pub store_if_file :
      List (String × Uploaded) → Input → State → Result String (Unit {0}) × State
  store_if_file files input s =
      if input.type_ == "file"
      then store_input input (find_upload input.name files) s
      else (ok tt, s)

  unfoldable pub store_input_files :
      List (String × Uploaded) → List Input → State → Result String (Unit {0}) × State
  store_input_files files [] s = (ok tt, s)
  store_input_files files (input ∷ inputs) s =
      unless_err (store_if_file files input s) (λ s'. store_input_files files inputs s')

module _ (gorm : Gorm) (base : String) (random : Random) (now : Time)
    (encode : Params → List (String × List String) → Option String) where
  abbrev pub new_execution : ℕ → ℕ → String → TaskExecution
  new_execution task_id user_id parameters = record {
    model = new_model;
    task_id = task_id;
    user_id = user_id;
    container_id = "";
    status = Status.pending;
    exit_code = none;
    error_message = "";
    runner_token = "";
    started_at = none;
    finished_at = none;
    input_parameters = parameters;
  }

  -- what follows storeInputFiles
  abbrev pub after_files : TaskExecution → Result String (Unit {0}) × State → Page × State
  after_files e (ok done, s) = (progress e.task_id e.id, s)
  after_files e (err m, (db, disk)) =
      (error_page, ((set_completed gorm e.id (negsuc 0) m now db).1, disk))

  -- what follows Create
  abbrev pub after_create :
      List Input → List (String × Uploaded) → Result Error TaskExecution → State → Page × State
  after_create inputs files (err e) s = (error_page, s)
  after_create inputs files (ok e) s =
      after_files e (store_input_files gorm base e.id files inputs s)

  abbrev pub submit : ℕ → List Input → Form → User → State → Page × State
  submit task_id inputs form user (db, disk) =
      let parameters = marshal_input_parameters encode inputs form in
      let (r, db') = create gorm random (new_execution task_id user.id parameters) db in
      after_create inputs form.files r (db', disk)

  unfoldable pub handle_new_task_submission :
      Option User → ℕ → List Input → Form → State → Page × State
  unfolding store_input_files
  handle_new_task_submission none task_id inputs form s = (forbidden_page, s)
  handle_new_task_submission (some user) task_id inputs form s =
      if not form.handled
      then (error_page, s)
      else if not form.valid
      then (form_page, s)
      else submit task_id inputs form user s
