-- ===== src/Api/Transfer.antt =====
-- handleTaskInputs and handleTaskOutputs (internal/http/handler/runner/task.go), behind assertRunner.
pub mod Inputs
pub mod Outputs
use oplet.Store.Orm.{Error}
use oplet.Prelude.{
  ℕ, suc, ◌+◌, String, ◌==◌, Bool, true, false, Option, none, some, List, [], ◌∷◌, map, Result, ok,
  err, if◌then◌else◌,
}
use oplet.Store.Rows.{TaskExecution, TaskExecutionFile}
use oplet.Store.Session.{Database, Gorm}
use oplet.Execution.{add_file, get_files}
use oplet.Storage.{Disk, Os, StoredFile, get_file, store_output_file}
use oplet.Api.{
  Answer, internal_error, validation_error, not_found, input_list, input_file, outputs_stored,
  Reply, respond, proceed, Handler, ◌>>=◌, ◌>>◌, answer, need, check, attempt, find_execution,
}
use oplet.Api.Status.{present, new_model}

-- The path value of the task and the query's file name.
pub record InputsRequest : Type 0 where
  pub task_id : String
  pub file : String

-- the search for the file in downloadInputFile
abbrev pub find_file : String → List TaskExecutionFile → Option TaskExecutionFile
find_file name [] = none
find_file name (f ∷ files) =
    let rest = find_file name files in if f.filename == name then some f else rest

-- An error while the content is sent comes after the status and is only logged.
unfoldable pub download_input_file : Disk → String → List TaskExecutionFile → Handler (Unit {0})
download_input_file disk name files = do
  target ← need not_found (find_file name files)
  content ← need internal_error (get_file target.file_path disk)
  answer (input_file target.filename target.file_size target.mime_type content)

abbrev pub listed : TaskExecutionFile → String × ℕ × String
listed f = (f.filename, f.file_size, f.mime_type)

abbrev pub answer_inputs : Disk → String → ℕ → List TaskExecutionFile → Handler (Unit {0})
answer_inputs disk file execution_id files =
    if file == ""
    then answer (input_list execution_id (map listed files))
    else download_input_file disk file files

unfoldable pub handle_task_inputs : Gorm → Disk → InputsRequest → Handler (Unit {0})
unfolding find_execution
handle_task_inputs gorm disk r = do
  check validation_error (present r.task_id)
  exec ← find_execution gorm r.task_id
  files ← attempt internal_error (get_files gorm exec.id false)
  answer_inputs disk r.file exec.id files

-- A part of the multipart form: its name, less the folders before it, its content if it can be
-- opened, and what the system does when it is stored.
pub record Upload : Type 0 where
  pub base_name : String
  pub opened : Result String String
  pub os : Os

-- `form` is what ParseMultipartForm answers, `none` for an error; its parts are in the order in which
-- the loops visit them.
pub record OutputsRequest : Type 0 where
  pub task_id : String
  pub form : Option (List Upload)

abbrev pub output_row : ℕ → StoredFile → TaskExecutionFile
output_row execution_id stored = record {
  model = new_model;
  execution_id = execution_id;
  filename = stored.original_name;
  file_path = stored.stored_path;
  file_size = stored.size;
  mime_type = stored.mime_type;
  is_output = true;
}

abbrev pub State : Type 0
State = Database × Disk

-- whether the file was recorded, and the tables after it
abbrev recorded : Result Error TaskExecutionFile → Bool
recorded (ok row) = true
recorded (err e) = false

unfoldable pub record_output : Gorm → ℕ → Result String StoredFile → Database → Bool × Database
record_output gorm execution_id (err e) db = (false, db)
record_output gorm execution_id (ok stored) db =
    let (r, db') = add_file gorm execution_id (output_row execution_id stored) db in
    (recorded r, db')

-- storeOutputFile, `true` for a nil error
unfoldable pub store_output : Gorm → String → ℕ → Upload → State → Bool × State
store_output gorm base execution_id upload (db, disk) = elim upload.opened [
  | err e ↦ (false, (db, disk))
  | ok content ↦
      let (r, disk') =
        store_output_file base execution_id upload.base_name content upload.os disk in
      let (done, db') = record_output gorm execution_id r db in (done, (db', disk'))
]

-- the loops over the parts, with the count of those that were stored
unfoldable pub store_outputs : Gorm → String → ℕ → List Upload → ℕ → State → ℕ × State
unfolding store_output
store_outputs gorm base execution_id [] n s = (n, s)
store_outputs gorm base execution_id (upload ∷ uploads) n s =
    let (done, s') = store_output gorm base execution_id upload s in
    store_outputs gorm base execution_id uploads (if done then suc n else n) s'

-- what comes before the loops
unfoldable pub read_outputs : Gorm → OutputsRequest → Handler (TaskExecution × List Upload)
unfolding find_execution
read_outputs gorm r = do
  check validation_error (present r.task_id)
  uploads ← need validation_error r.form
  exec ← find_execution gorm r.task_id
  λ db. (proceed (exec, uploads), db)

abbrev pub finish_outputs :
    Gorm → String → Reply (TaskExecution × List Upload) → State → Answer × State
unfolding store_outputs
finish_outputs gorm base (respond a) s = (a, s)
finish_outputs gorm base (proceed (exec, uploads)) s =
    let (n, s') = store_outputs gorm base exec.id uploads 0 s in (outputs_stored exec.id n, s')

unfoldable pub handle_task_outputs : Gorm → String → OutputsRequest → State → Answer × State
unfolding read_outputs store_outputs
handle_task_outputs gorm base r (db, disk) =
    let (reply, db') = read_outputs gorm r db in finish_outputs gorm base reply (db', disk)
