-- ===== src/Api.antt =====
-- The runner API (internal/http/handler/runner): requests, answers, and how a handler runs.
pub mod Lookup
pub mod Environment
pub mod Poll
pub mod Transfer
pub mod Status
pub mod Auth
pub mod Trace
use oplet.Prelude.{
  first_row, ℕ, String, ◌==◌, Bool, Option, none, some, List, [], ◌∷◌, Result, ok, err,
  if◌then◌else◌,
}
use oplet.Prelude.Int.{ℤ, pos}
use oplet.Store.Rows.{Time, TaskExecution}
use oplet.Strconv.{parse_uint}
use oplet.Execution.{get_by_task_id}
use oplet.Store.Orm.{Error}
use oplet.Store.Session.{Database, Gorm, Exec}

-- models.go
pub record TaskRequestResponse : Type 0 where
  pub execution_id : ℕ
  pub task_id : ℕ
  pub image_ref : String
  pub environment : List (String × String)
  pub input_parameters : String
  pub runner_token : String
  pub inputs_dir : String
  pub outputs_dir : String
  pub created_at : Time

-- The message of an ErrorResponse by its kind; its wording is left out.
pub data Answer : Type 0 where
  internal_error validation_error not_found forbidden no_content : Answer
  -- TaskStatusResponse
  status_updated : ℕ → String → Answer
  -- TaskTraceResponse
  logs_added : ℕ → ℕ → Answer
  -- HeartbeatResponse
  heartbeat : ℕ → String → Answer
  task_assigned : TaskRequestResponse → Answer
  -- the list of input files: the execution, and the name, size and type of each
  input_list : ℕ → List (String × ℕ × String) → Answer
  -- a file's content, with its name, size and type
  input_file : String → ℕ → String → String → Answer
  -- TaskOutputsResponse
  outputs_stored : ℕ → ℕ → Answer

abbrev pub status_code : Answer → ℕ
status_code internal_error = 500
status_code validation_error = 400
status_code not_found = 404
status_code forbidden = 403
status_code no_content = 204
status_code (status_updated id status) = 200
status_code (logs_added id n) = 200
status_code (heartbeat id name) = 200
status_code (task_assigned response) = 200
status_code (input_list id files) = 200
status_code (input_file name size type_ content) = 200
status_code (outputs_stored id n) = 200

-- A request, as far as a handler reads it. `json` is what the strict JSON decoder answers on the
-- body, `none` for an error.
pub record Request (Body : Type 0) : Type 0 where
  pub authorization : String
  pub content_type : String
  pub task_id : String
  pub json : Option Body

-- A handler's steps: one of them may write the answer, and the handler then returns.
pub data Reply (A : Type 0) : Type 0 where
  respond : Answer → Reply A
  proceed : A → Reply A

abbrev pub Handler : Type 0 → Type 0
Handler A = Database → Reply A × Database

module _ {A B : Type 0} where
  abbrev pub follow : Reply A → (A → Handler B) → Handler B
  follow (respond a) f db = (respond a, db)
  follow (proceed a) f db = f a db

  infixl 5 ◌>>=◌
  abbrev pub ◌>>=◌ : Handler A → (A → Handler B) → Handler B
  ◌>>=◌ m f db = let (r, db') = m db in follow r f db'

infixl 5 ◌>>◌
abbrev pub ◌>>◌ : {B : Type 0} → Handler (Unit {0}) → Handler B → Handler B
m >> k = m >>= λ _. k

module _ {A : Type 0} where
  abbrev pub answer : Answer → Handler A
  answer a db = (respond a, db)

  abbrev pub attempt_value : Answer → Result Error A → Reply A
  attempt_value a (ok x) = proceed x
  attempt_value a (err e) = respond a

  -- `if err != nil { write a; return }`
  abbrev pub attempt : Answer → Exec A → Handler A
  attempt a m db = let (r, db') = m db in (attempt_value a r, db')

  -- an error that is only logged
  abbrev pub ignore : Exec A → Handler (Unit {0})
  ignore m db = (proceed tt, (m db).1)

  abbrev pub need_value : Answer → Option A → Reply A
  need_value a none = respond a
  need_value a (some x) = proceed x

  -- `if !found { write a; return }`
  abbrev pub need : Answer → Option A → Handler A
  need a o db = (need_value a o, db)

abbrev pub check_value : Answer → Bool → Reply (Unit {0})
check_value a b = if b then proceed tt else respond a

abbrev pub check : Answer → Bool → Handler (Unit {0})
check a b db = (check_value a b, db)

-- The path value of the task, read as a number, and the newest execution of that task: the part that
-- the handlers of /tasks/{taskID}/… share.
unfoldable pub find_execution : Gorm → String → Handler TaskExecution
find_execution gorm task_id = do
  id ← need validation_error (parse_uint 32 task_id)
  executions ← attempt internal_error (get_by_task_id gorm id (pos 1) (pos 0))
  need not_found (first_row executions)

-- What the client receives: every handler ends by writing an answer, `none` stands for a handler
-- that has not.
abbrev pub answer_of : {A : Type 0} → Reply A → Option Answer
answer_of (respond a) = some a
answer_of (proceed _) = none
