-- ===== src/Api/Status.antt =====
-- handleTaskStatus (internal/http/handler/runner/handler.go), behind assertRunner: the runner that it
-- puts in the context is there, and the handler only logs it.
pub mod Updates
pub mod Misdirected
use Prim.Native.String
use oplet.Prelude.{ℕ, String, ◌==◌, not, Bool, Option, none, some, [], ◌∷◌, if◌then◌else◌}
use oplet.Prelude.Int.{ℤ, to_uint64}
use oplet.Store.Rows.{Time, TaskExecution, TaskExecutionLog, Model}
use oplet.Store.Session.{Gorm}
use oplet.Execution.{update, add_log}
use oplet.Api.{
  Reply, internal_error, validation_error, status_updated, Request, Handler, ◌>>=◌, ◌>>◌, answer,
  need, check, attempt, ignore, find_execution,
}

-- models.go
pub record TaskStatusRequest : Type 0 where
  pub status : String
  pub container_id : String
  pub exit_code : Option ℤ
  pub error : String
  pub started_at : Option Time
  pub finished_at : Option Time
  pub timestamp : ℤ

-- the path value, ErrInvalidRequest if it is empty
abbrev pub present : String → Bool
present s = not (s == "")

abbrev pub text_or : String → String → String
text_or new old = if new == "" then old else new

abbrev pub value_or : {A : Type 0} → Option A → Option A → Option A
value_or none old = old
value_or (some new) old = some new

-- the assignments to `exec`
unfoldable pub apply_status : TaskStatusRequest → TaskExecution → TaskExecution
apply_status req exec = record exec {
  status = req.status;
  container_id = text_or req.container_id exec.container_id;
  exit_code = value_or req.exit_code exec.exit_code;
  error_message = text_or req.error exec.error_message;
  started_at = value_or req.started_at exec.started_at;
  finished_at = value_or req.finished_at exec.finished_at;
}

abbrev pub new_model : Model
new_model = record { id = 0; created_at = 0; deleted_at = none }

-- the log entry for the change
unfoldable pub status_log : ℕ → TaskStatusRequest → TaskExecutionLog
status_log execution_id req = record {
  model = new_model;
  execution_id = execution_id;
  timestamp = req.timestamp;
  source = "system";
  clock = to_uint64 req.timestamp;
  message = String.◌++◌ "Status changed to: " req.status;
}

-- the path value, the JSON body and `Validate`
unfoldable pub read_status : Request TaskStatusRequest → Handler TaskStatusRequest
read_status r = do
  check validation_error (present r.task_id)
  check validation_error (r.content_type == "application/json")
  req ← need validation_error r.json
  check validation_error (present req.status)
  λ db. (Reply.proceed req, db)

unfoldable pub handle_task_status : Gorm → Request TaskStatusRequest → Handler (Unit {0})
unfolding read_status find_execution apply_status status_log
handle_task_status gorm r = do
  req ← read_status r
  exec ← find_execution gorm r.task_id
  let exec' = apply_status req exec
  attempt internal_error (update gorm exec')
  ignore (add_log gorm exec'.id (status_log exec'.id req ∷ []))
  answer (status_updated exec'.id req.status)
