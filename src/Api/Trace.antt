-- ===== src/Api/Trace.antt =====
-- handleTaskTrace (internal/http/handler/runner/task.go) and the validation of its request
-- (internal/http/handler/runner/models.go).
pub mod Stored
use oplet.Prelude.{
  ℕ, String, ◌==◌, ◌&&◌, ◌||◌, not, Bool, true, false, Option, List, [], ◌∷◌, map, length, all,
  if◌then◌else◌,
}
use oplet.Prelude.Int.{ℤ, is_pos}
use oplet.Store.Rows.{TaskExecutionLog}
use oplet.Store.Session.{Gorm}
use oplet.Execution.{add_log}
use oplet.Api.{
  Reply, validation_error, logs_added, Request, Handler, ◌>>=◌, ◌>>◌, answer, need, check, ignore,
  find_execution,
}
use oplet.Api.Status.{present, new_model}

-- models.go
pub record LogEntry : Type 0 where
  pub timestamp : ℤ
  pub source : String
  pub message : String
  pub clock : ℕ

pub record TaskTraceRequest : Type 0 where
  pub logs : List LogEntry

-- the body of the loop of Validate, `true` if no return is taken
abbrev pub valid_entry : LogEntry → Bool
valid_entry log =
    if log.source == ""
    then false
    else if (not (log.source == "container") && not (log.source == "system"))
    then false
    else if log.message == ""
    then false
    else is_pos log.timestamp

-- Validate's tests on the entries, `true` if it returns nil
abbrev pub validate_logs : List LogEntry → Bool
validate_logs [] = false
validate_logs (log ∷ logs) = all valid_entry (log ∷ logs)

unfoldable pub validate : TaskTraceRequest → Bool
validate r = validate_logs r.logs

abbrev pub db_log : ℕ → LogEntry → TaskExecutionLog
db_log execution_id entry = record {
  model = new_model;
  execution_id = execution_id;
  timestamp = entry.timestamp;
  source = entry.source;
  clock = entry.clock;
  message = entry.message;
}

unfoldable pub read_trace : Request TaskTraceRequest → Handler TaskTraceRequest
read_trace r = do
  check validation_error (present r.task_id)
  check validation_error (r.content_type == "application/json")
  req ← need validation_error r.json
  check validation_error (validate req)
  λ db. (Reply.proceed req, db)

unfoldable pub handle_task_trace : Gorm → Request TaskTraceRequest → Handler (Unit {0})
unfolding read_trace find_execution
handle_task_trace gorm r = do
  req ← read_trace r
  exec ← find_execution gorm r.task_id
  let db_logs = map (db_log exec.id) req.logs
  ignore (add_log gorm exec.id db_logs)
  answer (logs_added exec.id (length db_logs))
