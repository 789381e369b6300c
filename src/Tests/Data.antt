-- ===== src/Tests/Data.antt =====
-- The rows and requests that the tests share.
use oplet.Prelude.{ℕ, none, some, [], ◌∷◌, List}
use oplet.Store.Rows.{Time, Model, TaskExecution}
use oplet.Store.Session.{Database}
use oplet.Crypto.{Random}

abbrev pub model : ℕ → Time → Model
model n created = record { id = n; created_at = created; deleted_at = none }

-- an execution of `task` that waits for a runner
abbrev pub pending : ℕ → ℕ → Time → TaskExecution
pending n task created = record {
  model = model n created;
  task_id = task;
  user_id = 1;
  container_id = "";
  status = "pending";
  exit_code = none;
  error_message = "";
  runner_token = "";
  started_at = none;
  finished_at = none;
  input_parameters = "{}";
}

abbrev pub database : List TaskExecution → Database
database executions = record {
  tasks = [];
  executions = executions;
  logs = [];
  files = [];
  users = [];
  runners = [];
  seeds = [];
  configurations = [];
}

-- a source whose bytes are always one byte 171
abbrev pub one_byte : Random
one_byte n = some (171 ∷ [])
