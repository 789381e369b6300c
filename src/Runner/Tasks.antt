-- ===== src/Runner/Tasks.antt =====
-- executeNextTask and executeTask (internal/runner/runner.go): the statuses that the runner posts
-- itself, and the request that it hands to its executor.
pub mod Executed
use Prim.Native.String
use oplet.Prelude.{String, Option, none, some, List, [], ◌∷◌, Result, ok, err, ℕ}
use oplet.Prelude.Int.{pos}
use oplet.Store.Rows.{Time}
use oplet.Store.Status
use oplet.Api.{Answer, TaskRequestResponse}
use oplet.Api.Status.{TaskStatusRequest}
use oplet.Task.Executor.{ExecutionRequest}
use oplet.Runner.Client.{Response, request_task}
use oplet.Runner.Inputs.{download_input_files}

-- What one turn does: the statuses posted, in order, the request given to the executor, and the error.
pub record Turn : Type 0 where
  pub posted : List TaskStatusRequest
  pub executed : Option ExecutionRequest
  pub failure : Option String

abbrev pub started_status : Time → TaskStatusRequest
started_status now = record {
  status = Status.pulling_image;
  container_id = "";
  exit_code = none;
  error = "";
  started_at = some now;
  finished_at = none;
  timestamp = pos 0;
}

abbrev pub failed_status : Time → String → TaskStatusRequest
failed_status now e = record {
  status = Status.failed;
  container_id = "";
  exit_code = none;
  error = e;
  started_at = none;
  finished_at = some now;
  timestamp = pos 0;
}

-- Nothing is done without a task.
abbrev pub idle : Option String → Turn
idle e = record { posted = []; executed = none; failure = e }

-- The server's responses go by the number of the task. `now` and `later` are the times of the two statuses, `execute` is what the executor's Execute answers:
-- an error, or nil.
module _ (print : Answer → String) (fetch : ℕ → String → Response) (listing : ℕ → Response)
    (now later : Time) (execute : ExecutionRequest → Option String) where
  abbrev pub execution_request : TaskRequestResponse → List (String × String) → ExecutionRequest
  execution_request task inputs = record {
    image_ref = task.image_ref;
    environment = task.environment;
    inputs = inputs;
  }

  abbrev pub after_execute : ExecutionRequest → Option String → Turn
  after_execute request none = record {
    posted = started_status now ∷ [];
    executed = some request;
    failure = none;
  }
  after_execute request (some e) = record {
    posted = started_status now ∷ failed_status later e ∷ [];
    executed = some request;
    failure = some (String.◌++◌ "task execution failed: " e);
  }

  abbrev pub run_with : TaskRequestResponse → Result String (List (String × String)) → Turn
  run_with task (err e) = record {
    posted = started_status now ∷ failed_status later e ∷ [];
    executed = none;
    failure = some (String.◌++◌ "failed to download input files: " e);
  }
  run_with task (ok inputs) =
      let request = execution_request task inputs in after_execute request (execute request)

  unfoldable pub execute_task : TaskRequestResponse → Turn
  execute_task task =
      run_with task (download_input_files print (fetch task.task_id) (listing task.task_id))

  abbrev pub take_turn : Result String (Option TaskRequestResponse) → Turn
  take_turn (err e) = idle (some (String.◌++◌ "failed to request task: " e))
  take_turn (ok none) = idle none
  take_turn (ok (some task)) = execute_task task

  unfoldable pub execute_next_task : Response → Turn
  unfolding execute_task
  execute_next_task response = take_turn (request_task response)
