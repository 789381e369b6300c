-- ===== src/Runner.antt =====
-- The runner (internal/runner/runner.go): what it reports of an execution.
pub mod Reports
pub mod Streaming
pub mod Client
pub mod Inputs
pub mod Outputs
pub mod Tasks
use oplet.Prelude.{ℕ, String, ◌==◌, Bool, Option, none, some, List, map, nat_eq, if◌then◌else◌}
use oplet.Prelude.Int.{ℤ, is_zero}
use oplet.Store.Rows.{Time}
use oplet.Store.Status
use oplet.Api.Status.{TaskStatusRequest}
use oplet.Task.Executor.{
  ExecutionState, processing_request, pulling_image, image_pulled, creating_container,
  container_created, uploading_files, files_uploaded, starting_container, container_started,
  container_running, container_finished, downloading_files, files_downloaded, succeeded, failed,
  killed, Execution, ExecutionError,
}

abbrev pub map_execution_state_to_status : ExecutionState → String
map_execution_state_to_status processing_request = Status.pending
map_execution_state_to_status pulling_image = Status.pulling_image
map_execution_state_to_status image_pulled = Status.image_pulled
map_execution_state_to_status creating_container = Status.creating_container
map_execution_state_to_status container_created = Status.container_created
map_execution_state_to_status uploading_files = Status.uploading_files
map_execution_state_to_status files_uploaded = Status.files_uploaded
map_execution_state_to_status starting_container = Status.starting_container
map_execution_state_to_status container_started = Status.container_started
map_execution_state_to_status container_running = Status.running
map_execution_state_to_status container_finished = Status.finished
map_execution_state_to_status downloading_files = Status.downloading_files
map_execution_state_to_status files_downloaded = Status.files_downloaded
map_execution_state_to_status succeeded = Status.succeeded
map_execution_state_to_status failed = Status.failed
map_execution_state_to_status killed = Status.killed

-- `if !t.IsZero() { … = &t }`
abbrev unless_zero : Time → Option Time
unless_zero t = if nat_eq t 0 then none else some t

abbrev unless_success : ℤ → Option ℤ
unless_success code = if is_zero code then none else some code

-- `e.Error.Error()`; how an error is printed is an argument
abbrev error_text : (ExecutionError → String) → Option ExecutionError → String
error_text print none = ""
error_text print (some e) = print e

-- The request that createExecutionCallback posts; `now` is time.Now().UnixMicro().
unfoldable pub status_request : (ExecutionError → String) → ℤ → Execution → TaskStatusRequest
status_request print now e = record {
  status = map_execution_state_to_status e.state;
  container_id = e.container_id;
  exit_code = unless_success e.exit_code;
  error = error_text print e.error;
  started_at = unless_zero e.started_at;
  finished_at = unless_zero e.finished_at;
  timestamp = now;
}
