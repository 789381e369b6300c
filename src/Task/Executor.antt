-- ===== src/Task/Executor.antt =====
-- The executor interface (internal/task/executor.go) and the Docker executor's Execute
-- (internal/task/docker/executor.go), as the list of the executions that it hands to OnChange.
pub mod Trace
pub mod Outcome
pub mod Logs
pub mod Container
use oplet.Prelude.{
  ℕ, String, Bool, true, false, not, Option, none, some, List, [], ◌∷◌, Result, ok, err,
  if◌then◌else◌,
}
use oplet.Prelude.Int.{ℤ, pos, is_zero}
use oplet.Store.Rows.{Time}
use Prim.Native.String

pub data ExecutionState : Type 0 where
  processing_request pulling_image image_pulled creating_container container_created uploading_files
        files_uploaded starting_container container_started container_running container_finished
        downloading_files files_downloaded succeeded failed killed :
      ExecutionState

pub data ExecutionErrorType : Type 0 where
  image_pull_failed file_upload_failed file_download_failed docker_daemon_error : ExecutionErrorType

pub record ExecutionError : Type 0 where
  pub type_ : ExecutionErrorType
  pub message : String
  pub container_id : String
  -- none where the code wraps a nil error
  pub cause : Option String

-- a member of the archive of the container's outputs
pub record OutputFile : Type 0 where
  pub name : String
  pub is_dir : Bool
  pub content : String

pub record Execution : Type 0 where
  pub container_id : String
  pub state : ExecutionState
  pub exit_code : ℤ
  pub started_at : Time
  pub finished_at : Time
  pub error : Option ExecutionError
  pub outputs : Option (List OutputFile)

pub record ExecutionRequest : Type 0 where
  pub image_ref : String
  pub environment : List (String × String)
  pub inputs : List (String × String)

-- What ends the wait: the context, an answer on the error channel, or the container's exit.
pub data Wait : Type 0 where
  cancelled : Wait
  broken : Option String → Wait
  exited : ℤ → Time → Wait

-- What the Docker daemon answers during one run, an error as `some` or `err`.
pub record Docker : Type 0 where
  pub pull : Option String
  pub create : Result String String
  pub upload : Option String
  pub start : Option String
  pub started_at : Time
  pub wait : Wait
  pub copy : Result String (List OutputFile)

abbrev pub new_execution : Execution
new_execution = record {
  container_id = "";
  state = ExecutionState.processing_request;
  exit_code = pos 0;
  started_at = 0;
  finished_at = 0;
  error = none;
  outputs = none;
}

abbrev pub enter : ExecutionState → Execution → Execution
enter s e = record e { state = s }

-- a failure's last execution
abbrev pub stop :
    ExecutionState → ExecutionErrorType → String → Option String → Execution → List Execution
stop s t message cause e =
    record e {
      state = s;
      error =
          some
            record { type_ = t; message = message; container_id = e.container_id; cause = cause };
    }
    ∷ []

-- downloadFiles: a failed copy is an empty output directory
abbrev pub download_files : Result String (List OutputFile) → Option (List OutputFile)
download_files (ok files) = some files
download_files (err cause) = none

-- from `failed := execution.ExitCode != 0` on
unfoldable pub complete : Docker → Execution → List Execution
complete docker e =
    if is_zero e.exit_code
    then (let e' = record e { outputs = download_files docker.copy } in
        enter ExecutionState.downloading_files e
        ∷ enter ExecutionState.files_downloaded e'
        ∷ enter ExecutionState.succeeded e'
        ∷ [])
    else enter ExecutionState.failed e ∷ []

unfoldable pub await : Docker → Wait → Execution → List Execution
await docker cancelled e =
    stop ExecutionState.killed docker_daemon_error "error waiting for container" none e
await docker (broken (some cause)) e =
    stop ExecutionState.failed docker_daemon_error "error waiting for container" (some cause) e
await docker (broken none) e = complete docker e
await docker (exited code now) e =
    let e' = record e { exit_code = code; finished_at = now } in
    enter ExecutionState.container_finished e'
    ∷ complete docker (enter ExecutionState.container_finished e')

unfoldable pub start_container : Docker → Option String → Execution → List Execution
start_container docker (some cause) e =
    stop ExecutionState.failed docker_daemon_error "failed to start container" (some cause) e
start_container docker none e =
    enter ExecutionState.container_started e
    ∷ await docker docker.wait (enter ExecutionState.container_started e)

unfoldable pub starting : Docker → Execution → List Execution
starting docker e =
    let e' = record e {
      started_at = docker.started_at;
      state = ExecutionState.starting_container;
    } in
    e' ∷ start_container docker docker.start e'

unfoldable pub after_upload : Docker → Option String → Execution → List Execution
after_upload docker (some cause) e =
    stop ExecutionState.failed file_upload_failed "failed to upload files to container" (some cause)
      e
after_upload docker none e =
    enter ExecutionState.files_uploaded e ∷ starting docker (enter ExecutionState.files_uploaded e)

-- `if len(req.Inputs) > 0`
unfoldable pub upload_files : Docker → List (String × String) → Execution → List Execution
upload_files docker [] e = starting docker e
upload_files docker (input ∷ inputs) e =
    enter ExecutionState.uploading_files e
    ∷ after_upload docker docker.upload (enter ExecutionState.uploading_files e)

unfoldable pub after_create :
    Docker → ExecutionRequest → Result String String → Execution → List Execution
after_create docker req (err cause) e =
    stop ExecutionState.failed docker_daemon_error "failed to create container" (some cause) e
after_create docker req (ok id) e =
    let e' = record e { container_id = id; state = ExecutionState.container_created } in
    e' ∷ upload_files docker req.inputs e'

unfoldable pub after_pull : Docker → ExecutionRequest → Option String → Execution → List Execution
after_pull docker req (some cause) e =
    stop ExecutionState.failed image_pull_failed (String.◌++◌ "failed to pull image " req.image_ref)
      (some cause) e
after_pull docker req none e =
    enter ExecutionState.image_pulled e
    ∷ enter ExecutionState.creating_container e
    ∷ after_create docker req docker.create (enter ExecutionState.creating_container e)

-- the executions that OnChange receives, in order
unfoldable pub execute : Docker → ExecutionRequest → List Execution
execute docker req =
    new_execution
    ∷ enter ExecutionState.pulling_image new_execution
    ∷ after_pull docker req docker.pull (enter ExecutionState.pulling_image new_execution)
