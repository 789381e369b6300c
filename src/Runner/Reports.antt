-- ===== src/Runner/Reports.antt =====
-- The statuses that a run leaves on the server.
use oplet.Prelude.{
  if◌then◌else◌, ◌==◌, String, ◌≡◌, refl, ap, sym, ◌∙◌, Option, none, some, List, [], ◌∷◌,
  Bool-cases, inl, inr,
}
use oplet.Prelude.Int.{ℤ, is_zero}
use oplet.Store.Status
use oplet.Store.Rows.{TaskExecution}
use oplet.Api.Status.{apply_status}
use oplet.Task.Executor.{
  ExecutionState, Execution, ExecutionError, ExecutionRequest, Docker, processing_request,
  pulling_image, image_pulled, creating_container, container_created, uploading_files,
  files_uploaded, starting_container, container_started, container_running, container_finished,
  downloading_files, files_downloaded, succeeded, failed, killed, execute, Wait, cancelled, broken,
  exited,
}
use oplet.Task.Executor.Outcome.{last_state, outcome, execute-outcome, after_wait, is_started}
use oplet.Runner.{map_execution_state_to_status, status_request}

-- a left inverse of the map of states to statuses
state_of : String → Option ExecutionState
state_of s =
    if s == Status.pending
    then some processing_request
    else if s == Status.pulling_image
    then some pulling_image
    else if s == Status.image_pulled
    then some image_pulled
    else if s == Status.creating_container
    then some creating_container
    else if s == Status.container_created
    then some container_created
    else if s == Status.uploading_files
    then some uploading_files
    else if s == Status.files_uploaded
    then some files_uploaded
    else if s == Status.starting_container
    then some starting_container
    else if s == Status.container_started
    then some container_started
    else if s == Status.running
    then some container_running
    else if s == Status.finished
    then some container_finished
    else if s == Status.downloading_files
    then some downloading_files
    else if s == Status.files_downloaded
    then some files_downloaded
    else if s == Status.succeeded
    then some succeeded
    else if s == Status.failed
    then some failed
    else if s == Status.killed
    then some killed
    else none

state_of-map : (s : ExecutionState) → state_of (map_execution_state_to_status s) ≡ some s
unfolding state_of
state_of-map processing_request = refl
state_of-map pulling_image = refl
state_of-map image_pulled = refl
state_of-map creating_container = refl
state_of-map container_created = refl
state_of-map uploading_files = refl
state_of-map files_uploaded = refl
state_of-map starting_container = refl
state_of-map container_started = refl
state_of-map container_running = refl
state_of-map container_finished = refl
state_of-map downloading_files = refl
state_of-map files_downloaded = refl
state_of-map succeeded = refl
state_of-map failed = refl
state_of-map killed = refl

-- Two states that are reported as the same status are equal.
pub map_execution_state_to_status-injective :
    (s t : ExecutionState)
    → map_execution_state_to_status s ≡ map_execution_state_to_status t
    → s ≡ t
map_execution_state_to_status-injective s t same =
    let g : some s ≡ some t = sym (state_of-map s) ∙ ap state_of same ∙ state_of-map t in cc

-- The row after the posts of createExecutionCallback for these executions, if the server applies
-- each of them to it. `clock` gives the time of each post.
unfoldable pub record_reports :
    (ExecutionError → String) → (Execution → ℤ) → List Execution → TaskExecution → TaskExecution
record_reports print clock [] row = row
record_reports print clock (e ∷ es) row =
    record_reports print clock es (apply_status (status_request print (clock e) e) row)

record_reports-status :
    (print : ExecutionError → String) (clock : Execution → ℤ) (s : ExecutionState)
    (es : List Execution) (row : TaskExecution)
    → row.status ≡ map_execution_state_to_status s
    → (record_reports print clock es row).status ≡ map_execution_state_to_status (last_state s es)
unfolding record_reports apply_status status_request
record_reports-status print clock s [] row here = here
record_reports-status print clock s (e ∷ es) row here =
    record_reports-status print clock e.state es
      (apply_status (status_request print (clock e) e) row) refl

-- The status that tells a client how a run ended.
pub data Tells : ExecutionState → String → Type 0 where
  tells_succeeded : Tells succeeded "succeeded"
  tells_failed : Tells failed "failed"
  tells_killed : Tells killed "killed"

after_wait-Tells : (w : Wait) → Tells (after_wait w) (map_execution_state_to_status (after_wait w))
after_wait-Tells cancelled = tells_killed
after_wait-Tells (broken (some cause)) = tells_failed
after_wait-Tells (broken none) = tells_succeeded
after_wait-Tells (exited code now) = elim (Bool-cases (is_zero code)) [
  | inl zero ↦ rw zero tells_succeeded
  | inr nonzero ↦ rw nonzero tells_failed
]

outcome-Tells :
    (docker : Docker) (req : ExecutionRequest)
    → Tells (outcome docker req) (map_execution_state_to_status (outcome docker req))
outcome-Tells docker req = elim (Bool-cases (is_started docker req)) [
  | inl ran ↦ rw ran (after_wait-Tells docker.wait)
  | inr lost ↦ rw lost tells_failed
]

-- If a pending row takes all reports of a run in order, then its status is "succeeded", "failed" or
-- "killed", as the outcome of the run is.
pub execute-recorded :
    (print : ExecutionError → String) (clock : Execution → ℤ) (docker : Docker)
    (req : ExecutionRequest) (row : TaskExecution)
    → row.status ≡ Status.pending
    → Tells (outcome docker req) (record_reports print clock (execute docker req) row).status
execute-recorded print clock docker req row waiting =
    rw
      (
        record_reports-status print clock processing_request (execute docker req) row waiting,
        execute-outcome docker req,
      )
      (outcome-Tells docker req)
