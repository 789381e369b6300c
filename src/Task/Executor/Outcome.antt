-- ===== src/Task/Executor/Outcome.antt =====
-- How a run of Execute ends, by what the daemon answered.
use oplet.Prelude.{
  String, ◌≡◌, refl, Bool, true, false, ◌&&◌, Option, none, some, List, [], ◌∷◌, Result, ok, err,
  Bool-cases, if◌then◌else◌, inl, inr,
}
use oplet.Prelude.Int.{is_zero}
use oplet.Task.Executor.{
  ExecutionState, succeeded, failed, killed, Execution, ExecutionRequest, Docker, Wait, cancelled,
  broken, exited, complete, await, start_container, starting, after_upload, upload_files,
  after_create, after_pull, execute, processing_request,
}

-- the state that a list of executions ends in, `s` before the first
abbrev pub last_state : ExecutionState → List Execution → ExecutionState
last_state s [] = s
last_state s (e ∷ es) = last_state e.state es

abbrev pub went_well : Option String → Bool
went_well none = true
went_well (some cause) = false

abbrev pub is_created : Result String String → Bool
is_created (ok id) = true
is_created (err cause) = false

abbrev pub is_uploaded : Docker → List (String × String) → Bool
is_uploaded docker [] = true
is_uploaded docker (input ∷ inputs) = went_well docker.upload

-- An error channel that answers nil counts as a success.
abbrev pub after_wait : Wait → ExecutionState
after_wait cancelled = killed
after_wait (broken (some cause)) = failed
after_wait (broken none) = succeeded
after_wait (exited code now) = if is_zero code then succeeded else failed

abbrev pub is_started : Docker → ExecutionRequest → Bool
is_started docker req =
    went_well docker.pull
    && is_created docker.create
    && is_uploaded docker req.inputs
    && went_well docker.start

abbrev pub outcome : Docker → ExecutionRequest → ExecutionState
outcome docker req = if is_started docker req then after_wait docker.wait else failed

complete-outcome :
    (docker : Docker) (s : ExecutionState) (e : Execution)
    → last_state s (complete docker e) ≡ (if is_zero e.exit_code then succeeded else failed)
unfolding complete
complete-outcome docker s e = elim (Bool-cases (is_zero e.exit_code)) [
  | inl zero ↦ rw zero
  | inr nonzero ↦ rw nonzero
]

await-outcome :
    (docker : Docker) (w : Wait) (s : ExecutionState) (e : Execution)
    → is_zero e.exit_code ≡ true
    → last_state s (await docker w e) ≡ after_wait w
unfolding await
await-outcome docker cancelled s e zero = refl
await-outcome docker (broken (some cause)) s e zero = refl
await-outcome docker (broken none) s e zero = rw (complete-outcome docker s e, zero)
await-outcome docker (exited code now) s e zero = complete-outcome docker _ _

start-outcome :
    (docker : Docker) (o : Option String) (s : ExecutionState) (e : Execution)
    → is_zero e.exit_code ≡ true
    → last_state s (start_container docker o e)
      ≡ (if went_well o then after_wait docker.wait else failed)
unfolding start_container
start-outcome docker (some cause) s e zero = refl
start-outcome docker none s e zero = await-outcome docker docker.wait _ _ zero

starting-outcome :
    (docker : Docker) (s : ExecutionState) (e : Execution)
    → is_zero e.exit_code ≡ true
    → last_state s (starting docker e)
      ≡ (if went_well docker.start then after_wait docker.wait else failed)
unfolding starting
starting-outcome docker s e zero = start-outcome docker docker.start _ _ zero

upload-outcome :
    (docker : Docker) (o : Option String) (s : ExecutionState) (e : Execution)
    → is_zero e.exit_code ≡ true
    → last_state s (after_upload docker o e)
      ≡ (if went_well o && went_well docker.start then after_wait docker.wait else failed)
unfolding after_upload
upload-outcome docker (some cause) s e zero = refl
upload-outcome docker none s e zero = starting-outcome docker _ _ zero

inputs-outcome :
    (docker : Docker) (inputs : List (String × String)) (s : ExecutionState) (e : Execution)
    → is_zero e.exit_code ≡ true
    → last_state s (upload_files docker inputs e) ≡ (
        if is_uploaded docker inputs && went_well docker.start
        then after_wait docker.wait
        else failed)
unfolding upload_files
inputs-outcome docker [] s e zero = starting-outcome docker _ _ zero
inputs-outcome docker (input ∷ inputs) s e zero = upload-outcome docker docker.upload _ _ zero

create-outcome :
    (docker : Docker) (req : ExecutionRequest) (r : Result String String) (s : ExecutionState)
    (e : Execution)
    → is_zero e.exit_code ≡ true
    → last_state s (after_create docker req r e) ≡ (
        if is_created r && is_uploaded docker req.inputs && went_well docker.start
        then after_wait docker.wait
        else failed)
unfolding after_create
create-outcome docker req (err cause) s e zero = refl
create-outcome docker req (ok id) s e zero = inputs-outcome docker req.inputs _ _ zero

pull-outcome :
    (docker : Docker) (req : ExecutionRequest) (o : Option String) (s : ExecutionState)
    (e : Execution)
    → is_zero e.exit_code ≡ true
    → last_state s (after_pull docker req o e) ≡ (
        if went_well o
          && is_created docker.create
          && is_uploaded docker req.inputs
          && went_well docker.start
        then after_wait docker.wait
        else failed)
unfolding after_pull
pull-outcome docker req (some cause) s e zero = refl
pull-outcome docker req none s e zero = create-outcome docker req docker.create _ _ zero

-- The last state of a run: if the image was pulled, the container created, its inputs uploaded
-- and the container started, then it is what the wait tells, killed if it was cancelled, failed
-- for an error or an exit code other than zero, and succeeded otherwise; in every other case it
-- is failed.
pub execute-outcome :
    (docker : Docker) (req : ExecutionRequest)
    → last_state processing_request (execute docker req) ≡ outcome docker req
unfolding execute
execute-outcome docker req = pull-outcome docker req docker.pull _ _ refl
