-- ===== src/Task/Executor/Trace.antt =====
-- The states that a run reports: a path of the state machine from the request to a final state.
use mathlib.Core.Path.{subst}
use oplet.Prelude.{
  ◌++◌, All, ap, String, ◌≡◌, refl, Bool, true, false, Option, none, some, List, [], ◌∷◌, ok, err,
  Result, inl, inr, Bool-cases,
}
use oplet.Prelude.Int.{is_zero}
use oplet.Task.Executor.{
  ExecutionState, processing_request, pulling_image, image_pulled, creating_container,
  container_created, uploading_files, files_uploaded, starting_container, container_started,
  container_finished, downloading_files, files_downloaded, succeeded, failed, killed, Execution,
  ExecutionRequest, Docker, Wait, cancelled, broken, exited, enter, new_execution, complete, await,
  start_container, starting, after_upload, upload_files, after_create, after_pull, execute,
}

-- The transitions of the diagram, the failures of each stage included.
pub data Next : ExecutionState → ExecutionState → Type 0 where
  pulling : Next processing_request pulling_image
  pulled : Next pulling_image image_pulled
  not_pulled : Next pulling_image failed
  creating : Next image_pulled creating_container
  created : Next creating_container container_created
  not_created : Next creating_container failed
  uploading : Next container_created uploading_files
  uploaded : Next uploading_files files_uploaded
  not_uploaded : Next uploading_files failed
  no_inputs : Next container_created starting_container
  ready : Next files_uploaded starting_container
  started : Next starting_container container_started
  not_started : Next starting_container failed
  stopped : Next container_started killed
  not_awaited : Next container_started failed
  finished : Next container_started container_finished
  -- the error channel answers nil, and the exit code is still zero
  unfinished : Next container_started downloading_files
  exited_zero : Next container_finished downloading_files
  exited_nonzero : Next container_finished failed
  downloaded : Next downloading_files files_downloaded
  successful : Next files_downloaded succeeded

abbrev pub is_final : ExecutionState → Bool
is_final succeeded = true
is_final failed = true
is_final killed = true
is_final _ = false

-- A run from a state on: steps of the machine up to a final state.
abbrev pub IsRun : ExecutionState → List Execution → Type 0
IsRun s [] = is_final s ≡ true
IsRun s (e ∷ es) = Next s e.state × IsRun e.state es

complete-IsRun :
    (docker : Docker) (e : Execution)
    → Next e.state downloading_files
    → Next e.state failed
    → IsRun e.state (complete docker e)
unfolding complete
complete-IsRun docker e good bad = elim (Bool-cases (is_zero e.exit_code)) [
  | inl zero ↦ rw zero (good, (downloaded, (successful, refl)))
  | inr nonzero ↦ rw nonzero (bad, refl)
]

await-IsRun :
    (docker : Docker) (w : Wait) (e : Execution)
    → e.state ≡ container_started
    → IsRun container_started (await docker w e)
unfolding await
await-IsRun docker cancelled e here = (stopped, refl)
await-IsRun docker (broken (some cause)) e here = (not_awaited, refl)
await-IsRun docker (broken none) e here =
    subst (λ s. IsRun s (complete docker e)) here
      (complete-IsRun docker e (rw here unfinished) (rw here not_awaited))
await-IsRun docker (exited code now) e here =
    (finished, complete-IsRun docker _ exited_zero exited_nonzero)

start_container-IsRun :
    (docker : Docker) (o : Option String) (e : Execution)
    → IsRun starting_container (start_container docker o e)
unfolding start_container
start_container-IsRun docker (some cause) e = (not_started, refl)
start_container-IsRun docker none e = (started, await-IsRun docker docker.wait _ refl)

starting-IsRun :
    (docker : Docker) (s : ExecutionState) (e : Execution)
    → Next s starting_container
    → IsRun s (starting docker e)
unfolding starting
starting-IsRun docker s e next = (next, start_container-IsRun docker docker.start _)

after_upload-IsRun :
    (docker : Docker) (o : Option String) (e : Execution)
    → IsRun uploading_files (after_upload docker o e)
unfolding after_upload
after_upload-IsRun docker (some cause) e = (not_uploaded, refl)
after_upload-IsRun docker none e = (uploaded, starting-IsRun docker files_uploaded _ ready)

upload_files-IsRun :
    (docker : Docker) (inputs : List (String × String)) (e : Execution)
    → IsRun container_created (upload_files docker inputs e)
unfolding upload_files
upload_files-IsRun docker [] e = starting-IsRun docker container_created e no_inputs
upload_files-IsRun docker (input ∷ inputs) e =
    (uploading, after_upload-IsRun docker docker.upload _)

after_create-IsRun :
    (docker : Docker) (req : ExecutionRequest) (r : Result String String) (e : Execution)
    → IsRun creating_container (after_create docker req r e)
unfolding after_create
after_create-IsRun docker req (err cause) e = (not_created, refl)
after_create-IsRun docker req (ok id) e = (created, upload_files-IsRun docker req.inputs _)

after_pull-IsRun :
    (docker : Docker) (req : ExecutionRequest) (o : Option String) (e : Execution)
    → IsRun pulling_image (after_pull docker req o e)
unfolding after_pull
after_pull-IsRun docker req (some cause) e = (not_pulled, refl)
after_pull-IsRun docker req none e =
    (pulled, (creating, after_create-IsRun docker req docker.create _))

-- Every run reports the request first, each further report is a transition of the state machine,
-- and the last one is final.
pub execute-IsRun :
    (docker : Docker) (req : ExecutionRequest)
    → (rest : List Execution) × (execute docker req ≡ new_execution ∷ rest)
      × IsRun processing_request rest
unfolding execute
execute-IsRun docker req = (
  enter pulling_image new_execution
      ∷ after_pull docker req docker.pull (enter pulling_image new_execution),
  refl,
  (pulling, after_pull-IsRun docker req docker.pull _),
)

-- a final state has no next one
Next-open : (s t : ExecutionState) → Next s t → is_final s ≡ false
Next-open _ _ pulling = refl
Next-open _ _ pulled = refl
Next-open _ _ not_pulled = refl
Next-open _ _ creating = refl
Next-open _ _ created = refl
Next-open _ _ not_created = refl
Next-open _ _ uploading = refl
Next-open _ _ uploaded = refl
Next-open _ _ not_uploaded = refl
Next-open _ _ no_inputs = refl
Next-open _ _ ready = refl
Next-open _ _ started = refl
Next-open _ _ not_started = refl
Next-open _ _ stopped = refl
Next-open _ _ not_awaited = refl
Next-open _ _ finished = refl
Next-open _ _ unfinished = refl
Next-open _ _ exited_zero = refl
Next-open _ _ exited_nonzero = refl
Next-open _ _ downloaded = refl
Next-open _ _ successful = refl

-- A run from a state that is not final ends in a final state, and no earlier report of it is
-- final.
pub IsRun-ends :
    (s : ExecutionState) (es : List Execution)
    → is_final s ≡ false
    → IsRun s es
    → (before : List Execution) × (last : Execution) × (es ≡ before ++ last ∷ [])
      × All (λ e. is_final e.state ≡ false) before
      × (is_final last.state ≡ true)
IsRun-ends s [] open_ run = cc
IsRun-ends s (e ∷ []) open_ (next, run) = ([], e, refl, tt, run)
IsRun-ends s (e ∷ f ∷ es) open_ (next, run) =
    let (before, last, same, opens, final) =
      IsRun-ends e.state (f ∷ es) (Next-open e.state f.state run.0) run in
    (
      e ∷ before,
      last,
      ap (λ (x : List Execution). e ∷ x) same,
      (Next-open e.state f.state run.0, opens),
      final,
    )
