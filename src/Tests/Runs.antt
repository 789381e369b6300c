-- ===== src/Tests/Runs.antt =====
-- Runs of a container, and the logs of one.
use oplet.Prelude.{◌≡◌, refl, none, ok, [], ◌∷◌, List}
use oplet.Prelude.Int.{pos}
use oplet.Task.Executor.{
  Docker, exited, ExecutionRequest, Execution, execute, new_execution, processing_request,
}
use oplet.Task.Executor.Trace.{IsRun, execute-IsRun}
use oplet.Task.Executor.Outcome.{last_state, outcome, execute-outcome}
use oplet.Runner.Reports.{record_reports, execute-recorded, Tells}
use oplet.Tests.Data.{pending}

-- a container that exits with the code 3
abbrev failing : Docker
failing = record {
  pull = none;
  create = ok "c1";
  upload = none;
  start = none;
  started_at = 30;
  wait = exited (pos 3) 40;
  copy = ok [];
}

abbrev request : ExecutionRequest
request = record { image_ref = "example/task:1"; environment = []; inputs = ("data", "1,2,3") ∷ [] }

execute-IsRun_example :
    (rest : List Execution) × (execute failing request ≡ new_execution ∷ rest)
    × IsRun processing_request rest
execute-IsRun_example = execute-IsRun failing request

execute-outcome_example :
    last_state processing_request (execute failing request) ≡ outcome failing request
execute-outcome_example = execute-outcome failing request

execute-recorded_example :
    Tells
      (outcome failing request)
      (record_reports
        (λ e. "error")
        (λ e. pos 50)
        (execute failing request)
        (pending 1 7 10)).status
execute-recorded_example =
    execute-recorded (λ e. "error") (λ e. pos 50) failing request (pending 1 7 10) refl
