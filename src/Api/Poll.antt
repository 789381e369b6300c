-- ===== src/Api/Poll.antt =====
-- handleTaskRequest (internal/http/handler/runner/task.go), behind assertRunner: the runner's long
-- poll of the queue. Times are in milliseconds.
pub mod Rounds
use oplet.Prelude.{
  ℕ, zero, suc, ◌+◌, String, Bool, true, false, Option, none, some, List, Result, ok, err, leb,
}
use oplet.Crypto.{Random}
use oplet.Store.Orm.{Error, record_not_found, failure}
use oplet.Store.Rows.{Time, TaskExecution, TaskConfiguration}
use oplet.Store.Session.{Database, Gorm}
use oplet.Execution.{next_task}
use oplet.Task.Label.Definition.{Definition}
use oplet.Api.{Answer, internal_error, no_content, task_assigned, TaskRequestResponse}
use oplet.Api.Environment.{Params, environment}

abbrev pub time_limit : ℕ
time_limit = 30000

abbrev pub poll_interval : ℕ
poll_interval = 3000

-- One turn of the loop, as far as it does not depend on the handler: the behaviour of the database
-- and of the random source, the clock, the time that the request to the database takes, and what
-- others do to the tables during the sleep that follows it.
pub record Round : Type 0 where
  pub gorm : Gorm
  pub random : Random
  pub now : Time
  pub takes : ℕ
  pub others : Database → Database

-- The task of an execution, which gorm preloads.
pub record Preloaded : Type 0 where
  pub image_ref : String
  pub configurations : List TaskConfiguration

module _ (preloaded : TaskExecution → Preloaded) (fetch : String → Result Error Definition)
    (parse : String → Option Params) where
  unfoldable pub task_response : TaskExecution → TaskRequestResponse
  task_response e = record {
    execution_id = e.id;
    task_id = e.task_id;
    image_ref = (preloaded e).image_ref;
    environment =
        environment parse (fetch (preloaded e).image_ref) e.input_parameters
          (preloaded e).configurations;
    input_parameters = e.input_parameters;
    runner_token = e.runner_token;
    inputs_dir = "/oplet/inputs";
    outputs_dir = "/oplet/outputs";
    created_at = e.created_at;
  }

  -- what a turn comes to, `none` to sleep and to go on
  abbrev pub round_answer : Result Error TaskExecution → Option Answer
  round_answer (ok e) = some (task_assigned (task_response e))
  round_answer (err record_not_found) = none
  round_answer (err (failure m)) = some internal_error

  -- The fuel bounds the turns; `elapsed` is the time since the timer was set.
  unfoldable pub poll : ℕ → (ℕ → Round) → ℕ → ℕ → Database → Option (Answer × Database)
  poll zero rounds i elapsed db = none
  poll (suc fuel) rounds i elapsed db = elim (leb time_limit elapsed) [
    | true ↦ some (no_content, db)
    | false ↦
        let (r, db') = next_task (rounds i).gorm (rounds i).random (rounds i).now db in
        elim (round_answer r) [
          | some a ↦ some (a, db')
          | none ↦
              poll fuel rounds (suc i) (elapsed + (rounds i).takes + poll_interval)
                ((rounds i).others db')
        ]
  ]

  -- Eleven turns: ten that read the queue, and the one in which the timer has fired.
  unfoldable pub handle_task_request : (ℕ → Round) → Database → Option (Answer × Database)
  unfolding poll
  handle_task_request rounds db = poll 11 rounds 0 0 db
