-- ===== src/Runner/Tasks/Executed.antt =====
-- What a turn of the runner (internal/runner/runner.go) hands to its executor.
use oplet.Prelude.{ℕ, String, ◌≡◌, some, ok}
use oplet.Strconv.{format_uint}
use oplet.Store.Session.{Database, Gorm}
use oplet.Storage.{Disk}
use oplet.Api.{Answer, TaskRequestResponse}
use oplet.Task.Executor.{ExecutionRequest}
use oplet.Runner.Client.{Response, request_task}
use oplet.Runner.Inputs.Fetched.{Fetched, response}

module _ (print : Answer → String) (gorm : Gorm) (disk : Disk) (db : Database) where
  -- the server's responses on this database and this disk
  abbrev pub served_file : ℕ → String → Response
  served_file id = response print gorm disk (format_uint id) db

  abbrev pub served_list : ℕ → Response
  served_list id = served_file id ""

  -- The executor runs the image of the assigned task in its environment, on the input files that the
  -- server has stored.
  pub record IsAssigned (name : String) (answer : Response) (request : ExecutionRequest)
      : Type 0 where
    pub task : TaskRequestResponse
    pub assigned : request_task answer ≡ ok (some task)
    pub image_ref : request.image_ref ≡ task.image_ref
    pub environment : request.environment ≡ task.environment
    pub inputs : Fetched (format_uint task.task_id) disk db name request.inputs
