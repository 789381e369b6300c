-- ===== src/Tests/Polls.antt =====
-- Examples of handleTaskRequest: the environment of an execution, and a runner's long poll.
use oplet.Prelude.{
  ℕ, String, ◌==◌, ◌≡◌, refl, false, Option, none, some, List, [], ◌∷◌, Result, ok, nat_eq,
  if◌then◌else◌,
}
use oplet.Store.Orm.{Error}
use oplet.Store.Rows.{TaskExecution, TaskConfiguration}
use oplet.Store.Session.{with_tx}
use oplet.Store.Engine.{memory}
use oplet.Crypto.{random_token}
use oplet.Execution.{next_task, claim}
use oplet.Api.{task_assigned}
use oplet.Api.Environment.{Params, bool_param, other_param, environment}
use oplet.Api.Environment.Declared.{Declared}
use oplet.Api.Poll.{Round, Preloaded, task_response, handle_task_request}
use oplet.Api.Poll.Rounds.{Polled, handle_task_request_total}
use oplet.Task.Label.Definition.{Input, Definition}
use oplet.Tests.Data.{pending, database, one_byte, model}

abbrev input : String → String → Input
input name type_ = record {
  name = name;
  label = name;
  type_ = type_;
  description = "";
  required = false;
  default_value = "";
  tags = [];
}

abbrev definition : Definition
definition = record {
  name = "Report";
  description = "";
  author = "oplet";
  url = "";
  image_ref = "registry/report";
  inputs = input "DRAFT" "boolean" ∷ input "SOURCE" "file" ∷ input "TITLE" "text" ∷ [];
  configuration = input "PUBLISH" "boolean" ∷ [];
}

abbrev configuration : String → String → TaskConfiguration
configuration name value = record { model = model 1 0; task_id = 7; name = name; value = value }

abbrev configurations : List TaskConfiguration
configurations = configuration "PUBLISH" "on" ∷ configuration "OLD" "1" ∷ []

-- a decoder that knows one text
abbrev parse : String → Option Params
parse s =
    if s == "{…}"
    then some (
        ("TITLE", other_param "July")
        ∷ ("SOURCE", other_param "a.csv")
        ∷ ("DRAFT", bool_param false)
        ∷ ("PATH", other_param "/tmp")
        ∷ [])
    else none

report_environment :
    environment parse (ok definition) "{…}" configurations
    ≡ ("DRAFT", "false") ∷ ("TITLE", "July") ∷ ("PUBLISH", "true") ∷ []
unfolding environment
report_environment = refl

abbrev preloaded : TaskExecution → Preloaded
preloaded e = record { image_ref = "registry/report"; configurations = configurations }

abbrev fetch : String → Result Error Definition
fetch ref = ok definition

-- an execution is put into the queue while the runner sleeps for the second time
abbrev rounds : ℕ → Round
rounds i = record {
  gorm = memory;
  random = one_byte;
  now = 30;
  takes = 20;
  others =
      λ db. if nat_eq i 1 then record db { executions = pending 1 7 10 ∷ db.executions } else db;
}

served_in_third_turn :
    handle_task_request preloaded fetch parse rounds (database [])
    ≡ some (
      task_assigned (task_response preloaded fetch parse (claim 30 "ab" (pending 1 7 10))),
      database (claim 30 "ab" (pending 1 7 10) ∷ []),
    )
unfolding handle_task_request next_task memory with_tx random_token
served_in_third_turn = refl

handle_task_request_total_example :
    Polled rounds preloaded fetch parse
      (database [])
      (handle_task_request preloaded fetch parse rounds (database []))
handle_task_request_total_example =
    handle_task_request_total rounds preloaded fetch parse (database [])
