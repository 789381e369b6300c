-- ===== src/Tests/Submissions.antt =====
-- Submissions of a task's form: one that is queued, and one whose file cannot be opened.
use oplet.Prelude.{String, ◌≡◌, refl, ◌⊎◌, true, Option, some, List, [], ◌∷◌, false}
use oplet.Prelude.Int.{negsuc}
use oplet.Crypto.{random_token}
use oplet.Store.Rows.{User}
use oplet.Store.Session.{with_database}
use oplet.Store.Engine.{memory}
use oplet.Execution.{create, set_completed}
use oplet.Api.Environment.{Params, other_param}
use oplet.Api.Transfer.{State}
use oplet.Task.Label.Definition.{Input, Definition}
use oplet.Web.Submission.{Form, error_page, handle_new_task_submission, marshal_input_parameters}
use oplet.Web.Submission.Queued.{Refused, Queued, handle_new_task_submission-Queued}
use oplet.Tests.Data.{model, pending, database, one_byte}

abbrev user : User
user = record {
  model = model 4 0;
  display_name = "Ute";
  subject = "u";
  provider = "p";
  email = "u@example.net";
  role = "user";
  is_active = true;
}

abbrev inputs : List Input
inputs =
    record {
      name = "SOURCE";
      label = "Source";
      type_ = "file";
      description = "";
      required = true;
      default_value = "";
      tags = [];
    }
    ∷ []

abbrev encode : Params → List (String × List String) → Option String
encode params files = some "{}"

-- a form without its required file
abbrev form : Form
form = record { handled = true; valid = true; values = []; files = [] }

abbrev empty : State
empty = (database [], [])

-- The execution is marked as failed, and its start is still empty.
still_waiting :
    handle_new_task_submission memory "data" one_byte 50 encode (some user) 7 inputs form empty ≡ (
      error_page,
      (
        database (
            record (pending 1 7 0) {
              user_id = 4;
              status = "failed";
              exit_code = some (negsuc 0);
              error_message = "required file SOURCE not provided";
              runner_token = "ab";
              finished_at = some 50;
            }
            ∷ []),
        [],
      ),
    )
unfolding handle_new_task_submission create set_completed memory with_database random_token
    marshal_input_parameters
still_waiting = refl

handle_new_task_submission-Queued_example :
    Refused empty
      (handle_new_task_submission memory "data" one_byte 50 encode (some user) 7 inputs form empty)
    ⊎ Queued 7 (some user) empty (
        handle_new_task_submission memory "data" one_byte 50 encode (some user) 7 inputs form empty)
handle_new_task_submission-Queued_example =
    handle_new_task_submission-Queued memory "data" one_byte 50 encode (some user) 7 inputs form
      empty

abbrev title : Input
title = record {
  name = "TITLE";
  label = "Title";
  type_ = "text";
  description = "";
  required = false;
  default_value = "";
  tags = [];
}

abbrev definition : Definition
definition = record {
  name = "Report";
  description = "";
  author = "oplet";
  url = "";
  image_ref = "registry/report";
  inputs = title ∷ [];
  configuration = [];
}

abbrev july : Form
july = record { handled = true; valid = true; values = ("TITLE", "July") ∷ []; files = [] }

abbrev to_text : Params → List (String × List String) → Option String
to_text params files = some "{…}"

abbrev of_text : String → Option Params
of_text s = some (("TITLE", other_param "July") ∷ [])
