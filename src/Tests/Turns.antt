-- ===== src/Tests/Turns.antt =====
-- A turn of the runner: the input file of its task is downloaded, and its outputs are uploaded.
use oplet.Prelude.{String, ◌≡◌, refl, some, [], ◌∷◌, ok, true, false}
use oplet.Store.Rows.{TaskExecutionFile}
use oplet.Store.Session.{Database}
use oplet.Storage.{Disk}
use oplet.Api.{Answer, task_assigned}
use oplet.Api.Transfer
use oplet.Task.Executor.{ExecutionRequest}
use oplet.Runner.Client
use oplet.Runner.Client.{Response, answered}
use oplet.Runner.Outputs.{base, upload_output_files}
use oplet.Tests.Data.{model, pending, database}

abbrev source : TaskExecutionFile
source = record {
  model = model 1 0;
  execution_id = 1;
  filename = "SOURCE";
  file_path = "data/executions/1/inputs/in_1700.csv";
  file_size = 3;
  mime_type = "text/csv";
  is_output = false;
}

abbrev with_source : Database
with_source = record (database (pending 1 7 10 ∷ [])) { files = source ∷ [] }

abbrev disk : Disk
disk = ("data/executions/1/inputs/in_1700.csv", "1,2") ∷ []

abbrev assigned : Response
assigned = answered (
    task_assigned record {
      execution_id = 1;
      task_id = 7;
      image_ref = "registry/report";
      environment = ("TITLE", "July") ∷ [];
      input_parameters = "{}";
      runner_token = "ab";
      inputs_dir = "/oplet/inputs";
      outputs_dir = "/oplet/outputs";
      created_at = 10;
    })

abbrev request : ExecutionRequest
request = record {
  image_ref = "registry/report";
  environment = ("TITLE", "July") ∷ [];
  inputs = ("SOURCE", "1,2") ∷ [];
}

abbrev print : Answer → String
print a = "{}"

bases : (base "outputs/a/b.txt" ≡ "b.txt") × (base "a/" ≡ "a") × (base "" ≡ ".") × (base "//" ≡ "/")
unfolding base
bases = (refl, refl, refl, refl)

-- Of two files with the same name in different folders one is uploaded.
collision :
    upload_output_files (
      some record {
        members =
            record { name = "outputs"; is_dir = true; body = ok "" }
            ∷ record { name = "outputs/a/x.txt"; is_dir = false; body = ok "1" }
            ∷ record { name = "outputs/b/x.txt"; is_dir = false; body = ok "2" }
            ∷ [];
        broken = false;
      })
    ≡ some (("x.txt", "2") ∷ [])
unfolding upload_output_files base
collision = refl
