-- ===== src/Tests/Files.antt =====
-- Examples of the files and the statistics of executions: transfer to and from runners, downloads,
-- the storage, and the clean-up.
use oplet.Strconv.{parse_uint}
use Prim.Native.String.{String}
use oplet.Prelude.{
  ℕ, ◌+◌, ◌≤◌, ◌≡◌, refl, ◌⊎◌, Bool, true, false, none, some, List, [], ◌∷◌, Result, ok, err,
}
use oplet.Store.Rows.{User, TaskExecution, TaskExecutionFile}
use oplet.Store.Orm.{Error}
use oplet.Store.Session.{Database, with_database}
use oplet.Store.Engine.{memory}
use oplet.Execution.{get_by_id_for_user, get_by_task_id, add_file, get_file_by_path}
use oplet.Execution.Stats.{ExecutionStats, get_execution_stats, get_execution_stats_for_user}
use oplet.Execution.Stats.Bounds.{stats_bounds}
use oplet.Execution.Cleanup.{cleanup_old_executions}
use oplet.Execution.Cleanup.Old.{CleanedUp, cleanup_old_executions-CleanedUp}
use oplet.Storage.{Disk, Os, StoredFile, store_file, generate_unique_filename}
use oplet.Storage.Kept.{IsStored, OthersStay, store_file-cases}
use oplet.Api.{Answer, respond, outputs_stored}
use oplet.Api.Lookup.{IsError}
use oplet.Api.Transfer.{
  OutputsRequest, InputsRequest, handle_task_inputs, handle_task_outputs, store_output,
  record_output,
}
use oplet.Api.Transfer.Inputs.{Shown, handle_task_inputs-Shown}
use oplet.Api.Transfer.Outputs.{Recorded, handle_task_outputs_total}
use oplet.Web.{
  file_content, is_valid_file_path, get_execution_id_from_path, download_execution_file,
}
use oplet.Web.Access.{MayAccess, IsServed, download_execution_file-IsServed}
use oplet.Tests.Data.{model, pending, database}

abbrev os : Os
os = record {
  mkdir_err = none;
  create_err = none;
  copy_err = none;
  unix = 1700;
  random_suffix = "0a0b0c0d";
  detected = "text/plain";
}

unique_name : generate_unique_filename os "report.tar.gz" ≡ "report.tar_1700_0a0b0c0d.gz"
unfolding generate_unique_filename
unique_name = refl

store_file-cases_example :
    ((f : StoredFile) × (after : Disk) × (store_file "data" 1 "outputs" "a.txt" "hello" os []
        ≡ (ok f, after))
      × IsStored "data" 1 "outputs" "a.txt" "hello" os [] f after)
    ⊎ ((e : String) × (after : Disk) × (store_file "data" 1 "outputs" "a.txt" "hello" os []
          ≡ (err e, after))
        × OthersStay "data" 1 "outputs" "a.txt" "hello" os [] after)
store_file-cases_example = store_file-cases "data" 1 "outputs" "a.txt" "hello" os []

abbrev path : String
path = "data/executions/1/outputs/a_1700_0a0b0c0d.txt"

abbrev output : TaskExecutionFile
output = record {
  model = model 1 0;
  execution_id = 1;
  filename = "a.txt";
  file_path = path;
  file_size = 5;
  mime_type = "text/plain";
  is_output = true;
}

abbrev upload : OutputsRequest
upload = record {
  task_id = "7";
  form = some (
      record { base_name = "a.txt"; opened = ok "hello"; os = os }
      ∷ record { base_name = "b.txt"; opened = err "closed"; os = os }
      ∷ []);
}

abbrev one : Database
one = database (pending 1 7 10 ∷ [])

abbrev with_output : Database
with_output = record (database (pending 1 7 10 ∷ [])) { files = output ∷ [] }

upload_run :
    handle_task_outputs memory "data" upload (one, [])
    ≡ (outputs_stored 1 1, (with_output, (path, "hello") ∷ []))
unfolding handle_task_outputs parse_uint record_output store_output store_file get_by_task_id
    add_file memory with_database
upload_run = refl

handle_task_outputs_total_example :
    ((a : Answer) × IsError a
      × (handle_task_outputs memory "data" upload (one, []) ≡ (a, (one, []))))
    ⊎ Recorded memory "data" upload (one, []) (handle_task_outputs memory "data" upload (one, []))
handle_task_outputs_total_example = handle_task_outputs_total memory "data" upload (one, [])

abbrev wanted : InputsRequest
wanted = record { task_id = "7"; file = "in.csv" }

abbrev with_input : Database
with_input = record one { files = record output { filename = "in.csv"; is_output = false } ∷ [] }

handle_task_inputs-Shown_example :
    (a : Answer) × (handle_task_inputs memory ((path, "1,2") ∷ []) wanted with_input
      ≡ (respond a, with_input))
    × Shown wanted ((path, "1,2") ∷ []) with_input a
handle_task_inputs-Shown_example =
    handle_task_inputs-Shown memory ((path, "1,2") ∷ []) wanted with_input

abbrev owner : User
owner = record {
  model = model 1 0;
  display_name = "Olga";
  subject = "o";
  provider = "p";
  email = "o@example.net";
  role = "user";
  is_active = true;
}

abbrev disk : Disk
disk = (path, "hello") ∷ []

owner_downloads :
    download_execution_file memory "data" disk (some owner) "1" "a.txt" with_output
    ≡ file_content output "hello"
unfolding download_execution_file get_by_id_for_user get_file_by_path memory with_database
owner_downloads = refl

download_execution_file-IsServed_example :
    MayAccess (some owner) (get_execution_id_from_path "1") with_output
    × IsServed "data" disk (get_execution_id_from_path "1") "a.txt" with_output output "hello"
download_execution_file-IsServed_example =
    download_execution_file-IsServed memory "data" disk (some owner) "1" "a.txt" with_output output
      "hello" owner_downloads

-- The directory of execution 1 is a prefix of that of execution 10.
other_directory : is_valid_file_path "data" 1 "data/executions/10/outputs/a.txt" ≡ true
unfolding is_valid_file_path
other_directory = refl

abbrev runs : Database
runs = database (
    record (pending 1 7 10) { status = "succeeded" }
    ∷ record (pending 2 7 20) { status = "failed"; user_id = 2 }
    ∷ pending 3 7 30
    ∷ [])

abbrev average : (TaskExecution → Bool) → List TaskExecution → Result Error ℕ
average chosen rows = ok 60

abbrev of_task : ExecutionStats
of_task = record {
  total_executions = 3;
  successful_runs = 1;
  failed_runs = 1;
  last_execution = some 30;
  average_run_time = 60;
}

abbrev of_owner : ExecutionStats
of_owner = record of_task { total_executions = 2; failed_runs = 0 }

task_stats : get_execution_stats memory average 7 runs ≡ (ok of_task, runs)
unfolding get_execution_stats memory with_database
task_stats = refl

owner_stats : get_execution_stats_for_user memory average 7 1 runs ≡ (ok of_owner, runs)
unfolding get_execution_stats_for_user memory with_database
owner_stats = refl

stats_bounds_example : (1 + 1 ≤ 3) × (1 + 0 ≤ 2) × (2 ≤ 3) × (1 ≤ 1) × (0 ≤ 1)
stats_bounds_example =
    stats_bounds memory average 7 1 runs runs runs of_task of_owner task_stats owner_stats

abbrev cleaned : Database
cleaned = record with_output {
  executions =
      record (pending 1 7 10) { model = record (model 1 10) { deleted_at = some 99 } } ∷ [];
  files = record output { model = record (model 1 0) { deleted_at = some 99 } } ∷ [];
}

clean_up : cleanup_old_executions memory 99 15 with_output ≡ (ok tt, cleaned)
unfolding cleanup_old_executions memory with_database
clean_up = refl

cleanup_old_executions-CleanedUp_example : CleanedUp 15 with_output cleaned
cleanup_old_executions-CleanedUp_example =
    cleanup_old_executions-CleanedUp memory 99 15 with_output clean_up
