-- ===== src/Tests/Auth.antt =====
-- A runner that asks with its token.
use oplet.Crypto.{random_token}
use oplet.Strconv.{parse_uint}
use oplet.Admin.Runners.Renewed.{handle_runner_token_regeneration_only}
use oplet.Admin.Runners.{
  handle_runner_token_regeneration, handle_runner_name_validation, handle_runner_form_submission,
  available, error_page, renewed,
}
use oplet.Prelude.{some, none, [], ◌∷◌, refl, ◌≡◌, true}
use oplet.Store.Rows.{Runner}
use oplet.Store.Session.{Database, with_database, with_tx}
use oplet.Store.Engine.{memory}
use oplet.Task.Label.{strip_prefix}
use oplet.Api.{Request}
use oplet.Api.Auth.{
  assert_runner, get_runner_by_token, update_contact_at, bearer, regenerate_token, get_by_name,
  create,
}
use oplet.Api.Auth.Admitted.{IsAdmitted, assert_runner-IsAdmitted}
use oplet.Tests.Data.{model, database, one_byte}

abbrev worker : Runner
worker = record { model = model 1 10; name = "worker"; token = "ab12"; contacted_at = none }

abbrev runners : Database
runners = record (database []) { runners = worker ∷ [] }

abbrev contacted_runners : Database
contacted_runners = record (database []) { runners = record worker { contacted_at = some 50 } ∷ [] }

abbrev request : Request (Unit {0})
request = record {
  authorization = "Bearer ab12";
  content_type = "application/json";
  task_id = "";
  json = none;
}

assert_runner-IsAdmitted_example : IsAdmitted "Bearer ab12" 50 runners worker contacted_runners
unfolding assert_runner strip_prefix get_runner_by_token update_contact_at memory with_database
    with_tx
assert_runner-IsAdmitted_example =
    assert_runner-IsAdmitted memory 50 request runners contacted_runners worker refl

-- the runner after its token was renewed
abbrev renewed_worker : Runner
renewed_worker = record worker { token = "ab" }

abbrev renewed_runners : Database
renewed_runners = record (database []) { runners = renewed_worker ∷ [] }

abbrev new_request : Request (Unit {0})
new_request = record request { authorization = "Bearer ab" }

handle_runner_token_regeneration_only_example : bearer "Bearer ab" ≡ "ab"
unfolding handle_runner_token_regeneration regenerate_token parse_uint random_token assert_runner
    strip_prefix get_runner_by_token update_contact_at memory with_database with_tx
handle_runner_token_regeneration_only_example =
    handle_runner_token_regeneration_only memory one_byte "1" 1 "ab" runners renewed_runners
      (record (database []) { runners = record renewed_worker { contacted_at = some 50 } ∷ [] }) 50
      new_request renewed_worker refl refl refl refl

-- The name of a deleted runner is said to be available, and a runner of that name cannot be created.
abbrev deleted_runners : Database
deleted_runners = record (database []) {
  runners = record worker { model = record (model 1 10) { deleted_at = some 40 } } ∷ [];
}

name_taken :
    (handle_runner_name_validation memory "worker" "" deleted_runners
      ≡ (available true, deleted_runners))
    × (handle_runner_form_submission memory one_byte "" none "worker" deleted_runners
        ≡ (error_page, deleted_runners))
unfolding handle_runner_name_validation handle_runner_form_submission get_by_name create memory
    with_database random_token
name_taken = (refl, refl)

-- The renewal of a runner that does not exist answers a token.
missing_runner :
    handle_runner_token_regeneration memory one_byte "9" runners ≡ (renewed "ab", runners)
unfolding handle_runner_token_regeneration regenerate_token parse_uint random_token memory with_tx
missing_runner = refl
