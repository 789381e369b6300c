-- ===== src/Admin/Runners.antt =====
-- The administration of the runners (internal/http/handler/webui/admin/runner_page.go).
pub mod Renewed
use oplet.Prelude.{
  ℕ, String, ◌==◌, Bool, true, false, Option, none, some, Result, ok, err, nat_eq, if◌then◌else◌,
}
use oplet.Strconv.{parse_uint}
use oplet.Crypto.{Random, random_token}
use oplet.Store.Rows.{Time, Runner}
use oplet.Store.Orm.{Error}
use oplet.Store.Session.{Database, Gorm}
use oplet.Api.Status.{new_model}
use oplet.Api.Auth.{get_by_id, get_by_name, create, update_name, regenerate_token}
use oplet.Api.Auth.Roster.{delete}

pub data RunnerPage : Type 0 where
  error_page bad_request internal_error deleted : RunnerPage
  form_page : Option Runner → RunnerPage
  -- the redirection to the form of a runner
  edit_page : ℕ → RunnerPage
  -- the new token, in JSON
  renewed : String → RunnerPage
  available : Bool → RunnerPage

module _ (gorm : Gorm) where
  abbrev show : Result Error Runner × Database → RunnerPage × Database
  show (err e, db) = (error_page, db)
  show (ok runner, db) = (form_page (some runner), db)

  abbrev show_id : Option ℕ → Database → RunnerPage × Database
  show_id none db = (error_page, db)
  show_id (some id) db = show (get_by_id gorm id db)

  unfoldable pub get_runner_form_page : String → Database → RunnerPage × Database
  get_runner_form_page raw_runner_id db =
      if raw_runner_id == "" then (form_page none, db) else show_id (parse_uint 32 raw_runner_id) db

  abbrev after_rename : ℕ → Result Error (Unit {0}) × Database → RunnerPage × Database
  after_rename id (err e, db) = (error_page, db)
  after_rename id (ok done, db) = (edit_page id, db)

  abbrev rename : Option ℕ → String → Database → RunnerPage × Database
  rename none name db = (error_page, db)
  rename (some id) name db = after_rename id (update_name gorm id name db)

  abbrev after_create : Result Error Runner × Database → RunnerPage × Database
  after_create (err e, db) = (error_page, db)
  after_create (ok runner, db) = (edit_page runner.id, db)

  abbrev create_with : String → Result Error String → Database → RunnerPage × Database
  create_with name (err e) db = (error_page, db)
  create_with name (ok token) db =
      after_create (
        create gorm record { model = new_model; name = name; token = token; contacted_at = none }
          db)

  -- `parse_form` is the error of the form's parser, `name` the form's value.
  unfoldable pub handle_runner_form_submission :
      Random → String → Option String → String → Database → RunnerPage × Database
  handle_runner_form_submission random raw_runner_id (some e) name db = (bad_request, db)
  handle_runner_form_submission random raw_runner_id none name db =
      if name == ""
      then (bad_request, db)
      else if raw_runner_id == ""
      then create_with name (random_token random 32) db
      else rename (parse_uint 32 raw_runner_id) name db

  abbrev after_delete : Result Error (Unit {0}) × Database → RunnerPage × Database
  after_delete (err e, db) = (internal_error, db)
  after_delete (ok done, db) = (deleted, db)

  abbrev delete_id : Time → Option ℕ → Database → RunnerPage × Database
  delete_id now none db = (bad_request, db)
  delete_id now (some id) db = after_delete (delete gorm now id db)

  unfoldable pub handle_runner_deletion : Time → String → Database → RunnerPage × Database
  handle_runner_deletion now raw_runner_id db =
      if raw_runner_id == ""
      then (bad_request, db)
      else delete_id now (parse_uint 32 raw_runner_id) db

  abbrev pub after_renewal : Result Error String × Database → RunnerPage × Database
  after_renewal (err e, db) = (error_page, db)
  after_renewal (ok token, db) = (renewed token, db)

  abbrev pub renew_id : Random → Option ℕ → Database → RunnerPage × Database
  renew_id random none db = (bad_request, db)
  renew_id random (some id) db = after_renewal (regenerate_token gorm random id db)

  unfoldable pub handle_runner_token_regeneration :
      Random → String → Database → RunnerPage × Database
  handle_runner_token_regeneration random raw_runner_id db =
      if raw_runner_id == ""
      then (bad_request, db)
      else renew_id random (parse_uint 32 raw_runner_id) db

  -- An id that is missing or cannot be read counts as 0.
  abbrev current : Option ℕ → ℕ
  current none = 0
  current (some id) = id

  abbrev answer_name : ℕ → Result Error Runner × Database → RunnerPage × Database
  answer_name id (err e, db) = (available true, db)
  answer_name id (ok runner, db) = (available (nat_eq runner.id id), db)

  unfoldable pub handle_runner_name_validation : String → String → Database → RunnerPage × Database
  handle_runner_name_validation name raw_runner_id db =
      if name == ""
      then (bad_request, db)
      else answer_name (if raw_runner_id == "" then 0 else current (parse_uint 32 raw_runner_id))
          (get_by_name gorm name db)
