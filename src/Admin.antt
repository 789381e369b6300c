-- ===== src/Admin.antt =====
-- The administration of the tasks (internal/http/handler/webui/admin/task_page.go). `fetch` is
-- FetchTaskDefinition. A request is what its form parser finds.
pub mod Saved
pub mod Runners
pub mod Users
use oplet.Prelude.{
  ℕ, String, ◌==◌, ◌||◌, Bool, true, false, not, Option, none, some, List, map, Result, ok, err,
  if◌then◌else◌, [],
}
use oplet.Strconv.{parse_uint}
use oplet.Store.Rows.{Task, TaskConfiguration}
use oplet.Store.Orm.{Error}
use oplet.Store.Session.{Database, Gorm, setting}
use oplet.Task.Label.{get}
use oplet.Task.Label.Definition.{Input, Definition}
use oplet.Api.Status.{new_model}
use oplet.Forms.{Form, Request, handle}
use oplet.Forms.Rules.{is_valid}
use oplet.Forms.Task.{TaskInput, new_configuration_form, new_image_ref_form}
use oplet.Tasks.{create, get_by_id, update, update_configuration, delete}

pub data Page : Type 0 where
  error_page bad_request internal_error deleted : Page
  -- a nil definition is used, and the request is aborted
  aborted : Page
  -- the form of a task, or of a new one, as it is shown
  form_page : Option Task → Form → Page
  -- the redirection to the form of a task
  edit_page : ℕ → Page

-- The parser of labels gives no input a constraint.
abbrev pub unconstrained : List Input → List TaskInput
unconstrained = map (λ (i : Input). record { input = i; constraints = [] })

abbrev pub configuration_form : Definition → List TaskConfiguration → Form
configuration_form definition configurations =
    new_configuration_form (unconstrained definition.configuration) (map setting configurations)

-- what updateTaskFromDefinition copies
abbrev described : Definition → Task → Task
described definition task = record task {
  author = definition.author;
  description = definition.description;
  name = definition.name;
}

abbrev changed : Definition → Task → Bool
changed definition task =
    not (task.author == definition.author)
    || not (task.description == definition.description)
    || not (task.name == definition.name)

abbrev pub new_task : String → Definition → Task
new_task image_ref definition = record {
  model = new_model;
  image_ref = image_ref;
  author = definition.author;
  name = definition.name;
  description = definition.description;
}

module _ (gorm : Gorm) (fetch : String → Result Error Definition) where
  unfoldable pub update_task_from_definition : Task → Definition → Database → Task × Database
  update_task_from_definition task definition db =
      if changed definition task
      then (described definition task, (update gorm (described definition task) db).1)
      else (task, db)

  abbrev show_described : List TaskConfiguration → Definition → Task × Database → Page × Database
  show_described configurations definition (task, db) =
      (form_page (some task) (configuration_form definition configurations), db)

  abbrev show_fetched :
      Task → List TaskConfiguration → Result Error Definition → Database → Page × Database
  show_fetched task configurations (err e) db = (error_page, db)
  show_fetched task configurations (ok definition) db =
      show_described configurations definition (update_task_from_definition task definition db)

  abbrev show_task : Result Error (Task × List TaskConfiguration) → Database → Page × Database
  show_task (err e) db = (error_page, db)
  show_task (ok (task, configurations)) db =
      if task.image_ref == ""
      then (aborted, db)
      else show_fetched task configurations (fetch task.image_ref) db

  abbrev show_id : Option ℕ → Database → Page × Database
  show_id none db = (error_page, db)
  show_id (some id) db = let (r, db') = get_by_id gorm id db in show_task r db'

  unfoldable pub get_task_form_page : String → Database → Page × Database
  unfolding update_task_from_definition
  get_task_form_page raw_task_id db =
      if raw_task_id == ""
      then (form_page none new_image_ref_form, db)
      else show_id (parse_uint 32 raw_task_id) db

  -- after UpdateConfiguration
  abbrev pub after_update : ℕ → Result Error (Unit {0}) × Database → Page × Database
  after_update id (err e, db) = (error_page, db)
  after_update id (ok done, db) = (edit_page id, db)

  abbrev pub save_form : ℕ → Task → Bool × Form → Database → Page × Database
  save_form id task (false, form) db = (form_page (some task) form, db)
  save_form id task (true, form) db =
      after_update id (update_configuration gorm task.id form.values db)

  abbrev pub read_form : ℕ → Task → Result String Form → Database → Page × Database
  read_form id task (err e) db = (error_page, db)
  read_form id task (ok form) db = save_form id task (is_valid form) db

  abbrev pub configure_with :
      ℕ
      → Task
      → List TaskConfiguration
      → Request
      → Result Error Definition
      → Database
      → Page × Database
  configure_with id task configurations r (err e) db = (error_page, db)
  configure_with id task configurations r (ok definition) db =
      read_form id task (handle r (configuration_form definition configurations)) db

  abbrev pub configure_task :
      ℕ → Request → Result Error (Task × List TaskConfiguration) → Database → Page × Database
  configure_task id r (err e) db = (error_page, db)
  configure_task id r (ok (task, configurations)) db =
      configure_with id task configurations r (fetch task.image_ref) db

  abbrev pub configure : Option ℕ → Request → Database → Page × Database
  configure none r db = (error_page, db)
  configure (some id) r db =
      let (found, db') = get_by_id gorm id db in configure_task id r found db'

  abbrev pub after_create : Result Error Task × Database → Page × Database
  after_create (err e, db) = (error_page, db)
  after_create (ok task, db) = (edit_page task.id, db)

  abbrev pub create_from : String → Result Error Definition → Database → Page × Database
  create_from image_ref (err e) db = (error_page, db)
  create_from image_ref (ok definition) db =
      after_create (create gorm (new_task image_ref definition) db)

  abbrev pub add_task : String → Database → Page × Database
  add_task image_ref db =
      if image_ref == "" then (bad_request, db) else create_from image_ref (fetch image_ref) db

  unfoldable pub handle_task_form_submission : String → Request → Database → Page × Database
  handle_task_form_submission raw_task_id r db =
      if raw_task_id == ""
      then add_task (get "" "image_ref" r.form_values) db
      else configure (parse_uint 32 raw_task_id) r db

  abbrev after_delete : Result Error (Unit {0}) × Database → Page × Database
  after_delete (err e, db) = (internal_error, db)
  after_delete (ok done, db) = (deleted, db)

  abbrev delete_id : Option ℕ → Database → Page × Database
  delete_id none db = (bad_request, db)
  delete_id (some id) db = after_delete (delete gorm id db)

  unfoldable pub handle_task_deletion : String → Database → Page × Database
  handle_task_deletion raw_task_id db =
      if raw_task_id == "" then (bad_request, db) else delete_id (parse_uint 32 raw_task_id) db
