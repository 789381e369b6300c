-- ===== src/Admin/Saved.antt =====
-- What a submission of a task's administration form leaves
-- (internal/http/handler/webui/admin/task_page.go).
use oplet.Prelude.{ℕ, String, ◌≡◌, ◌⊎◌, true, some, List, All, Result, ok, Memᴰ, ◌≢◌}
use oplet.Strconv.{parse_uint}
use oplet.Store.Rows.{Task, TaskConfiguration}
use oplet.Store.Orm.{Error, is_live}
use oplet.Store.Session.{Database, Gorm, tasks_table}
use oplet.Task.Label.{get}
use oplet.Task.Label.Definition.{Definition}
use oplet.Forms.{Form, Request, handle}
use oplet.Forms.Task.Provided.{Provided}
use oplet.Tasks.Configured.{Configured}
use oplet.Tasks.Effects.{Added}
use oplet.Admin.{Page, edit_page, unconstrained, configuration_form, new_task}

module _ (gorm : Gorm) (fetch : String → Result Error Definition) (r : Request) (db : Database)
    (raw_task_id : String) where
  -- The task of the page has the values that its form has read from the request as its configuration,
  -- and they meet its definition.
  pub record Reconfigured (id : ℕ) (after : Database) : Type 0 where
    pub parsed : parse_uint 32 raw_task_id ≡ some id
    pub task : Task
    pub stored : Memᴰ task db.tasks
    pub live : is_live tasks_table task ≡ true
    pub named : task.id ≡ id
    pub definition : Definition
    pub configurations : List TaskConfiguration
    pub form : Form
    pub handled : handle r (configuration_form definition configurations) ≡ ok form
    pub fetched : fetch task.image_ref ≡ ok definition
    pub provided : All (Provided form) (unconstrained definition.configuration)
    pub configured : Configured task.id form.values db after

  -- A task is added for the image of the request, described by the definition of its image.
  pub record Introduced (id : ℕ) (after : Database) : Type 0 where
    pub new : raw_task_id ≡ ""
    pub image_ref : String
    pub requested : get "" "image_ref" r.form_values ≡ image_ref
    pub filled : image_ref ≢ ""
    pub definition : Definition
    pub fetched : fetch image_ref ≡ ok definition
    pub row : Task
    pub named : row.id ≡ id
    pub added : Added gorm db (new_task image_ref definition) row after

  -- Only a redirection to the task's form says that something has changed.
  abbrev pub Saved : Page → Database → Type 0
  Saved (edit_page id) after = Reconfigured id after ⊎ Introduced id after
  Saved _ after = after ≡ db

  abbrev Served : Page × Database → Type 0
  Served (page, after) = Saved page after
