-- ===== src/Tasks.antt =====
-- The task repository (internal/store/repository/task/task.go). A task that is read comes with the
-- configurations that belong to it.
pub mod Configured
pub mod Effects
use Prim.Native.String
use oplet.Prelude.{ℕ, String, ◌==◌, ◌||◌, List, map, nat_eq, Bool}
use oplet.Prelude.Int.{ℤ}
use oplet.Store.Rows.{Task, TaskConfiguration}
use oplet.Store.Orm.{Query, where_, every, order_by, desc}
use oplet.Store.Session.{
  Gorm, Exec, ◌>>=◌, ◌>>◌, pure, query, with_tx, with_database, write, write_tasks,
  write_configurations, create_task_row,
}
use oplet.Api.Status.{new_model}
use oplet.Execution.{paginate}

abbrev pub configuration : ℕ → String × String → TaskConfiguration
configuration task_id (name, value) = record {
  model = new_model;
  task_id = task_id;
  name = name;
  value = value;
}

-- newest first
abbrev newest : Query Task → Query Task
newest = order_by (desc (λ t. t.created_at))

module _ (gorm : Gorm) where
  unfoldable pub create : Task → Exec Task
  create task = with_database gorm (create_task_row (gorm.tasks.create task))

  -- Preload(clause.Associations), as far as the configurations
  abbrev with_configurations : Task → Exec (Task × List TaskConfiguration)
  with_configurations task = do
    configurations ← query (λ db. gorm.configurations.preload task.id db.configurations)
    pure (task, configurations)

  unfoldable pub get_by_id : ℕ → Exec (Task × List TaskConfiguration)
  get_by_id id = with_database gorm do
    task ← query (λ db. gorm.tasks.first (where_ (λ t. nat_eq t.id id)) db.tasks)
    with_configurations task

  unfoldable pub get_by_image_ref : String → Exec (Task × List TaskConfiguration)
  get_by_image_ref image_ref = with_database gorm do
    task ← query (λ db. gorm.tasks.first (where_ (λ t. t.image_ref == image_ref)) db.tasks)
    with_configurations task

  unfoldable pub list : ℤ → ℤ → Exec (List Task)
  list limit offset =
      with_database gorm
        (query (λ db. gorm.tasks.find (paginate limit offset (newest every)) db.tasks))

  unfoldable pub update : Task → Exec (Unit {0})
  update task = with_tx gorm (write_tasks (gorm.tasks.save task))

  -- `values` lists the map in the order in which the loop visits it.
  unfoldable pub update_configuration : ℕ → List (String × String) → Exec (Unit {0})
  update_configuration task_id values = with_tx gorm do
    task ← query (λ db. gorm.tasks.first (where_ (λ t. nat_eq t.id task_id)) db.tasks)
    write_configurations (gorm.configurations.clear task.id)
    write_configurations (gorm.configurations.replace task.id (map (configuration task.id) values))

  unfoldable pub delete : ℕ → Exec (Unit {0})
  delete id = with_database gorm (write (gorm.delete_task id))

  unfoldable pub count : Exec ℕ
  count = with_database gorm (query (λ db. gorm.tasks.count every db.tasks))

  -- `like pattern text` is SQL's test.
  module _ (like : String → String → Bool) where
    abbrev matches : String → Task → Bool
    matches pattern t =
        like pattern t.name
        || like pattern t.description
        || like pattern t.author
        || like pattern t.image_ref

    abbrev pub pattern_of : String → String
    pattern_of q = String.◌++◌ (String.◌++◌ "%" q) "%"

    unfoldable pub search : String → Exec (List Task)
    search q =
        with_database gorm
          (query (λ db. gorm.tasks.find (newest (where_ (matches (pattern_of q)))) db.tasks))
