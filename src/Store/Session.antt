-- ===== src/Store/Session.antt =====
pub mod Laws
-- The session of internal/store/store.go: the tables, and the functions in which every repository
-- method runs. A failed statement leaves what earlier statements wrote; a failed transaction does not.
use oplet.Prelude.{
  ℕ, ◌≡◌, not, All, length, filter, any, map, if◌then◌else◌, [], ◌∷◌, ◌++◌, String, false, ◌&&◌,
  ◌||◌, ◌==◌, Option, none, some, List, Result, ok, err, nat_eq, Permᴰ,
}
use oplet.Prelude.Int.{int_eq}
use oplet.Store.Rows.{
  Task, TaskConfiguration, TaskExecution, TaskExecutionLog, TaskExecutionFile, User, Runner, Seed,
}
use oplet.Store.Orm.{Error, failure, Table, Orm, is_none}

pub record Database : Type 0 where
  pub tasks : List Task
  pub executions : List TaskExecution
  pub logs : List TaskExecutionLog
  pub files : List TaskExecutionFile
  pub users : List User
  pub runners : List Runner
  pub seeds : List Seed
  pub configurations : List TaskConfiguration

-- The tables with their unique indexes, as the gorm tags of the structs declare them.
abbrev pub tasks_table : Table Task
tasks_table = record {
  model = λ t. t.model;
  with_model = λ m t. record t { model = m };
  conflicts = λ a b. a.image_ref == b.image_ref;
}

abbrev pub executions_table : Table TaskExecution
executions_table = record {
  model = λ e. e.model;
  with_model = λ m e. record e { model = m };
  conflicts = λ a b. a.runner_token == b.runner_token;
}

abbrev pub logs_table : Table TaskExecutionLog
logs_table = record {
  model = λ l. l.model;
  with_model = λ m l. record l { model = m };
  conflicts = λ a b.
      nat_eq a.execution_id b.execution_id
      && int_eq a.timestamp b.timestamp
      && a.source == b.source
      && nat_eq a.clock b.clock;
}

abbrev pub files_table : Table TaskExecutionFile
files_table = record {
  model = λ f. f.model;
  with_model = λ m f. record f { model = m };
  conflicts = λ a b. false;
}

abbrev pub users_table : Table User
users_table = record {
  model = λ u. u.model;
  with_model = λ m u. record u { model = m };
  conflicts = λ a b. false;
}

abbrev pub runners_table : Table Runner
runners_table = record {
  model = λ r. r.model;
  with_model = λ m r. record r { model = m };
  conflicts = λ a b. a.name == b.name || a.token == b.token;
}

-- The statements on the seeds, whose primary key is a text: `SELECT count(*)` of one id, and `INSERT`
-- that on a clash of the key sets the time.
pub record SeedOrm : Type 0 where
  pub count : String → List Seed → Result Error ℕ
  pub upsert : Seed → List Seed → Result Error (List Seed)
  pub count_eq :
      (id : String) (rows : List Seed) (n : ℕ)
      → count id rows ≡ ok n
      → n ≡ length (filter (λ s. s.id == id) rows)
  pub upserted :
      (new : Seed) (rows after : List Seed)
      → upsert new rows ≡ ok after
      → after ≡ (
          if any (λ s. s.id == new.id) rows
          then map
              (λ s. if s.id == new.id then record s { executed_at = new.executed_at } else s)
              rows
          else rows ++ new ∷ [])

-- What a configuration sets.
abbrev pub setting : TaskConfiguration → String × String
setting c = (c.name, c.value)

-- A task's association with its configurations: what Preload reads, Clear, which for an unscoped request deletes the rows,
-- and Replace, for a task that has none.
pub record ConfigurationOrm : Type 0 where
  pub clear : ℕ → List TaskConfiguration → Result Error (List TaskConfiguration)
  pub replace :
      ℕ → List TaskConfiguration → List TaskConfiguration → Result Error (List TaskConfiguration)
  pub preload : ℕ → List TaskConfiguration → Result Error (List TaskConfiguration)
  pub preloaded :
      (id : ℕ) (rows found : List TaskConfiguration)
      → preload id rows ≡ ok found
      → Permᴰ found (filter (λ c. is_none c.deleted_at && nat_eq c.task_id id) rows)
  pub cleared :
      (id : ℕ) (rows after : List TaskConfiguration)
      → clear id rows ≡ ok after
      → after ≡ filter (λ c. not (nat_eq c.task_id id)) rows
  pub replaced :
      (id : ℕ) (news rows after : List TaskConfiguration)
      → any (λ c. nat_eq c.task_id id) rows ≡ false
      → replace id news rows ≡ ok after
      → (saved : List TaskConfiguration) × (after ≡ rows ++ saved)
        × (map setting saved ≡ map setting news)
        × All (λ c. c.task_id ≡ id) saved

-- gorm on this database: whether the migration of `createGetDatabase` fails, whether a commit fails,
-- and the statements on each table.
pub record Gorm : Type 0 where
  pub migrate_err : Option String
  pub commit_err : Database → Option String
  pub tasks : Orm Task tasks_table
  pub executions : Orm TaskExecution executions_table
  pub logs : Orm TaskExecutionLog logs_table
  pub files : Orm TaskExecutionFile files_table
  pub users : Orm User users_table
  pub runners : Orm Runner runners_table
  pub seeds : SeedOrm
  pub configurations : ConfigurationOrm
  -- `DELETE` of a task's row, which the foreign keys pass on to the rows that belong to it
  pub delete_task : ℕ → Database → Result Error Database
  pub task_deleted :
      (id : ℕ) (db after : Database)
      → delete_task id db ≡ ok after
      → (after.tasks ≡ filter (λ t. not (nat_eq t.id id)) db.tasks)
        × (after.executions ≡ filter (λ e. not (nat_eq e.task_id id)) db.executions)
        × (after.configurations ≡ filter (λ c. not (nat_eq c.task_id id)) db.configurations)

abbrev pub Exec : Type 0 → Type 0
Exec A = Database → Result Error A × Database

module _ {A B : Type 0} where
  abbrev pub continue : Result Error A → (A → Exec B) → Exec B
  continue (ok a) f db = f a db
  continue (err e) f db = (err e, db)

  infixl 5 ◌>>=◌
  abbrev pub ◌>>=◌ : Exec A → (A → Exec B) → Exec B
  ◌>>=◌ m f db = let (r, db') = m db in continue r f db'

module _ {A : Type 0} where
  abbrev pub pure : A → Exec A
  pure a db = (ok a, db)

  abbrev pub raise : Error → Exec A
  raise e db = (err e, db)

  abbrev pub lift : Result Error A → Exec A
  lift r db = (r, db)

  -- a statement that reads
  abbrev pub query : (Database → Result Error A) → Exec A
  query f db = (f db, db)

  abbrev close : Gorm → Database → Result Error A → Database → Result Error A × Database
  close gorm before (err e) after = (err e, before)
  close gorm before (ok a) after = elim (gorm.commit_err after) [
    | none ↦ (ok a, after)
    | some e ↦ (err (failure e), before)
  ]

  -- db.Transaction(fn): the callback's error rolls the transaction back, and so does a commit that
  -- fails.
  abbrev pub transaction : Gorm → Exec A → Exec A
  transaction gorm fn db = let (r, after) = fn db in close gorm db r after

  unfoldable pub with_tx : Gorm → Exec A → Exec A
  with_tx gorm fn db = elim gorm.migrate_err [
    | some e ↦ (err (failure e), db)
    | none ↦ transaction gorm fn db
  ]

  unfoldable pub with_database : Gorm → Exec A → Exec A
  with_database gorm fn db = elim gorm.migrate_err [ some e ↦ (err (failure e), db) | none ↦ fn db ]

infixl 5 ◌>>◌
abbrev pub ◌>>◌ : {B : Type 0} → Exec (Unit {0}) → Exec B → Exec B
m >> k = m >>= λ _. k

-- Statements that write one table and return nothing.
abbrev put_executions :
    Database → Result Error (List TaskExecution) → Result Error (Unit {0}) × Database
put_executions db (ok rows) = (ok tt, record db { executions = rows })
put_executions db (err e) = (err e, db)

abbrev pub write_executions :
    (List TaskExecution → Result Error (List TaskExecution)) → Exec (Unit {0})
write_executions statement db = put_executions db (statement db.executions)

abbrev put_logs :
    Database → Result Error (List TaskExecutionLog) → Result Error (Unit {0}) × Database
put_logs db (ok rows) = (ok tt, record db { logs = rows })
put_logs db (err e) = (err e, db)

abbrev pub write_logs :
    (List TaskExecutionLog → Result Error (List TaskExecutionLog)) → Exec (Unit {0})
write_logs statement db = put_logs db (statement db.logs)

abbrev put_files :
    Database → Result Error (List TaskExecutionFile) → Result Error (Unit {0}) × Database
put_files db (ok rows) = (ok tt, record db { files = rows })
put_files db (err e) = (err e, db)

abbrev pub write_files :
    (List TaskExecutionFile → Result Error (List TaskExecutionFile)) → Exec (Unit {0})
write_files statement db = put_files db (statement db.files)

abbrev put_runners : Database → Result Error (List Runner) → Result Error (Unit {0}) × Database
put_runners db (ok rows) = (ok tt, record db { runners = rows })
put_runners db (err e) = (err e, db)

abbrev pub write_runners : (List Runner → Result Error (List Runner)) → Exec (Unit {0})
write_runners statement db = put_runners db (statement db.runners)

abbrev put_users : Database → Result Error (List User) → Result Error (Unit {0}) × Database
put_users db (ok rows) = (ok tt, record db { users = rows })
put_users db (err e) = (err e, db)

abbrev pub write_users : (List User → Result Error (List User)) → Exec (Unit {0})
write_users statement db = put_users db (statement db.users)

abbrev put_task : Database → Result Error (Task × List Task) → Result Error (Unit {0}) × Database
put_task db (ok (r, rows)) = (ok tt, record db { tasks = rows })
put_task db (err e) = (err e, db)

-- The row that `Create` fills is not used again.
abbrev pub create_task : (List Task → Result Error (Task × List Task)) → Exec (Unit {0})
create_task statement db = put_task db (statement db.tasks)

abbrev put_configurations :
    Database → Result Error (List TaskConfiguration) → Result Error (Unit {0}) × Database
put_configurations db (ok rows) = (ok tt, record db { configurations = rows })
put_configurations db (err e) = (err e, db)

abbrev pub write_configurations :
    (List TaskConfiguration → Result Error (List TaskConfiguration)) → Exec (Unit {0})
write_configurations statement db = put_configurations db (statement db.configurations)

abbrev put_database : Database → Result Error Database → Result Error (Unit {0}) × Database
put_database db (ok after) = (ok tt, after)
put_database db (err e) = (err e, db)

-- a statement that writes several tables
abbrev pub write : (Database → Result Error Database) → Exec (Unit {0})
write statement db = put_database db (statement db)

abbrev save_tasks : Database → Result Error (List Task) → Result Error (Unit {0}) × Database
save_tasks db (ok rows) = (ok tt, record db { tasks = rows })
save_tasks db (err e) = (err e, db)

abbrev pub write_tasks : (List Task → Result Error (List Task)) → Exec (Unit {0})
write_tasks statement db = save_tasks db (statement db.tasks)

abbrev add_task : Database → Result Error (Task × List Task) → Result Error Task × Database
add_task db (ok (r, rows)) = (ok r, record db { tasks = rows })
add_task db (err e) = (err e, db)

abbrev pub create_task_row : (List Task → Result Error (Task × List Task)) → Exec Task
create_task_row statement db = add_task db (statement db.tasks)

abbrev put_seeds : Database → Result Error (List Seed) → Result Error (Unit {0}) × Database
put_seeds db (ok rows) = (ok tt, record db { seeds = rows })
put_seeds db (err e) = (err e, db)

abbrev pub write_seeds : (List Seed → Result Error (List Seed)) → Exec (Unit {0})
write_seeds statement db = put_seeds db (statement db.seeds)

-- `Create` fills the row that it is given.
abbrev add_execution :
    Database
    → Result Error (TaskExecution × List TaskExecution)
    → Result Error TaskExecution × Database
add_execution db (ok (r, rows)) = (ok r, record db { executions = rows })
add_execution db (err e) = (err e, db)

abbrev pub create_execution :
    (List TaskExecution → Result Error (TaskExecution × List TaskExecution)) → Exec TaskExecution
create_execution statement db = add_execution db (statement db.executions)

abbrev add_file :
    Database
    → Result Error (TaskExecutionFile × List TaskExecutionFile)
    → Result Error TaskExecutionFile × Database
add_file db (ok (r, rows)) = (ok r, record db { files = rows })
add_file db (err e) = (err e, db)

abbrev pub create_file :
    (List TaskExecutionFile → Result Error (TaskExecutionFile × List TaskExecutionFile))
    → Exec TaskExecutionFile
create_file statement db = add_file db (statement db.files)

abbrev add_runner : Database → Result Error (Runner × List Runner) → Result Error Runner × Database
add_runner db (ok (r, rows)) = (ok r, record db { runners = rows })
add_runner db (err e) = (err e, db)

abbrev pub create_runner : (List Runner → Result Error (Runner × List Runner)) → Exec Runner
create_runner statement db = add_runner db (statement db.runners)

abbrev add_user : Database → Result Error (User × List User) → Result Error User × Database
add_user db (ok (r, rows)) = (ok r, record db { users = rows })
add_user db (err e) = (err e, db)

abbrev pub create_user : (List User → Result Error (User × List User)) → Exec User
create_user statement db = add_user db (statement db.users)
