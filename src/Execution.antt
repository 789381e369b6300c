-- ===== src/Execution.antt =====
-- The execution repository (internal/store/repository/execution): the queue and the operations on
-- statuses. `now` is what time.Now() answers and `random` is the system's random source.
pub mod Queue
pub mod Effects
pub mod Writes
pub mod Submits
pub mod Listing
pub mod Stats
pub mod Cleanup
use oplet.Prelude.{
  ℕ, String, Bool, true, false, not, ◌&&◌, ◌==◌, Option, none, some, List, [], ◌∷◌, map, Result, ok,
  err, nat_eq, ltb, if◌then◌else◌,
}
use oplet.Prelude.Int.{ℤ, is_zero, is_pos, pos_part}
use oplet.Crypto.{Random, random_token}
use oplet.Store.Rows.{Time, TaskExecution, TaskExecutionLog, TaskExecutionFile}
use oplet.Store.Orm.{
  Query, where_, and_where, order_by, asc, desc, asc_text, asc_int, limited, skipping, is_none,
}
use oplet.Store.Session.{
  Gorm, Exec, ◌>>=◌, ◌>>◌, pure, lift, query, with_tx, with_database, write_executions, write_logs,
  create_execution, create_file,
}
use oplet.Store.Status

abbrev pub bool_eq : Bool → Bool → Bool
bool_eq true b = b
bool_eq false b = not b

abbrev pub token_size : ℕ
token_size = 32

-- queue.go
abbrev pub waiting_query : Query TaskExecution
waiting_query = order_by (asc (λ e. e.created_at)) (where_ (λ e. is_none e.started_at))

abbrev pub claim : Time → String → TaskExecution → TaskExecution
claim now token e = record e { started_at = some now; runner_token = token }

-- `if limit > 0 { query = query.Limit(limit) }`, and the same for the offset
abbrev pub paginate : {Row : Type 0} → ℤ → ℤ → Query Row → Query Row
paginate limit offset q =
    let q' = if is_pos limit then limited (pos_part limit) q else q in
    if is_pos offset then skipping (pos_part offset) q' else q'

-- the loop of AddLog that writes the execution's id into each entry
abbrev pub with_execution : ℕ → List TaskExecutionLog → List TaskExecutionLog
with_execution id = map (λ (l : TaskExecutionLog). record l { execution_id = id })

-- the columns that SetCompleted writes
abbrev pub completed : ℤ → String → Time → TaskExecution → TaskExecution
completed exit_code error_msg now e = record e {
  exit_code = some exit_code;
  error_message = error_msg;
  finished_at = some now;
  status = if is_zero exit_code && error_msg == "" then Status.succeeded else Status.failed;
}

module _ (gorm : Gorm) where
  unfoldable pub next_task : Random → Time → Exec TaskExecution
  next_task random now = with_tx gorm do
    execution ← query (λ db. gorm.executions.first waiting_query db.executions)
    token ← lift (random_token random token_size)
    let claimed = claim now token execution
    write_executions (gorm.executions.save claimed)
    pure claimed

  unfoldable pub create : Random → TaskExecution → Exec TaskExecution
  create random execution = with_database gorm do
    token ← lift (random_token random token_size)
    create_execution (gorm.executions.create (record execution { runner_token = token }))

  unfoldable pub get_by_id : ℕ → Exec TaskExecution
  get_by_id id =
      with_database gorm
        (query (λ db. gorm.executions.first (where_ (λ e. nat_eq e.id id)) db.executions))

  unfoldable pub get_by_id_for_user : ℕ → ℕ → Exec TaskExecution
  get_by_id_for_user id user_id = with_database gorm (
      query (λ db.
        gorm.executions.first (where_ (λ e. nat_eq e.id id && nat_eq e.user_id user_id))
          db.executions))

  unfoldable pub update : TaskExecution → Exec (Unit {0})
  update execution = with_database gorm (write_executions (gorm.executions.save execution))

  unfoldable pub update_status : ℕ → String → Exec (Unit {0})
  update_status id status = with_database gorm (
      write_executions
        (gorm.executions.update (λ e. nat_eq e.id id) (λ e. record e { status = status })))

  unfoldable pub set_completed : ℕ → ℤ → String → Time → Exec (Unit {0})
  set_completed id exit_code error_msg now = with_database gorm (
      write_executions
        (gorm.executions.update (λ e. nat_eq e.id id) (completed exit_code error_msg now)))

  unfoldable pub get_by_task_id : ℕ → ℤ → ℤ → Exec (List TaskExecution)
  get_by_task_id task_id limit offset = with_database gorm (
      query (λ db.
        gorm.executions.find
          (paginate limit offset
            (order_by (desc (λ e. e.created_at)) (where_ (λ e. nat_eq e.task_id task_id))))
          db.executions))

  unfoldable pub add_log : ℕ → List TaskExecutionLog → Exec (Unit {0})
  add_log execution_id logs =
      with_database gorm (write_logs (gorm.logs.create_new (with_execution execution_id logs)))

  unfoldable pub get_logs : ℕ → ℤ → ℤ → Exec (List TaskExecutionLog)
  get_logs execution_id limit offset = with_database gorm (
      query (λ db.
        gorm.logs.find
          (paginate limit offset (
            order_by (asc_int (λ l. l.timestamp))
              (where_ (λ l. nat_eq l.execution_id execution_id))))
          db.logs))

  unfoldable pub add_file : ℕ → TaskExecutionFile → Exec TaskExecutionFile
  add_file execution_id file =
      with_database gorm
        (create_file (gorm.files.create (record file { execution_id = execution_id })))

  unfoldable pub get_files : ℕ → Bool → Exec (List TaskExecutionFile)
  get_files execution_id is_output = with_database gorm (
      query (λ db.
        gorm.files.find
          (order_by (asc_text (λ f. f.filename))
            (where_ (λ f. nat_eq f.execution_id execution_id && bool_eq f.is_output is_output)))
          db.files))

  unfoldable pub get_file_by_path : ℕ → String → Exec TaskExecutionFile
  get_file_by_path execution_id filename = with_database gorm (
      query (λ db.
        gorm.files.first
          (where_ (λ f. nat_eq f.execution_id execution_id && f.filename == filename)) db.files))
