-- ===== src/Dispatch.antt =====
-- The queue under every request: the steps that the server takes on the executions. A step is one
-- transaction or one statement, and these run one after the other. handleTaskStatus
-- (internal/http/handler/runner/handler.go) reads the execution in one statement and saves it in a
-- later one, so other steps come in between: it is two steps, and what it has read is part of the
-- server's state meanwhile.
pub mod Taken
pub mod Once
pub mod Tickets
pub mod Refines
pub mod Served
use oplet.Prelude.{ℕ, String, ◌≡◌, ok, Result, List, ◌∷◌, ◌++◌, Memᴰ}
use oplet.Prelude.Int.{ℤ}
use oplet.Crypto.{Random}
use oplet.Store.Orm.{Error}
use oplet.Store.Rows.{Time, TaskExecution, TaskExecutionLog}
use oplet.Store.Session.{Database, Gorm}
use oplet.Execution.{next_task, create, set_completed, update, add_log}
use oplet.Api.{Request, proceed, find_execution}
use oplet.Api.Status.{TaskStatusRequest, read_status, apply_status}

-- A status request whose execution has been read and not yet saved.
pub record Report : Type 0 where
  pub req : TaskStatusRequest
  pub exec : TaskExecution

pub record Server : Type 0 where
  pub database : Database
  pub in_flight : List Report

-- A step of a request that changes the executions or their logs.
pub data Step (gorm : Gorm) : Server → Server → Type 0 where
  submitted :
      (random : Random) (execution row : TaskExecution) {db db' : Database} {reports : List Report}
      → create gorm random execution db ≡ (ok row, db')
      → Step gorm
          record { database = db; in_flight = reports }
          record { database = db'; in_flight = reports }
  dispatched :
      (random : Random) (now : Time) (e : TaskExecution) {db db' : Database} {reports : List Report}
      → next_task gorm random now db ≡ (ok e, db')
      → Step gorm
          record { database = db; in_flight = reports }
          record { database = db'; in_flight = reports }
  -- handleTaskStatus up to the read
  found :
      (r : Request TaskStatusRequest) (report : Report) {db : Database} {reports : List Report}
      → read_status r db ≡ (proceed report.req, db)
      → find_execution gorm r.task_id db ≡ (proceed report.exec, db)
      → Step gorm
          record { database = db; in_flight = reports }
          record { database = db; in_flight = report ∷ reports }
  -- its Save, which may fail; rows are only deleted softly, so there is still one with this id
  saved :
      (before after : List Report) (report : Report) (row : TaskExecution)
      (result : Result Error (Unit {0})) {db db' : Database}
      → Memᴰ row db.executions
      → row.id ≡ report.exec.id
      → update gorm (apply_status report.req report.exec) db ≡ (result, db')
      → Step gorm
          record { database = db; in_flight = before ++ report ∷ after }
          record { database = db'; in_flight = before ++ after }
  -- AddLog of handleTaskStatus and of handleTaskTrace
  logged :
      (execution_id : ℕ) (entries : List TaskExecutionLog) {db db' : Database}
      {reports : List Report}
      → (add_log gorm execution_id entries db).1 ≡ db'
      → Step gorm
          record { database = db; in_flight = reports }
          record { database = db'; in_flight = reports }
  completed :
      (id : ℕ) (exit_code : ℤ) (error_msg : String) (now : Time) {db db' : Database}
      {reports : List Report}
      → set_completed gorm id exit_code error_msg now db ≡ (ok tt, db')
      → Step gorm
          record { database = db; in_flight = reports }
          record { database = db'; in_flight = reports }

pub data Steps (gorm : Gorm) : Server → Server → Type 0 where
  stay : {s : Server} → Steps gorm s s
  then_ : {a b c : Server} → Step gorm a b → Steps gorm b c → Steps gorm a c
