-- ===== src/Api/Status/Updates.antt =====
-- What handleTaskStatus does, on every branch.
use Prim.Native.String
use oplet.Prelude.{
  String, ◌≡◌, refl, ◌⊎◌, inl, inr, true, some, List, [], ◌∷◌, ◌==◌, ok, ap, Option-cases,
  Result-cases, Bool-cases, Memᴰ-filter, any_of_Memᴰ, nat_eq_iff, ◌≢◌, eq_iff, distinct_texts,
}
use oplet.Store.Rows.{TaskExecution, TaskExecutionLog}
use oplet.Store.Orm.{Added, same_id}
use oplet.Store.Session.{Database, Gorm, executions_table, logs_table}
use oplet.Execution.{update}
use oplet.Execution.Queue.{saved_rows}
use oplet.Execution.Effects.{update-ok, update-err, add_log-effect, IsRefused}
use oplet.Api.{
  Answer, internal_error, validation_error, status_updated, Request, respond, proceed, Option, ℕ,
  none,
}
use oplet.Api.Lookup.{IsError, IsNewest, find_execution-cases}
use oplet.Api.Status.{
  TaskStatusRequest, present, read_status, apply_status, status_log, handle_task_status, text_or,
  value_or, to_uint64,
}

-- The request is well formed: it names a task, and its body is a JSON object with a status.
pub record IsReadable (r : Request TaskStatusRequest) (req : TaskStatusRequest) : Type 0 where
  pub named : present r.task_id ≡ true
  pub typed : (r.content_type == "application/json") ≡ true
  pub decoded : r.json ≡ some req
  pub stated : present req.status ≡ true

read_status-cases :
    (r : Request TaskStatusRequest) (db : Database)
    → (read_status r db ≡ (respond validation_error, db))
      ⊎ ((req : TaskStatusRequest) × IsReadable r req × (read_status r db ≡ (proceed req, db)))
unfolding read_status
read_status-cases r db = elim (Bool-cases (present r.task_id)) [
  | inr bad ↦ inl (rw bad)
  | inl named ↦ elim (Bool-cases (r.content_type == "application/json")) [
    | inr bad ↦ inl (rw (named, bad))
    | inl typed ↦ elim (Option-cases r.json) [
      | inl bad ↦ inl (rw (named, typed, bad))
      | inr (req, decoded) ↦ elim (Bool-cases (present req.status)) [
        | inr bad ↦ inl (rw (named, typed, decoded, bad))
        | inl stated ↦ inr (
          req,
          record { named = named; typed = typed; decoded = decoded; stated = stated },
          rw (named, typed, decoded, stated),
        )
      ]
    ]
  ]
]

-- A column takes the value of the request if it gives one: a text that is not empty, or a value.
pub data TakesText (new old : String) : String → Type 0 where
  given : new ≢ "" → TakesText new old new
  left_empty : new ≡ "" → TakesText new old old

-- A column that takes the value of the request if it gives one.
pub data Takes {A : Type 0} : Option A → Option A → Option A → Type 0 where
  given_value : {new : A} {old : Option A} → Takes (some new) old (some new)
  no_value : {old : Option A} → Takes none old old

value_or-Takes : {A : Type 0} (new old : Option A) → Takes new old (value_or new old)
value_or-Takes none old = no_value
value_or-Takes (some new) old = given_value

text_or-TakesText : (new old : String) → TakesText new old (text_or new old)
text_or-TakesText new old = elim (Bool-cases (new == "")) [
  | inl empty ↦ rw empty (left_empty ((eq_iff new "").0 empty))
  | inr filled ↦ rw filled (given (distinct_texts new "" filled))
]

-- The row has the status of the request and the other fields that it gives, and is otherwise the old
-- row.
pub record IsUpdated (req : TaskStatusRequest) (old row : TaskExecution) : Type 0 where
  pub status : row.status ≡ req.status
  pub container_id : TakesText req.container_id old.container_id row.container_id
  pub exit_code : Takes req.exit_code old.exit_code row.exit_code
  pub error_message : TakesText req.error old.error_message row.error_message
  pub started_at : Takes req.started_at old.started_at row.started_at
  pub finished_at : Takes req.finished_at old.finished_at row.finished_at
  pub others :
      record row {
        status = old.status;
        container_id = old.container_id;
        exit_code = old.exit_code;
        error_message = old.error_message;
        started_at = old.started_at;
        finished_at = old.finished_at;
      }
      ≡ old

apply_status-IsUpdated :
    (req : TaskStatusRequest) (exec : TaskExecution) → IsUpdated req exec (apply_status req exec)
unfolding apply_status
apply_status-IsUpdated req exec = record {
  status = refl;
  container_id = text_or-TakesText req.container_id exec.container_id;
  exit_code = value_or-Takes req.exit_code exec.exit_code;
  error_message = text_or-TakesText req.error exec.error_message;
  started_at = value_or-Takes req.started_at exec.started_at;
  finished_at = value_or-Takes req.finished_at exec.finished_at;
  others = refl;
}

-- The entry that the server writes for a change.
abbrev pub change_entry : ℕ → TaskStatusRequest → TaskExecutionLog
change_entry execution_id req = record {
  model = record { id = 0; created_at = 0; deleted_at = none };
  execution_id = execution_id;
  timestamp = req.timestamp;
  source = "system";
  clock = to_uint64 req.timestamp;
  message = String.◌++◌ "Status changed to: " req.status;
}

-- An accepted update: the newest execution of the task takes the fields that the request gives, no
-- other row and no other table but the logs changes, and the logs gain the entry for the change
-- unless its index is taken or the insertion fails.
pub record Updates (gorm : Gorm) (r : Request TaskStatusRequest) (db : Database) (a : Answer)
    (db' : Database) : Type 0 where
  pub req : TaskStatusRequest
  pub readable : IsReadable r req
  pub exec : TaskExecution
  pub newest : IsNewest r.task_id db exec
  pub row : TaskExecution
  pub changed : IsUpdated req exec row
  pub is_row : row ≡ apply_status req exec
  pub logs : List TaskExecutionLog
  pub logged :
      ((logs ≡ db.logs) × IsRefused gorm db.logs (change_entry exec.id req ∷ []))
      ⊎ Added logs_table (change_entry exec.id req ∷ []) db.logs logs
  pub answered : a ≡ status_updated exec.id req.status
  pub stored : db' ≡ record db { executions = saved_rows row db.executions; logs = logs }

updated-rows :
    (gorm : Gorm) (db : Database) (task_id : String) (req : TaskStatusRequest)
    (exec : TaskExecution)
    → IsNewest task_id db exec
    → (rows : List TaskExecution)
    → gorm.executions.save (apply_status req exec) db.executions ≡ ok rows
    → rows ≡ saved_rows (apply_status req exec) db.executions
unfolding apply_status
updated-rows gorm db task_id req exec n rows saved =
    gorm.executions.saved (apply_status req exec) db.executions rows
      (any_of_Memᴰ (same_id executions_table exec) db.executions
        ((nat_eq_iff exec.id exec.id).1 refl) (Memᴰ-filter _ db.executions n.member).0)
      saved

-- Every status request is answered: either by one of the three errors, and then the database is
-- left alone, or the request was well formed, the newest execution of the task has taken the
-- fields that the request gives, the log entry for it was added unless its index is taken or its
-- insertion is refused, and nothing else changed.
pub handle_task_status_total :
    (gorm : Gorm) (r : Request TaskStatusRequest) (db : Database)
    → (a : Answer) × (db' : Database) × (handle_task_status gorm r db ≡ (respond a, db'))
      × ((IsError a × (db' ≡ db)) ⊎ Updates gorm r db a db')
unfolding handle_task_status status_log
handle_task_status_total gorm r db = elim (read_status-cases r db) [
  | inl bad ↦ (validation_error, db, rw bad, inl (inr (inl refl), refl))
  | inr (req, readable, read) ↦ elim (find_execution-cases gorm r.task_id db) [
    | inl (a, wrong, lost) ↦ (a, db, rw (read, lost), inl (wrong, refl))
    | inr (exec, newest, found) ↦ elim (Result-cases (update gorm (apply_status req exec) db).0) [
      | inr (x, broken) ↦ (
        internal_error,
        db,
        rw (read, found, broken, update-err gorm db (apply_status req exec) broken),
        inl (inl refl, refl),
      )
      | inl (u, done) ↦
          let (rows, saved, after) = update-ok gorm db (apply_status req exec) done in
          let (logs, state, logged) =
            add_log-effect gorm (record db { executions = rows }) exec.id
              (status_log exec.id req ∷ []) in
          let same = updated-rows gorm db r.task_id req exec newest rows saved in
          (
            status_updated exec.id req.status,
            record db { executions = rows; logs = logs },
            rw (read, found, done, after, apply_status, state),
            inr record {
              req = req;
              readable = readable;
              exec = exec;
              newest = newest;
              row = apply_status req exec;
              changed = apply_status-IsUpdated req exec;
              is_row = refl;
              logs = logs;
              logged = logged;
              answered = refl;
              stored = ap (λ x. record db { executions = x; logs = logs }) same;
            },
          )
    ]
  ]
]
