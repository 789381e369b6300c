-- ===== src/Api/Trace/Stored.antt =====
-- What handleTaskTrace stores, on every branch.
use oplet.Prelude.{
  ◌≡◌, refl, ◌⊎◌, inl, inr, Bool, true, false, some, List, [], ◌∷◌, ◌==◌, map, length, all, All,
  Memᴰ, Option-cases, Bool-cases, &&-eq-true, ◌↔◌, ◌≢◌, ap, suc,
}
use oplet.Prelude.{equal_texts, distinct_texts, if◌then◌else◌, All-Memᴰ}
use oplet.Prelude.Int.{is_pos}
use oplet.Store.Rows.{TaskExecution, TaskExecutionLog}
use oplet.Store.Orm.{Added}
use oplet.Store.Session.{Database, Gorm, logs_table}
use oplet.Execution.{with_execution}
use oplet.Execution.Effects.{add_log-effect, IsRefused}
use oplet.Api.{Answer, validation_error, logs_added, Request, respond, proceed, ℕ, none}
use oplet.Api.Lookup.{IsError, IsNewest, find_execution-cases}
use oplet.Api.Status.{present}
use oplet.Api.Trace.{
  LogEntry, TaskTraceRequest, valid_entry, validate, validate_logs, db_log, read_trace,
  handle_task_trace,
}

pub record IsReadable (r : Request TaskTraceRequest) (req : TaskTraceRequest) : Type 0 where
  pub named : present r.task_id ≡ true
  pub typed : (r.content_type == "application/json") ≡ true
  pub decoded : r.json ≡ some req
  pub valid : validate req ≡ true

read_trace-cases :
    (r : Request TaskTraceRequest) (db : Database)
    → (read_trace r db ≡ (respond validation_error, db))
      ⊎ ((req : TaskTraceRequest) × IsReadable r req × (read_trace r db ≡ (proceed req, db)))
unfolding read_trace
read_trace-cases r db = elim (Bool-cases (present r.task_id)) [
  | inr bad ↦ inl (rw bad)
  | inl named ↦ elim (Bool-cases (r.content_type == "application/json")) [
    | inr bad ↦ inl (rw (named, bad))
    | inl typed ↦ elim (Option-cases r.json) [
      | inl bad ↦ inl (rw (named, typed, bad))
      | inr (req, decoded) ↦ elim (Bool-cases (validate req)) [
        | inr bad ↦ inl (rw (named, typed, decoded, bad))
        | inl valid ↦ inr (
          req,
          record { named = named; typed = typed; decoded = decoded; valid = valid },
          rw (named, typed, decoded, valid),
        )
      ]
    ]
  ]
]

-- The row for an entry of the request.
abbrev pub trace_row : ℕ → LogEntry → TaskExecutionLog
trace_row execution_id entry = record {
  model = record { id = 0; created_at = 0; deleted_at = none };
  execution_id = execution_id;
  timestamp = entry.timestamp;
  source = entry.source;
  clock = entry.clock;
  message = entry.message;
}

with_execution-rows :
    (execution_id : ℕ) (entries : List LogEntry)
    → with_execution execution_id (map (db_log execution_id) entries)
      ≡ map (trace_row execution_id) entries
with_execution-rows execution_id [] = refl
with_execution-rows execution_id (entry ∷ entries) =
    ap (λ rows. trace_row execution_id entry ∷ rows) (with_execution-rows execution_id entries)

length-map : {A B : Type 0} (f : A → B) (xs : List A) → length (map f xs) ≡ length xs
length-map f [] = refl
length-map f (x ∷ xs) = ap suc (length-map f xs)

-- An accepted trace: every entry is offered to the logs of the newest execution of the task, all of
-- them or, if the insertion fails, none; no other table changes, and the answer counts the entries
-- of the request in both cases.
pub record Stores (gorm : Gorm) (r : Request TaskTraceRequest) (db : Database) (a : Answer)
    (db' : Database) : Type 0 where
  pub req : TaskTraceRequest
  pub readable : IsReadable r req
  pub exec : TaskExecution
  pub newest : IsNewest r.task_id db exec
  pub logs : List TaskExecutionLog
  pub logged :
      ((logs ≡ db.logs) × IsRefused gorm db.logs (map (trace_row exec.id) req.logs))
      ⊎ Added logs_table (map (trace_row exec.id) req.logs) db.logs logs
  pub answered : a ≡ logs_added exec.id (length req.logs)
  pub stored : db' ≡ record db { logs = logs }

-- Every trace request is answered: either by one of the three errors, and then the database is
-- left alone, or the request was valid, its entries were offered to the logs of the newest
-- execution of the task under their own columns, each added unless its index is taken, or none of
-- them, and then the insertion was refused, and nothing else changed.
pub handle_task_trace_total :
    (gorm : Gorm) (r : Request TaskTraceRequest) (db : Database)
    → (a : Answer) × (db' : Database) × (handle_task_trace gorm r db ≡ (respond a, db'))
      × ((IsError a × (db' ≡ db)) ⊎ Stores gorm r db a db')
unfolding handle_task_trace
handle_task_trace_total gorm r db = elim (read_trace-cases r db) [
  | inl bad ↦ (validation_error, db, rw bad, inl (inr (inl refl), refl))
  | inr (req, readable, read) ↦ elim (find_execution-cases gorm r.task_id db) [
    | inl (a, wrong, lost) ↦ (a, db, rw (read, lost), inl (wrong, refl))
    | inr (exec, newest, found) ↦
        let (logs, state, logged) =
          add_log-effect gorm db exec.id (map (db_log exec.id) req.logs) in
        (
          logs_added exec.id (length (map (db_log exec.id) req.logs)),
          record db { logs = logs },
          rw (read, found, state),
          inr record {
            req = req;
            readable = readable;
            exec = exec;
            newest = newest;
            logs = logs;
            logged = rw (with_execution-rows exec.id req.logs) at logged;
            answered = ap (λ n. logs_added exec.id n) (length-map (db_log exec.id) req.logs);
            stored = refl;
          },
        )
  ]
]

-- An entry that the server accepts.
pub record IsEntry (log : LogEntry) : Type 0 where
  pub sourced : (log.source ≡ "container") ⊎ (log.source ≡ "system")
  pub spoken : log.message ≢ ""
  pub dated : is_pos log.timestamp ≡ true

valid_entry-IsEntry : (log : LogEntry) → valid_entry log ≡ true → IsEntry log
valid_entry-IsEntry log h = elim (Bool-cases (log.source == "")) [
  | inl bad ↦ let g : ◌≡◌ {A = Bool} false true = rw bad at h in cc
  | inr named ↦ elim (Bool-cases (log.source == "container")) [
    | inl container ↦ heard (inl (equal_texts log.source _ container)) (rw (named, container) at h)
    | inr other ↦ elim (Bool-cases (log.source == "system")) [
      | inl system ↦ heard (inr (equal_texts log.source _ system)) (rw (named, other, system) at h)
      | inr bad ↦ let g : ◌≡◌ {A = Bool} false true = rw (named, other, bad) at h in cc
    ]
  ]
]
  where
    heard :
        ((log.source ≡ "container") ⊎ (log.source ≡ "system"))
        → (if log.message == "" then false else is_pos log.timestamp) ≡ true
        → IsEntry log
    heard sourced k = elim (Bool-cases (log.message == "")) [
      | inl mute ↦ let g : ◌≡◌ {A = Bool} false true = rw mute at k in cc
      | inr spoken ↦ record {
        sourced = sourced;
        spoken = distinct_texts log.message "" spoken;
        dated = rw spoken at k;
      }
    ]

IsEntry-valid_entry : (log : LogEntry) → IsEntry log → valid_entry log ≡ true
IsEntry-valid_entry log entry = elim (Bool-cases (log.message == "")) [
  | inl mute ↦ elim (entry.spoken (equal_texts log.message "" mute)) [ ]
  | inr spoken ↦ elim entry.sourced [
    | inl container ↦ rw (container, spoken, entry.dated)
    | inr system ↦ rw (system, spoken, entry.dated)
  ]
]

all-All : (logs : List LogEntry) → all valid_entry logs ≡ true → All IsEntry logs
all-All [] h = tt
all-All (log ∷ logs) h =
    let (here, later) = &&-eq-true (valid_entry log) (all valid_entry logs) h in
    (valid_entry-IsEntry log here, all-All logs later)

All-all : (logs : List LogEntry) → All IsEntry logs → all valid_entry logs ≡ true
All-all [] h = refl
All-all (log ∷ logs) (here, later) = rw (IsEntry-valid_entry log here, All-all logs later)

validate_logs_iff :
    (logs : List LogEntry) → (validate_logs logs ≡ true) ↔ ((logs ≢ []) × All IsEntry logs)
validate_logs_iff [] = (λ h. cc, λ h. elim (h.0 refl) [ ])
validate_logs_iff (log ∷ logs) =
    (λ h. (λ e. cc, all-All (log ∷ logs) h), λ h. All-all (log ∷ logs) h.1)

-- A trace request is valid exactly if it has an entry and every entry has the source container or
-- system, a message that is not empty, and a positive timestamp.
pub validate_iff :
    (req : TaskTraceRequest) → (validate req ≡ true) ↔ ((req.logs ≢ []) × All IsEntry req.logs)
unfolding validate
validate_iff req = validate_logs_iff req.logs

-- A trace request whose body holds an entry with an empty message is answered by the validation
-- error, and none of its entries is stored.
pub empty_message-rejects :
    (gorm : Gorm) (r : Request TaskTraceRequest) (db : Database) (req : TaskTraceRequest)
    (entry : LogEntry)
    → r.json ≡ some req
    → Memᴰ entry req.logs
    → entry.message ≡ ""
    → handle_task_trace gorm r db ≡ (respond validation_error, db)
unfolding handle_task_trace
empty_message-rejects gorm r db req entry decoded member empty = elim (read_trace-cases r db) [
  | inl bad ↦ rw bad
  | inr (req', readable, read) ↦
      let same : req ≡ req' = cc in
      let accepted =
        All-Memᴰ IsEntry req'.logs ((validate_iff req').0 readable.valid).1 (rw same at member) in
      elim (accepted.spoken empty) [ ]
]
