-- ===== src/Tests/Requests.antt =====
-- Requests of a runner, on a database of three executions.
use oplet.Strconv.{parse_uint, digits}
use oplet.Api.Status.Misdirected.{handle_task_status_misses}
use oplet.Prelude.{inl, inr, arith, ◌≡◌, ◌⊎◌, some, none, [], ◌∷◌, refl, Memᴰ}
use oplet.Prelude.Int.{pos}
use oplet.Store.Session.{Database}
use oplet.Store.Engine.{memory}
use oplet.Api.{Answer, Request, respond}
use oplet.Api.Lookup.{IsError}
use oplet.Api.Status.{TaskStatusRequest, handle_task_status}
use oplet.Api.Status.Updates.{Updates, handle_task_status_total}
use oplet.Api.Trace.{LogEntry, TaskTraceRequest, handle_task_trace}
use oplet.Api.Trace.Stored.{Stores, handle_task_trace_total}
use oplet.Tests.Data.{pending, database}

abbrev two : Database
two = database (pending 1 7 10 ∷ pending 2 7 20 ∷ [])

abbrev finished : Request TaskStatusRequest
finished = record {
  authorization = "Bearer ab";
  content_type = "application/json";
  task_id = "7";
  json = some record {
    status = "failed";
    container_id = "c1";
    exit_code = some (pos 3);
    error = "";
    started_at = none;
    finished_at = some 40;
    timestamp = pos 40;
  };
}

abbrev line : LogEntry
line = record { timestamp = pos 41; source = "container"; message = "hello"; clock = 0 }

abbrev blank : LogEntry
blank = record { timestamp = pos 42; source = "container"; message = ""; clock = 1 }

abbrev batch : TaskTraceRequest
batch = record { logs = line ∷ blank ∷ [] }

abbrev trace : TaskTraceRequest → Request TaskTraceRequest
trace req = record {
  authorization = "Bearer ab";
  content_type = "application/json";
  task_id = "7";
  json = some req;
}

handle_task_status_total_example :
    (a : Answer) × (db' : Database) × (handle_task_status memory finished two ≡ (respond a, db'))
    × ((IsError a × (db' ≡ two)) ⊎ Updates memory finished two a db')
handle_task_status_total_example = handle_task_status_total memory finished two

handle_task_trace_total_example :
    (a : Answer) × (db' : Database) × (handle_task_trace memory
        (trace record { logs = line ∷ [] })
        two
      ≡ (respond a, db'))
    × ((IsError a × (db' ≡ two)) ⊎ Stores memory (trace record { logs = line ∷ [] }) two a db')
handle_task_trace_total_example =
    handle_task_trace_total memory (trace record { logs = line ∷ [] }) two

handle_task_status_misses_example :
    Memᴰ (pending 1 7 10) (handle_task_status memory finished two).1.executions
unfolding parse_uint digits
handle_task_status_misses_example =
    handle_task_status_misses memory finished two 7 (pending 1 7 10) (pending 2 7 20) refl
      (Memᴰ.head refl) (inr refl, (inl (λ e. omega (arith, e)), tt)) (Memᴰ.tail (Memᴰ.head refl))
      (omega arith)
