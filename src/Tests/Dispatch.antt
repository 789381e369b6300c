-- ===== src/Tests/Dispatch.antt =====
-- Three claims in a row.
use oplet.Dispatch.Served.{Serves-Memᴰ, next, done}
use oplet.Dispatch.Refines.{Step-QueueStep}
use oplet.Dispatch.Tickets.{QueueStep, take, view, ticket}
use oplet.Dispatch.Tickets.View.{Distinct}
use oplet.Prelude.{◌≢◌, [], ◌∷◌, refl, arith, ◌≡◌, Memᴰ, ok, ℕ}
use oplet.Store.Rows.{TaskExecution}
use oplet.Store.Session.{Database, with_tx}
use oplet.Store.Engine.{memory}
use oplet.Crypto.{random_token}
use oplet.Execution.{next_task, claim}
use oplet.Prelude.{none}
use oplet.Prelude.Int.{pos}
use oplet.Dispatch.{Report, dispatched, stay, then_}
use oplet.Dispatch.Once.{next_task_once}
use oplet.Tests.Data.{pending, database, one_byte}

abbrev first : TaskExecution
first = claim 30 "ab" (pending 1 7 10)

abbrev second : TaskExecution
second = claim 31 "ab" (pending 2 7 20)

abbrev third : TaskExecution
third = claim 32 "ab" (pending 3 8 25)

abbrev queue : TaskExecution → TaskExecution → TaskExecution → Database
queue a b c = database (a ∷ b ∷ c ∷ [])

-- a report for the second execution, read while it waited
abbrev stale : Report
stale = record {
  req = record {
    status = "running";
    container_id = "";
    exit_code = none;
    error = "";
    started_at = none;
    finished_at = none;
    timestamp = pos 31;
  };
  exec = pending 2 7 20;
}

next_task_once_example : third.id ≢ first.id
unfolding next_task memory with_tx random_token
next_task_once_example =
    next_task_once memory one_byte one_byte 30 32 first third
      (queue (pending 1 7 10) (pending 2 7 20) (pending 3 8 25))
      (queue first (pending 2 7 20) (pending 3 8 25)) (queue first second (pending 3 8 25))
      (queue first second third) (stale ∷ []) (stale ∷ []) refl ((λ e. omega (arith, e)), tt)
      (then_ (dispatched one_byte 31 second refl) stay) refl

abbrev waiting_queue : Database
waiting_queue = queue (pending 1 7 10) (pending 2 7 20) (pending 3 8 25)

waiting_queue-Distinct : Distinct waiting_queue.executions
unfolding Distinct
waiting_queue-Distinct =
    ((λ e. omega (arith, e), (λ e. omega (arith, e), tt)), ((λ e. omega (arith, e), tt), (tt, tt)))

claim_first :
    next_task memory one_byte 30 waiting_queue
    ≡ (ok first, queue first (pending 2 7 20) (pending 3 8 25))
unfolding next_task memory with_tx random_token
claim_first = refl

claim_second :
    next_task memory one_byte 31 (queue first (pending 2 7 20) (pending 3 8 25))
    ≡ (ok second, queue first second (pending 3 8 25))
unfolding next_task memory with_tx random_token
claim_second = refl

Step-QueueStep_example :
    QueueStep (take 1) (view waiting_queue) (view (queue first (pending 2 7 20) (pending 3 8 25)))
    × Distinct (queue first (pending 2 7 20) (pending 3 8 25)).executions
Step-QueueStep_example =
    Step-QueueStep memory record { database = waiting_queue; in_flight = [] }
      record { database = queue first (pending 2 7 20) (pending 3 8 25); in_flight = [] }
      (dispatched one_byte 30 first claim_first) tt waiting_queue-Distinct

Serves-Memᴰ_example : Memᴰ {A = ℕ} 2 (1 ∷ 2 ∷ [])
Serves-Memᴰ_example =
    Serves-Memᴰ memory waiting_queue (queue first second (pending 3 8 25)) (1 ∷ 2 ∷ [])
      (ticket (pending 2 7 20))
      (next one_byte 30 first claim_first (next one_byte 31 second claim_second done))
      waiting_queue-Distinct (Memᴰ.tail (Memᴰ.head refl)) (omega arith)
