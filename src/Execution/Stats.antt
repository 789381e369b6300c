-- ===== src/Execution/Stats.antt =====
-- The statistics of internal/store/repository/execution/execution.go.
pub mod Bounds
use oplet.Prelude.{ℕ, ◌==◌, ◌&&◌, Bool, Option, none, some, List, Result, ok, err, nat_eq}
use oplet.Prelude.Int.{ℤ}
use oplet.Store.Rows.{Time, TaskExecution, TaskExecutionLog}
use oplet.Store.Orm.{Error, where_, order_by, asc, desc}
use oplet.Store.Session.{Database, Gorm, Exec, ◌>>=◌, pure, query, with_database}
use oplet.Store.Status
use oplet.Execution.{paginate}

pub record ExecutionStats : Type 0 where
  pub total_executions : ℕ
  pub successful_runs : ℕ
  pub failed_runs : ℕ
  pub last_execution : Option Time
  -- in whole seconds
  pub average_run_time : ℕ

abbrev pub passed_over : {A : Type 0} → Result Error A → Option A
passed_over (ok a) = some a
passed_over (err e) = none

-- a query whose error is passed over
abbrev pub optional : {A : Type 0} → (Database → Result Error A) → Exec (Option A)
optional f db = (ok (passed_over (f db)), db)

abbrev or_zero : Option ℕ → ℕ
or_zero none = 0
or_zero (some n) = n

abbrev created_at_of : Option TaskExecution → Option Time
created_at_of none = none
created_at_of (some e) = some e.created_at

abbrev pub stats_from : ℕ → ℕ → ℕ → Option TaskExecution → Option ℕ → ExecutionStats
stats_from total successful failed last mean = record {
  total_executions = total;
  successful_runs = successful;
  failed_runs = failed;
  last_execution = created_at_of last;
  average_run_time = or_zero mean;
}

-- `average` is the mean of the run times in seconds, rounded down, that the database computes for the
-- rows with a start and an end among those that are chosen.
module _ (gorm : Gorm)
    (average : (TaskExecution → Bool) → List TaskExecution → Result Error ℕ) where
  abbrev pub count_where : (TaskExecution → Bool) → Exec ℕ
  count_where p = query (λ db. gorm.executions.count (where_ p) db.executions)

  abbrev pub stats_of : (TaskExecution → Bool) → Exec ExecutionStats
  stats_of chosen = with_database gorm do
    total ← count_where chosen
    successful ← count_where (λ e. chosen e && e.status == Status.succeeded)
    failed ← count_where (λ e. chosen e && e.status == Status.failed)
    last ← optional (λ db.
        gorm.executions.first (order_by (desc (λ e. e.created_at)) (where_ chosen)) db.executions)
    mean ← optional (λ db. average chosen db.executions)
    pure (stats_from total successful failed last mean)

  unfoldable pub get_execution_stats : ℕ → Exec ExecutionStats
  get_execution_stats task_id = stats_of (λ e. nat_eq e.task_id task_id)

  unfoldable pub get_execution_stats_for_user : ℕ → ℕ → Exec ExecutionStats
  get_execution_stats_for_user task_id user_id =
      stats_of (λ e. nat_eq e.task_id task_id && nat_eq e.user_id user_id)
