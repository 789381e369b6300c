-- ===== src/Execution/Listing.antt =====
-- The queries of the execution repository (internal/store/repository/execution/execution.go): lists,
-- searches and counts. `parse` is time.Parse for the layout 2006-01-02.
pub mod Own
use oplet.Prelude.{
  ℕ, ◌+◌, ◌*◌, ◌^◌, String, ◌==◌, ◌&&◌, Option, none, some, List, any, [], ◌∷◌, nat_eq, ltb, leb,
  if◌then◌else◌,
}
use oplet.Prelude.Int.{ℤ, pos}
use oplet.Store.Rows.{Time, TaskExecution, TaskExecutionLog}
use oplet.Store.Orm.{Query, where_, every, and_where, order_by, desc}
use oplet.Store.Session.{Gorm, Exec, query, with_database}
use oplet.Store.Status
use oplet.Execution.{paginate}

-- Created first: the newest row leads.
abbrev newest_first : Query TaskExecution → Query TaskExecution
newest_first = order_by (desc (λ e. e.created_at))

pub record ExecutionFilters : Type 0 where
  pub status : String
  pub user_id : ℕ
  pub task_id : ℕ
  pub date_from : String
  pub date_to : String

abbrev of_user : ℕ → Query TaskExecution
of_user user_id = where_ (λ e. nat_eq e.user_id user_id)

abbrev and_status : String → Query TaskExecution → Query TaskExecution
and_status status q = if status == "" then q else and_where (λ e. e.status == status) q

abbrev and_user : ℕ → Query TaskExecution → Query TaskExecution
and_user user_id q = if ltb 0 user_id then and_where (λ e. nat_eq e.user_id user_id) q else q

abbrev and_task : ℕ → Query TaskExecution → Query TaskExecution
and_task task_id q = if ltb 0 task_id then and_where (λ e. nat_eq e.task_id task_id) q else q

-- nanoseconds
abbrev day : Time
day = 24 * 3600 * 10 ^ 9

abbrev after_date : Option Time → Query TaskExecution → Query TaskExecution
after_date none q = q
after_date (some from) q = and_where (λ e. leb from e.created_at) q

abbrev before_date : Option Time → Query TaskExecution → Query TaskExecution
before_date none q = q
before_date (some to) q = and_where (λ e. leb e.created_at (to + day)) q

-- A date that does not parse is no condition.
abbrev and_dates :
    (String → Option Time) → ExecutionFilters → Query TaskExecution → Query TaskExecution
and_dates parse filters q =
    let q' = if filters.date_from == "" then q else after_date (parse filters.date_from) q in
    if filters.date_to == "" then q' else before_date (parse filters.date_to) q'

-- the conditions of SearchExecutions and CountExecutions, and those of the variants for a user
abbrev filtered :
    (String → Option Time) → ExecutionFilters → Query TaskExecution → Query TaskExecution
filtered parse filters q =
    and_dates parse filters
      (and_task filters.task_id (and_user filters.user_id (and_status filters.status q)))

abbrev filtered_for_user :
    (String → Option Time) → ExecutionFilters → Query TaskExecution → Query TaskExecution
filtered_for_user parse filters q =
    and_dates parse filters (and_task filters.task_id (and_status filters.status q))

abbrev filtered_by_task :
    (String → Option Time) → ExecutionFilters → Query TaskExecution → Query TaskExecution
filtered_by_task parse filters q = and_dates parse filters (and_status filters.status q)

abbrev running_statuses : List String
running_statuses =
    Status.pending ∷ Status.pulling_image ∷ Status.image_pulled ∷ Status.creating_container
    ∷ Status.container_created ∷ Status.uploading_files ∷ Status.files_uploaded
    ∷ Status.starting_container ∷ Status.container_started ∷ Status.running
    ∷ Status.downloading_files ∷ []

module _ (gorm : Gorm) where
  -- `Find` in the session
  abbrev fetch : Query TaskExecution → Exec (List TaskExecution)
  fetch q = with_database gorm (query (λ db. gorm.executions.find q db.executions))

  abbrev count : Query TaskExecution → Exec ℕ
  count q = with_database gorm (query (λ db. gorm.executions.count q db.executions))

  unfoldable pub get_by_task_id_for_user : ℕ → ℕ → ℤ → ℤ → Exec (List TaskExecution)
  get_by_task_id_for_user task_id user_id limit offset = fetch (
      paginate limit offset
        (newest_first (where_ (λ e. nat_eq e.task_id task_id && nat_eq e.user_id user_id))))

  unfoldable pub get_by_user_id : ℕ → ℤ → ℤ → Exec (List TaskExecution)
  get_by_user_id user_id limit offset =
      fetch (paginate limit offset (newest_first (of_user user_id)))

  unfoldable pub get_by_container_id : String → Exec TaskExecution
  get_by_container_id container_id = with_database gorm (
      query
        (λ db. gorm.executions.first (where_ (λ e. e.container_id == container_id)) db.executions))

  unfoldable pub get_running_executions : Exec (List TaskExecution)
  get_running_executions = fetch (where_ (λ e. any (λ s. e.status == s) running_statuses))

  unfoldable pub list : ℤ → ℤ → Exec (List TaskExecution)
  list limit offset = fetch (paginate limit offset (newest_first every))

  unfoldable pub list_for_user : ℕ → ℤ → ℤ → Exec (List TaskExecution)
  list_for_user user_id limit offset =
      fetch (paginate limit offset (newest_first (of_user user_id)))

  unfoldable pub get_recent_executions : ℤ → Exec (List TaskExecution)
  get_recent_executions limit = fetch (paginate limit (pos 0) (newest_first every))

  unfoldable pub get_recent_executions_for_user : ℕ → ℤ → Exec (List TaskExecution)
  get_recent_executions_for_user user_id limit =
      fetch (paginate limit (pos 0) (newest_first (of_user user_id)))

  unfoldable pub count_by_status : String → Exec ℕ
  count_by_status status = count (where_ (λ e. e.status == status))

  unfoldable pub search_executions :
      (String → Option Time) → ExecutionFilters → ℤ → ℤ → Exec (List TaskExecution)
  search_executions parse filters limit offset =
      fetch (paginate limit offset (filtered parse filters (newest_first every)))

  unfoldable pub search_executions_for_user :
      (String → Option Time) → ℕ → ExecutionFilters → ℤ → ℤ → Exec (List TaskExecution)
  search_executions_for_user parse user_id filters limit offset =
      fetch
        (paginate limit offset (filtered_for_user parse filters (newest_first (of_user user_id))))

  unfoldable pub search_executions_for_user_by_task :
      (String → Option Time) → ℕ → ℕ → ExecutionFilters → ℤ → ℤ → Exec (List TaskExecution)
  search_executions_for_user_by_task parse user_id task_id filters limit offset = fetch (
      paginate limit offset (
        filtered_by_task parse filters
          (newest_first (where_ (λ e. nat_eq e.user_id user_id && nat_eq e.task_id task_id)))))

  unfoldable pub count_executions : (String → Option Time) → ExecutionFilters → Exec ℕ
  count_executions parse filters = count (filtered parse filters every)

  unfoldable pub count_executions_for_user : (String → Option Time) → ℕ → ExecutionFilters → Exec ℕ
  count_executions_for_user parse user_id filters =
      count (filtered_for_user parse filters (of_user user_id))
