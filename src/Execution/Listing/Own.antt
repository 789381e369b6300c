-- ===== src/Execution/Listing/Own.antt =====
-- The queries for one user (internal/store/repository/execution/execution.go) show that user's rows.
use oplet.Prelude.{
  ℕ, String, ◌≡◌, refl, Bool, true, ◌&&◌, Option, none, some, List, [], ◌∷◌, Memᴰ, Memᴰ-left,
  Memᴰ-Permᴰ, ltb, ◌==◌, Memᴰ-filter, All, All-Memᴰ, All-take, All-drop, All-of_Memᴰ, Result, ok,
  err, nat_eq, nat_eq_iff, all, &&-eq-true, Option-cases, Bool-cases, inl, inr,
}
use oplet.Prelude.Int.{ℤ, is_pos}
use oplet.Store.Rows.{Time, TaskExecution}
use oplet.Store.Orm.{Error, failure, Query, select, page, is_none, where_}
use oplet.Store.Session.{Database, Gorm, executions_table, with_database}
use oplet.Execution.{paginate}
use oplet.Execution.Listing.{
  newest_first, of_user, ExecutionFilters, after_date, before_date, and_dates, and_task, and_status,
  fetch, list_for_user, search_executions_for_user, search_executions_for_user_by_task,
}

-- A row that a listing for this user may show.
pub record IsOwn (user_id : ℕ) (db : Database) (e : TaskExecution) : Type 0 where
  pub present : Memᴰ e db.executions
  pub live : is_none e.deleted_at ≡ true
  pub own : e.user_id ≡ user_id

-- A request has a condition.
Requires : (TaskExecution → Bool) → Query TaskExecution → Type 0
Requires p q = Memᴰ p q.conditions

all-Memᴰ :
    {A : Type 0} (p : A → Bool) (xs : List A) {x : A} → all p xs ≡ true → Memᴰ x xs → p x ≡ true
all-Memᴰ p [] h m = elim m [ ]
all-Memᴰ p (y ∷ xs) h (Memᴰ.head same) = rw same (&&-eq-true (p y) (all p xs) h).0
all-Memᴰ p (y ∷ xs) h (Memᴰ.tail later) = all-Memᴰ p xs (&&-eq-true (p y) (all p xs) h).1 later

-- a page is a part of its list
module _ (P : TaskExecution → Type 0) where
  All-page :
      (q : Query TaskExecution) (rows : List TaskExecution) → All P rows → All P (page q rows)
  All-page q rows h = elim (Option-cases q.limit) [
    | inl no_limit ↦ elim (Option-cases q.offset) [
      | inl no_offset ↦ rw (no_limit, no_offset) h
      | inr (n, offset) ↦ rw (no_limit, offset) (All-drop P n rows h)
    ]
    | inr (m, limit) ↦ elim (Option-cases q.offset) [
      | inl no_offset ↦ rw (limit, no_offset) (All-take P m rows h)
      | inr (n, offset) ↦ rw (limit, offset) (All-take P m _ (All-drop P n rows h))
    ]
  ]

select-IsOwn :
    (user_id : ℕ) (db : Database) (p : TaskExecution → Bool) (q : Query TaskExecution)
    → Memᴰ p q.conditions
    → ((e : TaskExecution) → p e ≡ true → e.user_id ≡ user_id)
    → All (IsOwn user_id db) (select executions_table q db.executions)
select-IsOwn user_id db p q required means =
    All-of_Memᴰ (IsOwn user_id db) (select executions_table q db.executions) (λ e m.
      let (present, chosen) = Memᴰ-filter _ db.executions m in
      let (live, met) = &&-eq-true (is_none e.deleted_at) (all (λ c. c e) q.conditions) chosen in
      record {
        present = present;
        live = live;
        own = means e (all-Memᴰ (λ c. c e) q.conditions met required);
      })

module _ (gorm : Gorm) (db : Database) where
  fetch-ok :
      (q : Query TaskExecution) {rows : List TaskExecution}
      → (fetch gorm q db).0 ≡ ok rows
      → gorm.executions.find q db.executions ≡ ok rows
  unfolding with_database
  fetch-ok q {rows} h = elim (Option-cases gorm.migrate_err) [
    | inl fine ↦ rw (fine, with_database) at h
    | inr (m, broken) ↦
        let g : ◌≡◌ {A = Result Error (List TaskExecution)} (err (failure m)) (ok rows) =
          rw (broken, with_database) at h in
        cc
  ]

  fetch-IsOwn :
      (user_id : ℕ) (p : TaskExecution → Bool) (q : Query TaskExecution) {rows : List TaskExecution}
      → Memᴰ p q.conditions
      → ((e : TaskExecution) → p e ≡ true → e.user_id ≡ user_id)
      → (fetch gorm q db).0 ≡ ok rows
      → All (IsOwn user_id db) rows
  fetch-IsOwn user_id p q {rows} required means h =
      let chosen = select executions_table q db.executions in
      rw (gorm.executions.find_eq q db.executions rows (fetch-ok q h)) (
        All-page (IsOwn user_id db) q (gorm.executions.arrange q.order chosen) (
          All-of_Memᴰ (IsOwn user_id db) _ (λ e m.
            All-Memᴰ (IsOwn user_id db) chosen (select-IsOwn user_id db p q required means)
              (Memᴰ-Permᴰ (gorm.executions.arrange_perm q.order chosen) m))))

module _ (p : TaskExecution → Bool) where
  paginate-Requires :
      (limit offset : ℤ) (q : Query TaskExecution)
      → Requires p q
      → Requires p (paginate limit offset q)
  unfolding Requires
  paginate-Requires limit offset q h = elim (Bool-cases (is_pos limit)) [
    | inl limited ↦ elim (Bool-cases (is_pos offset)) [
      | inl skipped ↦ rw (limited, skipped) h
      | inr from_start ↦ rw (limited, from_start) h
    ]
    | inr unlimited ↦ elim (Bool-cases (is_pos offset)) [
      | inl skipped ↦ rw (unlimited, skipped) h
      | inr from_start ↦ rw (unlimited, from_start) h
    ]
  ]

  and_status-Requires :
      (status : String) (q : Query TaskExecution) → Requires p q → Requires p (and_status status q)
  unfolding Requires
  and_status-Requires status q h = elim (Bool-cases (status == "")) [
    | inl any_status ↦ rw any_status h
    | inr given ↦ rw given (Memᴰ-left q.conditions _ h)
  ]

  and_task-Requires :
      (task_id : ℕ) (q : Query TaskExecution) → Requires p q → Requires p (and_task task_id q)
  unfolding Requires
  and_task-Requires task_id q h = elim (Bool-cases (ltb 0 task_id)) [
    | inr any_task ↦ rw any_task h
    | inl given ↦ rw given (Memᴰ-left q.conditions _ h)
  ]

  after_date-Requires :
      (from : Option Time) (q : Query TaskExecution) → Requires p q → Requires p (after_date from q)
  unfolding Requires
  after_date-Requires none q h = h
  after_date-Requires (some from) q h = Memᴰ-left q.conditions _ h

  before_date-Requires :
      (to : Option Time) (q : Query TaskExecution) → Requires p q → Requires p (before_date to q)
  unfolding Requires
  before_date-Requires none q h = h
  before_date-Requires (some to) q h = Memᴰ-left q.conditions _ h

  and_dates-Requires :
      (parse : String → Option Time) (filters : ExecutionFilters) (q : Query TaskExecution)
      → Requires p q
      → Requires p (and_dates parse filters q)
  and_dates-Requires parse filters q h = elim (Bool-cases (filters.date_from == "")) [
    | inl any_start ↦ elim (Bool-cases (filters.date_to == "")) [
      | inl any_end ↦ rw (any_start, any_end) h
      | inr to ↦ rw (any_start, to) (before_date-Requires (parse filters.date_to) q h)
    ]
    | inr from ↦
        let h' = after_date-Requires (parse filters.date_from) q h in
        elim (Bool-cases (filters.date_to == "")) [
          | inl any_end ↦ rw (from, any_end) h'
          | inr to ↦ rw (from, to) (before_date-Requires (parse filters.date_to) _ h')
        ]
  ]

module _ (gorm : Gorm) (db : Database) (user_id : ℕ) where
  -- If ListForUser answers rows, then each of them is a live row of the table and belongs to the
  -- user.
  pub list_for_user-IsOwn :
      (limit offset : ℤ) (rows : List TaskExecution)
      → (list_for_user gorm user_id limit offset db).0 ≡ ok rows
      → All (IsOwn user_id db) rows
  unfolding list_for_user Requires
  list_for_user-IsOwn limit offset rows h =
      fetch-IsOwn gorm db user_id (λ e. nat_eq e.user_id user_id) _
        (paginate-Requires _ limit offset (newest_first (of_user user_id)) (Memᴰ.head refl))
        (λ e. (nat_eq_iff e.user_id user_id).0) h

  -- If SearchExecutionsForUser answers rows, then each of them is a live row of the table and
  -- belongs to the user, whatever the filters say.
  pub search_executions_for_user-IsOwn :
      (parse : String → Option Time) (filters : ExecutionFilters) (limit offset : ℤ)
      (rows : List TaskExecution)
      → (search_executions_for_user gorm parse user_id filters limit offset db).0 ≡ ok rows
      → All (IsOwn user_id db) rows
  unfolding search_executions_for_user Requires
  search_executions_for_user-IsOwn parse filters limit offset rows h =
      let p : TaskExecution → Bool = λ e. nat_eq e.user_id user_id in
      fetch-IsOwn gorm db user_id p _
        (paginate-Requires p limit offset _ (
          and_dates-Requires p parse filters _ (
            and_task-Requires p filters.task_id _ (
              and_status-Requires p filters.status (newest_first (of_user user_id))
                (Memᴰ.head refl)))))
        (λ e. (nat_eq_iff e.user_id user_id).0) h

  pub search_executions_for_user_by_task-IsOwn :
      (parse : String → Option Time) (task_id : ℕ) (filters : ExecutionFilters) (limit offset : ℤ)
      (rows : List TaskExecution)
      → (search_executions_for_user_by_task gorm parse user_id task_id filters limit offset db).0
        ≡ ok rows
      → All (IsOwn user_id db) rows
  unfolding search_executions_for_user_by_task Requires
  search_executions_for_user_by_task-IsOwn parse task_id filters limit offset rows h =
      let p : TaskExecution → Bool = λ e. nat_eq e.user_id user_id && nat_eq e.task_id task_id in
      fetch-IsOwn gorm db user_id p _
        (paginate-Requires p limit offset _ (
          and_dates-Requires p parse filters _
            (and_status-Requires p filters.status (newest_first (where_ p)) (Memᴰ.head refl))))
        (λ e t. (nat_eq_iff e.user_id user_id).0 (&&-eq-true _ (nat_eq e.task_id task_id) t).0) h
