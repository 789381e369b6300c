-- ===== src/Execution/Effects.antt =====
-- What the repository's single statements do to the tables.
use mathlib.Core.Path.{subst}
use oplet.Prelude.{
  ℕ, ◌≤◌, ◌≡◌, refl, sym, ap, ◌∙◌, nat_eq, Bool, some, List, [], ◌∷◌, Memᴰ, Permᴰ, Result, ok, err,
  Option-cases, Result-cases, ◌⊎◌, inl, inr, All, All-Permᴰ, Memᴰ-Permᴰ, take, first_row, arith,
  ◌++◌, none,
}
use oplet.Prelude.Int.{ℤ}
use oplet.Store.Rows.{TaskExecution, TaskExecutionLog, TaskExecutionFile, Model}
use oplet.Store.Orm.{
  Error, failure, where_, order_by, desc, limited, Added, Table, Orm, Ordered, select,
}
use oplet.Store.Session.{Database, Gorm, logs_table, with_database}
use oplet.Execution.{paginate, with_execution, get_by_task_id, update, add_log, add_file, String}

-- The entries cannot be added: the database is not set up, or the insertion fails.
abbrev pub IsRefused : Gorm → List TaskExecutionLog → List TaskExecutionLog → Type 0
IsRefused gorm logs entries =
    ((m : String) × (gorm.migrate_err ≡ some m))
    ⊎ ((e : Error) × (gorm.logs.create_new entries logs ≡ err e))

module _ (gorm : Gorm) (db : Database) where
  pub get_by_task_id-state :
      (id : ℕ) (limit offset : ℤ) → (get_by_task_id gorm id limit offset db).1 ≡ db
  unfolding get_by_task_id with_database
  get_by_task_id-state id limit offset = elim (Option-cases gorm.migrate_err) [
    | inl fine ↦ rw (fine, with_database)
    | inr (m, broken) ↦ rw (broken, with_database)
  ]

  pub get_by_task_id-ok :
      (id : ℕ) (limit offset : ℤ) {rows : List TaskExecution}
      → (get_by_task_id gorm id limit offset db).0 ≡ ok rows
      → gorm.executions.find
          (paginate limit offset
            (order_by (desc (λ e. e.created_at)) (where_ (λ e. nat_eq e.task_id id))))
          db.executions
        ≡ ok rows
  unfolding get_by_task_id with_database
  get_by_task_id-ok id limit offset {rows} h = elim (Option-cases gorm.migrate_err) [
    | inl fine ↦ rw (fine, with_database) at h
    | inr (m, broken) ↦
        let g : ◌≡◌ {A = Result Error (List TaskExecution)} (err (failure m)) (ok rows) =
          rw (broken, with_database) at h in
        cc
  ]

  pub update-ok :
      (e : TaskExecution)
      → (update gorm e db).0 ≡ ok tt
      → (rows : List TaskExecution) × (gorm.executions.save e db.executions ≡ ok rows)
        × ((update gorm e db).1 ≡ record db { executions = rows })
  unfolding update with_database
  update-ok e h = elim (Option-cases gorm.migrate_err) [
    | inl fine ↦ elim (Result-cases (gorm.executions.save e db.executions)) [
      | inl (rows, saved) ↦ (rows, saved, rw (fine, with_database, saved))
      | inr (x, broken) ↦
          let g : ◌≡◌ {A = Result Error (Unit {0})} (err x) (ok tt) =
            rw (fine, with_database, broken) at h in
          cc
    ]
    | inr (m, broken) ↦
        let g : ◌≡◌ {A = Result Error (Unit {0})} (err (failure m)) (ok tt) =
          rw (broken, with_database) at h in
        cc
  ]

  pub update-err :
      (e : TaskExecution) {x : Error} → (update gorm e db).0 ≡ err x → (update gorm e db).1 ≡ db
  unfolding update with_database
  update-err e {x} h = elim (Option-cases gorm.migrate_err) [
    | inl fine ↦ elim (Result-cases (gorm.executions.save e db.executions)) [
      | inl (rows, saved) ↦
          let g : ◌≡◌ {A = Result Error (Unit {0})} (ok tt) (err x) =
            rw (fine, with_database, saved) at h in
          cc
      | inr (y, broken) ↦ rw (fine, with_database, broken)
    ]
    | inr (m, broken) ↦ rw (broken, with_database)
  ]

  -- AddLog touches the logs alone, and not even these if it fails.
  pub add_log-effect :
      (id : ℕ) (entries : List TaskExecutionLog)
      → (logs : List TaskExecutionLog) × ((add_log gorm id entries db).1
          ≡ record db { logs = logs })
        × (((logs ≡ db.logs) × IsRefused gorm db.logs (with_execution id entries))
            ⊎ Added logs_table (with_execution id entries) db.logs logs)
  unfolding add_log with_database
  add_log-effect id entries = elim (Option-cases gorm.migrate_err) [
    | inl fine ↦ elim (Result-cases (gorm.logs.create_new (with_execution id entries) db.logs)) [
      | inl (rows, made) ↦ (
        rows,
        rw (fine, with_database, made),
        inr (gorm.logs.created_new (with_execution id entries) db.logs rows made),
      )
      | inr (y, broken) ↦ (db.logs, rw (fine, with_database, broken), inl (refl, inr (y, broken)))
    ]
    | inr (m, broken) ↦ (db.logs, rw (broken, with_database), inl (refl, inl (m, broken)))
  ]

head_newest :
    {Row : Type 0} (key : Row → ℕ) (chosen sorted : List Row) (e : Row)
    → Permᴰ sorted chosen
    → Ordered (desc key) sorted
    → first_row (take 1 sorted) ≡ some e
    → Memᴰ e chosen × All (λ s. key s ≤ key e) chosen
head_newest key chosen [] e perm ordered same = cc
head_newest {Row} key chosen (x ∷ sorted) e perm (above, _) same =
    let eq : x ≡ e = cc in
    subst (λ (y : Row). Memᴰ y chosen × All (λ s. key s ≤ key y) chosen) eq
      (Memᴰ-Permᴰ perm (Memᴰ.head refl), All-Permᴰ (λ s. key s ≤ key x) perm (omega arith, above))

-- The first row of a page of one, in descending order: it is selected, and no selected row has a
-- greater key.
pub find-newest :
    {Row : Type 0} {table : Table Row} (orm : Orm Row table) (key : Row → ℕ) (p : Row → Bool)
    (rows found : List Row) (e : Row)
    → orm.find (limited 1 (order_by (desc key) (where_ p))) rows ≡ ok found
    → first_row found ≡ some e
    → Memᴰ e (select table (where_ p) rows)
      × All (λ s. key s ≤ key e) (select table (where_ p) rows)
find-newest {table} orm key p rows found e h k =
    let chosen = select table (where_ p) rows in
    head_newest key chosen (orm.arrange (desc key) chosen) e (orm.arrange_perm (desc key) chosen)
      (orm.arrange_ordered (desc key) chosen)
      (ap first_row (sym (orm.find_eq (limited 1 (order_by (desc key) (where_ p))) rows found h))
        ∙ k)

-- AddFile adds one live row with the given columns, or fails and changes nothing.
pub add_file-cases :
    (gorm : Gorm) (id : ℕ) (file : TaskExecutionFile) (db : Database)
    → ((m : Model) × (m.deleted_at ≡ none)
        × (add_file gorm id file db ≡ (
          ok (record file { model = m; execution_id = id }),
          record db { files = db.files ++ record file { model = m; execution_id = id } ∷ [] },
        )))
      ⊎ ((e : Error) × (add_file gorm id file db ≡ (err e, db)))
unfolding add_file with_database
add_file-cases gorm id file db = elim (Option-cases gorm.migrate_err) [
  | inr (m, broken) ↦ inr (failure m, rw (broken, with_database) refl)
  | inl fine ↦
      elim (Result-cases (gorm.files.create (record file { execution_id = id }) db.files)) [
        | inr (e, failed) ↦ inr (e, rw (fine, with_database, failed) refl)
        | inl ((row, after), made) ↦
            let (m, filled, live, fresh, free, grown) =
              gorm.files.created (record file { execution_id = id }) row db.files after made in
            inl (m, live, rw (fine, with_database, made, grown, filled) refl)
      ]
]
