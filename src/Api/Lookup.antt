-- ===== src/Api/Lookup.antt =====
-- The lookup that the handlers of /tasks/{taskID}/… share, on every branch.
use mathlib.Core.Path.{subst}
use oplet.Prelude.{
  ℕ, ◌≤◌, String, ◌≡◌, refl, ◌⊎◌, inl, inr, nat_eq, some, List, Memᴰ, All, first_row, Option-cases,
  Result-cases, ap, sym, ◌∙◌,
}
use oplet.Prelude.Int.{pos}
use oplet.Strconv.{parse_uint}
use oplet.Store.Rows.{TaskExecution}
use oplet.Store.Orm.{select, where_}
use oplet.Store.Session.{Database, Gorm, executions_table}
use oplet.Execution.{get_by_task_id}
use oplet.Execution.Effects.{get_by_task_id-state, get_by_task_id-ok, find-newest}
use oplet.Api.{
  Answer, internal_error, validation_error, not_found, respond, proceed, find_execution, Reply,
}

-- an answer that says that the request was not carried out
abbrev pub IsError : Answer → Type 0
IsError a = (a ≡ internal_error) ⊎ ((a ≡ validation_error) ⊎ (a ≡ not_found))

abbrev pub of_task : ℕ → Database → List TaskExecution
of_task id db = select executions_table (where_ (λ e. nat_eq e.task_id id)) db.executions

-- `e` is the newest execution of the task in the path that is not deleted.
pub record IsNewest (task_id : String) (db : Database) (e : TaskExecution) : Type 0 where
  pub id : ℕ
  pub parsed : parse_uint 32 task_id ≡ some id
  pub member : Memᴰ e (of_task id db)
  pub newest : All (λ s. s.created_at ≤ e.created_at) (of_task id db)

-- The lookup that the task handlers share answers an error, or it finds the newest live execution
-- of the task in the path; in neither case does it change the database.
pub find_execution-cases :
    (gorm : Gorm) (task_id : String) (db : Database)
    → ((a : Answer) × IsError a × (find_execution gorm task_id db ≡ (respond a, db)))
      ⊎ ((e : TaskExecution) × IsNewest task_id db e
          × (find_execution gorm task_id db ≡ (proceed e, db)))
unfolding find_execution
find_execution-cases gorm task_id db = elim (Option-cases (parse_uint 32 task_id)) [
  | inl bad ↦ inl (validation_error, inr (inl refl), rw bad)
  | inr (id, parsed) ↦ elim (Result-cases (get_by_task_id gorm id (pos 1) (pos 0) db).0) [
    | inr (x, broken) ↦ inl (
      internal_error,
      inl refl,
      rw (parsed, broken, get_by_task_id-state gorm db id (pos 1) (pos 0)),
    )
    | inl (rows, found) ↦ elim (Option-cases (first_row rows)) [
      | inl empty ↦ inl (
        not_found,
        inr (inr refl),
        rw (parsed, found, get_by_task_id-state gorm db id (pos 1) (pos 0), empty),
      )
      | inr (e, first) ↦
          let (member, newest) =
            find-newest gorm.executions (λ e. e.created_at) (λ e. nat_eq e.task_id id) db.executions
              rows e (get_by_task_id-ok gorm db id (pos 1) (pos 0) found) first in
          inr (
            e,
            record { id = id; parsed = parsed; member = member; newest = newest },
            rw (parsed, found, get_by_task_id-state gorm db id (pos 1) (pos 0), first),
          )
    ]
  ]
]

-- An execution that the lookup answers is the newest live one of the task.
pub find_execution-newest :
    (gorm : Gorm) (task_id : String) (db : Database) {e : TaskExecution}
    → find_execution gorm task_id db ≡ (proceed e, db)
    → IsNewest task_id db e
find_execution-newest gorm task_id db {e} h = elim (find_execution-cases gorm task_id db) [
  | inl (a, is_error, refused) ↦
      let g : ◌≡◌ {A = Reply TaskExecution} (respond a) (proceed e) =
        ap (λ (o : Reply TaskExecution × Database). o.0) (sym refused ∙ h) in
      absurd cc
  | inr (x, newest, answered) ↦
      let g : ◌≡◌ {A = Reply TaskExecution} (proceed x) (proceed e) =
        ap (λ (o : Reply TaskExecution × Database). o.0) (sym answered ∙ h) in
      let same : x ≡ e = cc in subst (λ (y : TaskExecution). IsNewest task_id db y) same newest
]
