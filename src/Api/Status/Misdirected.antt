-- ===== src/Api/Status/Misdirected.antt =====
-- handleTaskStatus with two executions of one task in flight.
use mathlib.Core.Path.{subst}
use oplet.Prelude.{
  ℕ, ◌<◌, ◌≤◌, String, ◌≡◌, refl, sym, ap, ◌∙◌, ◌≢◌, inl, inr, some, List, Memᴰ, Memᴰ-filter, All,
  All-Memᴰ, Bool-cases, nat_eq_iff, map-Memᴰ, if◌then◌else◌, arith, ◌⊎◌,
}
use oplet.Strconv.{parse_uint}
use oplet.Store.Rows.{TaskExecution}
use oplet.Store.Orm.{same_id}
use oplet.Store.Session.{Database, Gorm, executions_table}
use oplet.Execution.Queue.{saved_rows}
use oplet.Api.{Request, Reply}
use oplet.Api.Lookup.{of_task, IsNewest}
use oplet.Api.Status.{TaskStatusRequest, apply_status, handle_task_status}
use oplet.Api.Status.Updates.{handle_task_status_total}

saved_rows-Memᴰ :
    (e s : TaskExecution) (rows : List TaskExecution)
    → s.id ≢ e.id
    → Memᴰ s rows
    → Memᴰ s (saved_rows e rows)
saved_rows-Memᴰ e s rows other m = elim (Bool-cases (same_id executions_table e s)) [
  | inl hit ↦ elim (other (sym ((nat_eq_iff e.id s.id).0 hit))) [ ]
  | inr miss ↦
      let kept : (if same_id executions_table e s then e else s) ≡ s = rw miss in
      subst (λ (x : TaskExecution). Memᴰ x (saved_rows e rows)) kept
        (map-Memᴰ (λ (x : TaskExecution). if same_id executions_table e x then e else x) rows m)
]

newest-ne :
    (task_id : String) (id : ℕ) (db : Database) (older newer e : TaskExecution)
    → parse_uint 32 task_id ≡ some id
    → Memᴰ newer (of_task id db)
    → older.created_at < newer.created_at
    → IsNewest task_id db e
    → older ≢ e
newest-ne task_id id db older newer e parsed present earlier n same =
    let ids : some id ≡ some n.id = sym parsed ∙ n.parsed in
    let id_is : id ≡ n.id = cc in
    let bound =
      All-Memᴰ (λ s. s.created_at ≤ e.created_at) (of_task n.id db) n.newest
        (subst (λ (k : ℕ). Memᴰ newer (of_task k db)) id_is present) in
    omega (arith, bound, earlier, ap (λ (x : TaskExecution). x.created_at) same)

apply_status_id : (req : TaskStatusRequest) (e : TaskExecution) → (apply_status req e).id ≡ e.id
unfolding apply_status
apply_status_id req e = refl

-- If a task has a newer live execution, then no status request for the task changes an older one
-- whose id is its own, whichever runner sends it.
pub handle_task_status_misses :
    (gorm : Gorm) (r : Request TaskStatusRequest) (db : Database) (id : ℕ)
    (older newer : TaskExecution)
    → parse_uint 32 r.task_id ≡ some id
    → Memᴰ older db.executions
    → All (λ s. (s.id ≢ older.id) ⊎ (s ≡ older)) db.executions
    → Memᴰ newer (of_task id db)
    → older.created_at < newer.created_at
    → Memᴰ older (handle_task_status gorm r db).1.executions
handle_task_status_misses gorm r db id older newer parsed there unique present earlier =
    let (a, d, run, out) = handle_task_status_total gorm r db in
    let final = ap (λ (x : Reply (Unit {0}) × Database). x.1.executions) (sym run) in
    elim out [
      | inl (wrong, same) ↦
          subst (λ (rows : List TaskExecution). Memᴰ older rows)
            (ap (λ (x : Database). x.executions) (sym same) ∙ final) there
      | inr u ↦
          let (member, chosen) = Memᴰ-filter _ db.executions u.newest.member in
          let differs : older.id ≢ u.exec.id = elim (All-Memᴰ _ db.executions unique member) [
            | inl other ↦ λ e. other (sym e)
            | inr same ↦
                elim (newest-ne r.task_id id db older newer u.exec parsed present earlier u.newest
                  (sym same)) [ ]
          ] in
          subst (λ (rows : List TaskExecution). Memᴰ older rows)
            (ap (λ (x : Database). x.executions) (sym u.stored) ∙ final)
            (saved_rows-Memᴰ u.row older db.executions
              (λ e.
                differs
                  (e ∙ ap (λ (x : TaskExecution). x.id) u.is_row ∙ apply_status_id u.req u.exec))
              there)
    ]
