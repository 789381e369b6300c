-- ===== src/Dispatch/Taken.antt =====
-- The rows of an execution that has been handed out, and the reports in flight, step by step.
use mathlib.Core.Path.{subst}
use oplet.Api.Status.{value_or}
use oplet.Prelude.Int.{ℤ}
use oplet.Prelude.{
  map-Memᴰ, String, ℕ, ◌≡◌, refl, sym, ap, ◌∙◌, ◌≢◌, ◌⊎◌, inl, inr, Bool, true, false, Option, none,
  some, List, [], ◌∷◌, ◌++◌, map, Memᴰ, All, All-append, All-Memᴰ, Memᴰ-left, Memᴰ-filter,
  Bool-cases, nat_eq, nat_eq_iff, if◌then◌else◌, ◌&&◌,
}
use oplet.Store.Rows.{TaskExecution}
use oplet.Store.Orm.{is_none, is_live, same_id}
use oplet.Store.Session.{Database, Gorm, executions_table}
use oplet.Store.Rows.{Time}
use oplet.Execution.{completed}
use oplet.Execution.Queue.{saved_rows, next_task-Claims}
use oplet.Execution.Writes.{create-ok, set_completed-ok}
use oplet.Api.Status.{TaskStatusRequest, apply_status, value_or}
use oplet.Store.Orm.{Error}
use oplet.Api.Lookup.{find_execution-newest}
use oplet.Execution.{update}
use oplet.Execution.Effects.{update-ok, update-err, add_log-effect}
use oplet.Prelude.{Result, ok, err, any_of_Memᴰ}
use oplet.Dispatch.{
  Step, Steps, Server, Report, submitted, dispatched, found, saved, logged, stay, then_,
}

abbrev pub IsStarted : TaskExecution → Type 0
IsStarted e = is_none e.started_at ≡ false

-- no row with this id waits
abbrev pub IsTaken : ℕ → TaskExecution → Type 0
IsTaken id s = (s.id ≢ id) ⊎ IsStarted s

-- An execution with this id has been handed out.
pub record Taken (id : ℕ) (rows : List TaskExecution) : Type 0 where
  pub row : TaskExecution
  pub present : Memᴰ row rows
  pub named : row.id ≡ id
  pub rest : All (IsTaken id) rows

-- Reports before and after one that is saved.
module _ {A : Type 0} (P : A → Type 0) where
  All-middle : (before : List A) (x : A) (after : List A) → All P (before ++ x ∷ after) → P x
  All-middle [] x after (h, rest) = h
  All-middle (b ∷ before) x after (h, rest) = All-middle before x after rest

  All-without :
      (before : List A) (x : A) (after : List A)
      → All P (before ++ x ∷ after)
      → All P (before ++ after)
  All-without [] x after (h, rest) = rest
  All-without (b ∷ before) x after (h, rest) = (h, All-without before x after rest)

-- A change of rows that keeps ids and start times.
module _ (id : ℕ) (f : TaskExecution → TaskExecution) where
  map-All :
      ((s : TaskExecution) → IsTaken id s → IsTaken id (f s))
      → (rows : List TaskExecution) → All (IsTaken id) rows
      → All (IsTaken id) (map f rows)
  map-All keep [] h = tt
  map-All keep (r ∷ rows) (here, later) = (keep r here, map-All keep rows later)

  map-Taken :
      ((s : TaskExecution) → (f s).id ≡ s.id)
      → ((s : TaskExecution) → IsTaken id s → IsTaken id (f s))
      → (rows : List TaskExecution) → Taken id rows
      → Taken id (map f rows)
  map-Taken same keep rows t = record {
    row = f t.row;
    present = map-Memᴰ f rows t.present;
    named = same t.row ∙ t.named;
    rest = map-All keep rows t.rest;
  }

abbrev pub put : TaskExecution → TaskExecution → TaskExecution
put e s = if same_id executions_table e s then e else s

pub all_put :
    (e : TaskExecution)
    → IsStarted e
    → (rows : List TaskExecution) → All (IsTaken e.id) (saved_rows e rows)
all_put e started [] = tt
all_put e started (s ∷ rows) = (here, all_put e started rows)
  where
    here : IsTaken e.id (put e s)
    here = elim (Bool-cases (same_id executions_table e s)) [
      | inl hit ↦ rw hit (inr started)
      | inr miss ↦ rw miss (
          inl (λ q.
            let g : ◌≡◌ {A = Bool} true false = sym ((nat_eq_iff e.id s.id).1 (sym q)) ∙ miss in
            cc))
    ]

saved_rows-Taken :
    (id : ℕ) (e : TaskExecution) (rows : List TaskExecution)
    → IsTaken id e
    → Taken id rows
    → Taken id (saved_rows e rows)
saved_rows-Taken id e rows h t = map-Taken id (put e) same keep rows t
  where
    same : (s : TaskExecution) → (put e s).id ≡ s.id
    same s = elim (Bool-cases (same_id executions_table e s)) [
      | inl hit ↦ rw hit ((nat_eq_iff e.id s.id).0 hit)
      | inr miss ↦ rw miss
    ]

    keep : (s : TaskExecution) → IsTaken id s → IsTaken id (put e s)
    keep s k = elim (Bool-cases (same_id executions_table e s)) [
      | inl hit ↦ rw hit h
      | inr miss ↦ rw miss k
    ]

apply_status-IsTaken :
    (id : ℕ) (req : TaskStatusRequest) (exec : TaskExecution)
    → IsTaken id exec
    → IsTaken id (apply_status req exec)
unfolding apply_status
apply_status-IsTaken id req exec (inl other) = inl other
apply_status-IsTaken id req exec (inr started) = inr (go req.started_at)
  where
    go : (o : Option Time) → is_none (value_or o exec.started_at) ≡ false
    go none = started
    go (some t) = refl

pub moved :
    {id : ℕ} {rows : List TaskExecution} (db' : Database)
    → rows ≡ db'.executions
    → Taken id rows
    → Taken id db'.executions
moved {id} db' same t = subst (λ (r : List TaskExecution). Taken id r) same t

added-Taken :
    (id : ℕ) (row : TaskExecution) (rows : List TaskExecution)
    → All (λ s. s.id ≢ row.id) rows
    → Taken id rows
    → Taken id (rows ++ row ∷ [])
added-Taken id row rows fresh t = record {
  row = t.row;
  present = Memᴰ-left rows (row ∷ []) t.present;
  named = t.named;
  rest =
      All-append (IsTaken id) rows (row ∷ []) t.rest
        (inl (λ e. All-Memᴰ (λ s. s.id ≢ row.id) rows fresh t.present (t.named ∙ sym e)), tt);
}

completed-Taken :
    (id n : ℕ) (exit_code : ℤ) (error_msg : String) (now : Time) (rows : List TaskExecution)
    → Taken id rows
    → Taken id (
        map
          (λ s.
            if is_live executions_table s && nat_eq s.id n
            then completed exit_code error_msg now s
            else s)
          rows)
completed-Taken id n exit_code error_msg now rows t =
    map-Taken id _ (λ s. go_id s (is_live executions_table s && nat_eq s.id n))
      (λ s. go s (is_live executions_table s && nat_eq s.id n)) rows t
  where
    go_id :
        (s : TaskExecution) (b : Bool)
        → (if b then completed exit_code error_msg now s else s).id ≡ s.id
    go_id s true = refl
    go_id s false = refl

    go :
        (s : TaskExecution) (b : Bool)
        → IsTaken id s
        → IsTaken id (if b then completed exit_code error_msg now s else s)
    go s true (inl other) = inl other
    go s true (inr started) = inr started
    go s false k = k

-- The execution has been handed out, and no report in flight would make it wait again.
abbrev pub Out : ℕ → Server → Type 0
Out id s = Taken id s.database.executions × All (λ (p : Report). IsTaken id p.exec) s.in_flight

saved-Taken :
    (gorm : Gorm) (id : ℕ) (report : Report) (row : TaskExecution)
    (result : Result Error (Unit {0})) (db db' : Database)
    → Memᴰ row db.executions
    → row.id ≡ report.exec.id
    → update gorm (apply_status report.req report.exec) db ≡ (result, db')
    → IsTaken id report.exec
    → Taken id db.executions
    → Taken id db'.executions
unfolding apply_status
saved-Taken gorm id report row (err x) db db' there same h out t =
    let e = apply_status report.req report.exec in
    let back = update-err gorm db e (ap (λ (o : Result Error (Unit {0}) × Database). o.0) h) in
    moved db'
      (ap (λ (o : Database). o.executions)
        (sym back ∙ ap (λ (o : Result Error (Unit {0}) × Database). o.1) h))
      t
saved-Taken gorm id report row (ok done) db db' there same h out t =
    let e = apply_status report.req report.exec in
    let (rows, saved_, after) =
      update-ok gorm db e (ap (λ (o : Result Error (Unit {0}) × Database). o.0) h) in
    let eq : rows ≡ saved_rows e db.executions =
      gorm.executions.saved e db.executions rows
        (any_of_Memᴰ (same_id executions_table e) db.executions
          ((nat_eq_iff report.exec.id row.id).1 (sym same)) there)
        saved_ in
    moved db'
      (sym eq
        ∙ ap (λ (o : Database). o.executions)
            (sym after ∙ ap (λ (o : Result Error (Unit {0}) × Database). o.1) h))
      (saved_rows-Taken id e db.executions (apply_status-IsTaken id report.req report.exec out) t)

Step-Out : (gorm : Gorm) (id : ℕ) {s s' : Server} → Step gorm s s' → Out id s → Out id s'
Step-Out gorm id (submitted random execution row {db} {db'} h) (t, flights) =
    let (fresh, after, live, started) = create-ok gorm db random execution h in
    (
      moved db' (ap (λ (d : Database). d.executions) (sym after))
          (added-Taken id row db.executions fresh t),
      flights,
    )
Step-Out gorm id (dispatched random now e {db} {db'} h) (t, flights) =
    let c = next_task-Claims gorm random now db e db' h in
    (
      moved db' (ap (λ (d : Database). d.executions) (sym c.stored)) (
          saved_rows-Taken id e db.executions
            (inr (ap (λ (x : TaskExecution). is_none x.started_at) c.answer)) t),
      flights,
    )
Step-Out gorm id (found r report {db} read lookup) (t, flights) =
    let n = find_execution-newest gorm r.task_id db lookup in
    (
      t,
      (
        All-Memᴰ (IsTaken id) db.executions t.rest (Memᴰ-filter _ db.executions n.member).0,
        flights,
      ),
    )
Step-Out gorm id (saved before after report row result {db} {db'} there same h) (t, flights) = (
  saved-Taken gorm id report row result db db' there same h
      (All-middle (λ (p : Report). IsTaken id p.exec) before report after flights) t,
  All-without (λ (p : Report). IsTaken id p.exec) before report after flights,
)
Step-Out gorm id (logged execution_id entries {db} {db'} h) (t, flights) =
    let (logs, state, how) = add_log-effect gorm db execution_id entries in
    (moved db' (ap (λ (x : Database). x.executions) (sym state ∙ h)) t, flights)
Step-Out gorm id (Step.completed n exit_code error_msg now {db} {db'} h) (t, flights) = (
  moved db'
      (ap (λ (d : Database). d.executions)
        (sym (set_completed-ok gorm db n exit_code error_msg now h)))
      (completed-Taken id n exit_code error_msg now db.executions t),
  flights,
)

pub Steps-Out : (gorm : Gorm) (id : ℕ) {s s' : Server} → Steps gorm s s' → Out id s → Out id s'
Steps-Out gorm id stay t = t
Steps-Out gorm id (then_ s steps) t = Steps-Out gorm id steps (Step-Out gorm id s t)
