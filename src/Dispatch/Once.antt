-- ===== src/Dispatch/Once.antt =====
-- Later claims against an execution that NextTask has handed out.
use oplet.Prelude.{
  map-Memᴰ, ◌≡◌, refl, sym, ap, ◌∙◌, ◌≢◌, inl, inr, Bool, true, false, All-Memᴰ, Memᴰ-filter,
  &&-eq-true, nat_eq_iff, ok,
}
use oplet.Store.Rows.{TaskExecution}
use oplet.Store.Orm.{is_none, is_live}
use oplet.Store.Session.{Database, Gorm, executions_table}
use oplet.Crypto.{Random}
use oplet.Store.Rows.{Time}
use oplet.Execution.{next_task}
use oplet.Execution.Queue.{Claims, next_task-Claims}
use oplet.Prelude.{List, [], ◌∷◌, All}
use oplet.Dispatch.{Steps, Report, ℕ}
use oplet.Dispatch.Taken.{IsStarted, IsTaken, Taken, put, all_put, moved, Steps-Out}

-- what NextTask answers has been taken
Claims-Taken :
    (random : Random) (now : Time) (db : Database) (e : TaskExecution) (db' : Database)
    → Claims random now db e db'
    → Taken e.id db'.executions
Claims-Taken random now db e db' c =
    let (present, chosen) = Memᴰ-filter _ db.executions c.was_waiting in
    let same : e.id ≡ c.row.id = ap (λ (x : TaskExecution). x.id) c.answer in
    let started : IsStarted e = ap (λ (x : TaskExecution). is_none x.started_at) c.answer in
    moved db' (ap (λ (d : Database). d.executions) (sym c.stored)) record {
      row = put e c.row;
      present = map-Memᴰ (put e) db.executions present;
      named = rw ((nat_eq_iff e.id c.row.id).1 same) refl;
      rest = all_put e started db.executions;
    }

other-IsTaken :
    (id : ℕ) (reports : List Report)
    → All (λ (p : Report). p.exec.id ≢ id) reports
    → All (λ (p : Report). IsTaken id p.exec) reports
other-IsTaken id [] h = tt
other-IsTaken id (p ∷ reports) (h, rest) = (inl h, other-IsTaken id reports rest)

-- If NextTask answers an execution while no status report that is read and not yet saved is for it,
-- then no later NextTask answers one with the same id, whatever creations, claims, reads and saves of
-- status reports, log entries and completions happen in between.
pub next_task_once :
    (gorm : Gorm) (random random' : Random) (now now' : Time) (e e' : TaskExecution)
    (db db₁ db₂ db₃ : Database) (reports reports' : List Report)
    → next_task gorm random now db ≡ (ok e, db₁)
    → All (λ (p : Report). p.exec.id ≢ e.id) reports
    → Steps gorm
        record { database = db₁; in_flight = reports }
        record { database = db₂; in_flight = reports' }
    → next_task gorm random' now' db₂ ≡ (ok e', db₃)
    → e'.id ≢ e.id
next_task_once gorm random random' now now' e e' db db₁ db₂ db₃ reports reports' first others steps
      second same =
    let t =
      (Steps-Out gorm e.id steps (
        Claims-Taken random now db e db₁ (next_task-Claims gorm random now db e db₁ first),
        other-IsTaken e.id reports others,
      )).0 in
    let c = next_task-Claims gorm random' now' db₂ e' db₃ second in
    let (present, chosen) = Memᴰ-filter _ db₂.executions c.was_waiting in
    let taken = All-Memᴰ (IsTaken e.id) db₂.executions t.rest present in
    let (live, waits) = &&-eq-true (is_live executions_table c.row) _ chosen in
    let waiting = (&&-eq-true (is_none c.row.started_at) true waits).0 in
    elim taken [
      | inl other ↦ other (sym (ap (λ (x : TaskExecution). x.id) c.answer) ∙ same)
      | inr started ↦ let g : ◌≡◌ {A = Bool} true false = sym waiting ∙ started in cc
    ]
