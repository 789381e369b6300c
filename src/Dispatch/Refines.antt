-- ===== src/Dispatch/Refines.antt =====
-- The server's steps against the queue of tickets: each step is what its operation may do.
use oplet.Execution.Effects.{update-err, update-ok, add_log-effect}
use oplet.Execution.Writes.{create-ok, set_completed-ok}
use mathlib.Core.Path.{subst}
use mathlib.Core.List.{append-nil, map}
use oplet.Prelude.{
  ◌≤◌, ◌≡◌, refl, sym, ap, ◌∙◌, inl, inr, true, false, ◌&&◌, Option, none, some, List, [], ◌∷◌,
  ◌++◌, Memᴰ, Memᴰ-filter, All, Bool-cases, &&-eq-true, arith, ◌≢◌, if◌then◌else◌, nat_eq, Bool,
  any_of_Memᴰ, err, nat_eq_iff,
}
use oplet.Store.Rows.{Time, TaskExecution}
use oplet.Store.Orm.{is_none, is_live, meets, select, same_id}
use oplet.Store.Session.{Database, Gorm, executions_table}
use oplet.Execution.{waiting_query, completed}
use oplet.Execution.Queue.{saved_rows, Claims, next_task-Claims}
use oplet.Api.Status.{TaskStatusRequest, apply_status, value_or}
use oplet.Dispatch.{
  Step, submitted, dispatched, ℕ, ℤ, String, Random, ok, Server, saved, found, logged, Result,
  Error,
}
use oplet.Dispatch.Tickets.{
  Ticket, ticket, waits, tickets, view, Operation, submit, report, take, other, QueueStep, put,
  started, taken, withdrawn, kept, idle,
}
use oplet.Dispatch.Tickets.View.{
  Distinct, tickets-append, Distinct-saved_rows, Distinct-append, saved_rows-kept,
  saved_rows-withdrawn, tickets-map, Distinct-map,
}

abbrev pub operation : {gorm : Gorm} {s s' : Server} → Step gorm s s' → Operation
operation (submitted random execution row h) = submit
operation (dispatched random now e h) = take e.id
operation (found r p read lookup) = other
operation (saved before after p row result there same h) = report
operation (logged id entries h) = other
operation (Step.completed id exit_code error_msg now h) = other

-- A row that is saved has not changed since it was read.
abbrev pub IsCurrent : {gorm : Gorm} {s s' : Server} → Step gorm s s' → Type 0
IsCurrent {s = s} (saved before after p row result there same h) = Memᴰ p.exec s.database.executions
IsCurrent _ = Unit

All-tickets :
    (n : Time) (rows : List TaskExecution)
    → All (λ s. n ≤ s.created_at) (select executions_table waiting_query rows)
    → All (λ u. n ≤ u.at) (tickets rows)
All-tickets n [] h = tt
All-tickets n (x ∷ rows) h = elim (Bool-cases (waits x)) [
  | inl waiting_ ↦
      let p : (is_live executions_table x && meets executions_table waiting_query.conditions x)
          ≡ true =
        ground (arith, waiting_) in
      let h' : (n ≤ x.created_at)
          × All (λ s. n ≤ s.created_at) (select executions_table waiting_query rows) =
        rw p at h in
      rw waiting_ (h'.0, All-tickets n rows h'.1)
  | inr not_ ↦
      let p : (is_live executions_table x && meets executions_table waiting_query.conditions x)
          ≡ false =
        ground (arith, not_) in
      rw not_ (All-tickets n rows (rw p at h))
]

apply_status-waits :
    (req : TaskStatusRequest) (e : TaskExecution)
    → waits e ≡ false
    → waits (apply_status req e) ≡ false
unfolding apply_status
apply_status-waits req e h = go req.started_at
  where
    go :
        (o : Option Time)
        → (is_live executions_table e && is_none (value_or o e.started_at)) ≡ false
    go none = h
    go (some t) = ground arith

apply_status-ticket :
    (req : TaskStatusRequest) (e : TaskExecution) → ticket (apply_status req e) ≡ ticket e
unfolding apply_status
apply_status-ticket req e = refl

-- the rows of a database that an operation has led to
abbrev Leads : Operation → List Ticket → List TaskExecution → Type 0
Leads o q rows = QueueStep o q (tickets rows) × Distinct rows

reached :
    {o : Operation} {q : List Ticket} {rows : List TaskExecution} (db' : Database)
    → rows ≡ db'.executions
    → Leads o q rows
    → Leads o q db'.executions
reached {o} {q} db' same l = subst (λ (r : List TaskExecution). Leads o q r) same l

saved-Leads :
    (req : TaskStatusRequest) (exec : TaskExecution) (rows : List TaskExecution)
    → Distinct rows
    → Memᴰ exec rows
    → Leads report (tickets rows) (saved_rows (apply_status req exec) rows)
saved-Leads req exec rows d m =
    let e = apply_status req exec in
    let t = apply_status-ticket req exec in
    let d' = Distinct-saved_rows e rows d in
    let same = λ (w : waits e ≡ waits exec).
      subst (λ q. QueueStep report (tickets rows) q) (sym (saved_rows-kept e rows exec t w d m))
        kept in
    elim (Bool-cases (waits exec)) [
      | inr idle_ ↦ (same (apply_status-waits req exec idle_ ∙ sym idle_), d')
      | inl waiting_ ↦ elim (Bool-cases (waits e)) [
        | inl still ↦ (same (still ∙ sym waiting_), d')
        | inr gone ↦
            let (before, after, was, is) = saved_rows-withdrawn e rows exec t waiting_ gone d m in
            (withdrawn (ticket exec) before after was is, d')
      ]
    ]

updated-saved :
    (gorm : Gorm) (req : TaskStatusRequest) (exec : TaskExecution) (rows after : List TaskExecution)
    → Memᴰ exec rows
    → gorm.executions.save (apply_status req exec) rows ≡ ok after
    → after ≡ saved_rows (apply_status req exec) rows
unfolding apply_status
updated-saved gorm req exec rows after m h =
    gorm.executions.saved (apply_status req exec) rows after
      (any_of_Memᴰ (same_id executions_table exec) rows ((nat_eq_iff exec.id exec.id).1 refl) m) h

claimed-Leads :
    (random : Random) (now : Time) (db db' : Database) (e : TaskExecution)
    → Claims random now db e db'
    → Distinct db.executions
    → Leads (take e.id) (view db) (saved_rows e db.executions)
claimed-Leads random now db db' e c d =
    let (present, chosen) = Memᴰ-filter _ db.executions c.was_waiting in
    let (live, meets_all) = &&-eq-true (is_live executions_table c.row) _ chosen in
    let open_ = (&&-eq-true (is_none c.row.started_at) true meets_all).0 in
    let was : waits c.row ≡ true = rw (live, open_) in
    let gone : waits e ≡ false = ap waits c.answer ∙ rw live in
    let t : ticket e ≡ ticket c.row = ap ticket c.answer in
    let (before, after, q, q') = saved_rows-withdrawn e db.executions c.row t was gone d present in
    (
      taken (ticket c.row) before after (sym (ap (λ (k : Ticket). k.number) t)) q q'
          (All-tickets c.row.created_at db.executions c.oldest),
      Distinct-saved_rows e db.executions d,
    )

added-Leads :
    (row : TaskExecution) (rows : List TaskExecution)
    → All (λ s. s.id ≢ row.id) rows
    → Distinct rows
    → Leads submit (tickets rows) (rows ++ row ∷ [])
added-Leads row rows fresh d = elim (Bool-cases (waits row)) [
  | inl waiting_ ↦ (
    put (ticket row) (tickets-append rows (row ∷ []) ∙ rw waiting_),
    Distinct-append rows row fresh d,
  )
  | inr not_ ↦ (
    subst (λ q. QueueStep submit (tickets rows) q)
        (sym (tickets-append rows (row ∷ []) ∙ rw (not_, append-nil))) started,
    Distinct-append rows row fresh d,
  )
]

completed-Leads :
    (n : ℕ) (exit_code : ℤ) (error_msg : String) (now : Time) (rows : List TaskExecution)
    → Distinct rows
    → Leads other (tickets rows) (
        map
          (λ s.
            if is_live executions_table s && nat_eq s.id n
            then completed exit_code error_msg now s
            else s)
          rows)
completed-Leads n exit_code error_msg now rows d = (
  subst (λ q. QueueStep other (tickets rows) q)
      (sym (tickets-map _ (λ s. same s (hit s)) (λ s. keep s (hit s)) rows)) idle,
  Distinct-map _ (λ s. ap (λ (k : Ticket). k.number) (same s (hit s))) rows d,
)
  where
    hit : TaskExecution → Bool
    hit s = is_live executions_table s && nat_eq s.id n

    done : Bool → TaskExecution → TaskExecution
    done b s = if b then completed exit_code error_msg now s else s

    same : (s : TaskExecution) (b : Bool) → ticket (done b s) ≡ ticket s
    same s true = refl
    same s false = refl

    keep : (s : TaskExecution) (b : Bool) → waits (done b s) ≡ waits s
    keep s true = refl
    keep s false = refl

-- If every execution has its own id, then each step of the server is what its operation may do to the
-- tickets: a creation adds a ticket at the end or none, a claim takes the ticket that it answers and
-- no ticket is older, the Save of a status report withdraws one ticket or none, the read of a report,
-- a log entry and a completion leave the tickets alone; and every execution still has its own id. For
-- the Save of a report, the row must not have changed since the report has read it.
pub Step-QueueStep :
    (gorm : Gorm) (s s' : Server) (step : Step gorm s s')
    → IsCurrent step
    → Distinct s.database.executions
    → QueueStep (operation step) (view s.database) (view s'.database)
      × Distinct s'.database.executions
Step-QueueStep gorm s s' (submitted random execution row {db} {db'} h) current d =
    let (fresh, after, live, started_as) = create-ok gorm db random execution h in
    reached db' (ap (λ (x : Database). x.executions) (sym after))
      (added-Leads row db.executions fresh d)
Step-QueueStep gorm s s' (dispatched random now e {db} {db'} h) current d =
    let c = next_task-Claims gorm random now db e db' h in
    reached db' (ap (λ (x : Database). x.executions) (sym c.stored))
      (claimed-Leads random now db db' e c d)
Step-QueueStep gorm s s' (found r p read lookup) current d = (idle, d)
Step-QueueStep gorm s s' (saved before after p row (err x) {db} {db'} there same h) current d =
    reached db'
      (ap (λ (o : Database). o.executions)
        (sym (
            update-err gorm db (apply_status p.req p.exec)
              (ap (λ (o : Result Error (Unit {0}) × Database). o.0) h))
          ∙ ap (λ (o : Result Error (Unit {0}) × Database). o.1) h))
      (kept, d)
Step-QueueStep gorm s s' (saved before after p row (ok done) {db} {db'} there same h) current d =
    let (rows, saved_, stored) =
      update-ok gorm db (apply_status p.req p.exec)
        (ap (λ (o : Result Error (Unit {0}) × Database). o.0) h) in
    reached db'
      (sym (updated-saved gorm p.req p.exec db.executions rows current saved_)
        ∙ ap (λ (o : Database). o.executions)
            (sym stored ∙ ap (λ (o : Result Error (Unit {0}) × Database). o.1) h))
      (saved-Leads p.req p.exec db.executions d current)
Step-QueueStep gorm s s' (logged id entries {db} {db'} h) current d =
    let (logs, state, how) = add_log-effect gorm db id entries in
    reached db' (ap (λ (x : Database). x.executions) (sym state ∙ h)) (idle, d)
Step-QueueStep gorm s s' (Step.completed n exit_code error_msg now {db} {db'} h) current d =
    reached db'
      (ap (λ (x : Database). x.executions)
        (sym (set_completed-ok gorm db n exit_code error_msg now h)))
      (completed-Leads n exit_code error_msg now db.executions d)
