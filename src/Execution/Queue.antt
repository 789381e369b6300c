-- ===== src/Execution/Queue.antt =====
-- What NextTask (internal/store/repository/execution/queue.go) does to the queue.
use oplet.Store.Orm.{failure, Error, record_not_found, failure}
use oplet.Store.Session.Laws.{with_tx-err}
use oplet.Prelude.{
  Result, [], err, refl, ◌≤◌, String, ◌≡◌, sym, inl, inr, List, map, Memᴰ, ok, err, All,
  if◌then◌else◌, Memᴰ-filter, any_of_Memᴰ, Result-cases, ap, ◌∙◌, nat_eq_iff, ◌≢◌, Option-cases,
}
use oplet.Crypto.{Random, random_token, random_bytes}
use oplet.Store.Rows.{Time, TaskExecution}
use oplet.Store.Orm.{select, same_id}
use oplet.Store.Session.{Database, Gorm, executions_table}
use oplet.Store.Session.Laws.{with_tx-ok}
use oplet.Execution.{token_size, waiting_query, claim, next_task, ℕ, some}

abbrev pub waiting : Database → List TaskExecution
waiting db = select executions_table waiting_query db.executions

-- A row is rewritten at its primary key.
abbrev pub saved_rows : TaskExecution → List TaskExecution → List TaskExecution
saved_rows e = map (λ s. if same_id executions_table e s then e else s)

-- What a successful NextTask has done: the row that it took waits and no waiting row is older, the
-- answer is that row with the start time and the token that was drawn, and nothing else of the database changed.
pub record Claims (random : Random) (now : Time) (db : Database) (e : TaskExecution)
    (db' : Database) : Type 0 where
  pub row : TaskExecution
  pub token : String
  pub was_waiting : Memᴰ row (waiting db)
  pub oldest : All (λ s. row.created_at ≤ s.created_at) (waiting db)
  pub drawn : random_token random token_size ≡ ok token
  pub answer : e ≡ record row { started_at = some now; runner_token = token }
  pub stored : db' ≡ record db { executions = saved_rows e db.executions }

module _ (gorm : Gorm) (random : Random) (now : Time) (db : Database) where
  -- The callback of the transaction, once its three results are known.
  take_next-ok :
      {e : TaskExecution} {db' : Database}
      → next_task gorm random now db ≡ (ok e, db')
      → (row : TaskExecution) × (token : String) × (rows : List TaskExecution)
        × (gorm.executions.first waiting_query db.executions ≡ ok row)
        × (gorm.executions.save e db.executions ≡ ok rows)
        × (random_token random token_size ≡ ok token)
        × (e ≡ claim now token row)
        × (db' ≡ record db { executions = rows })
  unfolding next_task
  take_next-ok {e} {db'} h =
      let (done, after) = with_tx-ok gorm _ db h in
      elim (Result-cases (gorm.executions.first waiting_query db.executions)) [
        | inr (x, broken) ↦ let g : err x ≡ ok e = rw broken at done in cc
        | inl (row, picked) ↦ elim (Result-cases (random_token random token_size)) [
          | inr (x, broken) ↦ let g : err x ≡ ok e = rw (picked, broken) at done in cc
          | inl (token, drawn) ↦
              elim (Result-cases (gorm.executions.save (claim now token row) db.executions)) [
                | inr (x, broken) ↦ let g : err x ≡ ok e = rw (picked, drawn, broken) at done in cc
                | inl (rows, saved) ↦
                    let same : ok (claim now token row) ≡ ok e =
                      rw (picked, drawn, saved) at done in
                    let answer : e ≡ claim now token row = cc in
                    let stored : record db { executions = rows } ≡ db' =
                      rw (picked, drawn, saved) at after in
                    (row, token, rows, picked, rw answer saved, drawn, answer, sym stored)
              ]
        ]
      ]

-- If NextTask answers an execution, then that is a live row without a start time, no older such
-- row was in the table, it now has the time of the call as its start time and a token drawn from the
-- random source, its other columns are unchanged, and the new database differs from the old one in
-- this row alone.
pub next_task-Claims :
    (gorm : Gorm) (random : Random) (now : Time) (db : Database) (e : TaskExecution)
    (db' : Database)
    → next_task gorm random now db ≡ (ok e, db')
    → Claims random now db e db'
next_task-Claims gorm random now db e db' h =
    let (row, token, rows, picked, saved, drawn, answer, stored) =
      take_next-ok gorm random now db h in
    let (was_waiting, oldest) =
      gorm.executions.first_leads waiting_query db.executions row picked in
    let (present, _) = Memᴰ-filter _ db.executions was_waiting in
    record {
      row = row;
      token = token;
      was_waiting = was_waiting;
      oldest = oldest;
      drawn = drawn;
      answer = answer;
      stored =
          stored
          ∙ ap (λ r. record db { executions = r })
              (gorm.executions.saved e db.executions rows
                (any_of_Memᴰ (same_id executions_table e) db.executions
                  ((nat_eq_iff e.id row.id).1 (ap (λ (x : TaskExecution). x.id) answer)) present)
                saved);
    }

-- If NextTask answers an error, then the database is as before: a claim that fails halfway is undone.
pub next_task_rollback :
    (gorm : Gorm) (random : Random) (now : Time) (db db' : Database) (e : Error)
    → next_task gorm random now db ≡ (err e, db')
    → db' ≡ db
unfolding next_task
next_task_rollback gorm random now db db' e h = (with_tx-err gorm _ db h).0

random_token-ne-missing : (random : Random) (n : ℕ) → random_token random n ≢ err record_not_found
unfolding random_token random_bytes
random_token-ne-missing random n h = elim (Option-cases (random n)) [
  | inl none_read ↦
      let g : ◌≡◌ {A = Result Error String} (err (failure "could not read random bytes"))
          (err record_not_found) =
        rw none_read at h in
      cc
  | inr (bytes, drawn) ↦ drawn_token (rw drawn at h)
]
  where
    drawn_token : {t : String} → ◌≢◌ {A = Result Error String} (ok t) (err record_not_found)
    drawn_token e = cc

-- If NextTask answers that there is no record, then no execution waits.
pub next_task_idle :
    (gorm : Gorm) (random : Random) (now : Time) (db db' : Database)
    → next_task gorm random now db ≡ (err record_not_found, db')
    → waiting db ≡ []
unfolding next_task
next_task_idle gorm random now db db' h = elim (with_tx-err gorm _ db h).1 [
  | inr other ↦ elim (other refl) [ ]
  | inl missing ↦ elim (Result-cases (gorm.executions.first waiting_query db.executions)) [
    | inr (x, broken) ↦
        let g : ◌≡◌ {A = Result Error TaskExecution} (err x) (err record_not_found) =
          rw broken at missing in
        let same : x ≡ record_not_found = cc in
        gorm.executions.first_missing waiting_query db.executions (broken ∙ ap (λ y. err y) same)
    | inl (row, picked) ↦ elim (Result-cases (random_token random token_size)) [
      | inr (x, broken) ↦
          let g : ◌≡◌ {A = Result Error TaskExecution} (err x) (err record_not_found) =
            rw (picked, broken) at missing in
          let same : x ≡ record_not_found = cc in
          elim (random_token-ne-missing random token_size (broken ∙ ap (λ y. err y) same)) [ ]
      | inl (token, drawn) ↦
          elim (Result-cases (gorm.executions.save (claim now token row) db.executions)) [
            | inr (x, broken) ↦
                let g : ◌≡◌ {A = Result Error TaskExecution} (err x) (err record_not_found) =
                  rw (picked, drawn, broken) at missing in
                let same : x ≡ record_not_found = cc in
                elim (gorm.executions.save-ne-missing (claim now token row) db.executions
                  (broken ∙ ap (λ y. err y) same)) [ ]
            | inl (rows, saved) ↦
                let g : ◌≡◌ {A = Result Error TaskExecution} (ok (claim now token row))
                    (err record_not_found) =
                  rw (picked, drawn, saved) at missing in
                cc
          ]
    ]
  ]
]
