-- ===== src/Execution/Writes.antt =====
-- What Create and SetCompleted of the execution repository do to the executions.
use mathlib.Core.Path.{subst}
use oplet.Prelude.{
  String, ◌≡◌, ◌≢◌, ◌∙◌, ap, ℕ, Bool, ◌&&◌, [], ◌∷◌, ◌++◌, map, All, Result, ok, err, Option-cases,
  Result-cases, if◌then◌else◌, nat_eq, inr, inl, sym,
}
use oplet.Prelude.Int.{ℤ}
use oplet.Crypto.{Random, random_token}
use oplet.Store.Rows.{Time, TaskExecution}
use oplet.Store.Orm.{Error, failure, is_live}
use oplet.Store.Session.{Database, Gorm, executions_table, with_database}
use oplet.Execution.{token_size, create, set_completed, completed, none}

module _ (gorm : Gorm) (db : Database) where
  pub create-ok :
      (random : Random) (execution : TaskExecution) {row : TaskExecution} {db' : Database}
      → create gorm random execution db ≡ (ok row, db')
      → All (λ s. s.id ≢ row.id) db.executions
        × (db' ≡ record db { executions = db.executions ++ row ∷ [] })
        × (row.deleted_at ≡ none)
        × (row.started_at ≡ execution.started_at)
  unfolding create with_database
  create-ok random execution {row} {db'} h =
      let answer : (create gorm random execution db).0 ≡ ok row =
        ap (λ (x : Result Error TaskExecution × Database). x.0) h in
      let after : (create gorm random execution db).1 ≡ db' =
        ap (λ (x : Result Error TaskExecution × Database). x.1) h in
      elim (Option-cases gorm.migrate_err) [
        | inr (m, broken) ↦
            let g : ◌≡◌ {A = Result Error TaskExecution} (err (failure m)) (ok row) =
              rw (broken, with_database) at answer in
            cc
        | inl fine ↦ elim (Result-cases (random_token random token_size)) [
          | inr (x, broken) ↦
              let g : ◌≡◌ {A = Result Error TaskExecution} (err x) (ok row) =
                rw (fine, with_database, broken) at answer in
              cc
          | inl (token, drawn) ↦
              let given : TaskExecution = record execution { runner_token = token } in
              elim (Result-cases (gorm.executions.create given db.executions)) [
                | inr (x, broken) ↦
                    let g : ◌≡◌ {A = Result Error TaskExecution} (err x) (ok row) =
                      rw (fine, with_database, drawn, broken) at answer in
                    cc
                | inl ((r, rows), made) ↦
                    let same : ◌≡◌ {A = Result Error TaskExecution} (ok r) (ok row) =
                      rw (fine, with_database, drawn, made) at answer in
                    let row_is : r ≡ row = cc in
                    let stored : record db { executions = rows } ≡ db' =
                      rw (fine, with_database, drawn, made) at after in
                    let (m, model, live, fresh, free, grown) =
                      gorm.executions.created given r db.executions rows made in
                    let named : m.id ≡ row.id =
                      ap (λ (x : TaskExecution). x.id) (sym model ∙ row_is) in
                    (
                      subst (λ (k : ℕ). All (λ (s : TaskExecution). s.id ≢ k) db.executions) named
                          fresh,
                      sym stored
                          ∙ ap (λ x. record db { executions = x })
                              (grown ∙ ap (λ x. db.executions ++ x ∷ []) row_is),
                      ap (λ (x : TaskExecution). x.deleted_at) (sym row_is ∙ model) ∙ live,
                      ap (λ (x : TaskExecution). x.started_at) (sym row_is ∙ model),
                    )
              ]
        ]
      ]

  pub set_completed-ok :
      (id : ℕ) (exit_code : ℤ) (error_msg : String) (now : Time) {db' : Database}
      → set_completed gorm id exit_code error_msg now db ≡ (ok tt, db')
      → db' ≡ record db {
        executions =
            map
              (λ s.
                if is_live executions_table s && nat_eq s.id id
                then completed exit_code error_msg now s
                else s)
              db.executions;
      }
  unfolding set_completed with_database
  set_completed-ok id exit_code error_msg now {db'} h =
      let run = set_completed gorm id exit_code error_msg now db in
      let answer : run.0 ≡ ok tt = ap (λ (x : Result Error (Unit {0}) × Database). x.0) h in
      let after : run.1 ≡ db' = ap (λ (x : Result Error (Unit {0}) × Database). x.1) h in
      let p : TaskExecution → Bool = λ e. nat_eq e.id id in
      let f : TaskExecution → TaskExecution = completed exit_code error_msg now in
      elim (Option-cases gorm.migrate_err) [
        | inr (m, broken) ↦
            let g : ◌≡◌ {A = Result Error (Unit {0})} (err (failure m)) (ok tt) =
              rw (broken, with_database) at answer in
            cc
        | inl fine ↦ elim (Result-cases (gorm.executions.update p f db.executions)) [
          | inr (x, broken) ↦
              let g : ◌≡◌ {A = Result Error (Unit {0})} (err x) (ok tt) =
                rw (fine, with_database, broken) at answer in
              cc
          | inl (rows, made) ↦
              let stored : record db { executions = rows } ≡ db' =
                rw (fine, with_database, made) at after in
              sym stored
              ∙ ap (λ x. record db { executions = x })
                  (gorm.executions.updated p f db.executions rows made)
        ]
      ]
