-- ===== src/Execution/Submits.antt =====
-- What Create, AddFile and SetCompleted do for a submission, on their errors too.
use mathlib.Core.Path.{subst}
use oplet.Prelude.{
  All, ◌≢◌, ℕ, String, ◌≡◌, refl, ◌⊎◌, inl, inr, ◌&&◌, none, List, [], ◌∷◌, ◌++◌, map, Memᴰ, ok,
  err, nat_eq, if◌then◌else◌, Option-cases, Result-cases, Bool-cases, ap,
}
use oplet.Prelude.Int.{ℤ}
use oplet.Crypto.{Random, random_token}
use oplet.Store.Rows.{Time, Model, TaskExecution}
use oplet.Store.Orm.{Error, failure, is_live}
use oplet.Store.Session.{Database, Gorm, executions_table, with_database}
use oplet.Execution.{token_size, create, set_completed, completed}

-- Create adds one live row with the given columns and a new token, or fails and changes nothing.
pub create-cases :
    (gorm : Gorm) (random : Random) (execution : TaskExecution) (db : Database)
    → ((m : Model) × (token : String) × (m.deleted_at ≡ none)
        × All (λ s. s.id ≢ m.id) db.executions
        × (create gorm random execution db ≡ (
          ok (record execution { model = m; runner_token = token }),
          record db {
            executions = db.executions ++ record execution { model = m; runner_token = token } ∷ [];
          },
        )))
      ⊎ ((e : Error) × (create gorm random execution db ≡ (err e, db)))
unfolding create with_database
create-cases gorm random execution db = elim (Option-cases gorm.migrate_err) [
  | inr (m, broken) ↦ inr (failure m, rw (broken, with_database) refl)
  | inl fine ↦ elim (Result-cases (random_token random token_size)) [
    | inr (e, dry) ↦ inr (e, rw (fine, with_database, dry) refl)
    | inl (token, drawn) ↦
        elim (Result-cases
          (gorm.executions.create (record execution { runner_token = token }) db.executions)) [
            | inr (e, failed) ↦ inr (e, rw (fine, with_database, drawn, failed) refl)
            | inl ((row, after), made) ↦
                let (m, filled, live, fresh, free, grown) =
                  gorm.executions.created (record execution { runner_token = token }) row
                    db.executions after made in
                inl
                  (m, token, live, fresh, rw (fine, with_database, drawn, made, grown, filled) refl)
          ]
  ]
]

-- A row of an execution that waits for a runner.
pub record Waits (id task_id user_id : ℕ) (executions : List TaskExecution) : Type 0 where
  pub row : TaskExecution
  pub member : Memᴰ row executions
  pub identified : row.id ≡ id
  pub live : row.deleted_at ≡ none
  pub waiting : row.started_at ≡ none
  pub task : row.task_id ≡ task_id
  pub user : row.user_id ≡ user_id

Memᴰ-map : {A : Type 0} (f : A → A) (xs : List A) {a : A} → Memᴰ a xs → Memᴰ (f a) (map f xs)
Memᴰ-map f [] m = elim m [ ]
Memᴰ-map f (x ∷ xs) (Memᴰ.head same) = Memᴰ.head (ap f same)
Memᴰ-map f (x ∷ xs) (Memᴰ.tail m) = Memᴰ.tail (Memᴰ-map f xs m)

-- SetCompleted does not take an execution out of the queue: it leaves the start empty.
pub set_completed-Waits :
    (gorm : Gorm) (id : ℕ) (exit_code : ℤ) (error_msg : String) (now : Time) (db : Database)
    {own task_id user_id : ℕ}
    → Waits own task_id user_id db.executions
    → Waits own task_id user_id (set_completed gorm id exit_code error_msg now db).1.executions
unfolding set_completed with_database
set_completed-Waits gorm id exit_code error_msg now db {own} {task_id} {user_id} w =
    elim (Option-cases gorm.migrate_err) [
      | inr (m, broken) ↦ rw (broken, with_database) w
      | inl fine ↦
          elim (Result-cases (
            gorm.executions.update (λ e. nat_eq e.id id) (completed exit_code error_msg now)
              db.executions)) [
                | inr (e, failed) ↦ rw (fine, with_database, failed) w
                | inl (rows, made) ↦
                    let same =
                      gorm.executions.updated (λ e. nat_eq e.id id)
                        (completed exit_code error_msg now) db.executions rows made in
                    rw (fine, with_database, made, same) (after w)
              ]
    ]
  where
    change : TaskExecution → TaskExecution
    change s =
        if is_live executions_table s && nat_eq s.id id
        then completed exit_code error_msg now s
        else s

    after :
        Waits own task_id user_id db.executions
        → Waits own task_id user_id (map change db.executions)
    after w = elim (Bool-cases (is_live executions_table w.row && nat_eq w.row.id id)) [
      | inl chosen ↦
          let e : change w.row ≡ completed exit_code error_msg now w.row = rw chosen refl in
          record {
            row = completed exit_code error_msg now w.row;
            member =
                subst (λ (r : TaskExecution). Memᴰ r (map change db.executions)) e
                  (Memᴰ-map change db.executions w.member);
            identified = w.identified;
            live = w.live;
            waiting = w.waiting;
            task = w.task;
            user = w.user;
          }
      | inr passed ↦
          let e : change w.row ≡ w.row = rw passed refl in
          record {
            row = w.row;
            member =
                subst (λ (r : TaskExecution). Memᴰ r (map change db.executions)) e
                  (Memᴰ-map change db.executions w.member);
            identified = w.identified;
            live = w.live;
            waiting = w.waiting;
            task = w.task;
            user = w.user;
          }
    ]
