-- ===== src/Store/Seeding/Configured.antt =====
-- What SeedFromConfig (internal/setup/seed.go) leaves alone at the next start.
use oplet.Prelude.{
  ℕ, String, ◌≡◌, ◌≢◌, ◌∙◌, refl, true, Option, some, List, [], ◌∷◌, Result, ok, err, inl, inr,
  Result-cases, Bool-cases,
}
use oplet.Store.Orm.{Error}
use oplet.Store.Rows.{Time, Task}
use oplet.Store.Session.{Database, Gorm, create_task, ◌>>=◌, Exec}
use oplet.Store.Seeding.{
  Config, create_default_tasks, default_seeders, seed_from_config, lift, Exec, run_seeders,
  default_task,
}
use oplet.Store.Seeding.Once.{Recorded, seed-still, seed-Recorded}
use oplet.Task.Label.Definition.{Definition}

create_task-seeds :
    (statement : List Task → Result Error (Task × List Task)) (db : Database)
    → (create_task statement db).1.seeds ≡ db.seeds
create_task-seeds statement db = elim (Result-cases (statement db.tasks)) [
  | inl (row, e) ↦ rw e refl
  | inr (x, e) ↦ rw e refl
]

-- What keeps the seeds at each of two steps keeps them.
>>=-seeds :
    {A B : Type 0} (m : Exec A) (f : A → Exec B) (db : Database)
    → (m db).1.seeds ≡ db.seeds
    → ((a : A) (before : Database) → (f a before).1.seeds ≡ before.seeds)
    → ((m >>= f) db).1.seeds ≡ db.seeds
>>=-seeds m f db first then_ = elim (Result-cases (m db).0) [
  | inl (a, e) ↦ rw e (then_ a (m db).1 ∙ first)
  | inr (x, e) ↦ rw e first
]

create_default_tasks-seeds :
    (fetch : String → Result Error Definition) (refs : List String) (gorm : Gorm) (db : Database)
    → (create_default_tasks fetch refs gorm db).1.seeds ≡ db.seeds
unfolding create_default_tasks
create_default_tasks-seeds fetch [] gorm db = refl
create_default_tasks-seeds fetch (t ∷ refs) gorm db =
    >>=-seeds (lift (fetch t)) _ db refl (λ definition before.
      >>=-seeds (create_task (gorm.tasks.create (default_task t definition))) _ before
        (create_task-seeds (gorm.tasks.create (default_task t definition)) before)
        (λ done between. create_default_tasks-seeds fetch refs gorm between))

module _ (sqlite_code : Error → Option ℕ) where
  run_seeders-still :
      (provider : Result Error (String → Result Error Definition)) (refs : List String) (now : Time)
      (gorm : ℕ → ℕ → Gorm) (db : Database)
      → Recorded db "default-tasks"
      → (r : Result Error (Unit {0})) × (run_seeders sqlite_code
            (default_seeders provider refs)
            now
            gorm
            db
          ≡ some (r, db))
  run_seeders-still provider [] now gorm db recorded = seed-still sqlite_code now [] gorm db tt
  run_seeders-still (err e) (t ∷ refs) now gorm db recorded = (err e, refl)
  run_seeders-still (ok fetch) (t ∷ refs) now gorm db recorded =
      seed-still sqlite_code now
        (record { id = "default-tasks"; exec = create_default_tasks fetch (t ∷ refs) } ∷ []) gorm db
        (recorded, tt)

  seed_from_config-still :
      (opened : Result Error (Unit {0}))
      (provider : Result Error (String → Result Error Definition)) (conf : Config) (now : Time)
      (gorm : ℕ → ℕ → Gorm) (db : Database)
      → Recorded db "default-tasks"
      → (r : Result Error (Unit {0})) × (seed_from_config sqlite_code opened provider conf now gorm
            db
          ≡ some (r, db))
  unfolding seed_from_config
  seed_from_config-still opened provider conf now gorm db recorded =
      elim (Bool-cases conf.enabled) [
        | inl on ↦ elim (Result-cases opened) [
          | inl (done, e) ↦
              let (r, rest) = run_seeders-still provider conf.default_tasks now gorm db recorded in
              (r, rw (on, e) rest)
          | inr (x, e) ↦ (err x, rw (on, e) refl)
        ]
        | inr off ↦ (ok tt, rw off refl)
      ]

  run_seeders-Recorded :
      (fetch : String → Result Error Definition) (refs : List String) (now : Time)
      (gorm : ℕ → ℕ → Gorm) (db : Database) {db' : Database}
      → refs ≢ []
      → run_seeders sqlite_code (default_seeders (ok fetch) refs) now gorm db ≡ some (ok tt, db')
      → Recorded db' "default-tasks"
  run_seeders-Recorded fetch [] now gorm db given h = absurd (given refl)
  run_seeders-Recorded fetch (t ∷ refs) now gorm db given h =
      (seed-Recorded sqlite_code now
        (record { id = "default-tasks"; exec = create_default_tasks fetch (t ∷ refs) } ∷ []) gorm db
        ((λ g before id k. rw (create_default_tasks-seeds fetch (t ∷ refs) g before) k), tt) h).0.0

  -- Default tasks that were created once are not created again: after a start of the server that
  -- has seeding enabled and names some default task, and whose seeding succeeded, the seeding of a
  -- later start returns and leaves the database as it is, whatever its configuration is and however
  -- the database and the task provider then behave.
  pub seed_from_config_once :
      (conf conf' : Config) (fetch : String → Result Error Definition)
      (provider' : Result Error (String → Result Error Definition))
      (opened' : Result Error (Unit {0})) (now now' : Time) (gorm gorm' : ℕ → ℕ → Gorm)
      (db : Database) {db' : Database}
      → conf.enabled ≡ true
      → conf.default_tasks ≢ []
      → seed_from_config sqlite_code (ok tt) (ok fetch) conf now gorm db ≡ some (ok tt, db')
      → (r : Result Error (Unit {0})) × (seed_from_config sqlite_code opened' provider' conf' now'
            gorm' db'
          ≡ some (r, db'))
  unfolding seed_from_config
  seed_from_config_once conf conf' fetch provider' opened' now now' gorm gorm' db {db'} enabled
        given h =
      seed_from_config-still opened' provider' conf' now' gorm' db'
        (run_seeders-Recorded fetch conf.default_tasks now gorm db given (rw enabled at h))
