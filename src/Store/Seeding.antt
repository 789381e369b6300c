-- ===== src/Store/Seeding.antt =====
-- The seed repository (internal/store/repository/seed) and the seeding of internal/setup/seed.go.
pub mod Once
pub mod Configured
use oplet.Prelude.{
  ℕ, suc, ◌<◌, String, Bool, true, false, not, ◌&&◌, Option, none, some, List, [], ◌∷◌, Result, ok,
  err, ltb,
}
use oplet.Store.Orm.{Error}
use oplet.Store.Rows.{Time, Task, Seed}
use oplet.Store.Session.{
  Database, Gorm, Exec, ◌>>=◌, ◌>>◌, pure, lift, query, write_seeds, create_task,
}
use oplet.Store.Retry.{Retried, with_retry}
use oplet.Task.Label.Definition.{Definition}

pub record Seeder : Type 0 where
  pub id : String
  pub exec : Gorm → Exec (Unit {0})

-- whether the seeder is skipped: `!force && count > 0`
abbrev pub run_unless : Bool → Time → Seeder → Gorm → Exec (Unit {0})
run_unless true now s gorm = pure tt
run_unless false now s gorm =
    s.exec gorm >> write_seeds (gorm.seeds.upsert (record { id = s.id; executed_at = now }))

-- The callback of `Seed` for one seeder.
unfoldable pub run_seeder : Bool → Time → Seeder → Gorm → Exec (Unit {0})
run_seeder force now s gorm = query (λ db. gorm.seeds.count s.id db.seeds) >>= λ count.
    run_unless (not force && ltb 0 count) now s gorm

-- the `if err != nil` after WithRetry
abbrev pub after_seeder :
    Option (Retried (Unit {0}))
    → (Database → Option (Result Error (Unit {0}) × Database))
    → Option (Result Error (Unit {0}) × Database)
after_seeder none rest = none
after_seeder (some out) rest = elim out.result [
  | err e ↦ some (err e, out.database)
  | ok done ↦ rest out.database
]

-- `gorm i j` is how the database behaves in attempt `j` of the seeder at place `i`. No code is
-- given to WithRetry.
unfoldable pub seed :
    (Error → Option ℕ)
    → Bool
    → Time
    → List Seeder
    → (ℕ → ℕ → Gorm)
    → Database
    → Option (Result Error (Unit {0}) × Database)
seed sqlite_code force now [] gorm db = some (ok tt, db)
seed sqlite_code force now (s ∷ seeders) gorm db =
    after_seeder (with_retry (gorm 0) sqlite_code [] (run_seeder force now s) db)
      (λ db'. seed sqlite_code force now seeders (λ i. gorm (suc i)) db')

abbrev pub default_task : String → Definition → Task
default_task t definition = record {
  model = record { id = 0; created_at = 0; deleted_at = none };
  image_ref = t;
  author = definition.author;
  name = definition.name;
  description = definition.description;
}

-- The seeder of the tasks that the configuration names; `fetch` is the task provider.
unfoldable pub create_default_tasks :
    (String → Result Error Definition) → List String → Gorm → Exec (Unit {0})
create_default_tasks fetch [] gorm = pure tt
create_default_tasks fetch (t ∷ refs) gorm = lift (fetch t) >>= λ definition.
    create_task (gorm.tasks.create (default_task t definition))
    >> create_default_tasks fetch refs gorm

pub record Config : Type 0 where
  pub enabled : Bool
  pub default_tasks : List String

-- `provider` is the task provider, or the error of its configuration.
abbrev pub default_seeders :
    Result Error (String → Result Error Definition) → List String → Result Error (List Seeder)
default_seeders provider [] = ok []
default_seeders (err e) (t ∷ refs) = err e
default_seeders (ok fetch) (t ∷ refs) =
    ok (record { id = "default-tasks"; exec = create_default_tasks fetch (t ∷ refs) } ∷ [])

abbrev pub run_seeders :
    (Error → Option ℕ)
    → Result Error (List Seeder)
    → Time
    → (ℕ → ℕ → Gorm)
    → Database
    → Option (Result Error (Unit {0}) × Database)
run_seeders sqlite_code (err e) now gorm db = some (err e, db)
run_seeders sqlite_code (ok seeders) now gorm db = seed sqlite_code false now seeders gorm db

-- `opened` is the outcome of getStoreFromConfig.
unfoldable pub seed_from_config :
    (Error → Option ℕ)
    → Result Error (Unit {0})
    → Result Error (String → Result Error Definition)
    → Config
    → Time
    → (ℕ → ℕ → Gorm)
    → Database
    → Option (Result Error (Unit {0}) × Database)
unfolding seed create_default_tasks
seed_from_config sqlite_code opened provider conf now gorm db = elim conf.enabled [
  | false ↦ some (ok tt, db)
  | true ↦ elim opened [
    | err e ↦ some (err e, db)
    | ok done ↦ run_seeders sqlite_code (default_seeders provider conf.default_tasks) now gorm db
  ]
]
