-- ===== src/Tests/Stores.antt =====
-- Examples of internal/store/store.go's WithRetry and of internal/setup/seed.go.
use oplet.Prelude.{
  ℕ, ◌+◌, ◌*◌, ◌^◌, ◌≤◌, String, ◌==◌, ◌≡◌, refl, true, Option, none, some, [], ◌∷◌, Result, ok,
  ltb, if◌then◌else◌,
}
use oplet.Store.Orm.{Error, failure, record_not_found}
use oplet.Store.Session.{Database, Gorm, Exec, write_seeds}
use oplet.Store.Engine.{memory}
use oplet.Store.Retry.{Retried, with_retry, max_retries, first_backoff}
use oplet.Store.Retry.Attempts.{Decides, with_retry_total}
use oplet.Store.Seeding.{Config, seed_from_config, run_seeder}
use oplet.Store.Seeding.Configured.{seed_from_config_once}
use oplet.Task.Label.Definition.{Definition}
use oplet.Tests.Data.{database}

abbrev sqlite_code : Error → Option ℕ
sqlite_code record_not_found = none
sqlite_code (failure m) = if m == "database is locked" then some 5 else none

-- a database whose first two commits find it locked
abbrev locked : ℕ → Gorm
locked i = record memory { commit_err = λ db. if ltb i 2 then some "database is locked" else none }

abbrev mark : Gorm → Exec (Unit {0})
mark gorm = write_seeds (gorm.seeds.upsert (record { id = "mark"; executed_at = 1 }))

locked_twice :
    with_retry locked sqlite_code (5 ∷ []) mark (database [])
    ≡ some (record {
      result = ok tt;
      retries = 2;
      slept = 1500;
      database = record (database []) { seeds = record { id = "mark"; executed_at = 1 } ∷ [] };
    })
unfolding with_retry memory
locked_twice = refl

with_retry_total_example :
    (out : Retried (Unit {0})) × (with_retry locked sqlite_code (5 ∷ []) mark (database [])
      ≡ some out)
    × (out.retries ≤ max_retries)
    × (out.slept + first_backoff ≡ first_backoff * 2 ^ out.retries)
    × Decides locked sqlite_code (5 ∷ []) mark (database []) out
unfolding memory
with_retry_total_example = with_retry_total locked sqlite_code (5 ∷ []) mark (database []) refl

abbrev conf : Config
conf = record { enabled = true; default_tasks = "registry/echo" ∷ [] }

abbrev fetch : String → Result Error Definition
fetch ref = ok (record {
  name = "Echo";
  description = "";
  author = "oplet";
  url = "";
  image_ref = ref;
  inputs = [];
  configuration = [];
})

abbrev seeded : Database
seeded = record (database []) {
  tasks =
      record {
        model = record { id = 1; created_at = 0; deleted_at = none };
        image_ref = "registry/echo";
        author = "oplet";
        name = "Echo";
        description = "";
      }
      ∷ [];
  seeds = record { id = "default-tasks"; executed_at = 7 } ∷ [];
}

first_start :
    seed_from_config sqlite_code (ok tt) (ok fetch) conf 7 (λ i j. memory) (database [])
    ≡ some (ok tt, seeded)
unfolding seed_from_config with_retry memory run_seeder
first_start = refl

seed_from_config_once_example :
    (r : Result Error (Unit {0})) × (seed_from_config sqlite_code
        (ok tt)
        (ok fetch)
        (record { enabled = true; default_tasks = "registry/other" ∷ [] })
        9
        (λ i j. memory)
        seeded
      ≡ some (r, seeded))
seed_from_config_once_example =
    seed_from_config_once sqlite_code conf
      (record { enabled = true; default_tasks = "registry/other" ∷ [] }) fetch (ok fetch) (ok tt) 7
      9 (λ i j. memory) (λ i j. memory) (database []) refl (λ e. cc) first_start
