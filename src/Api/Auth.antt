-- ===== src/Api/Auth.antt =====
-- assertRunner and handleHeartbeat (internal/http/handler/runner/handler.go), on the runner repository
-- (internal/store/repository/runner/runner.go and embedded.go).
pub mod Admitted
pub mod Roster
use oplet.Prelude.{
  ℕ, String, ◌==◌, Bool, Option, none, some, List, Result, ok, err, nat_eq, if◌then◌else◌,
}
use oplet.Crypto.{Random, random_token}
use oplet.Store.Rows.{Time, Runner}
use oplet.Store.Orm.{Error, record_not_found, failure, where_}
use oplet.Store.Session.{
  Database, Gorm, Exec, ◌>>=◌, ◌>>◌, pure, raise, lift, query, with_tx, with_database,
  write_runners, create_runner,
}
use oplet.Task.Label.{strip_prefix}
use oplet.Api.{
  Answer, internal_error, forbidden, heartbeat, Reply, respond, proceed, Handler, Request,
}
use oplet.Api.Status.{new_model}
use oplet.Execution.{token_size}

module _ (gorm : Gorm) where
  unfoldable pub get_runner_by_token : String → Exec Runner
  get_runner_by_token token =
      with_tx gorm (query (λ db. gorm.runners.first (where_ (λ r. r.token == token)) db.runners))

  unfoldable pub update_contact_at : ℕ → Time → Exec (Unit {0})
  update_contact_at runner_id contacted_at = with_database gorm (
      write_runners (
        gorm.runners.update (λ r. nat_eq r.id runner_id)
          (λ r. record r { contacted_at = some contacted_at })))

  unfoldable pub update_runner : Runner → Exec (Unit {0})
  update_runner runner = with_database gorm (write_runners (gorm.runners.save runner))

  unfoldable pub get_by_id : ℕ → Exec Runner
  get_by_id id =
      with_database gorm
        (query (λ db. gorm.runners.first (where_ (λ r. nat_eq r.id id)) db.runners))

  unfoldable pub get_by_name : String → Exec Runner
  get_by_name name =
      with_database gorm
        (query (λ db. gorm.runners.first (where_ (λ r. r.name == name)) db.runners))

  unfoldable pub create : Runner → Exec Runner
  create runner = with_database gorm (create_runner (gorm.runners.create runner))

  unfoldable pub regenerate_token : Random → ℕ → Exec String
  regenerate_token random id = with_tx gorm do
    token ← lift (random_token random token_size)
    write_runners (gorm.runners.update (λ r. nat_eq r.id id) (λ r. record r { token = token }))
    pure token

  unfoldable pub update_name : ℕ → String → Exec (Unit {0})
  update_name id name =
      with_database gorm
        (write_runners (gorm.runners.update (λ r. nat_eq r.id id) (λ r. record r { name = name })))

  abbrev create_embedded : Random → Exec Runner
  create_embedded random = do
    token ← lift (random_token random token_size)
    create_runner (
        gorm.runners.create record {
          model = new_model;
          name = "Oplet Embedded Runner";
          token = token;
          contacted_at = none;
        })

  -- after the query for the embedded runner's name
  abbrev embedded : Random → Result Error Runner → Exec Runner
  embedded random (ok runner) db =
      let made = create_embedded random db in
      if nat_eq runner.created_at 0 then made else (ok runner, db)
  embedded random (err record_not_found) db = create_embedded random db
  embedded random (err (failure e)) db = (err (failure e), db)

  unfoldable pub get_embedded_runner : Random → Exec Runner
  get_embedded_runner random = with_tx gorm (λ db.
      embedded random
        (gorm.runners.first (where_ (λ r. r.name == "Oplet Embedded Runner")) db.runners) db)

-- strings.TrimPrefix
abbrev trim : String → Option String → String
trim s none = s
trim s (some rest) = rest

abbrev pub bearer : String → String
bearer authorization = trim authorization (strip_prefix "Bearer " authorization)

abbrev after_contact : Runner → Result Error (Unit {0}) × Database → Reply Runner × Database
after_contact runner (ok done, db) = (proceed runner, db)
after_contact runner (err e, db) = (respond internal_error, db)

abbrev after_runner : Gorm → Time → Result Error Runner × Database → Reply Runner × Database
after_runner gorm now (ok runner, db) =
    after_contact runner (update_contact_at gorm runner.id now db)
after_runner gorm now (err e, db) = (respond forbidden, db)

-- `proceed` is the call of the handler behind it with this runner in the context.
unfoldable pub assert_runner : {Body : Type 0} → Gorm → Time → Request Body → Handler Runner
unfolding strip_prefix
assert_runner gorm now r db =
    let run = after_runner gorm now (get_runner_by_token gorm (bearer r.authorization) db) in
    if bearer r.authorization == "" then (respond forbidden, db) else run

unfoldable pub handle_heartbeat : {Body : Type 0} → Gorm → Time → Request Body → Handler (Unit {0})
unfolding assert_runner
handle_heartbeat gorm now r db = let run = assert_runner gorm now r db in greet run
  where
    greet : Reply Runner × Database → Reply (Unit {0}) × Database
    greet (respond a, d) = (respond a, d)
    greet (proceed runner, d) = (respond (heartbeat runner.id runner.name), d)
