-- ===== src/Authz/Users.antt =====
-- The middleware that turns the authenticated identity into a stored user
-- (internal/setup/authz_middleware.go), on the user repository
-- (internal/store/repository/user/user.go).
pub mod Kept
pub mod Granted
pub mod Accounts
use oplet.Prelude.{
  ℕ, String, ◌==◌, ◌&&◌, ◌||◌, not, Bool, true, false, Option, none, some, List, Result, ok, err,
  if◌then◌else◌, nat_eq,
}
use oplet.Prelude.Int.{ℤ}
use oplet.Store.Rows.{User}
use oplet.Store.Orm.{Error, record_not_found, failure, where_, every}
use oplet.Store.Session.{
  Database, Gorm, Exec, ◌>>=◌, ◌>>◌, pure, query, with_database, write_users, create_user,
}
use oplet.Execution.{paginate}
use oplet.Api.Status.{new_model}

-- The roles of internal/http/authz/role.go.
abbrev pub role_user : String
role_user = "user"

abbrev pub role_admin : String
role_admin = "admin"

-- authn.User
pub record Identity : Type 0 where
  pub provider : String
  pub subject : String
  pub email : String
  pub display_name : String

pub record Config : Type 0 where
  pub inactive_by_default : Bool
  pub default_admin_email : String

module _ (gorm : Gorm) where
  unfoldable pub get_by_subject : String → String → Exec User
  get_by_subject provider subject = with_database gorm (
      query (λ db.
        gorm.users.first (where_ (λ u. u.provider == provider && u.subject == subject)) db.users))

  unfoldable pub create : User → Exec User
  create user = with_database gorm (create_user (gorm.users.create user))

  unfoldable pub update : User → Exec (Unit {0})
  update user = with_database gorm (write_users (gorm.users.save user))

-- What the client gets: an error page, or the page behind the middleware as this user.
pub data Access : Type 0 where
  unauthorized inactive : Access
  broken : Error → Access
  granted : User → Access

module _ (conf : Config) (who : Identity) where
  abbrev pub new_user : User
  new_user = record {
    model = new_model;
    display_name = who.display_name;
    subject = who.subject;
    provider = who.provider;
    email = who.email;
    role = if who.email == conf.default_admin_email then role_admin else role_user;
    is_active = not conf.inactive_by_default;
  }

  -- `if authnUser.Email == defaultAdminEmail`
  abbrev pub promote : User → User
  promote user =
      if who.email == conf.default_admin_email
      then record user { role = role_admin; is_active = true }
      else user

  abbrev pub refresh : User → User
  refresh user = record user { email = who.email; display_name = who.display_name }

  abbrev pub needs_update : User → Bool
  needs_update user =
      who.email == conf.default_admin_email
      || not (user.email == who.email)
      || not (user.display_name == who.display_name)

module _ (gorm : Gorm) (conf : Config) (who : Identity) where
  -- `GetBySubject`, and `Create` where it finds no record
  abbrev provision : Result Error User → Exec User
  provision (ok user) db = (ok user, db)
  provision (err record_not_found) db = create gorm (new_user conf who) db
  provision (err (failure e)) db = (err (failure e), db)

  unfoldable pub load : Exec User
  load db = let (r, db') = get_by_subject gorm who.provider who.subject db in provision r db'

  abbrev pub store_changes : Bool → User → Exec (Unit {0})
  store_changes true user = update gorm user
  store_changes false user = pure tt

  abbrev after_changes : User → Result Error (Unit {0}) × Database → Access × Database
  after_changes user (ok done, db) = (granted user, db)
  after_changes user (err e, db) = (broken e, db)

  -- from `needsUpdate := false` on
  unfoldable pub admit : User → Database → Access × Database
  admit user db =
      let promoted = promote conf who user in
      let fresh = refresh conf who promoted in
      let run = store_changes (needs_update conf who promoted) fresh db in
      if not promoted.is_active then (inactive, db) else after_changes fresh run

  abbrev admit_loaded : Result Error User × Database → Access × Database
  admit_loaded (ok user, db) = admit user db
  admit_loaded (err e, db) = (broken e, db)

unfoldable pub authorize : Gorm → Config → Option Identity → Database → Access × Database
unfolding load admit
authorize gorm conf none db = (unauthorized, db)
authorize gorm conf (some who) db = admit_loaded gorm conf who (load gorm conf who db)
