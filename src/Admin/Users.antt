-- ===== src/Admin/Users.antt =====
-- The administration of the users (internal/http/handler/webui/admin/user_page.go). `parse_form` is the
-- error of the form's parser, and a value of the form is an argument.
pub mod Deactivated
use oplet.Prelude.{
  ℕ, String, ◌==◌, ◌&&◌, not, Bool, Option, none, some, Result, ok, err, if◌then◌else◌,
}
use oplet.Strconv.{parse_uint}
use oplet.Store.Rows.{User}
use oplet.Store.Orm.{Error}
use oplet.Store.Session.{Database, Gorm}
use oplet.Authz.Users.{role_user, role_admin}
use oplet.Authz.Users.Accounts.{get_by_id, update_role, update_active_status}

pub data UserPage : Type 0 where
  bad_request error_page : UserPage
  form_page : User → UserPage
  -- the redirection to the form of a user
  edit_page : ℕ → UserPage

module _ (gorm : Gorm) where
  abbrev show : Result Error User × Database → UserPage × Database
  show (err e, db) = (error_page, db)
  show (ok user, db) = (form_page user, db)

  abbrev show_id : Option ℕ → Database → UserPage × Database
  show_id none db = (bad_request, db)
  show_id (some id) db = show (get_by_id gorm id db)

  unfoldable pub get_user_form_page : String → Database → UserPage × Database
  get_user_form_page user_id db = show_id (parse_uint 32 user_id) db

  abbrev pub after_change : ℕ → Result Error (Unit {0}) × Database → UserPage × Database
  after_change id (err e, db) = (error_page, db)
  after_change id (ok done, db) = (edit_page id, db)

  abbrev pub change_role : Option ℕ → Option String → String → Database → UserPage × Database
  change_role none parse_form role db = (bad_request, db)
  change_role (some id) (some e) role db = (bad_request, db)
  change_role (some id) none role db =
      if not (role == role_user) && not (role == role_admin)
      then (bad_request, db)
      else after_change id (update_role gorm id role db)

  unfoldable pub handle_user_role_update :
      String → Option String → String → Database → UserPage × Database
  handle_user_role_update user_id parse_form role db =
      change_role (parse_uint 32 user_id) parse_form role db

  abbrev pub change_status : Option ℕ → Option String → String → Database → UserPage × Database
  change_status none parse_form is_active db = (bad_request, db)
  change_status (some id) (some e) is_active db = (bad_request, db)
  change_status (some id) none is_active db =
      after_change id (update_active_status gorm id (is_active == "true") db)

  unfoldable pub handle_user_status_update :
      String → Option String → String → Database → UserPage × Database
  handle_user_status_update user_id parse_form is_active db =
      change_status (parse_uint 32 user_id) parse_form is_active db
