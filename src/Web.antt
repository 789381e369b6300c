-- ===== src/Web.antt =====
-- The pages of an execution that give out files and logs
-- (internal/http/handler/webui/task/execution_page.go). `user` is the one in the request's context.
pub mod Access
pub mod Submission
use text.Mathlib.Text.{starts_with}
use oplet.Prelude.{
  ℕ, String, ◌==◌, ◌||◌, Bool, true, false, not, ◌&&◌, Option, none, some, List, Result, ok, err,
  nat_eq, if◌then◌else◌,
}
use oplet.Prelude.Int.{ℤ, pos, negsuc}
use oplet.Strconv.{parse_uint}
use oplet.Store.Rows.{User, TaskExecution, TaskExecutionLog, TaskExecutionFile}
use oplet.Store.Orm.{Error}
use oplet.Store.Session.{Database, Gorm}
use oplet.Store.Status
use oplet.Authz.Users.{role_admin}
use oplet.Execution.{get_by_id, get_by_id_for_user, get_file_by_path, get_logs}
use oplet.Storage.{Disk, get_execution_path, get_file}

-- What a handler writes.
pub data Page : Type 0 where
  bad_request forbidden_page error_page not_found_page invalid_path : Page
  -- an execution's output or input, with its content
  file_content : TaskExecutionFile → String → Page
  -- the log entries, and whether the page is to be read again
  log_entries : List TaskExecutionLog → Bool → Page

abbrev or_zero : Option ℕ → ℕ
or_zero none = 0
or_zero (some n) = n

-- getExecutionIDFromPath; 0 for an error
unfoldable pub get_execution_id_from_path : String → ℕ
unfolding parse_uint
get_execution_id_from_path raw = or_zero (parse_uint 32 raw)

abbrev succeeds : {A : Type 0} → Result Error A → Bool
succeeds (ok a) = true
succeeds (err e) = false

unfoldable pub can_access_execution : Gorm → Option User → ℕ → Database → Bool
can_access_execution gorm none execution_id db = false
can_access_execution gorm (some user) execution_id db =
    user.role == role_admin || succeeds (get_by_id_for_user gorm execution_id user.id db).0

-- isValidFilePath, with a file storage at `base`
unfoldable pub is_valid_file_path : String → ℕ → String → Bool
unfolding get_execution_path
is_valid_file_path base execution_id path = starts_with path (get_execution_path base execution_id)

-- http.ServeFile
abbrev pub serve_file : TaskExecutionFile → Option String → Page
serve_file f none = not_found_page
serve_file f (some content) = file_content f content

abbrev pub after_path : Bool → TaskExecutionFile → Disk → Page
after_path false f disk = invalid_path
after_path true f disk = serve_file f (get_file f.file_path disk)

-- The error is compared with a new one, which no error is equal to, so every error is an error page.
abbrev pub after_file : String → ℕ → Disk → Result Error TaskExecutionFile → Page
after_file base execution_id disk (err e) = error_page
after_file base execution_id disk (ok f) =
    after_path (is_valid_file_path base execution_id f.file_path) f disk

unfoldable pub download_execution_file :
    Gorm → String → Disk → Option User → String → String → Database → Page
unfolding get_execution_id_from_path is_valid_file_path can_access_execution
download_execution_file gorm base disk user raw_id filename db =
    let execution_id = get_execution_id_from_path raw_id in
    if (nat_eq execution_id 0 || filename == "")
    then bad_request
    else if not (can_access_execution gorm user execution_id db)
    then forbidden_page
    else after_file base execution_id disk (get_file_by_path gorm execution_id filename db).0

-- `shouldRefresh`
abbrev pub should_refresh : String → Bool
should_refresh status =
    status == Status.succeeded || status == Status.failed || status == Status.killed

abbrev pub after_logs : Result Error (List TaskExecutionLog) → Result Error TaskExecution → Page
after_logs (err e) execution = error_page
after_logs (ok logs) (err e) = error_page
after_logs (ok logs) (ok execution) = log_entries logs (should_refresh execution.status)

unfoldable pub get_execution_logs : Gorm → Option User → String → Database → Page
unfolding get_execution_id_from_path can_access_execution
get_execution_logs gorm user raw_id db =
    let execution_id = get_execution_id_from_path raw_id in
    if nat_eq execution_id 0
    then error_page
    else if not (can_access_execution gorm user execution_id db)
    then forbidden_page
    else after_logs (get_logs gorm execution_id (negsuc 0) (pos 0) db).0
        (get_by_id gorm execution_id db).0

-- isRunning
unfoldable pub is_running : String → Bool
is_running status =
    not (status == Status.succeeded)
    && not (status == Status.failed)
    && not (status == Status.finished)
