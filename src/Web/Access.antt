-- ===== src/Web/Access.antt =====
-- Who is given the files and the logs of an execution.
use mathlib.Core.Path.{subst}
use text.Mathlib.Text.{starts_with}
use oplet.Prelude.{
  ℕ, String, ◌==◌, ◌||◌, ◌≡◌, refl, ◌⊎◌, inl, inr, true, false, Option, none, some, Memᴰ, ok,
  nat_eq, nat_eq_iff, &&-eq-true, equal_texts, Bool-cases, Option-cases, Result-cases,
}
use oplet.Store.Rows.{User, TaskExecution, TaskExecutionFile}
use oplet.Store.Orm.{is_none}
use oplet.Store.Session.{Database, Gorm}
use oplet.Store.Session.Laws.{with_database-query, first-where}
use oplet.Authz.Users.{role_admin}
use oplet.Execution.{get_by_id_for_user, get_file_by_path}
use oplet.Storage.{Disk, get_execution_path, get_file}
use oplet.Web.{
  bad_request, forbidden_page, error_page, not_found_page, invalid_path, file_content,
  get_execution_id_from_path, can_access_execution, is_valid_file_path, after_file,
  download_execution_file,
}

-- A live execution that belongs to the user.
pub record Owns (user : User) (execution_id : ℕ) (db : Database) : Type 0 where
  pub execution : TaskExecution
  pub member : Memᴰ execution db.executions
  pub live : is_none execution.deleted_at ≡ true
  pub identified : execution.id ≡ execution_id
  pub own : execution.user_id ≡ user.id

-- Somebody is signed in who is an administrator or owns the execution.
pub record MayAccess (user : Option User) (execution_id : ℕ) (db : Database) : Type 0 where
  pub who : User
  pub signed_in : user ≡ some who
  pub entitled : (who.role ≡ role_admin) ⊎ Owns who execution_id db

get_by_id_for_user-Owns :
    (gorm : Gorm) (execution_id : ℕ) (user : User) (db : Database) {e : TaskExecution}
    → (get_by_id_for_user gorm execution_id user.id db).0 ≡ ok e
    → Owns user execution_id db
unfolding get_by_id_for_user
get_by_id_for_user-Owns gorm execution_id user db {e} h =
    let (member, live, met) =
      first-where gorm.executions _ db.executions (with_database-query gorm _ db h) in
    let (same_id, same_user) =
      &&-eq-true (nat_eq e.id execution_id) (nat_eq e.user_id user.id) met in
    record {
      execution = e;
      member = member;
      live = live;
      identified = (nat_eq_iff e.id execution_id).0 same_id;
      own = (nat_eq_iff e.user_id user.id).0 same_user;
    }

can_access_execution-MayAccess :
    (gorm : Gorm) (user : Option User) (execution_id : ℕ) (db : Database)
    → can_access_execution gorm user execution_id db ≡ true
    → MayAccess user execution_id db
unfolding can_access_execution
can_access_execution-MayAccess gorm none execution_id db h = cc
can_access_execution-MayAccess gorm (some who) execution_id db h =
    elim (Bool-cases (who.role == role_admin)) [
      | inl admin ↦ record {
        who = who;
        signed_in = refl;
        entitled = inl (equal_texts who.role role_admin admin);
      }
      | inr user ↦ elim (Result-cases (get_by_id_for_user gorm execution_id who.id db).0) [
        | inl (e, found) ↦ record {
          who = who;
          signed_in = refl;
          entitled = inr (get_by_id_for_user-Owns gorm execution_id who db found);
        }
        | inr (x, missing) ↦ let g : false ≡ true = rw (user, missing) at h in cc
      ]
    ]

-- A file that may be given out for the name.
pub record IsServed (base : String) (disk : Disk) (execution_id : ℕ) (filename : String)
    (db : Database) (f : TaskExecutionFile) (content : String) : Type 0 where
  pub member : Memᴰ f db.files
  pub live : is_none f.deleted_at ≡ true
  pub execution : f.execution_id ≡ execution_id
  pub named : f.filename ≡ filename
  pub below : starts_with f.file_path (get_execution_path base execution_id) ≡ true
  pub read : get_file f.file_path disk ≡ some content

is_valid_file_path-eq :
    (base : String) (execution_id : ℕ) (path : String)
    → is_valid_file_path base execution_id path
      ≡ starts_with path (get_execution_path base execution_id)
unfolding is_valid_file_path
is_valid_file_path-eq base execution_id path = refl

get_file_by_path-ok :
    (gorm : Gorm) (execution_id : ℕ) (filename : String) (db : Database) {f : TaskExecutionFile}
    → (get_file_by_path gorm execution_id filename db).0 ≡ ok f
    → Memᴰ f db.files
      × (is_none f.deleted_at ≡ true)
      × (f.execution_id ≡ execution_id)
      × (f.filename ≡ filename)
unfolding get_file_by_path
get_file_by_path-ok gorm execution_id filename db {f} h =
    let (member, live, met) = first-where gorm.files _ db.files (with_database-query gorm _ db h) in
    let (same_id, same_name) =
      &&-eq-true (nat_eq f.execution_id execution_id) (f.filename == filename) met in
    (
      member,
      live,
      (nat_eq_iff f.execution_id execution_id).0 same_id,
      equal_texts f.filename filename same_name,
    )

module _ (gorm : Gorm) (base : String) (disk : Disk) where
  after_file-IsServed :
      (execution_id : ℕ) (filename : String) (db : Database) {f : TaskExecutionFile}
      {content : String}
      → after_file base execution_id disk (get_file_by_path gorm execution_id filename db).0
        ≡ file_content f content
      → IsServed base disk execution_id filename db f content
  after_file-IsServed execution_id filename db {f} {content} h =
      elim (Result-cases (get_file_by_path gorm execution_id filename db).0) [
        | inr (e, failed) ↦ let g : error_page ≡ file_content f content = rw failed at h in cc
        | inl (x, found) ↦ elim (Bool-cases (is_valid_file_path base execution_id x.file_path)) [
          | inr outside ↦
              let g : invalid_path ≡ file_content f content =
                rw (found, after_file, outside) at h in
              cc
          | inl inside ↦ elim (Option-cases (get_file x.file_path disk)) [
            | inl gone ↦
                let g : not_found_page ≡ file_content f content =
                  rw (found, after_file, inside, gone) at h in
                cc
            | inr (c, read) ↦
                let g : file_content x c ≡ file_content f content =
                  rw (found, after_file, inside, read) at h in
                let same : x ≡ f = cc in
                let content_eq : c ≡ content = cc in
                let (member, live, execution, named) =
                  get_file_by_path-ok gorm execution_id filename db found in
                subst
                  (λ (y : TaskExecutionFile). IsServed base disk execution_id filename db y content)
                  same
                  (record {
                    member = member;
                    live = live;
                    execution = execution;
                    named = named;
                    below = rw (← is_valid_file_path-eq base execution_id x.file_path) inside;
                    read = rw (← content_eq) read;
                  })
          ]
        ]
      ]

  -- A file of an execution is given out only to somebody who is signed in and is an administrator or
  -- owns the execution in the path; it is a live file of that execution with the name in the path, its
  -- path begins with that of the execution's directory, and its content is the one on the disk.
  pub download_execution_file-IsServed :
      (user : Option User) (raw_id filename : String) (db : Database) (f : TaskExecutionFile)
      (content : String)
      → download_execution_file gorm base disk user raw_id filename db ≡ file_content f content
      → MayAccess user (get_execution_id_from_path raw_id) db
        × IsServed base disk (get_execution_id_from_path raw_id) filename db f content
  unfolding download_execution_file
  download_execution_file-IsServed user raw_id filename db f content h =
      let id : ℕ = get_execution_id_from_path raw_id in
      elim (Bool-cases (nat_eq id 0 || filename == "")) [
        | inl bad ↦ let g : bad_request ≡ file_content f content = rw bad at h in cc
        | inr fine ↦ elim (Bool-cases (can_access_execution gorm user id db)) [
          | inr denied ↦
              let g : forbidden_page ≡ file_content f content = rw (fine, denied) at h in cc
          | inl allowed ↦ (
            can_access_execution-MayAccess gorm user id db allowed,
            after_file-IsServed id filename db (rw (fine, allowed) at h),
          )
        ]
      ]
