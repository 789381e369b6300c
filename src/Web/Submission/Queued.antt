-- ===== src/Web/Submission/Queued.antt =====
-- What a submission leaves in the queue, on every branch.
use oplet.Prelude.{
  ℕ, String, ◌==◌, ◌≡◌, ◌≢◌, refl, ◌∙◌, ◌⊎◌, inl, inr, Option, none, some, List, [], ◌∷◌, ◌++◌,
  Memᴰ, Memᴰ-right, All, Result, ok, err, Bool-cases,
}
use oplet.Prelude.Int.{negsuc}
use oplet.Crypto.{Random}
use oplet.Store.Rows.{Time, User, TaskExecution, TaskExecutionFile}
use oplet.Store.Session.{Database, Gorm}
use oplet.Execution.{add_file}
use oplet.Execution.Effects.{add_file-cases}
use oplet.Execution.Submits.{Waits, create-cases, set_completed-Waits}
use oplet.Storage.{Os, StoredFile, store_input_file}
use oplet.Api.Environment.{Params}
use oplet.Api.Transfer.{State}
use oplet.Task.Label.Definition.{Input}
use oplet.Web.Submission.{
  Uploaded, Form, Page, forbidden_page, error_page, form_page, progress, input_row, record_input,
  store_content, store_input, store_input_files, find_upload, marshal_input_parameters,
  new_execution, after_files, submit, handle_new_task_submission, store_if_file, unless_err,
}

module _ (gorm : Gorm) (base : String) (execution_id : ℕ) where
  add_file-executions :
      (file : TaskExecutionFile) (db : Database)
      → (add_file gorm execution_id file db).1.executions ≡ db.executions
  add_file-executions file db = elim (add_file-cases gorm execution_id file db) [
    | inl (m, live, added) ↦ rw added refl
    | inr (e, failed) ↦ rw failed refl
  ]

  record_input-executions :
      (name : String) (r : Result String StoredFile) (s : State)
      → (record_input gorm base execution_id name r s).1.0.executions ≡ s.0.executions
  record_input-executions name (err e) s = refl
  record_input-executions name (ok stored) (db, disk) =
      add_file-executions (input_row execution_id stored) db

  store_content-executions :
      (name : String) (os : Os) (opened : Result String String) (s : State)
      → (store_content gorm base execution_id name os opened s).1.0.executions ≡ s.0.executions
  store_content-executions name os (err e) s = refl
  store_content-executions name os (ok content) (db, disk) =
      record_input-executions name (store_input_file base execution_id name content os disk).0
        (db, (store_input_file base execution_id name content os disk).1)

  store_input-executions :
      (input : Input) (u : Option Uploaded) (s : State)
      → (store_input gorm base execution_id input u s).1.0.executions ≡ s.0.executions
  store_input-executions input none s = elim (Bool-cases input.required) [
    | inl e ↦ rw e refl
    | inr e ↦ rw e refl
  ]
  store_input-executions input (some u) s = store_content-executions input.name u.os u.opened s

  store_if_file-executions :
      (files : List (String × Uploaded)) (input : Input) (s : State)
      → (store_if_file gorm base execution_id files input s).1.0.executions ≡ s.0.executions
  store_if_file-executions files input s = elim (Bool-cases (input.type_ == "file")) [
    | inl e ↦ rw e (store_input-executions input (find_upload input.name files) s)
    | inr e ↦ rw e refl
  ]

  unless_err-executions :
      (first : Result String (Unit {0}) × State) (rest : State → Result String (Unit {0}) × State)
      → ((s : State) → (rest s).1.0.executions ≡ s.0.executions)
      → (unless_err gorm base execution_id first rest).1.0.executions ≡ first.1.0.executions
  unless_err-executions (err e, s) rest h = refl
  unless_err-executions (ok done, s) rest h = h s

  store_input_files-executions :
      (files : List (String × Uploaded)) (inputs : List Input) (s : State)
      → (store_input_files gorm base execution_id files inputs s).1.0.executions ≡ s.0.executions
  unfolding store_input_files
  store_input_files-executions files [] s = refl
  store_input_files-executions files (input ∷ inputs) s =
      unless_err-executions (store_if_file gorm base execution_id files input s)
        (λ s'. store_input_files gorm base execution_id files inputs s')
        (λ s'. store_input_files-executions files inputs s')
      ∙ store_if_file-executions files input s

-- A refusal, and a database and a disk that are as before.
pub data Refused (s : State) : Page × State → Type 0 where
  forbidden : Refused s (forbidden_page, s)
  failed : Refused s (error_page, s)
  invalid : Refused s (form_page, s)

-- An execution was created for the task and the user, and it waits for a runner.
pub record Queued (task_id : ℕ) (user : Option User) (s : State) (result : Page × State)
    : Type 0 where
  pub who : User
  pub signed_in : user ≡ some who
  pub id : ℕ
  pub fresh : All (λ (e : TaskExecution). e.id ≢ id) s.0.executions
  pub waits : Waits id task_id who.id result.1.0.executions
  pub page : (result.0 ≡ progress task_id id) ⊎ (result.0 ≡ error_page)

module _ (gorm : Gorm) (base : String) (random : Random) (now : Time)
    (encode : Params → List (String × List String) → Option String) where
  after_files-Waits :
      (e : TaskExecution) (r : Result String (Unit {0})) (s : State) {id task_id user_id : ℕ}
      → Waits id task_id user_id s.0.executions
      → Waits id task_id user_id (after_files gorm base random now encode e (r, s)).1.0.executions
        × (((after_files gorm base random now encode e (r, s)).0 ≡ progress e.task_id e.id)
            ⊎ ((after_files gorm base random now encode e (r, s)).0 ≡ error_page))
  after_files-Waits e (ok done) s w = (w, inl refl)
  after_files-Waits e (err m) (db, disk) w =
      (set_completed-Waits gorm e.id (negsuc 0) m now db w, inr refl)

  submit-Queued :
      (task_id : ℕ) (inputs : List Input) (form : Form) (user : User) (s : State)
      → Refused s (submit gorm base random now encode task_id inputs form user s)
        ⊎ Queued task_id
            (some user)
            s
            (submit gorm base random now encode task_id inputs form user s)
  submit-Queued task_id inputs form user (db, disk) =
      let given : TaskExecution =
        new_execution gorm base random now encode task_id user.id
          (marshal_input_parameters encode inputs form) in
      elim (create-cases gorm random given db) [
        | inr (x, broken) ↦ inl (rw broken failed)
        | inl (m, token, live, fresh, made) ↦
            let row : TaskExecution = record given { model = m; runner_token = token } in
            let before : Database = record db { executions = db.executions ++ row ∷ [] } in
            let stored = store_input_files gorm base m.id form.files inputs (before, disk) in
            let kept : stored.1.0.executions ≡ db.executions ++ row ∷ [] =
              store_input_files-executions gorm base m.id form.files inputs (before, disk) in
            let waits : Waits m.id task_id user.id stored.1.0.executions = rw kept (record {
              row = row;
              member = Memᴰ-right db.executions (row ∷ []) (Memᴰ.head refl);
              identified = refl;
              live = live;
              waiting = refl;
              task = refl;
              user = refl;
            }) in
            let (still, page) = after_files-Waits row stored.0 stored.1 waits in
            inr (record {
              who = user;
              signed_in = refl;
              id = m.id;
              fresh = fresh;
              waits = rw made still;
              page = rw made page;
            })
      ]

  -- A submission is refused and leaves the database and the disk as they were, or an execution
  -- with a new id is among the executions that is live, belongs to the task and to the user who
  -- is signed in, and waits for a runner; the page is then its progress page or an error page. So
  -- the execution waits also when the user is shown an error because its input files could not be
  -- stored.
  pub handle_new_task_submission-Queued :
      (user : Option User) (task_id : ℕ) (inputs : List Input) (form : Form) (s : State)
      → Refused s
          (handle_new_task_submission gorm base random now encode user task_id inputs form s)
        ⊎ Queued task_id user s
            (handle_new_task_submission gorm base random now encode user task_id inputs form s)
  unfolding handle_new_task_submission marshal_input_parameters
  handle_new_task_submission-Queued none task_id inputs form s = inl forbidden
  handle_new_task_submission-Queued (some user) task_id inputs form s =
      elim (Bool-cases form.handled) [
        | inr bad ↦ inl (rw bad failed)
        | inl fine ↦ elim (Bool-cases form.valid) [
          | inr bad ↦ inl (rw (fine, bad) invalid)
          | inl valid ↦ rw (fine, valid) (submit-Queued task_id inputs form user s)
        ]
      ]
