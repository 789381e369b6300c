-- ===== src/Api/Transfer/Inputs.antt =====
-- What handleTaskInputs shows, on every branch.
use mathlib.Core.List.Permᴰ
use oplet.Prelude.{
  ℕ, String, ◌==◌, ◌&&◌, ◌≡◌, refl, ◌⊎◌, inl, inr, Bool, true, false, Option, some, List, [], ◌∷◌,
  map, Memᴰ, Memᴰ-filter, All, All-Permᴰ, All-of_Memᴰ, ok, err, nat_eq, nat_eq_iff, &&-eq-true, all,
  Bool-cases, Option-cases, Result-cases, eq_iff, All-Memᴰ, filter, sym, Permᴰ,
}
use oplet.Store.Rows.{TaskExecution, TaskExecutionFile}
use oplet.Store.Orm.{Error, failure, is_none, select, where_, Query, order_by, asc_text}
use oplet.Store.Session.{Database, Gorm, with_database, files_table}
use oplet.Execution.{bool_eq, get_files}
use oplet.Storage.{Disk, get_file}
use oplet.Api.{Answer, internal_error, validation_error, not_found, input_list, input_file, respond}
use oplet.Api.Lookup.{IsError, IsNewest, find_execution-cases}
use oplet.Api.Status.{present}
use oplet.Api.Transfer.{
  InputsRequest, find_file, download_input_file, listed, answer_inputs, handle_task_inputs,
}

-- A live row for an input, or an output, of the execution.
pub record IsFileOf (execution_id : ℕ) (is_output : Bool) (db : Database) (f : TaskExecutionFile)
    : Type 0 where
  pub member : Memᴰ f db.files
  pub live : is_none f.deleted_at ≡ true
  pub execution : f.execution_id ≡ execution_id
  pub kind : f.is_output ≡ is_output

bool_eq-eq : (a b : Bool) → bool_eq a b ≡ true → a ≡ b
bool_eq-eq true true h = refl
bool_eq-eq true false h = cc
bool_eq-eq false true h = cc
bool_eq-eq false false h = refl

-- The live files of the execution that are outputs, or that are not.
abbrev pub files_of : ℕ → Bool → List TaskExecutionFile → List TaskExecutionFile
files_of execution_id is_output rows =
    filter
      (λ f.
        is_none f.deleted_at && nat_eq f.execution_id execution_id && bool_eq f.is_output is_output)
      rows

module _ (gorm : Gorm) (execution_id : ℕ) (is_output : Bool) (db : Database) where
  abbrev of_execution : TaskExecutionFile → Bool
  of_execution f = nat_eq f.execution_id execution_id && bool_eq f.is_output is_output

  abbrev files_query : Query TaskExecutionFile
  files_query = order_by (asc_text (λ f. f.filename)) (where_ of_execution)

  selected-IsFileOf :
      All (IsFileOf execution_id is_output db) (select files_table (where_ of_execution) db.files)
  selected-IsFileOf =
      All-of_Memᴰ (IsFileOf execution_id is_output db)
        (select files_table (where_ of_execution) db.files)
        (λ f m.
          let (member, chosen) = Memᴰ-filter _ db.files m in
          let (live, met) =
            &&-eq-true (is_none f.deleted_at) (all (λ c. c f) (of_execution ∷ [])) chosen in
          let (holds, rest) = &&-eq-true (of_execution f) true met in
          let (same_id, same_kind) =
            &&-eq-true (nat_eq f.execution_id execution_id) (bool_eq f.is_output is_output) holds in
          record {
            member = member;
            live = live;
            execution = (nat_eq_iff f.execution_id execution_id).0 same_id;
            kind = bool_eq-eq f.is_output is_output same_kind;
          })

  chosen-files_of :
      (rows : List TaskExecutionFile)
      → select files_table (where_ of_execution) rows ≡ files_of execution_id is_output rows
  chosen-files_of [] = refl
  chosen-files_of (f ∷ rows) = elim (Bool-cases (is_none f.deleted_at)) [
    | inr gone ↦ rw (gone, chosen-files_of rows) refl
    | inl live ↦ elim (Bool-cases (of_execution f)) [
      | inr other ↦ rw (live, other, chosen-files_of rows) refl
      | inl own ↦ rw (live, own, chosen-files_of rows) refl
    ]
  ]

  -- GetFiles changes nothing, and answers live files of the execution and of the kind that is asked.
  pub get_files-cases :
      ((files : List TaskExecutionFile) × (get_files gorm execution_id is_output db
          ≡ (ok files, db))
        × All (IsFileOf execution_id is_output db) files
        × Permᴰ files (files_of execution_id is_output db.files))
      ⊎ ((e : Error) × (get_files gorm execution_id is_output db ≡ (err e, db)))
  unfolding get_files with_database
  get_files-cases = elim (Option-cases gorm.migrate_err) [
    | inr (m, broken) ↦ inr (failure m, rw (broken, with_database) refl)
    | inl fine ↦ elim (Result-cases (gorm.files.find files_query db.files)) [
      | inr (e, failed) ↦ inr (e, rw (fine, with_database, failed) refl)
      | inl (files, found) ↦
          let same = gorm.files.find_eq files_query db.files files found in
          inl (
            files,
            rw (fine, with_database, found) refl,
            rw same (
                All-Permᴰ (IsFileOf execution_id is_output db)
                  (Permᴰ.symm (
                    gorm.files.arrange_perm (asc_text (λ f. f.filename))
                      (select files_table (where_ of_execution) db.files)))
                  selected-IsFileOf),
            rw (same, sym (chosen-files_of db.files))
                (gorm.files.arrange_perm (asc_text (λ f. f.filename))
                  (select files_table (where_ of_execution) db.files)),
          )
    ]
  ]

pub find_file-found :
    (name : String) (files : List TaskExecutionFile) {f : TaskExecutionFile}
    → find_file name files ≡ some f
    → Memᴰ f files × (f.filename ≡ name)
find_file-found name [] h = cc
find_file-found name (x ∷ files) {f} h = elim (Bool-cases (x.filename == name)) [
  | inl e ↦
      let g : ◌≡◌ {A = Option TaskExecutionFile} (some x) (some f) = rw e at h in
      let same : f ≡ x = cc in (Memᴰ.head same, rw same ((eq_iff x.filename name).0 e))
  | inr e ↦ let (m, named) = find_file-found name files (rw e at h) in (Memᴰ.tail m, named)
]

-- What a runner may be shown of the disk and of the tables.
pub data Shown (r : InputsRequest) (disk : Disk) (db : Database) : Answer → Type 0 where
  refused : {a : Answer} → IsError a → Shown r disk db a
  list_of :
      (exec : TaskExecution) (files : List TaskExecutionFile)
      → r.file ≡ ""
      → IsNewest r.task_id db exec
      → All (IsFileOf exec.id false db) files
      → Permᴰ files (files_of exec.id false db.files)
      → Shown r disk db (input_list exec.id (map listed files))
  content_of :
      (exec : TaskExecution) (f : TaskExecutionFile) (content : String)
      → IsNewest r.task_id db exec
      → IsFileOf exec.id false db f
      → f.filename ≡ r.file
      → get_file f.file_path disk ≡ some content
      → Shown r disk db (input_file f.filename f.file_size f.mime_type content)

module _ (gorm : Gorm) (disk : Disk) (r : InputsRequest) (db : Database) where
  answer_inputs-Shown :
      (exec : TaskExecution) (files : List TaskExecutionFile)
      → IsNewest r.task_id db exec
      → All (IsFileOf exec.id false db) files
      → Permᴰ files (files_of exec.id false db.files)
      → (a : Answer) × (answer_inputs disk r.file exec.id files db ≡ (respond a, db))
        × Shown r disk db a
  unfolding download_input_file
  answer_inputs-Shown exec files newest own every_file = elim (Bool-cases (r.file == "")) [
    | inl every ↦ (
      input_list exec.id (map listed files),
      rw (every, answer_inputs) refl,
      list_of exec files ((eq_iff r.file "").0 every) newest own every_file,
    )
    | inr one ↦ elim (Option-cases (find_file r.file files)) [
      | inl missing ↦ (not_found, rw (one, answer_inputs, missing) refl, refused (inr (inr refl)))
      | inr (f, found) ↦
          let (m, named) = find_file-found r.file files found in
          elim (Option-cases (get_file f.file_path disk)) [
            | inl unreadable ↦ (
              internal_error,
              rw (one, answer_inputs, found, unreadable) refl,
              refused (inl refl),
            )
            | inr (content, read) ↦ (
              input_file f.filename f.file_size f.mime_type content,
              rw (one, answer_inputs, found, read) refl,
              content_of exec f content newest (All-Memᴰ (IsFileOf exec.id false db) files own m)
                  named read,
            )
          ]
    ]
  ]

  -- A request for input files always gets an answer and changes nothing: an error, or, if no name is
  -- asked for, a list of exactly the live input files of the newest execution of the task, or the content on the disk of the one of
  -- them that has the requested name. No other file is shown.
  pub handle_task_inputs-Shown :
      (a : Answer) × (handle_task_inputs gorm disk r db ≡ (respond a, db)) × Shown r disk db a
  unfolding handle_task_inputs
  handle_task_inputs-Shown = elim (Bool-cases (present r.task_id)) [
    | inr bad ↦ (validation_error, rw bad refl, refused (inr (inl refl)))
    | inl named ↦ elim (find_execution-cases gorm r.task_id db) [
      | inl (a, is_error, e) ↦ (a, rw (named, e) refl, refused is_error)
      | inr (exec, newest, e) ↦ elim (get_files-cases gorm exec.id false db) [
        | inr (x, failed) ↦ (internal_error, rw (named, e, failed) refl, refused (inl refl))
        | inl (files, found, own, every_file) ↦
            let (a, answered, shown) = answer_inputs-Shown exec files newest own every_file in
            (a, rw (named, e, found) answered, shown)
      ]
    ]
  ]
