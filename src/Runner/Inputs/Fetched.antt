-- ===== src/Runner/Inputs/Fetched.antt =====
-- What a runner downloads from the handler of the input files
-- (internal/http/handler/runner/task.go) is what the server has stored.
use oplet.Task.Label.{put}
use mathlib.Core.Path.{subst}
use oplet.Prelude.{
  ℕ, String, ◌==◌, ◌≡◌, refl, sym, ap, ◌∙◌, true, false, Option, none, some, List, [], ◌∷◌, map,
  All, Result, ok, err, Bool-cases, Option-cases, inl, inr, eq_iff, Memᴰ, ◌⊎◌, distinct_texts,
  map-Memᴰ, ◌≢◌, Permᴰ,
}
use oplet.Store.Rows.{TaskExecution, TaskExecutionFile}
use oplet.Store.Session.{Database, Gorm}
use oplet.Execution.{get_files}
use oplet.Storage.{Disk, get_file}
use oplet.Api.{
  Answer, Reply, respond, proceed, internal_error, find_execution, input_file, validation_error,
}
use oplet.Api.Lookup.{IsNewest, find_execution-cases, IsError}
use oplet.Api.Status.{present}
use oplet.Api.Transfer
use oplet.Runner.Client
use oplet.Api.Transfer.{find_file, listed, answer_inputs, handle_task_inputs}
use oplet.Api.Transfer.Inputs.{IsFileOf, get_files-cases, find_file-found, files_of}
use oplet.Forms.{lookup}
use oplet.Forms.Valid.{lookup-put_same, lookup-put_other}
use oplet.Runner.Client.{Response, answered, foreign, list_input_files, download_input_file}
use oplet.Runner.Inputs.{keep, download_each, download_input_files}

-- What the client gets of a handler; a handler behind which nothing follows has answered.
abbrev pub served : Reply (Unit {0}) → Response
served (respond a) = answered a
served (proceed done) = foreign 200 ""

-- the content under a name among the files
abbrev pub stored_content : Disk → String → List TaskExecutionFile → Option String
stored_content disk name files = elim (find_file name files) [
  | none ↦ none
  | some f ↦ get_file f.file_path disk
]

keep_other :
    (name n : String) (r : Result String String) (inputs : List (String × String))
    → (n == name) ≡ false
    → lookup name (keep n r inputs) ≡ lookup name inputs
keep_other name n (err e) inputs other = refl
keep_other name n (ok c) inputs other = lookup-put_other name n c inputs other

module _ (print : Answer → String) (fetch : String → Response) (name : String) where
  abbrev all_downloads : List String → List (String × String) → List (String × String)
  all_downloads names inputs = download_each print fetch (map some names) inputs

  -- a name that is not listed
  download_each_other :
      (names : List String) (inputs : List (String × String))
      → All (λ (n : String). (n == name) ≡ false) names
      → lookup name (all_downloads names inputs) ≡ lookup name inputs
  unfolding download_each
  download_each_other [] inputs other = refl
  download_each_other (n ∷ names) inputs (h, other) =
      download_each_other names (keep n (download_input_file print (fetch n)) inputs) other
      ∙ keep_other name n (download_input_file print (fetch n)) inputs h

  -- a name whose download fails
  download_each_failed :
      (names : List String) (inputs : List (String × String)) {e : String}
      → download_input_file print (fetch name) ≡ err e
      → lookup name (all_downloads names inputs) ≡ lookup name inputs
  unfolding download_each
  download_each_failed [] inputs failed = refl
  download_each_failed (n ∷ names) inputs failed =
      download_each_failed names (keep n (download_input_file print (fetch n)) inputs) failed
      ∙ elim (Bool-cases (n == name)) [
        | inr other ↦ keep_other name n (download_input_file print (fetch n)) inputs other
        | inl same ↦
            let e : download_input_file print (fetch n) ≡ err _ =
              ap (λ m. download_input_file print (fetch m)) ((eq_iff n name).0 same) ∙ failed in
            rw e refl
      ]

  -- a name whose download succeeds, and that is listed or has its content already
  download_each_got :
      (names : List String) (inputs : List (String × String)) {c : String}
      → download_input_file print (fetch name) ≡ ok c
      → Memᴰ name names ⊎ (lookup name inputs ≡ some c)
      → lookup name (all_downloads names inputs) ≡ some c
  unfolding download_each
  download_each_got [] inputs got (inl m) = elim m [ ]
  download_each_got [] inputs got (inr there) = there
  download_each_got (n ∷ names) inputs {c} got there = elim (Bool-cases (n == name)) [
    | inl same ↦
        let e : download_input_file print (fetch n) ≡ ok c =
          ap (λ m. download_input_file print (fetch m)) ((eq_iff n name).0 same) ∙ got in
        subst (λ r. lookup name (all_downloads names (keep n r inputs)) ≡ some c) (sym e)
          (download_each_got names (put n c inputs) got (
            inr (
              subst (λ m. lookup m (put n c inputs) ≡ some c) ((eq_iff n name).0 same)
                (lookup-put_same n c inputs))))
    | inr other ↦
        download_each_got names (keep n (download_input_file print (fetch n)) inputs) got
          (rest other there)
  ]
    where
      rest :
          (n == name) ≡ false
          → Memᴰ name (n ∷ names) ⊎ (lookup name inputs ≡ some c)
          → Memᴰ name names
            ⊎ (lookup name (keep n (download_input_file print (fetch n)) inputs) ≡ some c)
      rest other (inl (Memᴰ.head same)) = absurd (distinct_texts n name other (sym same))
      rest other (inl (Memᴰ.tail m)) = inl m
      rest other (inr there) =
          inr (keep_other name n (download_input_file print (fetch n)) inputs other ∙ there)

find_file-other :
    (name : String) (files : List TaskExecutionFile)
    → find_file name files ≡ none
    → All (λ (n : String). (n == name) ≡ false) (map (λ (f : TaskExecutionFile). f.filename) files)
find_file-other name [] h = tt
find_file-other name (x ∷ files) h = elim (Bool-cases (x.filename == name)) [
  | inl e ↦ absurd (let g : ◌≡◌ {A = Option TaskExecutionFile} (some x) none = rw e at h in cc)
  | inr e ↦ (e, find_file-other name files (rw e at h))
]

names_listed :
    (files : List TaskExecutionFile)
    → map (λ (f : String × ℕ × String). some f.0) (map listed files)
      ≡ map some (map (λ (f : TaskExecutionFile). f.filename) files)
names_listed [] = refl
names_listed (f ∷ files) = ap (◌∷◌ (some f.filename)) (names_listed files)

-- The download of a named file from the handler, once the execution and its files are known.
module _ (print : Answer → String) (gorm : Gorm) (disk : Disk) (task_id : String)
    (db : Database) where
  abbrev pub response : String → Response
  response file =
      served (handle_task_inputs gorm disk record { task_id = task_id; file = file } db).0

  module _ (exec : TaskExecution) (files : List TaskExecutionFile) (named : present task_id ≡ true)
      (executed : find_execution gorm task_id db ≡ (proceed exec, db))
      (listed_files : get_files gorm exec.id false db ≡ (ok files, db)) where
    response-files :
        (file : String) → response file ≡ served (answer_inputs disk file exec.id files db).0
    unfolding handle_task_inputs
    response-files file = rw (named, executed, listed_files) refl

    listing_names :
        list_input_files (response "")
        ≡ ok (map some (map (λ (f : TaskExecutionFile). f.filename) files))
    unfolding list_input_files
    listing_names = rw (response-files "") (ap ok (names_listed files))

    response-found :
        (name content : String) (f : TaskExecutionFile)
        → (name == "") ≡ false
        → find_file name files ≡ some f
        → get_file f.file_path disk ≡ some content
        → response name ≡ answered (input_file f.filename f.file_size f.mime_type content)
    unfolding Transfer.download_input_file
    response-found name content f filled found read =
        response-files name ∙ rw (filled, found, read) refl

    response-unread :
        (name : String) (f : TaskExecutionFile)
        → (name == "") ≡ false
        → find_file name files ≡ some f
        → get_file f.file_path disk ≡ none
        → response name ≡ answered internal_error
    unfolding Transfer.download_input_file
    response-unread name f filled found unread =
        response-files name ∙ rw (filled, found, unread) refl

  -- the value of the runner's map under a name
  lookup_inputs :
      (exec : TaskExecution) (files : List TaskExecutionFile) (name : String)
      → present task_id ≡ true
      → find_execution gorm task_id db ≡ (proceed exec, db)
      → get_files gorm exec.id false db ≡ (ok files, db)
      → (name == "") ≡ false
      → lookup name (
          download_each print response
            (map some (map (λ (f : TaskExecutionFile). f.filename) files))
            [])
        ≡ stored_content disk name files
  unfolding Client.download_input_file
  lookup_inputs exec files name named executed listed_files filled =
      let names = map (λ (f : TaskExecutionFile). f.filename) files in
      elim (Option-cases (find_file name files)) [
        | inl missing ↦
            rw (stored_content, missing)
              (download_each_other print response name names []
                (find_file-other name files missing))
        | inr (f, found) ↦ elim (Option-cases (get_file f.file_path disk)) [
          | inl unread ↦
              let failed : Client.download_input_file print (response name)
                  ≡ err "download input file failed" =
                rw
                  (response-unread exec files named executed listed_files name f filled found
                    unread)
                  refl in
              rw (stored_content, found, unread)
                (download_each_failed print response name names [] failed)
          | inr (c, read) ↦
              let (m, same) = find_file-found name files found in
              rw (stored_content, found, read)
                (download_each_got print response name names []
                  (rw
                    (response-found exec files named executed listed_files name c f filled found
                      read)
                    refl)
                  (inl (
                    subst (λ n. Memᴰ n names) same
                      (map-Memᴰ (λ (f : TaskExecutionFile). f.filename) files m))))
        ]
      ]

-- Under this name a runner has downloaded the content of the input file of this name among all live
-- input files of the newest execution.
pub record Fetched (task_id : String) (disk : Disk) (db : Database) (name : String)
    (inputs : List (String × String)) : Type 0 where
  pub exec : TaskExecution
  pub files : List TaskExecutionFile
  pub newest : IsNewest task_id db exec
  pub own : All (IsFileOf exec.id false db) files
  pub whole : Permᴰ files (files_of exec.id false db.files)
  pub content : lookup name inputs ≡ stored_content disk name files

listed_inputs :
    (print : Answer → String) (fetch : String → Response) (listing : Response) (names : List String)
    (inputs : List (String × String))
    → list_input_files listing ≡ ok (map some names)
    → download_input_files print fetch listing ≡ ok inputs
    → download_each print fetch (map some names) [] ≡ inputs
unfolding download_input_files
listed_inputs print fetch listing names inputs listed_names h =
    let g : ◌≡◌ {A = Result String (List (String × String))}
        (ok (download_each print fetch (map some names) [])) (ok inputs) =
      rw listed_names at h in
    cc

-- A refused list is no list.
unlisted :
    (print : Answer → String) (fetch : String → Response) (a : Answer)
    (inputs : List (String × String))
    → IsError a
    → download_input_files print fetch (answered a) ≢ ok inputs
unfolding download_input_files list_input_files
unlisted print fetch a inputs (inl e) h =
    let g : ◌≡◌ {A = Result String (List (String × String))}
        (err "failed to list input files: list input files failed") (ok inputs) =
      rw e at h in
    cc
unlisted print fetch a inputs (inr (inl e)) h =
    let g : ◌≡◌ {A = Result String (List (String × String))}
        (err "failed to list input files: list input files failed") (ok inputs) =
      rw e at h in
    cc
unlisted print fetch a inputs (inr (inr e)) h =
    let g : ◌≡◌ {A = Result String (List (String × String))}
        (err "failed to list input files: list input files failed") (ok inputs) =
      rw e at h in
    cc

module _ (print : Answer → String) (gorm : Gorm) (disk : Disk) (task_id : String) (db : Database)
    (inputs : List (String × String))
    (h : download_input_files print
        (response print gorm disk task_id db)
        (response print gorm disk task_id db "")
      ≡ ok inputs) where
  refused_listing : (a : Answer) → IsError a → response print gorm disk task_id db "" ≢ answered a
  refused_listing a is_error e =
      unlisted print (response print gorm disk task_id db) a inputs is_error (
        subst
          (λ (l : Response).
            download_input_files print (response print gorm disk task_id db) l ≡ ok inputs)
          e h)

  -- the execution and the files that the list was made of
  known_files :
      (present task_id ≡ true)
      × (exec : TaskExecution) × IsNewest task_id db exec
      × (find_execution gorm task_id db ≡ (proceed exec, db))
      × (files : List TaskExecutionFile) × (get_files gorm exec.id false db ≡ (ok files, db))
      × All (IsFileOf exec.id false db) files
      × Permᴰ files (files_of exec.id false db.files)
  unfolding handle_task_inputs
  known_files = elim (Bool-cases (present task_id)) [
    | inr bad ↦ absurd (refused_listing validation_error (inr (inl refl)) (rw bad refl))
    | inl named ↦ elim (find_execution-cases gorm task_id db) [
      | inl (a, is_error, e) ↦ absurd (refused_listing a is_error (rw (named, e) refl))
      | inr (exec, newest, e) ↦ elim (get_files-cases gorm exec.id false db) [
        | inr (x, failed) ↦
            absurd (refused_listing internal_error (inl refl) (rw (named, e, failed) refl))
        | inl (files, found, own, whole) ↦ (named, exec, newest, e, files, found, own, whole)
      ]
    ]
  ]

-- If the runner's download from the server succeeds, then under every name that is not empty it holds
-- the content on the server's disk of the input file of that name of the newest execution of the task,
-- or nothing if there is no such file or it cannot be read.
pub download_input_files-Fetched :
    (print : Answer → String) (gorm : Gorm) (disk : Disk) (task_id name : String) (db : Database)
    (inputs : List (String × String))
    → (name == "") ≡ false
    → download_input_files print
        (response print gorm disk task_id db)
        (response print gorm disk task_id db "")
      ≡ ok inputs
    → Fetched task_id disk db name inputs
download_input_files-Fetched print gorm disk task_id name db inputs filled h =
    let (named, exec, newest, executed, files, found, own, whole) =
      known_files print gorm disk task_id db inputs h in
    let names = map (λ (f : TaskExecutionFile). f.filename) files in
    let same =
      listed_inputs print (response print gorm disk task_id db)
        (response print gorm disk task_id db "") names inputs
        (listing_names print gorm disk task_id db exec files named executed found) h in
    record {
      exec = exec;
      files = files;
      newest = newest;
      own = own;
      whole = whole;
      content =
          ap (lookup name) (sym same)
          ∙ lookup_inputs print gorm disk task_id db exec files name named executed found filled;
    }
