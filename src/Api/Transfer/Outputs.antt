-- ===== src/Api/Transfer/Outputs.antt =====
-- What handleTaskOutputs records, on every branch.
use mathlib.Core.List.{append-nil, append_assoc}
use mathlib.Core.Path.{subst}
use oplet.Prelude.{
  ℕ, suc, ◌+◌, String, ◌≡◌, refl, ◌⊎◌, inl, inr, true, false, none, some, List, [], ◌∷◌, ◌++◌,
  length, ok, err, arith, Bool-cases, Option-cases, Result-cases,
}
use oplet.Store.Rows.{TaskExecution, TaskExecutionFile}
use oplet.Store.Session.{Database, Gorm}
use oplet.Execution.Effects.{add_file-cases}
use oplet.Storage.{Disk, StoredFile, size, get_file, store_file}
use oplet.Storage.Kept.{store_file-cases}
use oplet.Api.{Answer, validation_error, outputs_stored, respond, proceed, Option, Error}
use oplet.Api.Lookup.{IsError, IsNewest, find_execution-cases}
use oplet.Api.Status.{present}
use oplet.Api.Transfer.{
  Upload, OutputsRequest, State, output_row, store_output, store_outputs, read_outputs,
  handle_task_outputs, record_output, finish_outputs, add_file,
}

-- A live row for an output of the execution: the file of a part, under the name of the part.
pub record IsOutput (execution_id : ℕ) (name content : String) (disk : Disk) (f : TaskExecutionFile)
    : Type 0 where
  pub execution : f.execution_id ≡ execution_id
  pub output : f.is_output ≡ true
  pub live : f.deleted_at ≡ none
  pub named : f.filename ≡ name
  pub sized : f.file_size ≡ size content
  pub content_eq : get_file f.file_path disk ≡ some content

module _ (gorm : Gorm) (base : String) (execution_id : ℕ) where
  -- What becomes of a part: the row that it adds, if any, and the disk after it.
  pub data Part (upload : Upload) (db : Database) (disk : Disk)
      : Option TaskExecutionFile → Disk → Type 0 where
    unopened : {e : String} → upload.opened ≡ err e → Part upload db disk none disk
    unstored :
        {content e : String} {disk' : Disk}
        → upload.opened ≡ ok content
        → store_file base execution_id "outputs" upload.base_name content upload.os disk
          ≡ (err e, disk')
        → Part upload db disk none disk'
    unrecorded :
        {content : String} {stored : StoredFile} {e : Error} {disk' : Disk}
        → upload.opened ≡ ok content
        → store_file base execution_id "outputs" upload.base_name content upload.os disk
          ≡ (ok stored, disk')
        → add_file gorm execution_id (output_row execution_id stored) db ≡ (err e, db)
        → Part upload db disk none disk'
    recorded :
        {content : String} {f : TaskExecutionFile} {disk' : Disk}
        → upload.opened ≡ ok content
        → IsOutput execution_id upload.base_name content disk' f
        → Part upload db disk (some f) disk'

  -- One part after the other: the rows that they add, and the disk in the end.
  pub data Parts : List Upload → Database → Disk → List TaskExecutionFile → Disk → Type 0 where
    no_part : {db : Database} {disk : Disk} → Parts [] db disk [] disk
    adds :
        {upload : Upload} {uploads : List Upload} {db : Database} {disk disk₁ disk' : Disk}
        {f : TaskExecutionFile} {rows : List TaskExecutionFile}
        → Part upload db disk (some f) disk₁
        → Parts uploads (record db { files = db.files ++ f ∷ [] }) disk₁ rows disk'
        → Parts (upload ∷ uploads) db disk (f ∷ rows) disk'
    skips :
        {upload : Upload} {uploads : List Upload} {db : Database} {disk disk₁ disk' : Disk}
        {rows : List TaskExecutionFile}
        → Part upload db disk none disk₁
        → Parts uploads db disk₁ rows disk'
        → Parts (upload ∷ uploads) db disk rows disk'

  record_output-err :
      (e : String) (db : Database) → record_output gorm execution_id (err e) db ≡ (false, db)
  unfolding record_output
  record_output-err e db = refl

  record_output-cases :
      (stored : StoredFile) (db : Database) (content : String) (disk : Disk)
      → stored.size ≡ size content
      → get_file stored.stored_path disk ≡ some content
      → ((f : TaskExecutionFile) × IsOutput execution_id stored.original_name content disk f
          × (record_output gorm execution_id (ok stored) db
              ≡ (true, record db { files = db.files ++ f ∷ [] })))
        ⊎ ((e : Error) × (add_file gorm execution_id (output_row execution_id stored) db
              ≡ (err e, db))
            × (record_output gorm execution_id (ok stored) db ≡ (false, db)))
  unfolding record_output
  record_output-cases stored db content disk sized reads =
      elim (add_file-cases gorm execution_id (output_row execution_id stored) db) [
        | inl (m, live, added) ↦ inl (
          record (output_row execution_id stored) { model = m },
          record {
            execution = refl;
            output = refl;
            live = live;
            named = refl;
            sized = sized;
            content_eq = reads;
          },
          rw added refl,
        )
        | inr (e, failed) ↦ inr (e, failed, rw failed refl)
      ]

  -- One part adds its row and counts, or adds nothing and does not count.
  store_output-cases :
      (upload : Upload) (db : Database) (disk : Disk)
      → (disk' : Disk) × (((f : TaskExecutionFile) × Part upload db disk (some f) disk'
            × (store_output gorm base execution_id upload (db, disk)
                ≡ (true, (record db { files = db.files ++ f ∷ [] }, disk'))))
          ⊎ (Part upload db disk none disk'
              × (store_output gorm base execution_id upload (db, disk) ≡ (false, (db, disk')))))
  unfolding store_output
  store_output-cases upload db disk = elim (Result-cases upload.opened) [
    | inr (e, closed) ↦ (disk, inr (unopened closed, rw closed refl))
    | inl (content, opened) ↦
        elim (store_file-cases base execution_id "outputs" upload.base_name content upload.os
          disk) [
            | inr (e, disk', failed, others) ↦ (
              disk',
              inr (unstored opened failed, rw (opened, failed, record_output-err e db) refl),
            )
            | inl (stored, disk', done, is_stored) ↦
                elim (record_output-cases stored db content disk' is_stored.size_eq
                  is_stored.content_eq) [
                    | inl (f, is_output, added) ↦ (
                      disk',
                      inl (
                        f,
                        recorded opened (
                            subst (λ (name : String). IsOutput execution_id name content disk' f)
                              is_stored.original_name is_output),
                        rw (opened, done, added) refl,
                      ),
                    )
                    | inr (e, refused, failed) ↦ (
                      disk',
                      inr (unrecorded opened done refused, rw (opened, done, failed) refl),
                    )
                  ]
          ]
  ]

  store_outputs-adds :
      (uploads : List Upload) (n : ℕ) (db : Database) (disk : Disk)
      → (rows : List TaskExecutionFile) × (disk' : Disk) × (store_outputs gorm base execution_id
            uploads n
            (db, disk)
          ≡ (n + length rows, (record db { files = db.files ++ rows }, disk')))
        × Parts uploads db disk rows disk'
  unfolding store_outputs
  store_outputs-adds [] n db disk =
      let zero_more : n + 0 ≡ n = omega arith in
      ([], disk, rw (append-nil db.files, zero_more) refl, no_part)
  store_outputs-adds (upload ∷ uploads) n db disk =
      let (disk1, outcome) = store_output-cases upload db disk in
      elim outcome [
        | inl (f, is_output, added) ↦
            let (rows, disk2, e, parts) =
              store_outputs-adds uploads (suc n) (record db { files = db.files ++ f ∷ [] }) disk1 in
            let one_more : suc n + length rows ≡ n + suc (length rows) = omega arith in
            let e' : store_outputs gorm base execution_id uploads (suc n)
                  (record db { files = db.files ++ f ∷ [] }, disk1)
                ≡ (n + suc (length rows), (record db { files = db.files ++ f ∷ rows }, disk2)) =
              rw (append_assoc db.files (f ∷ []) rows, one_more) at e in
            (f ∷ rows, disk2, rw added e', adds is_output parts)
        | inr (skipped, failed) ↦
            let (rows, disk2, e, parts) = store_outputs-adds uploads n db disk1 in
            (rows, disk2, rw failed e, skips skipped parts)
      ]

-- An upload that is accepted: each of the parts that can be opened, stored and recorded becomes a live
-- output file of the newest execution of the task, with its name and its content; the answer counts
-- the rows that were added, and no other table changes.
pub record Recorded (gorm : Gorm) (base : String) (r : OutputsRequest) (s : State)
    (result : Answer × State) : Type 0 where
  pub uploads : List Upload
  pub form : r.form ≡ some uploads
  pub exec : TaskExecution
  pub newest : IsNewest r.task_id s.0 exec
  pub rows : List TaskExecutionFile
  pub disk : Disk
  pub answered :
      result
      ≡ (outputs_stored exec.id (length rows), (record s.0 { files = s.0.files ++ rows }, disk))
  pub parts : Parts gorm base exec.id uploads s.0 s.1 rows disk

module _ (gorm : Gorm) (base : String) (r : OutputsRequest) where
  read_outputs-cases :
      (db : Database)
      → ((a : Answer) × IsError a × (read_outputs gorm r db ≡ (respond a, db)))
        ⊎ ((exec : TaskExecution) × (uploads : List Upload) × IsNewest r.task_id db exec
            × (r.form ≡ some uploads)
            × (read_outputs gorm r db ≡ (proceed (exec, uploads), db)))
  unfolding read_outputs
  read_outputs-cases db = elim (Bool-cases (present r.task_id)) [
    | inr bad ↦ inl (validation_error, inr (inl refl), rw bad refl)
    | inl named ↦ elim (Option-cases r.form) [
      | inl bad ↦ inl (validation_error, inr (inl refl), rw (named, bad) refl)
      | inr (uploads, form) ↦ elim (find_execution-cases gorm r.task_id db) [
        | inl (a, is_error, e) ↦ inl (a, is_error, rw (named, form, e) refl)
        | inr (exec, newest, e) ↦ inr (exec, uploads, newest, form, rw (named, form, e) refl)
      ]
    ]
  ]

  -- A request with output files is refused, and changes neither the database nor the disk; or each
  -- part that could be opened, stored and recorded becomes a live output file of the newest execution
  -- of the task, under its name and with its size, and its content is then on the disk under the path
  -- of the row; the answer counts exactly these, and no other row of the database changes.
  pub handle_task_outputs_total :
      (s : State)
      → ((a : Answer) × IsError a × (handle_task_outputs gorm base r s ≡ (a, s)))
        ⊎ Recorded gorm base r s (handle_task_outputs gorm base r s)
  unfolding handle_task_outputs
  handle_task_outputs_total (db, disk) = elim (read_outputs-cases db) [
    | inl (a, is_error, e) ↦ inl (a, is_error, rw e refl)
    | inr (exec, uploads, newest, form, e) ↦
        let (rows, disk', stored, parts) = store_outputs-adds gorm base exec.id uploads 0 db disk in
        let none_before : 0 + length rows ≡ length rows = omega arith in
        inr (record {
          uploads = uploads;
          form = form;
          exec = exec;
          newest = newest;
          rows = rows;
          disk = disk';
          answered = rw (e, finish_outputs, stored, none_before) refl;
          parts = parts;
        })
  ]
