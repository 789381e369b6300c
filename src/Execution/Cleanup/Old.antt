-- ===== src/Execution/Cleanup/Old.antt =====
-- What CleanupOldExecutions leaves, and what CleanupOrphanedLogs then finds.
use mathlib.Core.Path.{subst}
use oplet.Prelude.{
  ◌≡◌, refl, ap, Bool, true, false, ◌&&◌, some, List, [], ◌∷◌, map, Memᴰ, All, Result, ok, err, ltb,
  Bool-cases, Result-cases, inl, inr, sym,
}
use oplet.Store.Rows.{Time, Model, TaskExecution, TaskExecutionLog, TaskExecutionFile}
use oplet.Store.Orm.{Error, Table, Orm, is_live, is_none, mark_deleted}
use oplet.Store.Session.{Database, Gorm, executions_table, logs_table, files_table}
use oplet.Store.Session.Laws.{with_database-ok}
use oplet.Execution.Cleanup.{is_old, cleanup_old_executions}

module _ {Row : Type 0} (table : Table Row) where
  -- What a row reads after its model is set.
  abbrev Holds : Type 0
  Holds = (m : Model) (r : Row) → table.model (table.with_model m r) ≡ m

  -- No live row is left that was chosen, and the others are as they were.
  abbrev pub Deleted : (Row → Bool) → List Row → List Row → Type 0
  Deleted p rows after =
      All (λ r. is_live table r ≡ true → p r ≡ false) after
      × ((r : Row) → Memᴰ r rows → p r ≡ false → Memᴰ r after)

  marked-gone :
      (now : Time) (p : Row → Bool) (rows : List Row)
      → Holds
      → All (λ r. is_live table r ≡ true → p r ≡ false) (map (mark_deleted table now p) rows)
  marked-gone now p [] holds = tt
  marked-gone now p (r ∷ rows) holds = elim (Bool-cases (is_live table r && p r)) [
    | inl chosen ↦
        let dead : is_live table
              (table.with_model (record (table.model r) { deleted_at = some now }) r)
            ≡ false =
          ap (λ (m : Model). is_none m.deleted_at)
            (holds (record (table.model r) { deleted_at = some now }) r) in
        (
          rw chosen (λ live. let g : false ≡ true = rw dead at live in cc),
          marked-gone now p rows holds,
        )
    | inr passed ↦ (rw passed (λ live. rw live at passed), marked-gone now p rows holds)
  ]

  marked-kept :
      (now : Time) (p : Row → Bool) (rows : List Row) (r : Row)
      → Memᴰ r rows
      → p r ≡ false
      → Memᴰ r (map (mark_deleted table now p) rows)
  marked-kept now p [] r m h = elim m [ ]
  marked-kept now p (x ∷ rows) r (Memᴰ.head same) h =
      let unmarked : mark_deleted table now p r ≡ r = elim (Bool-cases (is_live table r)) [
        | inl live ↦ rw (live, h) refl
        | inr dead ↦ rw dead refl
      ] in
      Memᴰ.head (rw (← same) (sym unmarked))
  marked-kept now p (x ∷ rows) r (Memᴰ.tail m) h = Memᴰ.tail (marked-kept now p rows r m h)

  delete-Deleted :
      (orm : Orm Row table) (now : Time) (p : Row → Bool) {rows after : List Row}
      → Holds
      → orm.delete now p rows ≡ ok after
      → Deleted p rows after
  delete-Deleted orm now p {rows} {after} holds h =
      rw (orm.deleted now p rows after h)
        (marked-gone now p rows holds, λ r m k. marked-kept now p rows r m k)

-- A clean-up that succeeds: of the rows that are live afterwards, no execution was created before the
-- given time, and no log and no file belongs to one that was; and every other row is as it was.
pub record CleanedUp (older_than : Time) (db db' : Database) : Type 0 where
  pub executions :
      Deleted executions_table (λ e. ltb e.created_at older_than) db.executions db'.executions
  pub logs :
      Deleted logs_table (λ l. is_old older_than db.executions l.execution_id) db.logs db'.logs
  pub files :
      Deleted files_table (λ f. is_old older_than db.executions f.execution_id) db.files db'.files
  pub others : db' ≡ record db { executions = db'.executions; logs = db'.logs; files = db'.files }

module _ (gorm : Gorm) (now older_than : Time) (db : Database) where
  steps :
      {logs : List TaskExecutionLog} {files : List TaskExecutionFile}
      {executions : List TaskExecution} {db' : Database}
      → gorm.logs.delete now (λ l. is_old older_than db.executions l.execution_id) db.logs ≡ ok logs
      → gorm.files.delete now (λ f. is_old older_than db.executions f.execution_id) db.files
        ≡ ok files
      → gorm.executions.delete now (λ e. ltb e.created_at older_than) db.executions ≡ ok executions
      → record db { executions = executions; logs = logs; files = files } ≡ db'
      → CleanedUp older_than db db'
  steps {logs} {files} {executions} e1 e2 e3 same =
      subst (λ (d : Database). CleanedUp older_than db d) same
        (record {
          executions = delete-Deleted executions_table gorm.executions now _ (λ m r. refl) e3;
          logs = delete-Deleted logs_table gorm.logs now _ (λ m r. refl) e1;
          files = delete-Deleted files_table gorm.files now _ (λ m r. refl) e2;
          others = refl;
        })

  -- If CleanupOldExecutions succeeds, then afterwards no live execution was created before the given
  -- time, no live log and no live file belongs to one that was, and every other row is as it was.
  pub cleanup_old_executions-CleanedUp :
      {db' : Database}
      → cleanup_old_executions gorm now older_than db ≡ (ok tt, db')
      → CleanedUp older_than db db'
  unfolding cleanup_old_executions
  cleanup_old_executions-CleanedUp {db'} h =
      let h' = with_database-ok gorm _ db h in
      elim (Result-cases
        (gorm.logs.delete now (λ l. is_old older_than db.executions l.execution_id) db.logs)) [
          | inr (x, e1) ↦
              let g : ◌≡◌ {A = Result Error (Unit {0}) × Database} (err x, db) (ok tt, db') =
                rw e1 at h' in
              cc
          | inl (logs, e1) ↦
              elim (Result-cases (
                gorm.files.delete now (λ f. is_old older_than db.executions f.execution_id)
                  db.files)) [
                    | inr (x, e2) ↦
                        let g : ◌≡◌ {A = Result Error (Unit {0}) × Database}
                            (err x, record db { logs = logs }) (ok tt, db') =
                          rw (e1, e2) at h' in
                        cc
                    | inl (files, e2) ↦
                        elim (Result-cases (
                          gorm.executions.delete now (λ e. ltb e.created_at older_than)
                            db.executions)) [
                              | inr (x, e3) ↦
                                  let g : ◌≡◌ {A = Result Error (Unit {0}) × Database}
                                      (err x, record db { logs = logs; files = files })
                                      (ok tt, db') =
                                    rw (e1, e2, e3) at h' in
                                  cc
                              | inl (executions, e3) ↦
                                  let g : ◌≡◌ {A = Result Error (Unit {0}) × Database}
                                      (
                                        ok tt,
                                        record db {
                                          executions = executions;
                                          logs = logs;
                                          files = files;
                                        },
                                      )
                                      (ok tt, db') =
                                    rw (e1, e2, e3) at h' in
                                  steps e1 e2 e3
                                    (ap (λ (o : Result Error (Unit {0}) × Database). o.1) g)
                            ]
                  ]
        ]
