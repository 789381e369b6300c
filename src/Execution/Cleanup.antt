-- ===== src/Execution/Cleanup.antt =====
-- Delete, CleanupOldExecutions and CleanupOrphanedLogs of
-- internal/store/repository/execution/execution.go. Every model is deleted softly, and the subqueries
-- are texts, so they read deleted rows too. `now` is gorm's clock.
pub mod Old
use oplet.Prelude.{ℕ, Bool, true, false, not, ◌&&◌, List, any, nat_eq, ltb}
use oplet.Store.Rows.{Time, TaskExecution}
use oplet.Store.Session.{
  Database, Gorm, Exec, ◌>>=◌, ◌>>◌, with_database, write_executions, write_logs, write_files,
}

-- `SELECT id FROM task_executions WHERE created_at < ?`
abbrev pub is_old : Time → List TaskExecution → ℕ → Bool
is_old older_than executions id =
    any (λ (e : TaskExecution). nat_eq e.id id && ltb e.created_at older_than) executions

-- `SELECT id FROM task_executions`
abbrev pub is_known : List TaskExecution → ℕ → Bool
is_known executions id = any (λ (e : TaskExecution). nat_eq e.id id) executions

module _ (gorm : Gorm) (now : Time) where
  unfoldable pub delete : ℕ → Exec (Unit {0})
  delete id =
      with_database gorm (write_executions (gorm.executions.delete now (λ e. nat_eq e.id id)))

  abbrev pub delete_old_logs : Time → Exec (Unit {0})
  delete_old_logs older_than db =
      write_logs (gorm.logs.delete now (λ l. is_old older_than db.executions l.execution_id)) db

  abbrev pub delete_old_files : Time → Exec (Unit {0})
  delete_old_files older_than db =
      write_files (gorm.files.delete now (λ f. is_old older_than db.executions f.execution_id)) db

  unfoldable pub cleanup_old_executions : Time → Exec (Unit {0})
  cleanup_old_executions older_than = with_database gorm (
      delete_old_logs older_than
      >> delete_old_files older_than
      >> write_executions (gorm.executions.delete now (λ e. ltb e.created_at older_than)))

  unfoldable pub cleanup_orphaned_logs : Exec (Unit {0})
  cleanup_orphaned_logs = with_database gorm (λ db.
      write_logs (gorm.logs.delete now (λ l. not (is_known db.executions l.execution_id))) db)
