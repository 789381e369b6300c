-- ===== src/Api/Auth/Roster.antt =====
-- The rest of the runner repository (internal/store/repository/runner/runner.go): the lists of the
-- runners, and their deletion, which is a soft one.
use oplet.Prelude.{ℕ, List, nat_eq}
use oplet.Prelude.Int.{ℤ}
use oplet.Store.Rows.{Time, Runner}
use oplet.Store.Orm.{Query, every, order_by, desc}
use oplet.Store.Session.{Gorm, Exec, ◌>>=◌, pure, query, with_database, write_runners}
use oplet.Execution.{paginate}

abbrev newest : Query Runner
newest = order_by (desc (λ r. r.created_at)) every

module _ (gorm : Gorm) where
  unfoldable pub list : ℤ → ℤ → Exec (List Runner)
  list offset limit =
      with_database gorm (query (λ db. gorm.runners.find (paginate limit offset newest) db.runners))

  unfoldable pub list_with_pagination : ℤ → ℤ → Exec (List Runner × ℕ)
  list_with_pagination offset limit = with_database gorm do
    total ← query (λ db. gorm.runners.count every db.runners)
    runners ← query (λ db. gorm.runners.find (paginate limit offset newest) db.runners)
    pure (runners, total)

  unfoldable pub delete : Time → ℕ → Exec (Unit {0})
  delete now id = with_database gorm (write_runners (gorm.runners.delete now (λ r. nat_eq r.id id)))
