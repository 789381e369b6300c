-- ===== src/Authz/Users/Accounts.antt =====
-- The rest of the user repository (internal/store/repository/user/user.go).
use oplet.Prelude.{ℕ, String, Bool, List, nat_eq}
use oplet.Prelude.Int.{ℤ}
use oplet.Store.Rows.{Time, User}
use oplet.Store.Orm.{Query, where_, every, order_by, desc}
use oplet.Store.Session.{Gorm, Exec, ◌>>=◌, pure, query, with_database, write_users}
use oplet.Execution.{paginate}

abbrev newest : Query User
newest = order_by (desc (λ u. u.created_at)) every

module _ (gorm : Gorm) where
  unfoldable pub get_by_id : ℕ → Exec User
  get_by_id id =
      with_database gorm (query (λ db. gorm.users.first (where_ (λ u. nat_eq u.id id)) db.users))

  unfoldable pub list : ℤ → ℤ → Exec (List User)
  list limit offset =
      with_database gorm (query (λ db. gorm.users.find (paginate limit offset newest) db.users))

  unfoldable pub delete : Time → ℕ → Exec (Unit {0})
  delete now id = with_database gorm (write_users (gorm.users.delete now (λ u. nat_eq u.id id)))

  unfoldable pub count : Exec ℕ
  count = with_database gorm (query (λ db. gorm.users.count every db.users))

  unfoldable pub update_role : ℕ → String → Exec (Unit {0})
  update_role user_id role =
      with_database gorm
        (write_users (gorm.users.update (λ u. nat_eq u.id user_id) (λ u. record u { role = role })))

  unfoldable pub update_active_status : ℕ → Bool → Exec (Unit {0})
  update_active_status user_id is_active = with_database gorm (
      write_users
        (gorm.users.update (λ u. nat_eq u.id user_id) (λ u. record u { is_active = is_active })))

  unfoldable pub list_with_pagination : ℤ → ℤ → Exec (List User × ℕ)
  list_with_pagination limit offset = with_database gorm do
    total ← query (λ db. gorm.users.count every db.users)
    users ← query (λ db. gorm.users.find (paginate limit offset newest) db.users)
    pure (users, total)
