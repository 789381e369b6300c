-- ===== src/Tasks/Effects.antt =====
-- What the reading and the creation of a task (internal/store/repository/task/task.go) leave.
use mathlib.Core.Path.{subst}
use oplet.Store.Session.Laws.{first-where}
use oplet.Prelude.{
  ℕ, ◌≡◌, refl, ◌⊎◌, ◌==◌, false, List, [], ◌∷◌, ◌++◌, any, ok, err, nat_eq, Option-cases,
  Result-cases, inl, inr, ap, Memᴰ, true, Result, nat_eq_iff,
}
use oplet.Store.Rows.{Task, TaskConfiguration}
use oplet.Store.Orm.{Error, where_, failure, is_live}
use oplet.Store.Session.{Database, Gorm, with_database, tasks_table}
use oplet.Tasks.{get_by_id, create}

module _ (gorm : Gorm) (db : Database) where
  pub get_by_id-state : (id : ℕ) → (get_by_id gorm id db).1 ≡ db
  unfolding get_by_id with_database
  get_by_id-state id = elim (Option-cases gorm.migrate_err) [
    | inr (m, broken) ↦ rw (broken, with_database) refl
    | inl fine ↦ elim (Result-cases (gorm.tasks.first (where_ (λ t. nat_eq t.id id)) db.tasks)) [
      | inr (e, missing) ↦ rw (fine, with_database, missing) refl
      | inl (t, found) ↦ elim (Result-cases (gorm.configurations.preload t.id db.configurations)) [
        | inr (e, failed) ↦ rw (fine, with_database, found, failed) refl
        | inl (cs, loaded) ↦ rw (fine, with_database, found, loaded) refl
      ]
    ]
  ]

  -- GetByID finds a live row with the id.
  pub get_by_id-found :
      (id : ℕ) {task : Task} {configurations : List TaskConfiguration}
      → (get_by_id gorm id db).0 ≡ ok (task, configurations)
      → Memᴰ task db.tasks × (is_live tasks_table task ≡ true) × (task.id ≡ id)
  unfolding get_by_id with_database
  get_by_id-found id {task} {configurations} h = elim (Option-cases gorm.migrate_err) [
    | inr (m, broken) ↦
        let g : ◌≡◌ {A = Result Error (Task × List TaskConfiguration)} (err (failure m))
            (ok (task, configurations)) =
          rw (broken, with_database) at h in
        cc
    | inl fine ↦ elim (Result-cases (gorm.tasks.first (where_ (λ t. nat_eq t.id id)) db.tasks)) [
      | inr (e, missing) ↦
          let g : ◌≡◌ {A = Result Error (Task × List TaskConfiguration)} (err e)
              (ok (task, configurations)) =
            rw (fine, with_database, missing) at h in
          cc
      | inl (t, found) ↦ elim (Result-cases (gorm.configurations.preload t.id db.configurations)) [
        | inr (e, failed) ↦
            let g : ◌≡◌ {A = Result Error (Task × List TaskConfiguration)} (err e)
                (ok (task, configurations)) =
              rw (fine, with_database, found, failed) at h in
            cc
        | inl (cs, loaded) ↦
            let g : ◌≡◌ {A = Result Error (Task × List TaskConfiguration)} (ok (t, cs))
                (ok (task, configurations)) =
              rw (fine, with_database, found, loaded) at h in
            let same : ◌≡◌ {A = Task} t task = cc in
            let (present, live, met) =
              first-where gorm.tasks (λ (x : Task). nat_eq x.id id) db.tasks found in
            subst (λ (x : Task). Memᴰ x db.tasks × (is_live tasks_table x ≡ true) × (x.id ≡ id))
              same (present, live, (nat_eq_iff t.id id).0 met)
      ]
    ]
  ]

  -- The row that Create adds; no earlier one has its image reference.
  pub record Added (task : Task) (row : Task) (after : Database) : Type 0 where
    pub image_ref : row.image_ref ≡ task.image_ref
    pub author : row.author ≡ task.author
    pub name : row.name ≡ task.name
    pub description : row.description ≡ task.description
    pub free : any (λ t. task.image_ref == t.image_ref) db.tasks ≡ false
    pub grown : after ≡ record db { tasks = db.tasks ++ row ∷ [] }

  pub create-cases :
      (task : Task)
      → ((row : Task) × (after : Database) × (create gorm task db ≡ (ok row, after))
          × Added task row after)
        ⊎ ((e : Error) × (create gorm task db ≡ (err e, db)))
  unfolding create with_database
  create-cases task = elim (Option-cases gorm.migrate_err) [
    | inr (m, broken) ↦ inr (failure m, rw (broken, with_database) refl)
    | inl fine ↦ elim (Result-cases (gorm.tasks.create task db.tasks)) [
      | inr (e, refused) ↦ inr (e, rw (fine, with_database, refused) refl)
      | inl ((row, rows), made) ↦
          let (m, same, live, fresh, free, grown) =
            gorm.tasks.created task row db.tasks rows made in
          inl (
            row,
            record db { tasks = rows },
            rw (fine, with_database, made) refl,
            record {
              image_ref = ap (λ (t : Task). t.image_ref) same;
              author = ap (λ (t : Task). t.author) same;
              name = ap (λ (t : Task). t.name) same;
              description = ap (λ (t : Task). t.description) same;
              free = free;
              grown = ap (λ (l : List Task). record db { tasks = l }) grown;
            },
          )
    ]
  ]
