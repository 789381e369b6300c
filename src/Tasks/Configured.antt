-- ===== src/Tasks/Configured.antt =====
-- UpdateConfiguration (internal/store/repository/task/task.go) replaces the configurations of one task.
use mathlib.Core.Path.{subst}
use oplet.Prelude.{
  ℕ, String, ◌≡◌, refl, sym, ap, ◌∙◌, Bool, true, false, not, List, [], ◌∷◌, ◌++◌, map, filter, any,
  All, Memᴰ, Result, ok, err, nat_eq, nat_eq_iff, Result-cases, inl, inr, arith, All-filter,
  All-map_of, filter-append, filter_every, filter_none, any_none, append_nil,
}
use oplet.Store.Rows.{Task, TaskConfiguration}
use oplet.Store.Orm.{Error, is_live, where_}
use oplet.Store.Session.{
  Database, Gorm, tasks_table, setting, write_configurations, Exec, ◌>>◌, query, ◌>>=◌,
}
use oplet.Store.Session.Laws.{with_tx-ok, >>=-ok, first-where, with_tx-err}
use oplet.Tasks.{configuration, update_configuration}

abbrev pub belongs_to : ℕ → TaskConfiguration → Bool
belongs_to id c = nat_eq c.task_id id

-- The task is there, its configurations are the given ones, and nothing else has changed.
pub record Configured (id : ℕ) (values : List (String × String)) (db after : Database)
    : Type 0 where
  pub task : Task
  pub present : Memᴰ task db.tasks
  pub live : is_live tasks_table task ≡ true
  pub named : task.id ≡ id
  pub own : map setting (filter (belongs_to id) after.configurations) ≡ values
  pub others :
      filter (λ c. not (belongs_to id c)) after.configurations
      ≡ filter (λ c. not (belongs_to id c)) db.configurations
  pub rest : after ≡ record db { configurations = after.configurations }

write_configurations-ok :
    (statement : List TaskConfiguration → Result Error (List TaskConfiguration)) (db : Database)
    → (write_configurations statement db).0 ≡ ok tt
    → (rows : List TaskConfiguration) × (statement db.configurations ≡ ok rows)
      × ((write_configurations statement db).1 ≡ record db { configurations = rows })
write_configurations-ok statement db h = elim (Result-cases (statement db.configurations)) [
  | inl (rows, written) ↦ (rows, written, rw written refl)
  | inr (e, broken) ↦
      let g : ◌≡◌ {A = Result Error (Unit {0})} (err e) (ok tt) = rw broken at h in cc
]

settings :
    (id : ℕ) (values : List (String × String))
    → map setting (map (configuration id) values) ≡ values
settings id [] = refl
settings id (v ∷ values) = ap (◌∷◌ v) (settings id values)

module _ (id : ℕ) (rows : List TaskConfiguration) where
  abbrev left : List TaskConfiguration
  left = filter (λ c. not (belongs_to id c)) rows

  left-Others : All (λ (c : TaskConfiguration). belongs_to id c ≡ false) left
  left-Others =
      All-filter (λ (c : TaskConfiguration). belongs_to id c ≡ false) (λ c. not (belongs_to id c))
        rows (λ c h. ground arith)

  own_after :
      (saved : List TaskConfiguration)
      → All (λ (c : TaskConfiguration). c.task_id ≡ id) saved
      → filter (belongs_to id) (left ++ saved) ≡ saved
  own_after saved h =
      filter-append (belongs_to id) left saved
      ∙ rw
          (
            filter_none (belongs_to id) left left-Others,
            filter_every (belongs_to id) saved (
                All-map_of (λ (c : TaskConfiguration). c.task_id ≡ id)
                  (λ (c : TaskConfiguration). belongs_to id c ≡ true) saved
                  (λ c e. (nat_eq_iff c.task_id id).1 e) h),
          )
          refl

  others_after :
      (saved : List TaskConfiguration)
      → All (λ (c : TaskConfiguration). c.task_id ≡ id) saved
      → filter (λ c. not (belongs_to id c)) (left ++ saved) ≡ left
  others_after saved h =
      filter-append (λ c. not (belongs_to id c)) left saved
      ∙ rw
          (
            filter_none (λ c. not (belongs_to id c)) saved
                (All-map_of (λ (c : TaskConfiguration). c.task_id ≡ id)
                  (λ (c : TaskConfiguration). not (belongs_to id c) ≡ false) saved
                  (λ c e. ap not ((nat_eq_iff c.task_id id).1 e)) h),
            filter_every (λ c. not (belongs_to id c)) left
                (All-map_of (λ (c : TaskConfiguration). belongs_to id c ≡ false)
                  (λ (c : TaskConfiguration). not (belongs_to id c) ≡ true) left (λ c e. ap not e)
                  left-Others),
          )
          (append_nil left)

module _ (gorm : Gorm) (id : ℕ) (values : List (String × String)) (db : Database) where
  -- the statements on the configurations, for the task that was found
  abbrev replace_all : ℕ → Exec (Unit {0})
  replace_all task_id =
      write_configurations (gorm.configurations.clear task_id)
      >> write_configurations
          (gorm.configurations.replace task_id (map (configuration task_id) values))

  saved-Configured :
      (task : Task) (saved : List TaskConfiguration)
      → Memᴰ task db.tasks × (is_live tasks_table task ≡ true) × (task.id ≡ id)
      → map setting saved ≡ map setting (map (configuration id) values)
      → All (λ (c : TaskConfiguration). c.task_id ≡ id) saved
      → Configured id values db (record db { configurations = left id db.configurations ++ saved })
  saved-Configured task saved (present, live, named) same owned = record {
    task = task;
    present = present;
    live = live;
    named = named;
    own = ap (map setting) (own_after id db.configurations saved owned) ∙ same ∙ settings id values;
    others = others_after id db.configurations saved owned;
    rest = refl;
  }

  replace_all-Configured :
      (task : Task) {after : Database}
      → Memᴰ task db.tasks × (is_live tasks_table task ≡ true) × (task.id ≡ id)
      → replace_all id db ≡ (ok tt, after)
      → Configured id values db after
  replace_all-Configured task {after} found h =
      let clear = write_configurations (gorm.configurations.clear id) in
      let news = map (configuration id) values in
      let (done, cleared, whole) =
        >>=-ok clear (λ _. write_configurations (gorm.configurations.replace id news)) db
          (ap (λ (o : Result Error (Unit {0}) × Database). o.0) h) in
      let (rows, cut, moved) = write_configurations-ok (gorm.configurations.clear id) db cleared in
      let is_left = gorm.configurations.cleared id db.configurations rows cut in
      let d : Database = record db { configurations = rows } in
      let second : write_configurations (gorm.configurations.replace id news) d ≡ (ok tt, after) =
        ap (write_configurations (gorm.configurations.replace id news)) (sym moved)
        ∙ sym whole
        ∙ h in
      let (rows', put, moved') =
        write_configurations-ok (gorm.configurations.replace id news) d
          (ap (λ (o : Result Error (Unit {0}) × Database). o.0) second) in
      let cleared_own : any (belongs_to id) rows ≡ false =
        ap (any (belongs_to id)) is_left
        ∙ any_none (belongs_to id) (left id db.configurations) (left-Others id db.configurations) in
      let (saved, grown, same, owned) =
        gorm.configurations.replaced id news rows rows' cleared_own put in
      let reached : record db { configurations = left id db.configurations ++ saved } ≡ after =
        ap (λ (r : List TaskConfiguration). record db { configurations = r })
          (sym (grown ∙ ap (λ (r : List TaskConfiguration). r ++ saved) is_left))
        ∙ sym moved'
        ∙ ap (λ (o : Result Error (Unit {0}) × Database). o.1) second in
      subst (Configured id values db) reached (saved-Configured task saved found same owned)

  pub update_configuration-Configured :
      {after : Database}
      → update_configuration gorm id values db ≡ (ok tt, after)
      → Configured id values db after
  unfolding update_configuration
  update_configuration-Configured {after} h =
      let first =
        query (λ (d : Database). gorm.tasks.first (where_ (λ t. nat_eq t.id id)) d.tasks) in
      let (done, moved) = with_tx-ok gorm (first >>= λ task. replace_all task.id) db h in
      let (task, found, whole) = >>=-ok first (λ task. replace_all task.id) db done in
      let (present, live, met) = first-where gorm.tasks (λ t. nat_eq t.id id) db.tasks found in
      let named = (nat_eq_iff task.id id).0 met in
      let answer = (first >>= λ task. replace_all task.id) db in
      let pair : (answer.0, answer.1) ≡ (ok tt, after) = rw (done, moved) refl in
      let run : replace_all id db ≡ (ok tt, after) =
        subst (λ (n : ℕ). replace_all n db ≡ (ok tt, after)) named (sym whole ∙ pair) in
      replace_all-Configured task (present, live, named) run

unrolled :
    (gorm : Gorm) (id : ℕ) (values : List (String × String)) (db : Database) {e : Error}
    {after : Database}
    → update_configuration gorm id values db ≡ (err e, after)
    → after ≡ db
unfolding update_configuration
unrolled gorm id values db h = (with_tx-err gorm _ db h).0

-- What UpdateConfiguration leaves, by its result.
abbrev pub Updated :
    Result Error (Unit {0}) → ℕ → List (String × String) → Database → Database → Type 0
Updated (ok done) id values db after = Configured id values db after
Updated (err e) id values db after = after ≡ db

-- If UpdateConfiguration succeeds, then the task exists, its configurations are the given values, and
-- every other row is unchanged; if it fails, nothing has changed.
pub update_configuration_total :
    (gorm : Gorm) (id : ℕ) (values : List (String × String)) (db : Database)
    → Updated
        (update_configuration gorm id values db).0
        id
        values
        db
        (update_configuration gorm id values db).1
update_configuration_total gorm id values db = go (update_configuration gorm id values db) refl
  where
    go :
        (answer : Result Error (Unit {0}) × Database)
        → update_configuration gorm id values db ≡ answer
        → Updated answer.0 id values db answer.1
    go (ok done, after) h = update_configuration-Configured gorm id values db h
    go (err e, after) h = unrolled gorm id values db h
