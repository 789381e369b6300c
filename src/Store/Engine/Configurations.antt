-- ===== src/Store/Engine/Configurations.antt =====
-- The statements of the in-memory engine on the configurations of tasks and on a task's deletion.
use mathlib.Core.List.Permᴰ
use mathlib.Core.Path.{subst}
use oplet.Prelude.{
  ◌&&◌, Permᴰ, ℕ, ◌≡◌, refl, sym, ap, not, false, List, [], ◌∷◌, ◌++◌, map, none, Result, ok,
  filter, any, All, nat_eq,
}
use oplet.Store.Rows.{TaskConfiguration}
use oplet.Store.Orm.{is_none, Error}
use oplet.Store.Session.{Database, ConfigurationOrm, setting}

abbrev kept_for : ℕ → TaskConfiguration → TaskConfiguration
kept_for id c = record c {
  task_id = id;
  model = record { id = 0; created_at = 0; deleted_at = none };
}

engine_settings :
    (id : ℕ) (news : List TaskConfiguration)
    → (map setting (map (kept_for id) news) ≡ map setting news)
      × All (λ (c : TaskConfiguration). c.task_id ≡ id) (map (kept_for id) news)
engine_settings id [] = (refl, tt)
engine_settings id (c ∷ news) =
    let (same, own) = engine_settings id news in (ap (◌∷◌ (setting c)) same, (refl, own))

pub engine_preloaded :
    (id : ℕ) (rows found : List TaskConfiguration)
    → ◌≡◌ {A = Result Error (List TaskConfiguration)}
        (ok (filter (λ c. is_none c.deleted_at && nat_eq c.task_id id) rows))
        (ok found)
    → Permᴰ found (filter (λ c. is_none c.deleted_at && nat_eq c.task_id id) rows)
engine_preloaded id rows found h =
    let chosen =
      filter (λ (c : TaskConfiguration). is_none c.deleted_at && nat_eq c.task_id id) rows in
    let same : chosen ≡ found = cc in subst (λ l. Permᴰ l chosen) same (Permᴰ.refl chosen)

pub engine_cleared :
    (id : ℕ) (rows after : List TaskConfiguration)
    → ◌≡◌ {A = Result Error (List TaskConfiguration)}
        (ok (filter (λ c. not (nat_eq c.task_id id)) rows))
        (ok after)
    → after ≡ filter (λ c. not (nat_eq c.task_id id)) rows
engine_cleared id rows after h = cc

pub engine_replaced :
    (id : ℕ) (news rows after : List TaskConfiguration)
    → any (λ c. nat_eq c.task_id id) rows ≡ false
    → ◌≡◌ {A = Result Error (List TaskConfiguration)}
        (ok (rows ++ map (kept_for id) news))
        (ok after)
    → (saved : List TaskConfiguration) × (after ≡ rows ++ saved)
      × (map setting saved ≡ map setting news)
      × All (λ c. c.task_id ≡ id) saved
engine_replaced id news rows after none_left h =
    let (same, own) = engine_settings id news in (map (kept_for id) news, cc, same, own)

unfoldable pub engine_configurations : ConfigurationOrm
engine_configurations = record {
  clear = λ id rows. ok (filter (λ c. not (nat_eq c.task_id id)) rows);
  replace = λ id news rows. ok (rows ++ map (kept_for id) news);
  preload = λ id rows. ok (filter (λ c. is_none c.deleted_at && nat_eq c.task_id id) rows);
  preloaded = engine_preloaded;
  cleared = engine_cleared;
  replaced = engine_replaced;
}

abbrev pub without_task : ℕ → Database → Database
without_task id db = record db {
  tasks = filter (λ t. not (nat_eq t.id id)) db.tasks;
  executions = filter (λ e. not (nat_eq e.task_id id)) db.executions;
  configurations = filter (λ c. not (nat_eq c.task_id id)) db.configurations;
}

pub engine_task_deleted :
    (id : ℕ) (db after : Database)
    → ◌≡◌ {A = Result Error Database} (ok (without_task id db)) (ok after)
    → (after.tasks ≡ filter (λ t. not (nat_eq t.id id)) db.tasks)
      × (after.executions ≡ filter (λ e. not (nat_eq e.task_id id)) db.executions)
      × (after.configurations ≡ filter (λ c. not (nat_eq c.task_id id)) db.configurations)
engine_task_deleted id db after h =
    let same : without_task id db ≡ after = cc in
    (
      ap (λ (d : Database). d.tasks) (sym same),
      ap (λ (d : Database). d.executions) (sym same),
      ap (λ (d : Database). d.configurations) (sym same),
    )
