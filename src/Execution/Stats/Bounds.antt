-- ===== src/Execution/Stats/Bounds.antt =====
-- What the statistics of a task count.
use oplet.Prelude.{
  Result-cases, ap, sym, ◌∙◌, inl, inr, ℕ, ◌+◌, ◌≤◌, ◌==◌, ◌&&◌, ◌≡◌, refl, ◌∙◌, sym, Bool, true,
  false, Option, List, Result, ok, err, nat_eq, length, length-filter_split, all, eq_iff,
  Bool-cases, inl, inr, &&-eq-true, distinct_texts, length-filter_le, [], ◌∷◌, String,
}
use oplet.Store.Rows.{TaskExecution}
use oplet.Store.Orm.{Error, is_none, select, where_, order_by, desc}
use oplet.Store.Session.{Database, Gorm, executions_table}
use oplet.Store.Session.Laws.{with_database-ok}
use oplet.Store.Status
use oplet.Execution.Stats.{
  stats_from, ExecutionStats, count_where, stats_of, get_execution_stats,
  get_execution_stats_for_user, passed_over,
}

-- the live rows that a test chooses
abbrev pub live_count : (TaskExecution → Bool) → Database → ℕ
live_count p db = length (select executions_table (where_ p) db.executions)

abbrev pub succeeded_of : (TaskExecution → Bool) → TaskExecution → Bool
succeeded_of chosen e = chosen e && e.status == Status.succeeded

abbrev pub failed_of : (TaskExecution → Bool) → TaskExecution → Bool
failed_of chosen e = chosen e && e.status == Status.failed

module _ (gorm : Gorm)
    (average : (TaskExecution → Bool) → List TaskExecution → Result Error ℕ) where
  count_where-ok :
      (p : TaskExecution → Bool) (db : Database) {n : ℕ}
      → (count_where gorm average p db).0 ≡ ok n
      → n ≡ live_count p db
  count_where-ok p db {n} h = gorm.executions.count_eq (where_ p) db.executions n h

  pub record Counts (chosen : TaskExecution → Bool) (db : Database) (stats : ExecutionStats)
      : Type 0 where
    pub total : stats.total_executions ≡ live_count chosen db
    pub successful : stats.successful_runs ≡ live_count (succeeded_of chosen) db
    pub failed : stats.failed_runs ≡ live_count (failed_of chosen) db

  stats_of-Counts :
      (chosen : TaskExecution → Bool) (db db' : Database) (stats : ExecutionStats)
      → stats_of gorm average chosen db ≡ (ok stats, db')
      → Counts chosen db stats × (db' ≡ db)
  stats_of-Counts chosen db db' stats h =
      let h' = with_database-ok gorm _ db h in
      elim (Result-cases (gorm.executions.count (where_ chosen) db.executions)) [
        | inr (x, e1) ↦
            let g : ◌≡◌ {A = Result Error ExecutionStats × Database} (err x, db) (ok stats, db') =
              rw e1 at h' in
            cc
        | inl (total, e1) ↦
            elim (Result-cases
              (gorm.executions.count (where_ (succeeded_of chosen)) db.executions)) [
                | inr (x, e2) ↦
                    let g : ◌≡◌ {A = Result Error ExecutionStats × Database} (err x, db)
                        (ok stats, db') =
                      rw (e1, e2) at h' in
                    cc
                | inl (successful, e2) ↦
                    elim (Result-cases
                      (gorm.executions.count (where_ (failed_of chosen)) db.executions)) [
                        | inr (x, e3) ↦
                            let g : ◌≡◌ {A = Result Error ExecutionStats × Database} (err x, db)
                                (ok stats, db') =
                              rw (e1, e2, e3) at h' in
                            cc
                        | inl (failed, e3) ↦
                            let g = rw (e1, e2, e3) at h' in
                            counted total successful failed
                              (passed_over (
                                gorm.executions.first
                                  (order_by (desc (λ e. e.created_at)) (where_ chosen))
                                  db.executions))
                              (passed_over (average chosen db.executions)) e1 e2 e3 g
                      ]
              ]
      ]
    where
      counted :
          (total successful failed : ℕ) (last : Option TaskExecution) (mean : Option ℕ)
          → gorm.executions.count (where_ chosen) db.executions ≡ ok total
          → gorm.executions.count (where_ (succeeded_of chosen)) db.executions ≡ ok successful
          → gorm.executions.count (where_ (failed_of chosen)) db.executions ≡ ok failed
          → ◌≡◌ {A = Result Error ExecutionStats × Database}
              (ok (stats_from total successful failed last mean), db)
              (ok stats, db')
          → Counts chosen db stats × (db' ≡ db)
      counted total successful failed last mean e1 e2 e3 g =
          let same : stats_from total successful failed last mean ≡ stats = cc in
          (
            record {
              total =
                  ap (λ (s : ExecutionStats). s.total_executions) (sym same)
                  ∙ count_where-ok chosen db e1;
              successful =
                  ap (λ (s : ExecutionStats). s.successful_runs) (sym same)
                  ∙ count_where-ok (succeeded_of chosen) db e2;
              failed =
                  ap (λ (s : ExecutionStats). s.failed_runs) (sym same)
                  ∙ count_where-ok (failed_of chosen) db e3;
            },
            cc,
          )

-- Two texts that differ are not both equal to a third.
succeeded_not-failed :
    (status : String) → (status == Status.succeeded) ≡ true → (status == Status.failed) ≡ false
succeeded_not-failed status h = elim (Bool-cases (status == Status.failed)) [
  | inl e ↦
      let same : Status.succeeded ≡ Status.failed =
        sym ((eq_iff status Status.succeeded).0 h) ∙ (eq_iff status Status.failed).0 e in
      absurd (distinct_texts Status.succeeded Status.failed refl same)
  | inr e ↦ e
]

live_count_le :
    (p q : TaskExecution → Bool) (db : Database)
    → ((e : TaskExecution) → p e ≡ true → q e ≡ true)
    → live_count p db ≤ live_count q db
live_count_le p q db sub = length-filter_le _ _ db.executions (λ e h.
    let (live, met) = &&-eq-true (is_none e.deleted_at) (all (λ c. c e) (p ∷ [])) h in
    let (chosen, rest) = &&-eq-true (p e) true met in rw (live, sub e chosen) refl)

live_count_split :
    (chosen : TaskExecution → Bool) (db : Database)
    → live_count (succeeded_of chosen) db + live_count (failed_of chosen) db ≤ live_count chosen db
live_count_split chosen db =
    length-filter_split _ _ _ db.executions
      (λ e h.
        let (live, met) =
          &&-eq-true (is_none e.deleted_at) (all (λ c. c e) (succeeded_of chosen ∷ [])) h in
        let (both, rest) = &&-eq-true (succeeded_of chosen e) true met in
        let (here, succeeded) = &&-eq-true (chosen e) (e.status == Status.succeeded) both in
        (rw (live, here) refl, rw (live, here, succeeded_not-failed e.status succeeded) refl))
      (λ e h.
        let (live, met) =
          &&-eq-true (is_none e.deleted_at) (all (λ c. c e) (failed_of chosen ∷ [])) h in
        let (both, rest) = &&-eq-true (failed_of chosen e) true met in
        let (here, failed) = &&-eq-true (chosen e) (e.status == Status.failed) both in
        rw (live, here) refl)

-- The statistics of a task and those of one user's executions of it, read from one database: the
-- successful and the failed runs together are no more than all runs, in both; and each number of the
-- user's is at most the task's.
pub stats_bounds :
    (gorm : Gorm) (average : (TaskExecution → Bool) → List TaskExecution → Result Error ℕ)
    (task_id user_id : ℕ) (db db1 db2 : Database) (s u : ExecutionStats)
    → get_execution_stats gorm average task_id db ≡ (ok s, db1)
    → get_execution_stats_for_user gorm average task_id user_id db ≡ (ok u, db2)
    → (s.successful_runs + s.failed_runs ≤ s.total_executions)
      × (u.successful_runs + u.failed_runs ≤ u.total_executions)
      × (u.total_executions ≤ s.total_executions)
      × (u.successful_runs ≤ s.successful_runs)
      × (u.failed_runs ≤ s.failed_runs)
unfolding get_execution_stats get_execution_stats_for_user
stats_bounds gorm average task_id user_id db db1 db2 s u hs hu =
    let of_task : TaskExecution → Bool = λ e. nat_eq e.task_id task_id in
    let of_user : TaskExecution → Bool =
      λ e. nat_eq e.task_id task_id && nat_eq e.user_id user_id in
    let (cs, _) = stats_of-Counts gorm average of_task db db1 s hs in
    let (cu, _) = stats_of-Counts gorm average of_user db db2 u hu in
    let sub : (e : TaskExecution) → of_user e ≡ true → of_task e ≡ true =
      λ e h. (&&-eq-true (nat_eq e.task_id task_id) (nat_eq e.user_id user_id) h).0 in
    (
      rw (cs.successful, cs.failed, cs.total) (live_count_split of_task db),
      rw (cu.successful, cu.failed, cu.total) (live_count_split of_user db),
      rw (cu.total, cs.total) (live_count_le of_user of_task db sub),
      rw (cu.successful, cs.successful)
          (live_count_le (succeeded_of of_user) (succeeded_of of_task) db (λ e h.
            let (here, status) = &&-eq-true (of_user e) (e.status == Status.succeeded) h in
            rw (sub e here, status) refl)),
      rw (cu.failed, cs.failed)
          (live_count_le (failed_of of_user) (failed_of of_task) db (λ e h.
            let (here, status) = &&-eq-true (of_user e) (e.status == Status.failed) h in
            rw (sub e here, status) refl)),
    )
