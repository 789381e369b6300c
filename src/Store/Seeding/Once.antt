-- ===== src/Store/Seeding/Once.antt =====
-- What seeding does once, and leaves alone afterwards.
use oplet.Store.Session.Laws.{>>=-ok}
use oplet.Prelude.{
  ℕ, suc, String, ◌==◌, ◌≡◌, refl, true, false, Option, some, List, [], ◌∷◌, Result, ok, err, any,
  All, inl, inr, Result-cases, if◌then◌else◌, map, Bool-cases, any_iff_length, any-append, ltb,
  ◌++◌, ◌∙◌, arith, eq_refl, any-map, ◌↔◌,
}
use oplet.Store.Orm.{Error}
use oplet.Store.Rows.{Time, Seed}
use oplet.Store.Session.{Database, Gorm}
use oplet.Store.Retry.Attempts.{with_retry-ok, with_retry-still, with_retry_returns}
use oplet.Store.Seeding.{Seeder, after_seeder, run_seeder, seed, write_seeds, run_unless}

-- A row of the seeds' table has this id.
abbrev pub Recorded : Database → String → Type 0
Recorded db id = any (λ row. row.id == id) db.seeds ≡ true

-- Every id that is recorded before is recorded after.
abbrev pub Keeps : Database → Database → Type 0
Keeps before after = (id : String) → Recorded before id → Recorded after id

-- The seeder's own statements keep the recorded ids.
abbrev pub KeepsSeeds : Seeder → Type 0
KeepsSeeds s = (gorm : Gorm) (db : Database) → Keeps db (s.exec gorm db).1

set_time-id :
    (id new : String) (now : Time) (row : Seed)
    → ((if row.id == new then record row { executed_at = now } else row).id == id) ≡ (row.id == id)
set_time-id id new now row = elim (Bool-cases (row.id == new)) [
  | inl e ↦ rw e refl
  | inr e ↦ rw e refl
]

abbrev upserted_rows : Seed → List Seed → List Seed
upserted_rows new rows =
    if any (λ s. s.id == new.id) rows
    then map (λ s. if s.id == new.id then record s { executed_at = new.executed_at } else s) rows
    else rows ++ new ∷ []

upserted_rows-Recorded :
    (new : Seed) (id : String) (rows : List Seed)
    → any (λ row. row.id == id) rows ≡ true
    → any (λ row. row.id == id) (upserted_rows new rows) ≡ true
upserted_rows-Recorded new id rows h = elim (Bool-cases (any (λ s. s.id == new.id) rows)) [
  | inl e ↦ rw e (
      any-map (λ row. row.id == id)
        (λ s. if s.id == new.id then record s { executed_at = new.executed_at } else s) rows
        (set_time-id id new.id new.executed_at)
      ∙ h)
  | inr e ↦ rw e (any-append (λ row. row.id == id) rows (new ∷ []) ∙ rw h refl)
]

upserted_rows-has :
    (new : Seed) (rows : List Seed) → any (λ row. row.id == new.id) (upserted_rows new rows) ≡ true
upserted_rows-has new rows = elim (Bool-cases (any (λ s. s.id == new.id) rows)) [
  | inl e ↦ upserted_rows-Recorded new new.id rows e
  | inr e ↦
      rw e (any-append (λ row. row.id == new.id) rows (new ∷ []) ∙ rw (e, eq_refl new.id) refl)
]

write_seeds-ok :
    (statement : List Seed → Result Error (List Seed)) (db : Database)
    → (write_seeds statement db).0 ≡ ok tt
    → (rows : List Seed) × (statement db.seeds ≡ ok rows)
      × ((write_seeds statement db).1 ≡ record db { seeds = rows })
write_seeds-ok statement db h = elim (Result-cases (statement db.seeds)) [
  | inl (rows, e) ↦ (rows, e, rw e refl)
  | inr (x, e) ↦ let g : ◌≡◌ {A = Result Error (Unit {0})} (err x) (ok tt) = rw e at h in cc
]

module _ (now : Time) (s : Seeder) (gorm : Gorm) (db : Database) where
  run_seeder-count :
      (n : ℕ)
      → gorm.seeds.count s.id db.seeds ≡ ok n
      → run_seeder false now s gorm db ≡ run_unless (ltb 0 n) now s gorm db
  unfolding run_seeder
  run_seeder-count n e = rw e refl

  run_seeder-uncounted :
      (x : Error)
      → gorm.seeds.count s.id db.seeds ≡ err x
      → run_seeder false now s gorm db ≡ (err x, db)
  unfolding run_seeder
  run_seeder-uncounted x e = rw e refl

  counted_iff :
      (n : ℕ) → gorm.seeds.count s.id db.seeds ≡ ok n → (ltb 0 n ≡ true) ↔ Recorded db s.id
  counted_iff n e =
      let long = gorm.seeds.count_eq s.id db.seeds n e in
      let recorded = any_iff_length (λ row. row.id == s.id) db.seeds in
      (λ more. recorded.1 (ground arith), λ there. let some_rows = recorded.0 there in ground arith)

  run_seeder-still : Recorded db s.id → (run_seeder false now s gorm db).1 ≡ db
  run_seeder-still recorded = elim (Result-cases (gorm.seeds.count s.id db.seeds)) [
    | inl (n, e) ↦ rw (run_seeder-count n e, (counted_iff n e).1 recorded) refl
    | inr (x, e) ↦ rw (run_seeder-uncounted x e) refl
  ]

  run_unless-ok :
      KeepsSeeds s
      → (run_unless false now s gorm db).0 ≡ ok tt
      → Recorded (run_unless false now s gorm db).1 s.id
        × Keeps db (run_unless false now s gorm db).1
  run_unless-ok keeps h =
      let new : Seed = record { id = s.id; executed_at = now } in
      let (done, ran, e) = >>=-ok (s.exec gorm) (λ _. write_seeds (gorm.seeds.upsert new)) db h in
      let written : (write_seeds (gorm.seeds.upsert new) (s.exec gorm db).1).0 ≡ ok tt =
        rw e at h in
      let (rows, stored, after) =
        write_seeds-ok (gorm.seeds.upsert new) (s.exec gorm db).1 written in
      let form = gorm.seeds.upserted new (s.exec gorm db).1.seeds rows stored in
      rw (e, after, form)
        (
          upserted_rows-has new (s.exec gorm db).1.seeds,
          λ id k. upserted_rows-Recorded new id (s.exec gorm db).1.seeds (keeps gorm db id k),
        )

  run_seeder-ok :
      KeepsSeeds s
      → (run_seeder false now s gorm db).0 ≡ ok tt
      → Recorded (run_seeder false now s gorm db).1 s.id
        × Keeps db (run_seeder false now s gorm db).1
  run_seeder-ok keeps h = elim (Result-cases (gorm.seeds.count s.id db.seeds)) [
    | inl (n, e) ↦ elim (Bool-cases (ltb 0 n)) [
      | inl more ↦ rw (run_seeder-count n e, more) ((counted_iff n e).0 more, λ id k. k)
      | inr fresh ↦
          let ran : run_seeder false now s gorm db ≡ run_unless false now s gorm db =
            run_seeder-count n e ∙ rw fresh refl in
          rw ran (run_unless-ok keeps (rw ran at h))
    ]
    | inr (x, e) ↦
        let g : ◌≡◌ {A = Result Error (Unit {0})} (err x) (ok tt) =
          rw (run_seeder-uncounted x e) at h in
        cc
  ]

module _ (sqlite_code : Error → Option ℕ) (now : Time) where
  -- Seeders that are recorded are not run again.
  pub seed-still :
      (seeders : List Seeder) (gorm : ℕ → ℕ → Gorm) (db : Database)
      → All (λ s. Recorded db s.id) seeders
      → (r : Result Error (Unit {0})) × (seed sqlite_code false now seeders gorm db ≡ some (r, db))
  unfolding seed
  seed-still [] gorm db recorded = (ok tt, refl)
  seed-still (s ∷ seeders) gorm db (first, others) =
      let (out, e) = with_retry_returns (gorm 0) sqlite_code [] (run_seeder false now s) db in
      let still =
        with_retry-still (gorm 0) sqlite_code [] (run_seeder false now s) db
          (λ g. run_seeder-still now s g db first) e in
      elim (Result-cases out.result) [
        | inl (done, fine) ↦
            let (r, rest) = seed-still seeders (λ i. gorm (suc i)) db others in
            (r, rw (e, fine, after_seeder, still) rest)
        | inr (x, failed) ↦ (err x, rw (e, failed, after_seeder, still) refl)
      ]

  pub seed-Recorded :
      (seeders : List Seeder) (gorm : ℕ → ℕ → Gorm) (db : Database) {db' : Database}
      → All KeepsSeeds seeders
      → seed sqlite_code false now seeders gorm db ≡ some (ok tt, db')
      → All (λ s. Recorded db' s.id) seeders × Keeps db db'
  unfolding seed
  seed-Recorded [] gorm db {db'} keeps h = let same : db ≡ db' = cc in (tt, λ id k. rw (← same) k)
  seed-Recorded (s ∷ seeders) gorm db {db'} (first, others) h =
      let (out, e) = with_retry_returns (gorm 0) sqlite_code [] (run_seeder false now s) db in
      elim (Result-cases out.result) [
        | inl (done, fine) ↦
            let (i, ran, after) =
              with_retry-ok (gorm 0) sqlite_code [] (run_seeder false now s) db e fine in
            let (here, kept) = run_seeder-ok now s (gorm 0 i) db first ran in
            let (there, later) =
              seed-Recorded seeders (λ i. gorm (suc i)) out.database others
                (rw (e, fine, after_seeder) at h) in
            ((later s.id (rw after at here), there), λ id k. later id (rw after at (kept id k)))
        | inr (x, failed) ↦
            let g : ◌≡◌ {A = Option (Result Error (Unit {0}) × Database)}
                (some (err x, out.database)) (some (ok tt, db')) =
              rw (e, failed, after_seeder) at h in
            cc
      ]
