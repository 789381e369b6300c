-- ===== src/Store/Session/Laws.antt =====
-- Inversion of a session's steps: what a result says of the parts.
use oplet.Prelude.{
  ◌≡◌, refl, ◌≢◌, ◌⊎◌, inl, inr, Result, ok, err, Option-cases, arith, sym, ◌∙◌, ap, Bool, true,
  List, [], ◌∷◌, Memᴰ, Memᴰ-filter, &&-eq-true, all,
}
use oplet.Store.Orm.{Error, record_not_found, failure, Table, Orm, where_, is_live}
use oplet.Store.Session.{
  Database, Gorm, Exec, continue, ◌>>=◌, close, with_tx, with_database, transaction, query,
}

module _ {A : Type 0} where
  close-ok :
      (gorm : Gorm) (before after : Database) (r : Result Error A) {a : A} {db' : Database}
      → close gorm before r after ≡ (ok a, db')
      → (r ≡ ok a) × (after ≡ db')
  close-ok gorm before after r h = ground arith

  close-err :
      (gorm : Gorm) (before after : Database) (r : Result Error A) {e : Error} {db' : Database}
      → close gorm before r after ≡ (err e, db')
      → (db' ≡ before) × ((r ≡ err e) ⊎ (e ≢ record_not_found))
  close-err gorm before after (err e') h = (cc, inl (cc))
  close-err gorm before after (ok a) {e} {db'} h = elim (Option-cases (gorm.commit_err after)) [
    | inl fine ↦
        let g : ◌≡◌ {A = Result Error A × Database} (ok a, after) (err e, db') =
          rw (fine, close) at h in
        cc
    | inr (m, broken) ↦
        let g : ◌≡◌ {A = Result Error A × Database} (err (failure m), before) (err e, db') =
          rw (broken, close) at h in
        (cc, inr (λ missing. cc))
  ]

  close-back :
      (gorm : Gorm) (before after : Database) (r : Result Error A) {e : Error}
      → (close gorm before r after).0 ≡ err e
      → close gorm before r after ≡ (err e, before)
  close-back gorm before after (err e') h = rw (← h)
  close-back gorm before after (ok a) {e} h = elim (Option-cases (gorm.commit_err after)) [
    | inl fine ↦ let g : ◌≡◌ {A = Result Error A} (ok a) (err e) = rw (fine, close) at h in cc
    | inr (m, broken) ↦
        let g : ◌≡◌ {A = Result Error A} (err (failure m)) (err e) = rw (broken, close) at h in
        rw (broken, close, g)
  ]

  -- A transaction that fails leaves the tables as they were.
  pub transaction-err :
      (gorm : Gorm) (fn : Exec A) (db : Database) {e : Error}
      → (transaction gorm fn db).0 ≡ err e
      → transaction gorm fn db ≡ (err e, db)
  transaction-err gorm fn db {e} h = close-back gorm db (fn db).1 (fn db).0 h

  pub transaction-ok :
      (gorm : Gorm) (fn : Exec A) (db : Database) {a : A} {db' : Database}
      → transaction gorm fn db ≡ (ok a, db')
      → ((fn db).0 ≡ ok a) × ((fn db).1 ≡ db')
  transaction-ok gorm fn db h = close-ok gorm db (fn db).1 (fn db).0 h

  -- A callback that changes nothing makes a transaction that changes nothing.
  pub transaction-still :
      (gorm : Gorm) (fn : Exec A) (db : Database) {r : Result Error A} {db' : Database}
      → (fn db).1 ≡ db
      → transaction gorm fn db ≡ (r, db')
      → db' ≡ db
  transaction-still gorm fn db {r = ok a} still h = sym (transaction-ok gorm fn db h).1 ∙ still
  transaction-still gorm fn db {r = err e} still h =
      let failed : (transaction gorm fn db).0 ≡ err e =
        ap (λ (x : Result Error A × Database). x.0) h in
      let g = transaction-err gorm fn db failed in cc

  -- A transaction that succeeds is its callback.
  pub with_tx-ok :
      (gorm : Gorm) (fn : Exec A) (db : Database) {a : A} {db' : Database}
      → with_tx gorm fn db ≡ (ok a, db')
      → ((fn db).0 ≡ ok a) × ((fn db).1 ≡ db')
  unfolding with_tx
  with_tx-ok gorm fn db {a} {db'} h = elim (Option-cases gorm.migrate_err) [
    | inl fine ↦ close-ok gorm db (fn db).1 (fn db).0 (rw fine at h)
    | inr (m, broken) ↦
        let g : ◌≡◌ {A = Result Error A × Database} (err (failure m), db) (ok a, db') =
          rw broken at h in
        cc
  ]

  -- A transaction that fails changes nothing, and "not found" comes from its callback.
  pub with_tx-err :
      (gorm : Gorm) (fn : Exec A) (db : Database) {e : Error} {db' : Database}
      → with_tx gorm fn db ≡ (err e, db')
      → (db' ≡ db) × (((fn db).0 ≡ err e) ⊎ (e ≢ record_not_found))
  unfolding with_tx
  with_tx-err gorm fn db {e} {db'} h = elim (Option-cases gorm.migrate_err) [
    | inl fine ↦ close-err gorm db (fn db).1 (fn db).0 (rw fine at h)
    | inr (m, broken) ↦
        let g : ◌≡◌ {A = Result Error A × Database} (err (failure m), db) (err e, db') =
          rw broken at h in
        (cc, inr (λ missing. cc))
  ]

  pub with_database-ok :
      (gorm : Gorm) (fn : Exec A) (db : Database) {a : A} {db' : Database}
      → with_database gorm fn db ≡ (ok a, db')
      → fn db ≡ (ok a, db')
  unfolding with_database
  with_database-ok gorm fn db h = ground arith

module _ {A B : Type 0} where
  pub >>=-ok :
      (m : Exec A) (f : A → Exec B) (db : Database) {b : B}
      → ((m >>= f) db).0 ≡ ok b
      → (a : A) × ((m db).0 ≡ ok a) × ((m >>= f) db ≡ f a (m db).1)
  >>=-ok m f db {b} h = go (m db).0 refl h
    where
      go :
          (r : Result Error A)
          → (m db).0 ≡ r
          → (continue r f (m db).1).0 ≡ ok b
          → (a : A) × ((m db).0 ≡ ok a) × ((m >>= f) db ≡ f a (m db).1)
      go (ok a) e k = (a, e, rw e)
      go (err x) e k = cc

-- A read that succeeds has read.
pub with_database-query :
    {A : Type 0} (gorm : Gorm) (f : Database → Result Error A) (db : Database) {a : A}
    → (with_database gorm (query f) db).0 ≡ ok a
    → f db ≡ ok a
unfolding with_database
with_database-query {A} gorm f db {a} h = elim (Option-cases gorm.migrate_err) [
  | inl fine ↦ rw fine at h
  | inr (m, broken) ↦
      let g : ◌≡◌ {A = Result Error A} (err (failure m)) (ok a) = rw broken at h in cc
]

-- The first row that meets one condition is a live row of the table that meets it.
pub first-where :
    {Row : Type 0} {table : Table Row} (orm : Orm Row table) (p : Row → Bool) (rows : List Row)
    {r : Row}
    → orm.first (where_ p) rows ≡ ok r
    → Memᴰ r rows × (is_live table r ≡ true) × (p r ≡ true)
first-where {table = table} orm p rows {r} h =
    let (m, leads) = orm.first_leads (where_ p) rows r h in
    let (there, chosen) = Memᴰ-filter _ rows m in
    let (live, met) = &&-eq-true (is_live table r) (all (λ c. c r) (p ∷ [])) chosen in
    (there, live, (&&-eq-true (p r) true met).0)
