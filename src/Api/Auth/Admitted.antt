-- ===== src/Api/Auth/Admitted.antt =====
-- Which requests of runners reach a handler, and what assertRunner writes.
use oplet.Prelude.{
  ℕ, String, ◌==◌, ◌≡◌, ◌≢◌, refl, sym, ap, ◌∙◌, inl, inr, Bool, true, ◌&&◌, some, map, List,
  Result, ok, err, Memᴰ, Memᴰ-filter, &&-eq-true, equal_texts, distinct_texts, Bool-cases,
  Option-cases, Result-cases, nat_eq, if◌then◌else◌,
}
use oplet.Store.Rows.{Time, Runner}
use oplet.Store.Orm.{Error, failure, where_, is_live}
use oplet.Store.Session.{Database, Gorm, runners_table, with_database}
use oplet.Store.Session.Laws.{with_tx-ok}
use oplet.Api.{Reply, respond, proceed, forbidden, internal_error, Request}
use oplet.Api.Auth.{
  get_runner_by_token, update_contact_at, bearer, after_contact, after_runner, assert_runner,
}

-- the rows after UpdateContactAt
abbrev pub contacted : ℕ → Time → List Runner → List Runner
contacted id now = map (λ s.
    if is_live runners_table s && nat_eq s.id id then record s { contacted_at = some now } else s)

-- A request that passes: its token is that of a runner of the table that is not deleted.
pub record IsAdmitted (authorization : String) (now : Time) (db : Database) (runner : Runner)
    (db' : Database) : Type 0 where
  pub given : bearer authorization ≢ ""
  pub token : runner.token ≡ bearer authorization
  pub present : Memᴰ runner db.runners
  pub live : is_live runners_table runner ≡ true
  pub stored : db' ≡ record db { runners = contacted runner.id now db.runners }

module _ (gorm : Gorm) (db : Database) where
  found-token :
      (token : String) (runner : Runner) (db' : Database)
      → get_runner_by_token gorm token db ≡ (ok runner, db')
      → (runner.token ≡ token)
        × Memᴰ runner db.runners
        × (is_live runners_table runner ≡ true)
        × (db ≡ db')
  unfolding get_runner_by_token
  found-token token runner db' h =
      let (first, same) = with_tx-ok gorm _ db h in
      let (leads, least) =
        gorm.runners.first_leads (where_ (λ r. r.token == token)) db.runners runner first in
      let (present, chosen) = Memᴰ-filter _ db.runners leads in
      let (live, meets) = &&-eq-true (is_live runners_table runner) _ chosen in
      let (met, rest) = &&-eq-true (runner.token == token) true meets in
      (equal_texts runner.token token met, present, live, same)

  update_contact_at-ok :
      (id : ℕ) (now : Time)
      → (update_contact_at gorm id now db).0 ≡ ok tt
      → (update_contact_at gorm id now db).1 ≡ record db { runners = contacted id now db.runners }
  unfolding update_contact_at with_database
  update_contact_at-ok id now h =
      let p : Runner → Bool = λ r. nat_eq r.id id in
      let f : Runner → Runner = λ r. record r { contacted_at = some now } in
      elim (Option-cases gorm.migrate_err) [
        | inr (m, broken) ↦
            let g : ◌≡◌ {A = Result Error (Unit {0})} (err (failure m)) (ok tt) =
              rw (broken, with_database) at h in
            cc
        | inl fine ↦ elim (Result-cases (gorm.runners.update p f db.runners)) [
          | inr (x, broken) ↦
              let g : ◌≡◌ {A = Result Error (Unit {0})} (err x) (ok tt) =
                rw (fine, with_database, broken) at h in
              cc
          | inl (rows, made) ↦
              rw (fine, with_database, made)
                (ap (λ x. record db { runners = x })
                  (gorm.runners.updated p f db.runners rows made))
        ]
      ]

after_contact-proceed :
    (runner u : Runner) (run : Result Error (Unit {0}) × Database) (db' : Database)
    → after_contact runner run ≡ (proceed u, db')
    → (runner ≡ u) × (run.0 ≡ ok tt) × (run.1 ≡ db')
after_contact-proceed runner u (ok done, d) db' h = (cc, refl, cc)
after_contact-proceed runner u (err e, d) db' h =
    let g : ◌≡◌ {A = Reply Runner} (respond internal_error) (proceed u) =
      ap (λ (x : Reply Runner × Database). x.0) h in
    cc

after_runner-proceed :
    (gorm : Gorm) (now : Time) (run : Result Error Runner × Database) (u : Runner) (db' : Database)
    → after_runner gorm now run ≡ (proceed u, db')
    → (run ≡ (ok u, run.1))
      × ((update_contact_at gorm u.id now run.1).0 ≡ ok tt)
      × ((update_contact_at gorm u.id now run.1).1 ≡ db')
after_runner-proceed gorm now (ok runner, d) u db' h =
    let (same, done, stored) =
      after_contact-proceed runner u (update_contact_at gorm runner.id now d) db' h in
    (
      ap (λ (x : Runner). (ok x, d)) same,
      ap (λ (x : Runner). (update_contact_at gorm x.id now d).0) (sym same) ∙ done,
      ap (λ (x : Runner). (update_contact_at gorm x.id now d).1) (sym same) ∙ stored,
    )
after_runner-proceed gorm now (err e, d) u db' h =
    let g : ◌≡◌ {A = Reply Runner} (respond forbidden) (proceed u) =
      ap (λ (x : Reply Runner × Database). x.0) h in
    cc

-- A request reaches its handler only with a token that is not empty and is that of a live runner of
-- the table; the runner's contact time is then written, and nothing else changed.
pub assert_runner-IsAdmitted :
    {Body : Type 0} (gorm : Gorm) (now : Time) (r : Request Body) (db db' : Database)
    (runner : Runner)
    → assert_runner gorm now r db ≡ (proceed runner, db')
    → IsAdmitted r.authorization now db runner db'
unfolding assert_runner
assert_runner-IsAdmitted gorm now r db db' runner h =
    elim (Bool-cases (bearer r.authorization == "")) [
      | inl blank ↦
          let g : ◌≡◌ {A = Reply Runner × Database} (respond forbidden, db) (proceed runner, db') =
            rw blank at h in
          let g' : ◌≡◌ {A = Reply Runner} (respond forbidden) (proceed runner) =
            ap (λ (x : Reply Runner × Database). x.0) g in
          cc
      | inr given ↦
          let (found, contact, stored) =
            after_runner-proceed gorm now (get_runner_by_token gorm (bearer r.authorization) db)
              runner db' (rw given at h) in
          let (token, present, live, same) =
            found-token gorm db (bearer r.authorization) runner _ found in
          record {
            given = distinct_texts (bearer r.authorization) "" given;
            token = token;
            present = present;
            live = live;
            stored =
                sym
                  (ap (λ (d : Database). (update_contact_at gorm runner.id now d).1) same ∙ stored)
                ∙ update_contact_at-ok gorm db runner.id now (
                    ap (λ (d : Database). (update_contact_at gorm runner.id now d).0) same
                    ∙ contact);
          }
    ]
