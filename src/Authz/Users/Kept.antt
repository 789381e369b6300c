-- ===== src/Authz/Users/Kept.antt =====
-- Where the user of the middleware (internal/setup/authz_middleware.go) is stored.
use oplet.Store.Session.Laws.{with_database-query, first-where}
use mathlib.Core.Path.{subst}
use oplet.Prelude.{
  ◌==◌, ◌≡◌, refl, sym, ap, ◌∙◌, ◌&&◌, Bool, true, false, not, Result, ok, err, Bool-cases,
  Option-cases, Result-cases, equal_texts, if◌then◌else◌, inl, inr, Memᴰ, Memᴰ-right, ◌∷◌,
  nat_eq_iff, any_of_Memᴰ, [], map, map-Memᴰ,
}
use oplet.Store.Rows.{User}
use oplet.Store.Orm.{Error, failure, record_not_found, where_, same_id}
use oplet.Store.Session.{Database, Gorm, users_table, with_database}
use oplet.Authz.Users.{
  Identity, Config, Access, granted, inactive, new_user, promote, refresh, get_by_subject, create,
  load, after_changes, admit, admit_loaded, update, store_changes, needs_update,
}

module _ (gorm : Gorm) (conf : Config) (who : Identity) (db : Database) where
  pub get_by_subject-state : (get_by_subject gorm who.provider who.subject db).1 ≡ db
  unfolding get_by_subject with_database
  get_by_subject-state = elim (Option-cases gorm.migrate_err) [
    | inr (m, no_tables) ↦ rw (no_tables, with_database) refl
    | inl fine ↦ rw (fine, with_database) refl
  ]

-- The user that is let through stands in the table afterwards.
module _ (gorm : Gorm) (conf : Config) (who : Identity) where
  found-stored :
      (db : Database) (user : User)
      → (get_by_subject gorm who.provider who.subject db).0 ≡ ok user
      → Memᴰ user db.users
  unfolding get_by_subject
  found-stored db user h =
      let p : User → Bool = λ u. u.provider == who.provider && u.subject == who.subject in
      let first = with_database-query gorm (λ d. gorm.users.first (where_ p) d.users) db h in
      (first-where gorm.users p db.users first).0

  created-stored :
      (db : Database) (user : User)
      → (create gorm (new_user conf who) db).0 ≡ ok user
      → Memᴰ user (create gorm (new_user conf who) db).1.users
  unfolding create with_database
  created-stored db user h = elim (Option-cases gorm.migrate_err) [
    | inr (m, no_tables) ↦
        let g : ◌≡◌ {A = Result Error User} (err (failure m)) (ok user) =
          rw (no_tables, with_database) at h in
        cc
    | inl fine ↦ elim (Result-cases (gorm.users.create (new_user conf who) db.users)) [
      | inr (x, refused) ↦
          let g : ◌≡◌ {A = Result Error User} (err x) (ok user) =
            rw (fine, with_database, refused) at h in
          cc
      | inl ((r, rows), made) ↦
          let same : ◌≡◌ {A = Result Error User} (ok r) (ok user) =
            rw (fine, with_database, made) at h in
          let user_is : user ≡ r = cc in
          let (m, model, live, fresh, free, grown) =
            gorm.users.created (new_user conf who) r db.users rows made in
          rw (fine, with_database, made, grown) (Memᴰ-right db.users (r ∷ []) (Memᴰ.head user_is))
    ]
  ]

  pub load-stored :
      (db : Database) (user : User)
      → (load gorm conf who db).0 ≡ ok user
      → Memᴰ user (load gorm conf who db).1.users
  unfolding load
  load-stored db user h = elim (Result-cases (get_by_subject gorm who.provider who.subject db).0) [
    | inl (found, was) ↦
        let same : ◌≡◌ {A = Result Error User} (ok found) (ok user) = rw was at h in
        rw (was, get_by_subject-state gorm conf who db) (found-stored db user (was ∙ same))
    | inr (record_not_found, missing) ↦
        rw (missing, get_by_subject-state gorm conf who db)
          (created-stored db user (rw (missing, get_by_subject-state gorm conf who db) at h))
    | inr (failure e, failed) ↦
        let g : ◌≡◌ {A = Result Error User} (err (failure e)) (ok user) = rw failed at h in cc
  ]

  updated-stored :
      (db : Database) (user fresh : User)
      → fresh.id ≡ user.id
      → Memᴰ user db.users
      → (update gorm fresh db).0 ≡ ok tt
      → Memᴰ fresh (update gorm fresh db).1.users
  unfolding update with_database
  updated-stored db user fresh same m h = elim (Option-cases gorm.migrate_err) [
    | inr (x, no_tables) ↦
        let g : ◌≡◌ {A = Result Error (Unit {0})} (err (failure x)) (ok tt) =
          rw (no_tables, with_database) at h in
        cc
    | inl fine ↦ elim (Result-cases (gorm.users.save fresh db.users)) [
      | inr (x, refused) ↦
          let g : ◌≡◌ {A = Result Error (Unit {0})} (err x) (ok tt) =
            rw (fine, with_database, refused) at h in
          cc
      | inl (rows, done) ↦
          let hit : same_id users_table fresh user ≡ true = (nat_eq_iff fresh.id user.id).1 same in
          let put : User → User = λ s. if same_id users_table fresh s then fresh else s in
          let after =
            gorm.users.saved fresh db.users rows
              (any_of_Memᴰ (same_id users_table fresh) db.users hit m) done in
          let here : put user ≡ fresh = rw hit refl in
          rw (fine, with_database, done, after)
            (subst (λ (u : User). Memᴰ u (map put db.users)) here (map-Memᴰ put db.users m))
    ]
  ]

  promote-id : (user : User) → (promote conf who user).id ≡ user.id
  promote-id user = elim (Bool-cases (who.email == conf.default_admin_email)) [
    | inl admin ↦ rw admin refl
    | inr other ↦ rw other refl
  ]

  -- Without an update, the refreshed user is the loaded one.
  unchanged :
      (user : User)
      → needs_update conf who (promote conf who user) ≡ false
      → refresh conf who (promote conf who user) ≡ user
  unchanged user h = elim (Bool-cases (who.email == conf.default_admin_email)) [
    | inl admin ↦ let g : ◌≡◌ {A = Bool} true false = rw admin at h in cc
    | inr other ↦ elim (Bool-cases (user.email == who.email)) [
      | inr moved ↦ let g : ◌≡◌ {A = Bool} true false = rw (other, moved) at h in cc
      | inl email ↦ elim (Bool-cases (user.display_name == who.display_name)) [
        | inr renamed ↦ let g : ◌≡◌ {A = Bool} true false = rw (other, email, renamed) at h in cc
        | inl name ↦ rw other (
            ap (λ e. record user { email = e; display_name = who.display_name })
              (sym (equal_texts user.email who.email email))
            ∙ ap (λ n. record user { display_name = n })
                (sym (equal_texts user.display_name who.display_name name)))
      ]
    ]
  ]

  after_changes-stored :
      (fresh u : User) (run : Result Error (Unit {0}) × Database)
      → (after_changes gorm conf who fresh run).0 ≡ granted u
      → (run.0 ≡ ok tt → Memᴰ fresh run.1.users)
      → Memᴰ u (after_changes gorm conf who fresh run).1.users
  after_changes-stored fresh u (ok done, d) h m =
      let same : fresh ≡ u = cc in subst (λ (x : User). Memᴰ x d.users) same (m refl)
  after_changes-stored fresh u (err e, d) h m = absurd cc

  changes-stored :
      (b : Bool) (db : Database) (user : User)
      → needs_update conf who (promote conf who user) ≡ b
      → Memᴰ user db.users
      → (store_changes gorm conf who b (refresh conf who (promote conf who user)) db).0 ≡ ok tt
      → Memᴰ
          (refresh conf who (promote conf who user))
          (store_changes gorm conf who b (refresh conf who (promote conf who user)) db).1.users
  changes-stored true db user needed m h =
      updated-stored db user (refresh conf who (promote conf who user)) (promote-id user) m h
  changes-stored false db user needed m h =
      subst (λ (u : User). Memᴰ u db.users) (sym (unchanged user needed)) m

  gate-stored :
      (db : Database) (b : Bool) (run : Access × Database) {u : User}
      → (if not b then (inactive, db) else run).0 ≡ granted u
      → (run.0 ≡ granted u → Memᴰ u run.1.users)
      → Memᴰ u (if not b then (inactive, db) else run).1.users
  gate-stored db true run h m = m h
  gate-stored db false run h m = absurd cc

  admit-stored :
      (db : Database) (user u : User)
      → Memᴰ user db.users
      → (admit gorm conf who user db).0 ≡ granted u
      → Memᴰ u (admit gorm conf who user db).1.users
  unfolding admit
  admit-stored db user u m h = gate-stored db (promote conf who user).is_active _ h (λ later.
      after_changes-stored (refresh conf who (promote conf who user)) u _ later
        (changes-stored (needs_update conf who (promote conf who user)) db user refl m))

  pub admit_loaded-stored :
      (u : User) (run : Result Error User × Database)
      → ((user : User) → run.0 ≡ ok user → Memᴰ user run.1.users)
      → (admit_loaded gorm conf who run).0 ≡ granted u
      → Memᴰ u (admit_loaded gorm conf who run).1.users
  admit_loaded-stored u (ok user, d) m h = admit-stored d user u (m user refl) h
  admit_loaded-stored u (err e, d) m h = absurd cc
