-- ===== src/Authz/Users/Granted.antt =====
-- Whom the middleware lets through, and as which user.
use oplet.Store.Session.Laws.{with_database-query, first-where}
use mathlib.Core.Path.{subst}
use oplet.Prelude.{
  ◌==◌, ◌≡◌, refl, sym, ap, ◌∙◌, ◌&&◌, Bool, true, false, not, some, Result, ok, err, Bool-cases,
  Option-cases, Result-cases, Memᴰ-filter, &&-eq-true, equal_texts, if◌then◌else◌, inl, inr, eq_iff,
  ℕ, All, Memᴰ, ◌≢◌,
}
use oplet.Store.Rows.{User}
use oplet.Store.Orm.{Error, failure, record_not_found, where_, is_live}
use oplet.Store.Session.{Database, Gorm, users_table, with_database}
use oplet.Authz.Users.{
  Identity, Config, Access, granted, inactive, role_admin, new_user, promote, refresh,
  get_by_subject, create, load, after_changes, admit, admit_loaded, authorize,
}
use oplet.Authz.Users.Kept.{get_by_subject-state, load-stored, admit_loaded-stored}

-- the user is the one of the identity
abbrev IsOf : Identity → User → Type 0
IsOf who u = (u.provider ≡ who.provider) × (u.subject ≡ who.subject)

module _ (gorm : Gorm) (conf : Config) (who : Identity) (db : Database) where
  after_changes-granted :
      (fresh u : User) (run : Result Error (Unit {0}) × Database)
      → (after_changes gorm conf who fresh run).0 ≡ granted u
      → u ≡ fresh
  after_changes-granted fresh u (ok done, d) h = cc
  after_changes-granted fresh u (err e, d) h = cc

  gate-granted :
      (b : Bool) (run : Access × Database) {u : User}
      → (if not b then (inactive, db) else run).0 ≡ granted u
      → (b ≡ true) × (run.0 ≡ granted u)
  gate-granted true run h = (refl, h)
  gate-granted false run h = cc

  admit-granted :
      (user u : User)
      → (admit gorm conf who user db).0 ≡ granted u
      → ((promote conf who user).is_active ≡ true) × (u ≡ refresh conf who (promote conf who user))
  unfolding admit
  admit-granted user u h =
      let (on, later) = gate-granted (promote conf who user).is_active _ h in
      (on, after_changes-granted _ u _ later)

  found-IsOf :
      (user : User) → (get_by_subject gorm who.provider who.subject db).0 ≡ ok user → IsOf who user
  unfolding get_by_subject with_database
  found-IsOf user h =
      let p : User → Bool = λ u. u.provider == who.provider && u.subject == who.subject in
      elim (Option-cases gorm.migrate_err) [
        | inr (m, no_tables) ↦
            let g : ◌≡◌ {A = Result Error User} (err (failure m)) (ok user) =
              rw (no_tables, with_database) at h in
            cc
        | inl fine ↦
            let first : gorm.users.first (where_ p) db.users ≡ ok user =
              rw (fine, with_database) at h in
            let (leads, least) = gorm.users.first_leads (where_ p) db.users user first in
            let (present, chosen) = Memᴰ-filter _ db.users leads in
            let (live, meets) = &&-eq-true (is_live users_table user) _ chosen in
            let (met, rest) = &&-eq-true (p user) true meets in
            let (same_provider, same_subject) =
              &&-eq-true (user.provider == who.provider) (user.subject == who.subject) met in
            (
              equal_texts user.provider who.provider same_provider,
              equal_texts user.subject who.subject same_subject,
            )
      ]

  created-IsOf :
      (d : Database) (user : User) → (create gorm (new_user conf who) d).0 ≡ ok user → IsOf who user
  unfolding create with_database
  created-IsOf d user h = elim (Option-cases gorm.migrate_err) [
    | inr (m, no_tables) ↦
        let g : ◌≡◌ {A = Result Error User} (err (failure m)) (ok user) =
          rw (no_tables, with_database) at h in
        cc
    | inl fine ↦ elim (Result-cases (gorm.users.create (new_user conf who) d.users)) [
      | inr (x, refused) ↦
          let g : ◌≡◌ {A = Result Error User} (err x) (ok user) =
            rw (fine, with_database, refused) at h in
          cc
      | inl ((r, rows), made) ↦
          let same : ◌≡◌ {A = Result Error User} (ok r) (ok user) =
            rw (fine, with_database, made) at h in
          let user_is : r ≡ user = cc in
          let (m, model, live, fresh, free, grown) =
            gorm.users.created (new_user conf who) r d.users rows made in
          (
            ap (λ (x : User). x.provider) (sym user_is ∙ model),
            ap (λ (x : User). x.subject) (sym user_is ∙ model),
          )
    ]
  ]

  load-IsOf : (user : User) → (load gorm conf who db).0 ≡ ok user → IsOf who user
  unfolding load
  load-IsOf user h = elim (Result-cases (get_by_subject gorm who.provider who.subject db).0) [
    | inl (found, was) ↦
        let same : ◌≡◌ {A = Result Error User} (ok found) (ok user) = rw was at h in
        found-IsOf user (was ∙ same)
    | inr (record_not_found, missing) ↦ created-IsOf _ user (rw missing at h)
    | inr (failure e, failed) ↦
        let g : ◌≡◌ {A = Result Error User} (err (failure e)) (ok user) = rw failed at h in cc
  ]

-- The user that is loaded: a live row of the table, or a new row with an id that no row has.
pub data Known (db : Database) (u : User) : Type 0 where
  stored : Memᴰ u db.users → is_live users_table u ≡ true → Known db u
  created : All (λ (s : User). s.id ≢ u.id) db.users → Known db u

module _ (gorm : Gorm) (conf : Config) (who : Identity) (db : Database) where
  found-Known :
      (user : User) → (get_by_subject gorm who.provider who.subject db).0 ≡ ok user → Known db user
  unfolding get_by_subject
  found-Known user h =
      let p : User → Bool = λ u. u.provider == who.provider && u.subject == who.subject in
      let first = with_database-query gorm (λ d. gorm.users.first (where_ p) d.users) db h in
      let (present, live, met) = first-where gorm.users p db.users first in stored present live

  created-Known : (user : User) → (create gorm (new_user conf who) db).0 ≡ ok user → Known db user
  unfolding create with_database
  created-Known user h = elim (Option-cases gorm.migrate_err) [
    | inr (m, no_tables) ↦
        let g : ◌≡◌ {A = Result Error User} (err (failure m)) (ok user) =
          rw (no_tables, with_database) at h in
        cc
    | inl fine ↦ elim (Result-cases (gorm.users.create (new_user conf who) db.users)) [
      | inr (x, refused) ↦
          let g : ◌≡◌ {A = Result Error User} (err x) (ok user) =
            rw (fine, with_database, refused) at h in
          cc
      | inl ((r, rows), made) ↦
          let same : ◌≡◌ {A = Result Error User} (ok r) (ok user) =
            rw (fine, with_database, made) at h in
          let user_is : r ≡ user = cc in
          let (m, model, live, fresh, free, grown) =
            gorm.users.created (new_user conf who) r db.users rows made in
          let named : m.id ≡ user.id = ap (λ (x : User). x.id) (sym model ∙ user_is) in
          created (subst (λ (n : ℕ). All (λ (s : User). s.id ≢ n) db.users) named fresh)
    ]
  ]

  pub load-Known : (user : User) → (load gorm conf who db).0 ≡ ok user → Known db user
  unfolding load
  load-Known user h = elim (Result-cases (get_by_subject gorm who.provider who.subject db).0) [
    | inl (found, was) ↦
        let same : ◌≡◌ {A = Result Error User} (ok found) (ok user) = rw was at h in
        found-Known user (was ∙ same)
    | inr (record_not_found, missing) ↦ created-Known user (rw (missing, get_by_subject-state) at h)
    | inr (failure e, failed) ↦
        let g : ◌≡◌ {A = Result Error User} (err (failure e)) (ok user) = rw failed at h in cc
  ]

-- A user whom the middleware lets through, and the database after it.
pub record IsGranted (who : Identity) (u : User) (after : Database) : Type 0 where
  pub stored : Memᴰ u after.users
  pub active : u.is_active ≡ true
  pub provider : u.provider ≡ who.provider
  pub subject : u.subject ≡ who.subject
  pub email : u.email ≡ who.email
  pub display_name : u.display_name ≡ who.display_name

module _ (conf : Config) (who : Identity) (user : User) where
  promoted-IsOf : IsOf who user → IsOf who (promote conf who user)
  promoted-IsOf h = elim (Bool-cases (who.email == conf.default_admin_email)) [
    | inl admin ↦ rw admin h
    | inr other ↦ rw other h
  ]

  promoted-admin :
      (who.email == conf.default_admin_email) ≡ true → (promote conf who user).role ≡ role_admin
  promoted-admin admin = rw admin

admit_loaded-granted :
    (gorm : Gorm) (conf : Config) (who : Identity) (u : User) (run : Result Error User × Database)
    → (admit_loaded gorm conf who run).0 ≡ granted u
    → (user : User) × (run.0 ≡ ok user) × ((admit gorm conf who user run.1).0 ≡ granted u)
admit_loaded-granted gorm conf who u (ok user, d) h = (user, refl, h)
admit_loaded-granted gorm conf who u (err e, d) h = cc

module _ (gorm : Gorm) (conf : Config) (who : Identity) (db : Database) (u : User)
    (h : (authorize gorm conf (some who) db).0 ≡ granted u) where
  pub loaded :
      (user : User) × ((load gorm conf who db).0 ≡ ok user)
      × ((promote conf who user).is_active ≡ true)
      × (u ≡ refresh conf who (promote conf who user))
  unfolding authorize
  loaded =
      let (user, found, later) = admit_loaded-granted gorm conf who u _ h in
      let (on, same) = admit-granted gorm conf who _ user u later in (user, found, on, same)

  -- A user whom the middleware lets through is active, has the identity's provider, subject, e-mail
  -- and display name, and is a row of the users afterwards.
  pub authorize-IsGranted : IsGranted who u (authorize gorm conf (some who) db).1
  unfolding authorize
  authorize-IsGranted =
      let (user, found, on, same) = loaded in
      let (provider, subject) =
        promoted-IsOf conf who user (load-IsOf gorm conf who db user found) in
      rw same record {
        stored =
            subst (λ (x : User). Memᴰ x (authorize gorm conf (some who) db).1.users) same
              (admit_loaded-stored gorm conf who u (load gorm conf who db)
                (load-stored gorm conf who db) h);
        active = on;
        provider = provider;
        subject = subject;
        email = refl;
        display_name = refl;
      }

  -- If the identity's e-mail is the default administrator's, both being empty included, then a
  -- user whom the middleware lets through has the administrator's role.
  pub authorize_admin : who.email ≡ conf.default_admin_email → u.role ≡ role_admin
  authorize_admin mail =
      let (user, found, on, same) = loaded in
      ap (λ (x : User). x.role) same
      ∙ promoted-admin conf who user ((eq_iff who.email conf.default_admin_email).1 mail)
