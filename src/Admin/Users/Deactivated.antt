-- ===== src/Admin/Users/Deactivated.antt =====
-- A user whom an administrator deactivates (internal/http/handler/webui/admin/user_page.go) is not let
-- through any more (internal/setup/authz_middleware.go).
use oplet.Strconv.{parse_uint}
use oplet.Authz.Users.Granted.{loaded, load-Known, Known, stored, created}
use oplet.Authz.Users.{Identity, Config, granted, promote, refresh, authorize}
use oplet.Admin.Users.{
  UserPage, edit_page, bad_request, error_page, after_change, change_status,
  handle_user_status_update, Option,
}
use mathlib.Core.Path.{subst}
use oplet.Prelude.{
  ℕ, ◌≡◌, refl, sym, ap, ◌∙◌, Bool, true, false, ◌&&◌, List, [], ◌∷◌, map, Memᴰ, Result, ok, err,
  nat_eq, nat_eq_iff, Bool-cases, Option-cases, Result-cases, inl, inr, if◌then◌else◌, All-Memᴰ,
  map-Memᴰ, ◌≢◌, some, none, String, ◌==◌,
}
use oplet.Store.Rows.{User}
use oplet.Store.Orm.{Error, failure, is_live}
use oplet.Store.Session.{Database, Gorm, users_table, with_database}
use oplet.Authz.Users.Accounts.{update_active_status}

-- the row of a user with its new status
abbrev pub set_active : ℕ → Bool → User → User
set_active id on u =
    if is_live users_table u && nat_eq u.id id then record u { is_active = on } else u

module _ (gorm : Gorm) (id : ℕ) (on : Bool) (db : Database) where
  update_active_status-ok :
      (update_active_status gorm id on db).0 ≡ ok tt
      → (update_active_status gorm id on db).1
        ≡ record db { users = map (set_active id on) db.users }
  unfolding update_active_status with_database
  update_active_status-ok h = elim (Option-cases gorm.migrate_err) [
    | inr (m, broken) ↦
        let g : ◌≡◌ {A = Result Error (Unit {0})} (err (failure m)) (ok tt) =
          rw (broken, with_database) at h in
        cc
    | inl fine ↦
        elim (Result-cases
          (gorm.users.update (λ u. nat_eq u.id id) (λ u. record u { is_active = on }) db.users)) [
            | inr (x, broken) ↦
                let g : ◌≡◌ {A = Result Error (Unit {0})} (err x) (ok tt) =
                  rw (fine, with_database, broken) at h in
                cc
            | inl (rows, made) ↦
                rw (fine, with_database, made)
                  (ap (λ (l : List User). record db { users = l })
                    (gorm.users.updated _ _ db.users rows made))
          ]
  ]

set_active-same : (id : ℕ) (on : Bool) (u : User) → (set_active id on u).id ≡ u.id
set_active-same id on u = elim (Bool-cases (is_live users_table u && nat_eq u.id id)) [
  | inl chosen ↦ rw chosen refl
  | inr other ↦ rw other refl
]

-- A live row of that id has the new status.
set_active-status :
    (id : ℕ) (on : Bool) (rows : List User) (u : User)
    → Memᴰ u (map (set_active id on) rows)
    → is_live users_table u ≡ true
    → u.id ≡ id
    → u.is_active ≡ on
set_active-status id on [] u m live named = elim m [ ]
set_active-status id on (x ∷ rows) u (Memᴰ.tail m) live named =
    set_active-status id on rows u m live named
set_active-status id on (x ∷ rows) u (Memᴰ.head same) live named =
    elim (Bool-cases (is_live users_table x && nat_eq x.id id)) [
      | inl chosen ↦ ap (λ (y : User). y.is_active) same ∙ rw chosen refl
      | inr other ↦
          let e : u ≡ x = same ∙ rw other refl in
          let g : ◌≡◌ {A = Bool} true false =
            sym (rw (live, (nat_eq_iff u.id id).1 named) refl)
            ∙ ap (λ (y : User). is_live users_table y && nat_eq y.id id) e
            ∙ other in
          cc
    ]

module _ (gorm : Gorm) (is_active : String) (id : ℕ) (db after : Database) where
  after_change-edited :
      (n : ℕ) (run : Result Error (Unit {0}) × Database)
      → after_change gorm n run ≡ (edit_page id, after)
      → (n ≡ id) × (run.0 ≡ ok tt) × (run.1 ≡ after)
  after_change-edited n (err e, d) h =
      let g : ◌≡◌ {A = UserPage} error_page (edit_page id) =
        ap (λ (o : UserPage × Database). o.0) h in
      cc
  after_change-edited n (ok done, d) h =
      let g : ◌≡◌ {A = UserPage} (edit_page n) (edit_page id) =
        ap (λ (o : UserPage × Database). o.0) h in
      let moved : d ≡ after = ap (λ (o : UserPage × Database). o.1) h in (cc, refl, moved)

  change_status-edited :
      (o : Option ℕ) (parse_form : Option String)
      → change_status gorm o parse_form is_active db ≡ (edit_page id, after)
      → after ≡ record db { users = map (set_active id (is_active == "true")) db.users }
  change_status-edited none parse_form h =
      let g : ◌≡◌ {A = UserPage} bad_request (edit_page id) =
        ap (λ (o : UserPage × Database). o.0) h in
      cc
  change_status-edited (some n) (some e) h =
      let g : ◌≡◌ {A = UserPage} bad_request (edit_page id) =
        ap (λ (o : UserPage × Database). o.0) h in
      cc
  change_status-edited (some n) none h =
      let on = is_active == "true" in
      let (same, done, moved) = after_change-edited n (update_active_status gorm n on db) h in
      sym moved
      ∙ update_active_status-ok gorm n on db done
      ∙ ap (λ (k : ℕ). record db { users = map (set_active k on) db.users }) same

promote_other :
    (conf : Config) (who : Identity) (user : User)
    → (who.email == conf.default_admin_email) ≡ false
    → promote conf who user ≡ user
promote_other conf who user h = rw h refl

-- A user who is known after the change and is active is not the user that was deactivated.
Known-other :
    (id : ℕ) (db : Database) (s u : User)
    → Memᴰ s db.users
    → s.id ≡ id
    → Known (record db { users = map (set_active id false) db.users }) u
    → u.is_active ≡ true
    → u.id ≢ id
Known-other id db s u present named (stored m live) on e =
    let g : ◌≡◌ {A = Bool} true false = sym on ∙ set_active-status id false db.users u m live e in
    cc
Known-other id db s u present named (created fresh) on e =
    All-Memᴰ (λ (x : User). x.id ≢ u.id) (map (set_active id false) db.users) fresh
      (map-Memᴰ (set_active id false) db.users present) (set_active-same id false s ∙ named ∙ sym e)

-- If the status of a stored user is set to anything but "true", and the redirection is answered, then
-- the middleware lets nobody through as this user, the default administrator's e-mail excepted.
pub handle_user_status_update_bars :
    (gorm : Gorm) (conf : Config) (who : Identity) (user_id is_active : String)
    (parse_form : Option String) (id : ℕ) (db after : Database) (s u : User)
    → Memᴰ s db.users
    → s.id ≡ id
    → (is_active == "true") ≡ false
    → handle_user_status_update gorm user_id parse_form is_active db ≡ (edit_page id, after)
    → (who.email == conf.default_admin_email) ≡ false
    → (authorize gorm conf (some who) after).0 ≡ granted u
    → u.id ≢ id
unfolding handle_user_status_update
handle_user_status_update_bars gorm conf who user_id is_active parse_form id db after s u present
      named off h other passed =
    let moved =
      change_status-edited gorm is_active id db after (parse_uint 32 user_id) parse_form h in
    let barred : after ≡ record db { users = map (set_active id false) db.users } =
      moved ∙ ap (λ (b : Bool). record db { users = map (set_active id b) db.users }) off in
    let (user, found, on, same) = loaded gorm conf who after u passed in
    let plain = promote_other conf who user other in
    let is_user : u.id ≡ user.id = ap (λ (x : User). x.id) (same ∙ ap (refresh conf who) plain) in
    let known =
      subst (λ (d : Database). Known d user) barred (load-Known gorm conf who after user found) in
    let on' : user.is_active ≡ true = ap (λ (x : User). x.is_active) (sym plain) ∙ on in
    λ e. Known-other id db s user present named known on' (sym is_user ∙ e)
