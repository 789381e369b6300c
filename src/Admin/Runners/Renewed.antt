-- ===== src/Admin/Runners/Renewed.antt =====
-- The renewal of a runner's token (internal/http/handler/webui/admin/runner_page.go) against the runner
-- API (internal/http/handler/runner/handler.go).
use mathlib.Core.Path.{subst}
use oplet.Prelude.{
  ℕ, String, ◌≡◌, refl, sym, ap, ◌∙◌, ◌==◌, Bool, true, false, ◌&&◌, some, List, [], ◌∷◌, map, Memᴰ,
  Result, ok, err, nat_eq, nat_eq_iff, Bool-cases, inl, inr, if◌then◌else◌, Result-cases,
}
use oplet.Strconv.{parse_uint}
use oplet.Crypto.{Random, random_token}
use oplet.Store.Rows.{Time, Runner}
use oplet.Store.Orm.{Error, is_live}
use oplet.Store.Session.{
  Database, Gorm, runners_table, ◌>>=◌, ◌>>◌, pure, lift, write_runners, Exec,
}
use oplet.Store.Session.Laws.{with_tx-ok, >>=-ok}
use oplet.Execution.{token_size}
use oplet.Api.{Request, proceed}
use oplet.Api.Auth.{bearer, assert_runner, regenerate_token}
use oplet.Api.Auth.Admitted.{assert_runner-IsAdmitted}
use oplet.Admin.Runners.{
  RunnerPage, renewed, after_renewal, handle_runner_token_regeneration, error_page, bad_request,
}

-- the row of a runner with its new token
abbrev pub renew : ℕ → String → Runner → Runner
renew id token r =
    if is_live runners_table r && nat_eq r.id id then record r { token = token } else r

module _ (gorm : Gorm) (random : Random) (id : ℕ) (db : Database) where
  abbrev store_token : String → Exec String
  store_token token =
      write_runners (gorm.runners.update (λ r. nat_eq r.id id) (λ r. record r { token = token }))
      >> pure token

  store_token-ok :
      (new : String) {token : String}
      → (store_token new db).0 ≡ ok token
      → (new ≡ token)
        × ((store_token new db).1 ≡ record db { runners = map (renew id token) db.runners })
  store_token-ok new {token} h =
      elim (Result-cases
        (gorm.runners.update (λ r. nat_eq r.id id) (λ r. record r { token = new }) db.runners)) [
          | inr (e, broken) ↦
              let g : ◌≡◌ {A = Result Error String} (err e) (ok token) = rw broken at h in cc
          | inl (rows, written) ↦
              let g : ◌≡◌ {A = Result Error String} (ok new) (ok token) = rw written at h in
              let same : new ≡ token = cc in
              let changed = gorm.runners.updated _ _ db.runners rows written in
              (
                same,
                rw written (
                    ap (λ (l : List Runner). record db { runners = l })
                      (changed ∙ ap (λ (t : String). map (renew id t) db.runners) same)),
              )
        ]

  regenerate_token-ok :
      {token : String} {after : Database}
      → regenerate_token gorm random id db ≡ (ok token, after)
      → after ≡ record db { runners = map (renew id token) db.runners }
  unfolding regenerate_token
  regenerate_token-ok {token} {after} h =
      let draw : Exec String = lift (random_token random token_size) in
      let (done, moved) = with_tx-ok gorm (draw >>= store_token) db h in
      let (new, drawn, whole) = >>=-ok draw store_token db done in
      let answer : (store_token new db).0 ≡ ok token =
        ap (λ (o : Result Error String × Database). o.0) (sym whole) ∙ done in
      sym moved
      ∙ ap (λ (o : Result Error String × Database). o.1) whole
      ∙ (store_token-ok new answer).1

-- A live row of that id has the new token.
renew-token :
    (id : ℕ) (token : String) (rows : List Runner) (r : Runner)
    → Memᴰ r (map (renew id token) rows)
    → is_live runners_table r ≡ true
    → r.id ≡ id
    → r.token ≡ token
renew-token id token [] r m live named = elim m [ ]
renew-token id token (x ∷ rows) r (Memᴰ.tail m) live named =
    renew-token id token rows r m live named
renew-token id token (x ∷ rows) r (Memᴰ.head same) live named =
    elim (Bool-cases (is_live runners_table x && nat_eq x.id id)) [
      | inl chosen ↦ ap (λ (y : Runner). y.token) same ∙ rw chosen refl
      | inr other ↦
          let e : r ≡ x = same ∙ rw other refl in
          let g : ◌≡◌ {A = Bool} true false =
            sym (rw (live, (nat_eq_iff r.id id).1 named) refl)
            ∙ ap (λ (y : Runner). is_live runners_table y && nat_eq y.id id) e
            ∙ other in
          cc
    ]

after_renewal-renewed :
    (gorm : Gorm) (o : Result Error String × Database) (token : String) (after : Database)
    → after_renewal gorm o ≡ (renewed token, after)
    → o ≡ (ok token, after)
after_renewal-renewed gorm (err e, db) token after h =
    let g : ◌≡◌ {A = RunnerPage} error_page (renewed token) =
      ap (λ (o : RunnerPage × Database). o.0) h in
    cc
after_renewal-renewed gorm (ok new, db) token after h =
    let g : ◌≡◌ {A = RunnerPage} (renewed new) (renewed token) =
      ap (λ (o : RunnerPage × Database). o.0) h in
    let moved : db ≡ after = ap (λ (o : RunnerPage × Database). o.1) h in cc

-- If the renewal of a runner's token answers a token, then on the tables that it leaves every request of that runner
-- that reaches a handler of the runner API carries this token.
pub handle_runner_token_regeneration_only :
    {Body : Type 0} (gorm : Gorm) (random : Random) (raw_runner_id : String) (id : ℕ)
    (token : String) (db after db' : Database) (now : Time) (request : Request Body)
    (runner : Runner)
    → parse_uint 32 raw_runner_id ≡ some id
    → handle_runner_token_regeneration gorm random raw_runner_id db ≡ (renewed token, after)
    → assert_runner gorm now request after ≡ (proceed runner, db')
    → runner.id ≡ id
    → bearer request.authorization ≡ token
unfolding handle_runner_token_regeneration
handle_runner_token_regeneration_only gorm random raw id token db after db' now request runner
      parsed h admitted named =
    elim (Bool-cases (raw == "")) [
      | inl blank ↦
          let g : ◌≡◌ {A = RunnerPage} bad_request (renewed token) =
            ap (λ (o : RunnerPage × Database). o.0) (rw blank at h) in
          cc
      | inr given ↦
          let run =
            after_renewal-renewed gorm (regenerate_token gorm random id db) token after
              (rw (given, parsed) at h) in
          let stored = regenerate_token-ok gorm random id db run in
          let passed = assert_runner-IsAdmitted gorm now request after db' runner admitted in
          sym passed.token
          ∙ renew-token id token db.runners runner
              (subst (λ (d : Database). Memᴰ runner d.runners) stored passed.present) passed.live
              named
    ]
