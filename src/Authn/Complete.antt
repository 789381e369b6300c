-- ===== src/Authn/Complete.antt =====
-- The users that sessions hold (internal/http/handler/authn), and what the middleware of
-- internal/setup/authz_middleware.go makes of them.
use mathlib.Core.Path.{subst}
use oplet.Prelude.{
  String, ◌==◌, ◌≡◌, ◌≢◌, refl, sym, Bool, true, false, Option, none, some, List, [], ◌∷◌, Result,
  ok, err, Bool-cases, Option-cases, inl, inr, distinct_texts,
}
use oplet.Authz.Users.{Identity}
use oplet.Authn.{
  GothUser, Page, SessionStore, Session, store_session_user, retrieve_session_user, clear_session,
  check_user, after_store, after_clear, handle_provider_callback, handle_logout, middleware,
  identity, to_login,
}

pub record IsComplete (user : Identity) : Type 0 where
  pub subject : user.subject ≢ ""
  pub email : user.email ≢ ""
  pub provider : user.provider ≢ ""

-- the user of the session, if there is one, is complete
abbrev pub Holds : Session → Type 0
Holds none = Unit
Holds (some user) = IsComplete user

-- A request that writes the session, and what the libraries answer to it.
pub data Visit : Type 0 where
  callback : SessionStore → Result String GothUser → Visit
  logout : SessionStore → Visit

abbrev pub visit : Visit → Session → Session
visit (callback store complete) session = (handle_provider_callback store complete session).1
visit (logout store) session = (handle_logout store session).1

abbrev pub visits : List Visit → Session → Session
visits [] session = session
visits (v ∷ later) session = visits later (visit v session)

module _ (store : SessionStore) (session : Session) (h : Holds session) where
  store-Holds :
      (user : Identity) → IsComplete user → Holds (store_session_user store user session).1
  unfolding store_session_user
  store-Holds user complete = elim (Option-cases store.get_err) [
    | inr (e, broken) ↦ rw broken h
    | inl fine ↦ elim (Option-cases store.save_err) [
      | inl saved ↦ rw (fine, saved) complete
      | inr (e, unsaved) ↦ rw (fine, unsaved) h
    ]
  ]

  after_store-session : (o : Bool × Session) → (after_store o).1 ≡ o.1
  after_store-session o = refl

  check_user-Holds : (user : Identity) → Holds (check_user store user session).1
  check_user-Holds user = elim (Bool-cases (user.subject == "")) [
    | inl none_given ↦ rw none_given h
    | inr subject ↦ elim (Bool-cases (user.email == "")) [
      | inl none_given ↦ rw (subject, none_given) h
      | inr email ↦ elim (Bool-cases (user.provider == "")) [
        | inl none_given ↦ rw (subject, email, none_given) h
        | inr provider ↦
            rw (subject, email, provider)
              (store-Holds user record {
                subject = distinct_texts user.subject "" subject;
                email = distinct_texts user.email "" email;
                provider = distinct_texts user.provider "" provider;
              })
      ]
    ]
  ]

  callback-Holds :
      (complete : Result String GothUser)
      → Holds (handle_provider_callback store complete session).1
  unfolding handle_provider_callback
  callback-Holds (err e) = h
  callback-Holds (ok user) = check_user-Holds (identity user)

  clear-Holds : Holds (clear_session store session).1
  unfolding clear_session
  clear-Holds = elim (Option-cases store.save_err) [
    | inl saved ↦ elim (Option-cases store.get_err) [
      | inl fine ↦ rw (fine, saved) tt
      | inr (e, broken) ↦ elim (Bool-cases store.missing) [
        | inl gone ↦ rw (broken, gone) h
        | inr there ↦ rw (broken, there, saved) tt
      ]
    ]
    | inr (m, unsaved) ↦ elim (Option-cases store.get_err) [
      | inl fine ↦ rw (fine, unsaved) h
      | inr (e, broken) ↦ elim (Bool-cases store.missing) [
        | inl gone ↦ rw (broken, gone) h
        | inr there ↦ rw (broken, there, unsaved) h
      ]
    ]
  ]

  after_clear-session : (user : Option Identity) (o : Bool × Session) → (after_clear user o).1 ≡ o.1
  after_clear-session user (true, s) = refl
  after_clear-session user (false, s) = refl

  logout-Holds : Holds (handle_logout store session).1
  unfolding handle_logout
  logout-Holds =
      subst Holds
        (sym
          (after_clear-session (retrieve_session_user store session) (clear_session store session)))
        clear-Holds

visit-Holds : (v : Visit) (session : Session) → Holds session → Holds (visit v session)
visit-Holds (callback store complete) session h = callback-Holds store session h complete
visit-Holds (logout store) session h = logout-Holds store session h

visits-Holds : (vs : List Visit) (session : Session) → Holds session → Holds (visits vs session)
visits-Holds [] session h = h
visits-Holds (v ∷ vs) session h = visits-Holds vs (visit v session) (visit-Holds v session h)

middleware-session :
    (store : SessionStore) (session : Session) {who : Identity}
    → middleware store session ≡ ok who
    → session ≡ some who
unfolding middleware retrieve_session_user
middleware-session store none {who} h = elim (Option-cases store.get_err) [
  | inl fine ↦
      absurd (let g : ◌≡◌ {A = Result Page Identity} (err to_login) (ok who) = rw fine at h in cc)
  | inr (e, broken) ↦
      absurd (let g : ◌≡◌ {A = Result Page Identity} (err to_login) (ok who) = rw broken at h in cc)
]
middleware-session store (some user) {who} h = elim (Option-cases store.get_err) [
  | inl fine ↦ (let g : ◌≡◌ {A = Result Page Identity} (ok user) (ok who) = rw fine at h in cc)
  | inr (e, broken) ↦
      absurd (let g : ◌≡◌ {A = Result Page Identity} (err to_login) (ok who) = rw broken at h in cc)
]

-- From an empty session, whatever callbacks and logouts came before and whatever the libraries answered
-- to them: a user whom the middleware lets through has a subject, an e-mail and a provider.
pub middleware-IsComplete :
    (vs : List Visit) (store : SessionStore) {who : Identity}
    → middleware store (visits vs none) ≡ ok who
    → IsComplete who
middleware-IsComplete vs store h =
    subst Holds (middleware-session store (visits vs none) h) (visits-Holds vs none tt)
