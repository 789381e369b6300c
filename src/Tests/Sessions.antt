-- ===== src/Tests/Sessions.antt =====
-- A user who logs in after a session that could not be stored.
use oplet.Prelude.{refl, some, none, List, [], ◌∷◌, ok, err, false}
use oplet.Authz.Users.{Identity}
use oplet.Authn.{
  GothUser, SessionStore, get_user_display_name, handle_provider_callback, handle_logout,
  store_session_user, retrieve_session_user, clear_session, middleware,
}
use oplet.Authn.Complete.{Visit, callback, logout, IsComplete, middleware-IsComplete}

abbrev working : SessionStore
working = record { get_err = none; missing = false; save_err = none }

abbrev full : SessionStore
full = record { get_err = none; missing = false; save_err = some "full" }

abbrev login : GothUser
login = record {
  email = "ada@example.org";
  provider = "oidc";
  nick_name = "";
  name = "";
  first_name = "";
  last_name = "";
  user_id = "7";
  raw_data = ("sub", some "s7") ∷ [];
}

abbrev requests : List Visit
requests =
    callback full (ok login)
    ∷ callback working (err "denied")
    ∷ logout working
    ∷ callback working (ok login)
    ∷ []

-- the display name is a space
abbrev ada : Identity
ada = record { provider = "oidc"; subject = "s7"; email = "ada@example.org"; display_name = " " }

middleware-IsComplete_example : IsComplete ada
unfolding handle_provider_callback handle_logout store_session_user retrieve_session_user
    clear_session middleware get_user_display_name
middleware-IsComplete_example = middleware-IsComplete requests working {who = ada} refl
