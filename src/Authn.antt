-- ===== src/Authn.antt =====
-- Authentication (internal/http/handler/authn): the callback of a provider, the logout, the session and
-- the middleware. goth and gorilla/sessions are not part of the repository: what they answer is an
-- argument. A session is the user that its cookie holds; the access token is left out.
pub mod Complete
use Prim.Native.String
use oplet.Prelude.{
  String, ◌==◌, Bool, true, false, Option, none, some, List, Result, ok, err, if◌then◌else◌,
}
use oplet.Authz.Users.{Identity}
use oplet.Forms.{lookup}

-- goth.User; a raw value is `none` if it is not a text
pub record GothUser : Type 0 where
  pub email : String
  pub provider : String
  pub nick_name : String
  pub name : String
  pub first_name : String
  pub last_name : String
  pub user_id : String
  pub raw_data : List (String × Option String)

-- Where the browser is sent.
pub data Page : Type 0 where
  to_root to_login to_logout internal_error : Page
  to_provider_logout : String → Page

-- What the session store answers: the error of Get and whether there is no session with it, and the
-- error of Save.
pub record SessionStore : Type 0 where
  pub get_err : Option String
  pub missing : Bool
  pub save_err : Option String

abbrev pub Session : Type 0
Session = Option Identity

abbrev raw_text : Option (Option String) → String
raw_text none = ""
raw_text (some none) = ""
raw_text (some (some s)) = s

abbrev unless_empty : String → String → String
unless_empty s other = if s == "" then other else s

unfoldable pub get_user_display_name : GothUser → String
get_user_display_name user =
    unless_empty
      (unless_empty
        (unless_empty
          (unless_empty (raw_text (lookup "preferred_username" user.raw_data)) user.nick_name)
          user.name)
        (String.◌++◌ (String.◌++◌ user.first_name " ") user.last_name))
      user.user_id

abbrev save : SessionStore → Identity → Session → Bool × Session
save store user session = elim store.save_err [
  | none ↦ (true, some user)
  | some e ↦ (false, session)
]

-- `false` for an error
unfoldable pub store_session_user : SessionStore → Identity → Session → Bool × Session
store_session_user store user session = elim store.get_err [
  | none ↦ save store user session
  | some e ↦ (false, session)
]

-- `none` for errSessionNotFound, the only error
unfoldable pub retrieve_session_user : SessionStore → Session → Option Identity
retrieve_session_user store session = elim store.get_err [ none ↦ session | some e ↦ none ]

abbrev expire : SessionStore → Session → Bool × Session
expire store session = elim store.save_err [ none ↦ (true, none) | some e ↦ (false, session) ]

unfoldable pub clear_session : SessionStore → Session → Bool × Session
clear_session store session = elim store.get_err [
  | none ↦ expire store session
  | some e ↦ if store.missing then (true, session) else expire store session
]

abbrev pub identity : GothUser → Identity
identity user = record {
  provider = user.provider;
  subject = unless_empty (raw_text (lookup "sub" user.raw_data)) user.user_id;
  email = user.email;
  display_name = get_user_display_name user;
}

abbrev pub after_store : Bool × Session → Page × Session
after_store (stored, session) = (if stored then to_root else to_logout, session)

abbrev pub check_user : SessionStore → Identity → Session → Page × Session
check_user store user session =
    if user.subject == ""
    then (to_logout, session)
    else if user.email == ""
    then (to_logout, session)
    else if user.provider == ""
    then (to_logout, session)
    else after_store (store_session_user store user session)

-- `complete` is what CompleteUserAuth answers.
unfoldable pub handle_provider_callback :
    SessionStore → Result String GothUser → Session → Page × Session
handle_provider_callback store (err e) session = (to_logout, session)
handle_provider_callback store (ok user) session = check_user store (identity user) session

abbrev leave : Option Identity → Page
leave none = to_root
leave (some user) = to_provider_logout user.provider

abbrev pub after_clear : Option Identity → Bool × Session → Page × Session
after_clear user (true, session) = (leave user, session)
after_clear user (false, session) = (internal_error, session)

unfoldable pub handle_logout : SessionStore → Session → Page × Session
unfolding clear_session retrieve_session_user
handle_logout store session =
    after_clear (retrieve_session_user store session) (clear_session store session)

-- `ok` is the page behind the middleware, with this user in its context.
unfoldable pub middleware : SessionStore → Session → Result Page Identity
unfolding retrieve_session_user
middleware store session = elim (retrieve_session_user store session) [
  | none ↦ err to_login
  | some user ↦ ok user
]
