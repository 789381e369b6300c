-- ===== src/Authz.antt =====
-- Authorization (internal/http/authz/middleware.go): assertions on a user, and their combination.
pub mod Laws
pub mod Users
use oplet.Prelude.{
  String, ◌==◌, ◌&&◌, Bool, true, false, Option, none, some, List, [], ◌∷◌, Result, ok, err,
  if◌then◌else◌,
}
use oplet.Store.Rows.{User}

-- AssertFunc on a context: the user is nil or a user; the error is a text.
abbrev pub AssertFunc : Type 0
AssertFunc = Option User → Result String Bool

abbrev pub is_authenticated : AssertFunc
is_authenticated none = ok false
is_authenticated (some user) = ok true

abbrev pub is_user : String → String → AssertFunc
is_user provider subject none = ok false
is_user provider subject (some user) = ok (user.provider == provider && user.subject == subject)

abbrev pub has : String → AssertFunc
has role none = ok false
has role (some user) = ok (user.role == role)

-- one round of the loop of OneOf, `rest` is what the next rounds answer
abbrev or_else : Result String Bool → Result String Bool → Result String Bool
or_else (err e) rest = err e
or_else (ok true) rest = ok true
or_else (ok false) rest = rest

unfoldable pub one_of : List AssertFunc → AssertFunc
one_of [] user = ok false
one_of (fn ∷ funcs) user = or_else (fn user) (one_of funcs user)

abbrev and_then : Result String Bool → Result String Bool → Result String Bool
and_then (err e) rest = err e
and_then (ok false) rest = ok false
and_then (ok true) rest = rest

unfoldable pub assert : List AssertFunc → AssertFunc
assert [] user = ok true
assert (fn ∷ funcs) user = and_then (fn user) (assert funcs user)

-- What the client gets: an error page's status, or the handler behind the middleware.
pub data Outcome : Type 0 where
  internal_server_error forbidden served : Outcome

abbrev outcome_of : Result String Bool → Outcome
outcome_of (err e) = internal_server_error
outcome_of (ok false) = forbidden
outcome_of (ok true) = served

unfoldable pub middleware : List AssertFunc → Option User → Outcome
unfolding assert
middleware funcs user = outcome_of (assert funcs user)
