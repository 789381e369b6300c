-- ===== src/Authz/Laws.antt =====
-- Which users the combined assertions let through.
use oplet.Prelude.{
  ◌⊎◌, inl, inr, ap, String, ◌≡◌, refl, ◌↔◌, Bool, true, false, Option, List, [], ◌∷◌, ◌++◌, All,
  Result, ok, err, ◌⊎◌, inl, inr,
}
use oplet.Store.Rows.{User}
use oplet.Authz.{AssertFunc, one_of, or_else, assert, and_then, middleware, outcome_of, served}

and_then-ok : (a b : Result String Bool) → and_then a b ≡ ok true → (a ≡ ok true) × (b ≡ ok true)
and_then-ok (err e) b h = cc
and_then-ok (ok false) b h = cc
and_then-ok (ok true) b h = (refl, h)

assert_iff :
    (funcs : List AssertFunc) (user : Option User)
    → (assert funcs user ≡ ok true) ↔ All (λ fn. fn user ≡ ok true) funcs
unfolding assert
assert_iff [] user = (λ h. tt, λ h. refl)
assert_iff (fn ∷ funcs) user =
    let (to, from) = assert_iff funcs user in
    (
      λ h. let (here, later) = and_then-ok (fn user) (assert funcs user) h in (here, to later),
      λ h. rw (h.0, from h.1),
    )

served-ok : (r : Result String Bool) → (outcome_of r ≡ served) ↔ (r ≡ ok true)
served-ok (err e) = (λ h. cc, λ h. cc)
served-ok (ok false) = (λ h. cc, λ h. cc)
served-ok (ok true) = (λ h. refl, λ h. refl)

-- The middleware serves the handler exactly if every assertion holds without an error.
pub middleware_iff :
    (funcs : List AssertFunc) (user : Option User)
    → (middleware funcs user ≡ served) ↔ All (λ fn. fn user ≡ ok true) funcs
unfolding middleware
middleware_iff funcs user =
    let (to, from) = served-ok (assert funcs user) in
    let (every, back) = assert_iff funcs user in (λ h. every (to h), λ h. from (back h))

or_else-ok :
    (a b : Result String Bool)
    → or_else a b ≡ ok true
    → (a ≡ ok true) ⊎ ((a ≡ ok false) × (b ≡ ok true))
or_else-ok (err e) b h = cc
or_else-ok (ok true) b h = inl refl
or_else-ok (ok false) b h = inr (refl, h)

-- An assertion that holds, after assertions that are refused without an error.
pub record FirstHolds (funcs : List AssertFunc) (user : Option User) : Type 0 where
  pub before : List AssertFunc
  pub fn : AssertFunc
  pub after : List AssertFunc
  pub split : funcs ≡ before ++ fn ∷ after
  pub refused : All (λ f. f user ≡ ok false) before
  pub holds : fn user ≡ ok true

one_of-FirstHolds :
    (funcs : List AssertFunc) (user : Option User)
    → one_of funcs user ≡ ok true
    → FirstHolds funcs user
unfolding one_of
one_of-FirstHolds [] user h = cc
one_of-FirstHolds (fn ∷ funcs) user h = elim (or_else-ok (fn user) (one_of funcs user) h) [
  | inl here ↦ record {
    before = [];
    fn = fn;
    after = funcs;
    split = refl;
    refused = tt;
    holds = here;
  }
  | inr (refusal, later) ↦
      let next = one_of-FirstHolds funcs user later in
      record {
        before = fn ∷ next.before;
        fn = next.fn;
        after = next.after;
        split = ap (λ fs. fn ∷ fs) next.split;
        refused = (refusal, next.refused);
        holds = next.holds;
      }
]

one_of-first :
    (before after : List AssertFunc) (fn : AssertFunc) (user : Option User)
    → All (λ f. f user ≡ ok false) before
    → fn user ≡ ok true
    → one_of (before ++ fn ∷ after) user ≡ ok true
unfolding one_of
one_of-first [] after fn user refused holds = rw holds
one_of-first (f ∷ before) after fn user (refusal, refused) holds =
    rw (refusal, one_of-first before after fn user refused holds)

-- OneOf holds exactly if one of its assertions holds and every one before it is refused without
-- an error.
pub one_of_iff :
    (funcs : List AssertFunc) (user : Option User)
    → (one_of funcs user ≡ ok true) ↔ FirstHolds funcs user
one_of_iff funcs user = (
  one_of-FirstHolds funcs user,
  λ h. rw h.split (one_of-first h.before h.after h.fn user h.refused h.holds),
)
