-- ===== src/Store/Retry.antt =====
-- WithRetry of internal/store/store.go: a transaction that is run again while it fails with one of
-- the given SQLite codes. Times are in milliseconds.
pub mod Attempts
use mathlib.Core.Option.{map}
use oplet.Prelude.{
  ℕ, zero, suc, ◌+◌, ◌*◌, Bool, true, false, Option, none, some, List, [], Result, ok, err, any,
  leb, nat_eq,
}
use oplet.Store.Orm.{Error, failure}
use oplet.Store.Session.{Database, Gorm, Exec, transaction}

abbrev pub max_retries : ℕ
max_retries = 10

abbrev pub first_backoff : ℕ
first_backoff = 500

-- What a call comes to: its result, the retries and the time slept before it, and the tables.
pub record Retried (A : Type 0) : Type 0 where
  pub result : Result Error A
  pub retries : ℕ
  pub slept : ℕ
  pub database : Database

-- `sqlite_code` is the code of the SQLite error that errors.As finds in an error's chain.
module _ (sqlite_code : Error → Option ℕ) (codes : List ℕ) where
  abbrev is_among : Option ℕ → Bool
  is_among none = false
  is_among (some c) = any (nat_eq c) codes

  abbrev pub is_listed : Error → Bool
  is_listed e = is_among (sqlite_code e)

  -- whether the loop goes on after an attempt with this result
  abbrev pub goes_on : {A : Type 0} → ℕ → Result Error A → Bool
  goes_on retries (ok a) = false
  goes_on retries (err e) = elim (leb max_retries retries) [ true ↦ false | false ↦ is_listed e ]

-- `gorm i` is how the database behaves in attempt `i`.
module _ (gorm : ℕ → Gorm) (sqlite_code : Error → Option ℕ) (codes : List ℕ) {A : Type 0} where
  -- The fuel bounds the attempts.
  unfoldable pub retry_loop : ℕ → (Gorm → Exec A) → ℕ → ℕ → ℕ → Database → Option (Retried A)
  retry_loop zero fn retries backoff slept db = none
  retry_loop (suc fuel) fn retries backoff slept db =
      let (r, db') = transaction (gorm retries) (fn (gorm retries)) db in
      elim (goes_on sqlite_code codes retries r) [
        | true ↦ retry_loop fuel fn (suc retries) (backoff * 2) (slept + backoff) db'
        | false ↦ some (record { result = r; retries = retries; slept = slept; database = db' })
      ]

  -- Eleven attempts are the first one and `max_retries` more.
  unfoldable pub with_retry : (Gorm → Exec A) → Database → Option (Retried A)
  unfolding retry_loop
  with_retry fn db = elim (gorm 0).migrate_err [
    | some e ↦ some (record { result = err (failure e); retries = 0; slept = 0; database = db })
    | none ↦ retry_loop (suc max_retries) fn 0 first_backoff 0 db
  ]
