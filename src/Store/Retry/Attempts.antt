-- ===== src/Store/Retry/Attempts.antt =====
-- How many attempts WithRetry makes, how long it sleeps, and which attempt decides.
use native.Mathlib.Numerals.{unary_clauses}
use mathlib.Core.Path.{subst, sym}
use oplet.Prelude.{
  Option-cases, ℕ, zero, suc, ◌+◌, ◌*◌, ◌^◌, ◌≤◌, ◌<◌, ◌≡◌, refl, true, false, Option, none, some,
  List, Result, ok, err, arith, Bool-cases, inl, inr, leb, ap, ◌∙◌, nat_eq, String, Memᴰ, any, Bool,
  ◌∷◌, nat_eq_iff, [],
}
use oplet.Store.Orm.{Error, failure}
use oplet.Store.Session.{Database, Gorm, Exec, transaction}
use oplet.Store.Session.Laws.{transaction-err, transaction-ok, transaction-still}
use oplet.Store.Retry.{
  Retried, max_retries, first_backoff, goes_on, is_listed, retry_loop, with_retry,
}

double : (n backoff : ℕ) → backoff ≡ first_backoff * 2 ^ n → backoff * 2 ≡ first_backoff * 2 ^ suc n
double n backoff b = simp unary_clauses (omega (arith, b))

any-nat_eq-Memᴰ : (c : ℕ) (codes : List ℕ) → any (nat_eq c) codes ≡ true → Memᴰ c codes
any-nat_eq-Memᴰ c [] h = cc
any-nat_eq-Memᴰ c (d ∷ codes) h = elim (Bool-cases (nat_eq c d)) [
  | inl same ↦ Memᴰ.head ((nat_eq_iff c d).0 same)
  | inr other ↦ Memᴰ.tail (any-nat_eq-Memᴰ c codes (rw other at h))
]

Memᴰ-any-nat_eq : (c : ℕ) (codes : List ℕ) → Memᴰ c codes → any (nat_eq c) codes ≡ true
Memᴰ-any-nat_eq c [] m = elim m [ ]
Memᴰ-any-nat_eq c (d ∷ codes) (Memᴰ.head same) = rw ((nat_eq_iff c d).1 same) refl
Memᴰ-any-nat_eq c (d ∷ codes) (Memᴰ.tail m) = elim (Bool-cases (nat_eq c d)) [
  | inl same ↦ rw same refl
  | inr other ↦ rw (other, Memᴰ-any-nat_eq c codes m) refl
]

-- The error has a code, and it is one of the listed ones.
module _ (sqlite_code : Error → Option ℕ) (codes : List ℕ) where
  abbrev pub IsListed : Error → Type 0
  IsListed e = (code : ℕ) × (sqlite_code e ≡ some code) × Memᴰ code codes

  is_listed-IsListed : (e : Error) → is_listed sqlite_code codes e ≡ true → IsListed e
  is_listed-IsListed e h = elim (Option-cases (sqlite_code e)) [
    | inl no_code ↦ let g : false ≡ true = rw no_code at h in cc
    | inr (c, code) ↦ (c, code, any-nat_eq-Memᴰ c codes (rw code at h))
  ]

  IsListed-is_listed : (e : Error) → IsListed e → is_listed sqlite_code codes e ≡ true
  IsListed-is_listed e (c, code, m) = rw code (Memᴰ-any-nat_eq c codes m)

module _ (gorm : ℕ → Gorm) (sqlite_code : Error → Option ℕ) (codes : List ℕ) {A : Type 0} where
  -- Why no attempt follows.
  pub data IsLast (retries : ℕ) : Result Error A → Type 0 where
    success : {a : A} → IsLast retries (ok a)
    other_error : {e : Error} → ¬ IsListed sqlite_code codes e → IsLast retries (err e)
    out_of_retries : {e : Error} → retries ≡ max_retries → IsLast retries (err e)

  -- Attempt `i` failed with a listed code, and was rolled back.
  abbrev pub Fails : (Gorm → Exec A) → Database → ℕ → Type 0
  Fails fn db i =
      (e : Error) × (transaction (gorm i) (fn (gorm i)) db ≡ (err e, db))
      × IsListed sqlite_code codes e

  abbrev pub Decides : (Gorm → Exec A) → Database → Retried A → Type 0
  Decides fn db out =
      (transaction (gorm out.retries) (fn (gorm out.retries)) db ≡ (out.result, out.database))
      × IsLast out.retries out.result
      × ((i : ℕ) → i < out.retries → Fails fn db i)

  off-IsLast :
      (n : ℕ) (r : Result Error A)
      → n ≤ max_retries
      → goes_on sqlite_code codes n r ≡ false
      → IsLast n r
  off-IsLast n (ok a) le off = success
  off-IsLast n (err e) le off = elim (Bool-cases (leb max_retries n)) [
    | inl most ↦ out_of_retries (ground arith)
    | inr few ↦
        let unlisted : is_listed sqlite_code codes e ≡ false = rw (few, goes_on) at off in
        other_error (λ l.
          let g : ◌≡◌ {A = Bool} true false =
            sym (IsListed-is_listed sqlite_code codes e l) ∙ unlisted in
          cc)
  ]

  goes_on-err :
      (n : ℕ) (r : Result Error A)
      → goes_on sqlite_code codes n r ≡ true
      → (e : Error) × (r ≡ err e) × (is_listed sqlite_code codes e ≡ true) × (n < max_retries)
  goes_on-err n (ok a) h = cc
  goes_on-err n (err e) h = elim (Bool-cases (leb max_retries n)) [
    | inl most ↦ let g : false ≡ true = rw (most, goes_on) at h in cc
    | inr few ↦ (e, refl, rw (few, goes_on) at h, ground arith)
  ]

  goes_on-Fails :
      (fn : Gorm → Exec A) (db : Database) (n : ℕ)
      → goes_on sqlite_code codes n (transaction (gorm n) (fn (gorm n)) db).0 ≡ true
      → Fails fn db n × ((transaction (gorm n) (fn (gorm n)) db).1 ≡ db) × (n < max_retries)
  goes_on-Fails fn db n h =
      let (e, failed, listed, few) = goes_on-err n (transaction (gorm n) (fn (gorm n)) db).0 h in
      let back = transaction-err (gorm n) (fn (gorm n)) db failed in
      (
        (e, back, is_listed-IsListed sqlite_code codes e listed),
        ap (λ (x : Result Error A × Database). x.1) back,
        few,
      )

  Fails-suc :
      (fn : Gorm → Exec A) (db : Database) (n : ℕ)
      → ((i : ℕ) → i < n → Fails fn db i)
      → Fails fn db n
      → (i : ℕ) → i < suc n
      → Fails fn db i
  Fails-suc fn db n before now i h = elim (Bool-cases (nat_eq i n)) [
    | inl same ↦ let e : n ≡ i = ground arith in subst (λ (k : ℕ). Fails fn db k) e now
    | inr other ↦ before i (ground arith)
  ]

  retry_loop-on :
      (fuel : ℕ) (fn : Gorm → Exec A) (n backoff slept : ℕ) (db : Database)
      → goes_on sqlite_code codes n (transaction (gorm n) (fn (gorm n)) db).0 ≡ true
      → (transaction (gorm n) (fn (gorm n)) db).1 ≡ db
      → retry_loop gorm sqlite_code codes (suc fuel) fn n backoff slept db
        ≡ retry_loop gorm sqlite_code codes fuel fn (suc n) (backoff * 2) (slept + backoff) db
  unfolding retry_loop
  retry_loop-on fuel fn n backoff slept db on back = rw (on, retry_loop, back) refl

  retry_loop_lem :
      (fuel : ℕ) (fn : Gorm → Exec A) (n backoff slept : ℕ) (db : Database)
      → fuel + n ≡ suc max_retries
      → n ≤ max_retries
      → backoff ≡ first_backoff * 2 ^ n
      → slept + first_backoff ≡ backoff
      → ((i : ℕ) → i < n → Fails fn db i)
      → (out : Retried A) × (retry_loop gorm sqlite_code codes fuel fn n backoff slept db
          ≡ some out)
        × (out.retries ≤ max_retries)
        × (out.slept + first_backoff ≡ first_backoff * 2 ^ out.retries)
        × Decides fn db out
  unfolding retry_loop
  retry_loop_lem zero fn n backoff slept db e le b s before = absurd (omega arith)
  retry_loop_lem (suc fuel) fn n backoff slept db e le b s before =
      elim (Bool-cases (goes_on sqlite_code codes n (transaction (gorm n) (fn (gorm n)) db).0)) [
        | inl on ↦
            let (failed, back, few) = goes_on-Fails fn db n on in
            let (out, e', few', time, last) =
              retry_loop_lem fuel fn (suc n) (backoff * 2) (slept + backoff) db (omega arith)
                (omega arith) (double n backoff b) (omega arith)
                (Fails-suc fn db n before failed) in
            (out, retry_loop-on fuel fn n backoff slept db on back ∙ e', few', time, last)
        | inr off ↦ (
          record {
            result = (transaction (gorm n) (fn (gorm n)) db).0;
            retries = n;
            slept = slept;
            database = (transaction (gorm n) (fn (gorm n)) db).1;
          },
          rw (off, retry_loop) refl,
          le,
          s ∙ b,
          (refl, off-IsLast n _ le off, before),
        )
      ]

  -- with_retry returns: after at most ten retries, having slept half a second, then one, two, … in
  -- all half a second times two to the number of retries, less half a second. The transaction that
  -- decides started from the tables as they were; each one before it failed with a listed code and
  -- changed nothing; and the one that decides succeeded, or failed with another error, or was the
  -- last that is allowed. The database's set-up must succeed.
  pub with_retry_total :
      (fn : Gorm → Exec A) (db : Database)
      → (gorm 0).migrate_err ≡ none
      → (out : Retried A) × (with_retry gorm sqlite_code codes fn db ≡ some out)
        × (out.retries ≤ max_retries)
        × (out.slept + first_backoff ≡ first_backoff * 2 ^ out.retries)
        × Decides fn db out
  unfolding with_retry
  with_retry_total fn db set_up =
      let (out, e, few, time, last) =
        retry_loop_lem (suc max_retries) fn 0 first_backoff 0 db (omega arith) (omega arith) refl
          refl (λ i h. absurd (omega arith)) in
      (out, rw (set_up, with_retry) e, few, time, last)

  with_retry-Decides :
      (fn : Gorm → Exec A) (db : Database) {out : Retried A}
      → (gorm 0).migrate_err ≡ none
      → with_retry gorm sqlite_code codes fn db ≡ some out
      → Decides fn db out
  with_retry-Decides fn db {out} fine h =
      let (out', e, few, time, decides) = with_retry_total fn db fine in
      let same : out' ≡ out = cc in subst (λ (o : Retried A). Decides fn db o) same decides

  abbrev broken_set_up : String → Database → Retried A
  broken_set_up m db = record { result = err (failure m); retries = 0; slept = 0; database = db }

  with_retry-broken :
      (fn : Gorm → Exec A) (db : Database) {m : String}
      → (gorm 0).migrate_err ≡ some m
      → with_retry gorm sqlite_code codes fn db ≡ some (broken_set_up m db)
  unfolding with_retry
  with_retry-broken fn db broken = rw (broken, with_retry) refl

  -- A call that succeeds has run its callback once on the tables that it was given.
  pub with_retry-ok :
      (fn : Gorm → Exec A) (db : Database) {a : A} {out : Retried A}
      → with_retry gorm sqlite_code codes fn db ≡ some out
      → out.result ≡ ok a
      → (i : ℕ) × ((fn (gorm i) db).0 ≡ ok a) × ((fn (gorm i) db).1 ≡ out.database)
  with_retry-ok fn db {a} {out} h good = elim (Option-cases (gorm 0).migrate_err) [
    | inl fine ↦
        let decides = with_retry-Decides fn db fine h in
        let won : transaction (gorm out.retries) (fn (gorm out.retries)) db ≡ (ok a, out.database) =
          rw good at decides.0 in
        let (same, after) = transaction-ok (gorm out.retries) (fn (gorm out.retries)) db won in
        (out.retries, same, after)
    | inr (m, broken) ↦
        let g = with_retry-broken fn db broken in
        let same : broken_set_up m db ≡ out = cc in
        let bad : ◌≡◌ {A = Result Error A} (err (failure m)) (ok a) =
          ap (λ (o : Retried A). o.result) same ∙ good in
        cc
  ]

  -- A callback that changes nothing leaves the tables as they were, whatever the call returns.
  pub with_retry-still :
      (fn : Gorm → Exec A) (db : Database) {out : Retried A}
      → ((g : Gorm) → (fn g db).1 ≡ db)
      → with_retry gorm sqlite_code codes fn db ≡ some out
      → out.database ≡ db
  with_retry-still fn db {out} still h = elim (Option-cases (gorm 0).migrate_err) [
    | inl fine ↦
        let decides = with_retry-Decides fn db fine h in
        transaction-still (gorm out.retries) (fn (gorm out.retries)) db (still (gorm out.retries))
          decides.0
    | inr (m, broken) ↦
        let g = with_retry-broken fn db broken in
        let same : broken_set_up m db ≡ out = cc in ap (λ (o : Retried A). o.database) (sym same)
  ]

  -- with_retry returns, also when the set-up fails.
  pub with_retry_returns :
      (fn : Gorm → Exec A) (db : Database)
      → (out : Retried A) × (with_retry gorm sqlite_code codes fn db ≡ some out)
  with_retry_returns fn db = elim (Option-cases (gorm 0).migrate_err) [
    | inl fine ↦ let (out, e, few, time, decides) = with_retry_total fn db fine in (out, e)
    | inr (m, broken) ↦ (broken_set_up m db, with_retry-broken fn db broken)
  ]
