-- ===== src/Store/Engine.antt =====
-- An in-memory engine that meets the contract of `Orm`: it shows that the contract can be met, and
-- the examples run on it.
mod Sorting
mod Configurations
use mathlib.Core.Path.{subst}
use mathlib.Core.List.Permᴰ
use oplet.Prelude.{
  length, filter, ◌==◌, All-Permᴰ, Memᴰ-Permᴰ, ℕ, zero, suc, ◌+◌, ◌≤◌, ◌<◌, String, ◌≡◌, refl, ◌≢◌,
  sym, not, ◌∙◌, inl, inr, ap, Bool, true, false, ◌&&◌, Option, none, some, List, [], ◌∷◌, ◌++◌,
  map, Memᴰ, Permᴰ, Result, ok, err, any, All, leb, nat_eq, if◌then◌else◌, arith, Bool-cases,
}
use oplet.Store.Rows.{TaskConfiguration, Time, Model, Seed}
use oplet.Store.Orm.{
  Error, record_not_found, failure, Order, unordered, asc, desc, asc_text, asc_int, Query, page,
  Precedes, Ordered, Table, mark_deleted, is_live, select, FirstPrecedes, same_id, Added, done,
  kept, added, Orm,
}
use Configurations.{engine_configurations, without_task, engine_task_deleted}
use Sorting.{sort, sort-perm, sort-Ordered}
use oplet.Store.Session.{
  Database, Gorm, SeedOrm, ConfigurationOrm, setting, tasks_table, executions_table, logs_table,
  files_table, users_table, runners_table,
}

module _ {Row : Type 0} (table : Table Row) where
  abbrev id_of : Row → ℕ
  id_of r = (table.model r).id

  pub top_id : List Row → ℕ
  top_id [] = 0
  top_id (r ∷ rows) = id_of r + top_id rows

  fresh : (rows : List Row) (n : ℕ) → top_id rows < n → All (λ s. id_of s ≢ n) rows
  unfolding top_id
  fresh [] n h = tt
  fresh (r ∷ rows) n h = (λ e. absurd (omega arith), fresh rows n (omega arith))

  -- the order of `First`
  abbrev first_order : Order Row → Order Row
  first_order unordered = asc id_of
  first_order (asc key) = asc key
  first_order (desc key) = desc key
  first_order (asc_text key) = asc_text key
  first_order (asc_int key) = asc_int key

  first_order-Precedes :
      (o : Order Row) (a b : Row) → Precedes (first_order o) a b → FirstPrecedes table o a b
  first_order-Precedes unordered a b h = h
  first_order-Precedes (asc key) a b h = h
  first_order-Precedes (desc key) a b h = h
  first_order-Precedes (asc_text key) a b h = h
  first_order-Precedes (asc_int key) a b h = h

  FirstPrecedes-refl : (o : Order Row) (a : Row) → FirstPrecedes table o a a
  FirstPrecedes-refl unordered a = omega arith
  FirstPrecedes-refl (asc key) a = omega arith
  FirstPrecedes-refl (desc key) a = omega arith
  FirstPrecedes-refl (asc_text key) a = tt
  FirstPrecedes-refl (asc_int key) a = tt

  pub head_or : List Row → Result Error Row
  head_or [] = err record_not_found
  head_or (r ∷ rows) = ok r

  pub first_of : Query Row → List Row → Result Error Row
  unfolding head_or
  first_of q rows = head_or (sort (first_order q.order) (select table q rows))

  All-FirstPrecedes :
      (o : Order Row) (a : Row) (rows : List Row)
      → All (Precedes (first_order o) a) rows
      → All (FirstPrecedes table o a) rows
  All-FirstPrecedes o a [] h = tt
  All-FirstPrecedes o a (b ∷ rows) h =
      (first_order-Precedes o a b h.0, All-FirstPrecedes o a rows h.1)

  head_or-leads :
      (o : Order Row) (rows sorted : List Row) (r : Row)
      → Permᴰ sorted rows
      → Ordered (first_order o) sorted
      → head_or sorted ≡ ok r
      → Memᴰ r rows × All (FirstPrecedes table o r) rows
  unfolding head_or
  head_or-leads o rows [] r p s h = cc
  head_or-leads o rows (x ∷ sorted) r p (le, s) h =
      let same : x ≡ r = cc in
      subst (λ (y : Row). Memᴰ y rows × All (FirstPrecedes table o y) rows) same
        (
          Memᴰ-Permᴰ p (Memᴰ.head refl),
          All-Permᴰ (FirstPrecedes table o x) p
              (FirstPrecedes-refl o x, All-FirstPrecedes o x sorted le),
        )

  head_or-missing :
      (rows sorted : List Row)
      → Permᴰ sorted rows
      → head_or sorted ≡ err record_not_found
      → rows ≡ []
  unfolding head_or
  head_or-missing [] sorted p h = refl
  head_or-missing (r ∷ rows) [] p h =
      let m : Memᴰ r (r ∷ rows) = Memᴰ.head refl in elim (Memᴰ-Permᴰ (Permᴰ.symm p) m) [ ]
  head_or-missing (r ∷ rows) (x ∷ sorted) p h = cc

  pub stamp : List Row → Row → Row
  unfolding top_id
  stamp rows r =
      table.with_model (record (table.model r) { id = suc (top_id rows); deleted_at = none }) r

  pub create_in : Row → List Row → Result Error (Row × List Row)
  unfolding stamp
  create_in r rows =
      if any (table.conflicts r) rows
      then err (failure "UNIQUE constraint failed")
      else ok (stamp rows r, rows ++ stamp rows r ∷ [])

  pub create_new_in : List Row → List Row → List Row
  unfolding stamp
  create_new_in [] rows = rows
  create_new_in (n ∷ news) rows =
      create_new_in news (if any (table.conflicts n) rows then rows else rows ++ stamp rows n ∷ [])

  create_new_in-Added : (news rows : List Row) → Added table news rows (create_new_in news rows)
  unfolding create_new_in
  create_new_in-Added [] rows = done
  create_new_in-Added (n ∷ news) rows = elim (Bool-cases (any (table.conflicts n) rows)) [
    | inl clash ↦ rw clash (kept clash (create_new_in-Added news rows))
    | inr free ↦ rw free (
        added (record (table.model n) { id = suc (top_id rows); deleted_at = none }) refl free
          (create_new_in-Added news (rows ++ stamp rows n ∷ [])))
  ]

  abbrev saved_in : Row → List Row → List Row
  saved_in r = map (λ s. if same_id table r s then r else s)

  abbrev updated_in : (Row → Bool) → (Row → Row) → List Row → List Row
  updated_in p f = map (λ s. if is_live table s && p s then f s else s)

  create_in-created :
      (r r' : Row) (rows after : List Row)
      → create_in r rows ≡ ok (r', after)
      → (r' ≡ stamp rows r) × (any (table.conflicts r) rows ≡ false) × (after ≡ rows ++ r' ∷ [])
  unfolding create_in
  create_in-created r r' rows after h = ground arith

  pub engine_find-eq :
      (q : Query Row) (rows found : List Row)
      → ◌≡◌ {A = Result Error (List Row)}
          (ok (page q (sort q.order (select table q rows))))
          (ok found)
      → found ≡ page q (sort q.order (select table q rows))
  engine_find-eq q rows found h = cc

  pub engine_first-leads :
      (q : Query Row) (rows : List Row) (r : Row)
      → first_of q rows ≡ ok r
      → Memᴰ r (select table q rows) × All (FirstPrecedes table q.order r) (select table q rows)
  unfolding first_of
  engine_first-leads q rows r h =
      head_or-leads q.order (select table q rows) (sort (first_order q.order) (select table q rows))
        r (sort-perm (first_order q.order) (select table q rows))
        (sort-Ordered (first_order q.order) (select table q rows)) h

  pub engine_first-missing :
      (q : Query Row) (rows : List Row)
      → first_of q rows ≡ err record_not_found
      → select table q rows ≡ []
  unfolding first_of
  engine_first-missing q rows h =
      head_or-missing (select table q rows) (sort (first_order q.order) (select table q rows))
        (sort-perm (first_order q.order) (select table q rows)) h

  pub engine_created :
      (r r' : Row) (rows after : List Row)
      → create_in r rows ≡ ok (r', after)
      → (m : Model) × (r' ≡ table.with_model m r)
        × (m.deleted_at ≡ none)
        × All (λ s. (table.model s).id ≢ m.id) rows
        × (any (table.conflicts r) rows ≡ false)
        × (after ≡ rows ++ r' ∷ [])
  unfolding stamp
  engine_created r r' rows after h =
      let (same, free, grown) = create_in-created r r' rows after h in
      (
        record (table.model r) { id = suc (top_id rows); deleted_at = none },
        same,
        refl,
        fresh rows (suc (top_id rows)) (omega arith),
        free,
        grown,
      )

  pub engine_count-eq :
      (q : Query Row) (rows : List Row) (n : ℕ)
      → ◌≡◌ {A = Result Error ℕ} (ok (length (select table q rows))) (ok n)
      → n ≡ length (select table q rows)
  engine_count-eq q rows n h = cc

  pub engine_created_new :
      (news rows after : List Row)
      → ◌≡◌ {A = Result Error (List Row)} (ok (create_new_in news rows)) (ok after)
      → Added table news rows after
  engine_created_new news rows after h =
      let same : create_new_in news rows ≡ after = cc in
      subst (λ (a : List Row). Added table news rows a) same (create_new_in-Added news rows)

  pub engine_saved :
      (r : Row) (rows after : List Row)
      → any (same_id table r) rows ≡ true
      → ◌≡◌ {A = Result Error (List Row)} (ok (saved_in r rows)) (ok after)
      → after ≡ saved_in r rows
  engine_saved r rows after present h = cc

  pub engine_updated :
      (p : Row → Bool) (f : Row → Row) (rows after : List Row)
      → ◌≡◌ {A = Result Error (List Row)} (ok (updated_in p f rows)) (ok after)
      → after ≡ updated_in p f rows
  engine_updated p f rows after h = cc

  pub engine_deleted :
      (now : Time) (p : Row → Bool) (rows after : List Row)
      → ◌≡◌ {A = Result Error (List Row)} (ok (map (mark_deleted table now p) rows)) (ok after)
      → after ≡ map (mark_deleted table now p) rows
  engine_deleted now p rows after h = cc

  pub ok-ne-missing : {A : Type 0} (a : A) → ◌≢◌ {A = Result Error A} (ok a) (err record_not_found)
  ok-ne-missing a h = cc

  unfoldable pub engine : Orm Row table
  unfolding first_of create_in create_new_in sort
  engine = record {
    find = λ q rows. ok (page q (sort q.order (select table q rows)));
    first = first_of;
    count = λ q rows. ok (length (select table q rows));
    create = create_in;
    create_new = λ news rows. ok (create_new_in news rows);
    save = λ r rows. ok (saved_in r rows);
    update = λ p f rows. ok (updated_in p f rows);
    delete = λ now p rows. ok (map (mark_deleted table now p) rows);
    arrange = sort;
    arrange_perm = sort-perm;
    arrange_ordered = sort-Ordered;
    find_eq = engine_find-eq;
    find-ne-missing = λ q rows. ok-ne-missing (page q (sort q.order (select table q rows)));
    count_eq = λ q rows n h. engine_count-eq q rows n h;
    first_leads = engine_first-leads;
    first_missing = engine_first-missing;
    created = engine_created;
    created_new = engine_created_new;
    save-ne-missing = λ r rows. ok-ne-missing (saved_in r rows);
    saved = engine_saved;
    updated = engine_updated;
    deleted = engine_deleted;
  }

abbrev upserted_in : Seed → List Seed → List Seed
upserted_in new rows =
    if any (λ s. s.id == new.id) rows
    then map (λ s. if s.id == new.id then record s { executed_at = new.executed_at } else s) rows
    else rows ++ new ∷ []

pub engine_seeds-count :
    (id : String) (rows : List Seed) (n : ℕ)
    → ◌≡◌ {A = Result Error ℕ} (ok (length (filter (λ s. s.id == id) rows))) (ok n)
    → n ≡ length (filter (λ s. s.id == id) rows)
engine_seeds-count id rows n h = cc

pub engine_seeds-upserted :
    (new : Seed) (rows after : List Seed)
    → ◌≡◌ {A = Result Error (List Seed)} (ok (upserted_in new rows)) (ok after)
    → after ≡ upserted_in new rows
engine_seeds-upserted new rows after h = cc

abbrev engine_seeds : SeedOrm
engine_seeds = record {
  count = λ id rows. ok (length (filter (λ s. s.id == id) rows));
  upsert = λ new rows. ok (upserted_in new rows);
  count_eq = engine_seeds-count;
  upserted = engine_seeds-upserted;
}

unfoldable pub memory : Gorm
unfolding engine engine_configurations
memory = record {
  migrate_err = none;
  commit_err = λ db. none;
  tasks = engine tasks_table;
  executions = engine executions_table;
  logs = engine logs_table;
  files = engine files_table;
  users = engine users_table;
  runners = engine runners_table;
  seeds = engine_seeds;
  configurations = engine_configurations;
  delete_task = λ id db. ok (without_task id db);
  task_deleted = engine_task_deleted;
}
