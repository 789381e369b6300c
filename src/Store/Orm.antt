-- ===== src/Store/Orm.antt =====
-- gorm, as the repositories use it: a request names conditions, an order and a page, and a statement
-- runs it on the rows of one table. gorm and SQLite are not part of the repository, so `Orm` takes
-- the statements as parameters, with the documented behaviour that the program relies on. A
-- statement may fail for a reason of its own (`failure`), and then leaves the table alone.
use oplet.Prelude.{
  length, ℕ, ◌≤◌, String, ◌≡◌, ◌≢◌, Bool, true, false, ◌&&◌, Option, none, some, List, [], ◌∷◌,
  ◌++◌, map, Memᴰ, Permᴰ, Result, ok, err, filter, take, drop, all, any, All, nat_eq, if◌then◌else◌,
}
use oplet.Prelude.Int.{ℤ}
use oplet.Prelude.Sorting.{Pairwise}
use oplet.Store.Rows.{Time, Model}

-- `record_not_found` is gorm.ErrRecordNotFound.
pub data Error : Type 0 where
  record_not_found : Error
  failure : String → Error

-- `ORDER BY`: `asc` and `desc` go by a number, `asc_text` by a text in the database's collation and
-- `asc_int` by a signed number, of whose orders nothing is used.
pub data Order (Row : Type 0) : Type 0 where
  unordered : Order Row
  asc : (Row → ℕ) → Order Row
  desc : (Row → ℕ) → Order Row
  asc_text : (Row → String) → Order Row
  asc_int : (Row → ℤ) → Order Row

pub record Query (Row : Type 0) : Type 0 where
  pub conditions : List (Row → Bool)
  pub order : Order Row
  pub limit : Option ℕ
  pub offset : Option ℕ

module _ {Row : Type 0} where
  -- db.Where(…), a fresh request with one condition
  abbrev pub where_ : (Row → Bool) → Query Row
  where_ p = record { conditions = p ∷ []; order = unordered; limit = none; offset = none }

  -- db, a request for every row
  abbrev pub every : Query Row
  every = record { conditions = []; order = unordered; limit = none; offset = none }

  -- q.Where(…)
  abbrev pub and_where : (Row → Bool) → Query Row → Query Row
  and_where p q = record q { conditions = q.conditions ++ p ∷ [] }

  abbrev pub order_by : Order Row → Query Row → Query Row
  order_by o q = record q { order = o }

  abbrev pub limited : ℕ → Query Row → Query Row
  limited n q = record q { limit = some n }

  abbrev pub skipping : ℕ → Query Row → Query Row
  skipping n q = record q { offset = some n }

module _ {Row : Type 0} where
  abbrev skip : Option ℕ → List Row → List Row
  skip none rows = rows
  skip (some n) rows = drop n rows

  abbrev limit_to : Option ℕ → List Row → List Row
  limit_to none rows = rows
  limit_to (some n) rows = take n rows

  -- `LIMIT` after `OFFSET`
  abbrev pub page : Query Row → List Row → List Row
  page q rows = limit_to q.limit (skip q.offset rows)

  -- `Precedes o a b`: in the order `o`, `a` may stand before `b`.
  abbrev pub Precedes : Order Row → Row → Row → Type 0
  Precedes unordered a b = Unit
  Precedes (asc key) a b = key a ≤ key b
  Precedes (desc key) a b = key b ≤ key a
  Precedes (asc_text key) a b = Unit
  Precedes (asc_int key) a b = Unit

  abbrev pub Ordered : Order Row → List Row → Type 0
  Ordered o = Pairwise (Precedes o)

abbrev pub is_none {ℓ} : {A : Type ℓ} → Option A → Bool
is_none none = true
is_none (some _) = false

-- A table: how a row holds its gorm.Model, and which rows clash on a unique index.
pub record Table (Row : Type 0) : Type 0 where
  pub model : Row → Model
  pub with_model : Model → Row → Row
  pub conflicts : Row → Row → Bool

module _ {Row : Type 0} (table : Table Row) where
  -- Soft-deleted rows are in no result.
  abbrev pub is_live : Row → Bool
  is_live r = is_none (table.model r).deleted_at

  -- `UPDATE … SET deleted_at = now` of the live rows that are chosen
  abbrev pub mark_deleted : Time → (Row → Bool) → Row → Row
  mark_deleted now p r =
      if is_live r && p r
      then table.with_model (record (table.model r) { deleted_at = some now }) r
      else r

  abbrev pub meets : List (Row → Bool) → Row → Bool
  meets conditions r = all (λ c. c r) conditions

  abbrev pub select : Query Row → List Row → List Row
  select q = filter (λ r. is_live r && meets q.conditions r)

  -- `First` adds the primary key to the order.
  abbrev pub FirstPrecedes : Order Row → Row → Row → Type 0
  FirstPrecedes unordered a b = (table.model a).id ≤ (table.model b).id
  FirstPrecedes o a b = Precedes o a b

  abbrev pub same_id : Row → Row → Bool
  same_id a b = nat_eq (table.model a).id (table.model b).id

  -- `INSERT … ON CONFLICT DO NOTHING` of several rows, one after the other.
  pub data Added : List Row → List Row → List Row → Type 0 where
    done : {rows : List Row} → Added [] rows rows
    kept :
        {n : Row} {news rows after : List Row}
        → any (table.conflicts n) rows ≡ true
        → Added news rows after
        → Added (n ∷ news) rows after
    added :
        {n : Row} {news rows after : List Row} (m : Model)
        → m.deleted_at ≡ none
        → any (table.conflicts n) rows ≡ false
        → Added news (rows ++ table.with_model m n ∷ []) after
        → Added (n ∷ news) rows after

pub record Orm (Row : Type 0) (table : Table Row) : Type 0 where
  pub find : Query Row → List Row → Result Error (List Row)
  pub first : Query Row → List Row → Result Error Row
  pub count : Query Row → List Row → Result Error ℕ
  pub create : Row → List Row → Result Error (Row × List Row)
  pub create_new : List Row → List Row → Result Error (List Row)
  pub save : Row → List Row → Result Error (List Row)
  pub update : (Row → Bool) → (Row → Row) → List Row → Result Error (List Row)
  -- a soft deletion at the given time
  pub delete : Time → (Row → Bool) → List Row → Result Error (List Row)
  -- the order in which the database returns rows, ties included
  pub arrange : Order Row → List Row → List Row
  pub arrange_perm : (o : Order Row) (rows : List Row) → Permᴰ (arrange o rows) rows
  pub arrange_ordered : (o : Order Row) (rows : List Row) → Ordered o (arrange o rows)
  pub find_eq :
      (q : Query Row) (rows found : List Row)
      → find q rows ≡ ok found
      → found ≡ page q (arrange q.order (select table q rows))
  pub find-ne-missing : (q : Query Row) (rows : List Row) → find q rows ≢ err record_not_found
  pub count_eq :
      (q : Query Row) (rows : List Row) (n : ℕ)
      → count q rows ≡ ok n
      → n ≡ length (select table q rows)
  pub first_leads :
      (q : Query Row) (rows : List Row) (r : Row)
      → first q rows ≡ ok r
      → Memᴰ r (select table q rows) × All (FirstPrecedes table q.order r) (select table q rows)
  pub first_missing :
      (q : Query Row) (rows : List Row)
      → first q rows ≡ err record_not_found
      → select table q rows ≡ []
  pub created :
      (r r' : Row) (rows after : List Row)
      → create r rows ≡ ok (r', after)
      → (m : Model) × (r' ≡ table.with_model m r)
        × (m.deleted_at ≡ none)
        × All (λ s. (table.model s).id ≢ m.id) rows
        × (any (table.conflicts r) rows ≡ false)
        × (after ≡ rows ++ r' ∷ [])
  pub created_new :
      (news rows after : List Row) → create_new news rows ≡ ok after → Added table news rows after
  -- `Save` writes every column of the row with this primary key.
  pub save-ne-missing : (r : Row) (rows : List Row) → save r rows ≢ err record_not_found
  pub saved :
      (r : Row) (rows after : List Row)
      → any (same_id table r) rows ≡ true
      → save r rows ≡ ok after
      → after ≡ map (λ s. if same_id table r s then r else s) rows
  pub updated :
      (p : Row → Bool) (f : Row → Row) (rows after : List Row)
      → update p f rows ≡ ok after
      → after ≡ map (λ s. if is_live table s && p s then f s else s) rows
  pub deleted :
      (now : Time) (p : Row → Bool) (rows after : List Row)
      → delete now p rows ≡ ok after
      → after ≡ map (mark_deleted table now p) rows
