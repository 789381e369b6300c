-- ===== src/Store/Engine/Sorting.antt =====
-- Insertion sort by an `Order`: what the in-memory engine returns is a sorted permutation.
use oplet.Prelude.{◌≡◌, Bool, true, false, List, Permᴰ, leb, arith}
use oplet.Prelude.Sorting.{sort_by, sort_by-perm, sort_by-Pairwise}
use oplet.Store.Orm.{Order, unordered, asc, desc, asc_text, asc_int, Precedes, Ordered}

module _ {Row : Type 0} where
  abbrev before : Order Row → Row → Row → Bool
  before unordered a b = true
  before (asc key) a b = leb (key a) (key b)
  before (desc key) a b = leb (key b) (key a)
  before (asc_text key) a b = true
  before (asc_int key) a b = true

  before-Precedes : (o : Order Row) (a b : Row) → before o a b ≡ true → Precedes o a b
  before-Precedes unordered a b h = tt
  before-Precedes (asc key) a b h = ground arith
  before-Precedes (desc key) a b h = ground arith
  before-Precedes (asc_text key) a b h = tt
  before-Precedes (asc_int key) a b h = tt

  after-Precedes : (o : Order Row) (a b : Row) → before o a b ≡ false → Precedes o b a
  after-Precedes unordered a b h = tt
  after-Precedes (asc key) a b h = ground arith
  after-Precedes (desc key) a b h = ground arith
  after-Precedes (asc_text key) a b h = tt
  after-Precedes (asc_int key) a b h = tt

  Precedes-trans : (o : Order Row) (a b c : Row) → Precedes o a b → Precedes o b c → Precedes o a c
  Precedes-trans unordered a b c h k = tt
  Precedes-trans (asc key) a b c h k = omega arith
  Precedes-trans (desc key) a b c h k = omega arith
  Precedes-trans (asc_text key) a b c h k = tt
  Precedes-trans (asc_int key) a b c h k = tt

  unfoldable pub sort : Order Row → List Row → List Row
  unfolding sort_by
  sort o = sort_by (before o)

  pub sort-perm : (o : Order Row) (rows : List Row) → Permᴰ (sort o rows) rows
  unfolding sort
  sort-perm o = sort_by-perm (before o)

  pub sort-Ordered : (o : Order Row) (rows : List Row) → Ordered o (sort o rows)
  unfolding sort
  sort-Ordered o =
      sort_by-Pairwise (before o) (Precedes o) (before-Precedes o) (after-Precedes o)
        (Precedes-trans o)
