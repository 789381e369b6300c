-- ===== src/Prelude/Sorting.antt =====
-- Insertion sort by a Boolean comparison: a permutation, in which every element stands before the
-- later ones if the comparison decides a transitive relation.
use mathlib.Core.List.Permᴰ
use mathlib.Core.List.{List, [], ◌∷◌, Permᴰ}
use mathlib.Core.Logic.{inl, inr}
use mathlib.Core.Path.{◌≡◌, refl}
use mathlib.Core.Bool.{Bool, true, false}
use oplet.Prelude.Lists.{All, All-Permᴰ}
use oplet.Prelude.Tests.{Bool-cases, if◌then◌else◌}

abbrev pub Pairwise : {A : Type 0} → (A → A → Type 0) → List A → Type 0
Pairwise R [] = Unit
Pairwise R (x ∷ xs) = All (R x) xs × Pairwise R xs

module _ {A : Type 0} (before : A → A → Bool) where
  abbrev pub insert_by : A → List A → List A
  insert_by x [] = x ∷ []
  insert_by x (y ∷ ys) = let rest = insert_by x ys in if before x y then x ∷ y ∷ ys else y ∷ rest

  unfoldable pub sort_by : List A → List A
  sort_by [] = []
  sort_by (x ∷ xs) = insert_by x (sort_by xs)

  pub insert_by-perm : (x : A) (ys : List A) → Permᴰ (insert_by x ys) (x ∷ ys)
  insert_by-perm x [] = Permᴰ.refl (x ∷ [])
  insert_by-perm x (y ∷ ys) = elim (Bool-cases (before x y)) [
    | inl first ↦ rw first (Permᴰ.refl (x ∷ y ∷ ys))
    | inr later ↦
        rw later (Permᴰ.trans (Permᴰ.cons refl (insert_by-perm x ys)) (Permᴰ.swap refl refl))
  ]

  pub sort_by-perm : (xs : List A) → Permᴰ (sort_by xs) xs
  unfolding sort_by
  sort_by-perm [] = Permᴰ.nil
  sort_by-perm (x ∷ xs) =
      Permᴰ.trans (insert_by-perm x (sort_by xs)) (Permᴰ.cons refl (sort_by-perm xs))

  module _ (R : A → A → Type 0) (leads : (a b : A) → before a b ≡ true → R a b)
      (follows : (a b : A) → before a b ≡ false → R b a)
      (linked : (a b c : A) → R a b → R b c → R a c) where
    All-linked : (a b : A) (xs : List A) → R a b → All (R b) xs → All (R a) xs
    All-linked a b [] h k = tt
    All-linked a b (c ∷ xs) h k = (linked a b c h k.0, All-linked a b xs h k.1)

    insert_by-Pairwise : (x : A) (ys : List A) → Pairwise R ys → Pairwise R (insert_by x ys)
    insert_by-Pairwise x [] h = (tt, tt)
    insert_by-Pairwise x (y ∷ ys) (h, k) = elim (Bool-cases (before x y)) [
      | inl first ↦ let le = leads x y first in rw first ((le, All-linked x y ys le h), (h, k))
      | inr later ↦ rw later (
        All-Permᴰ (R y) (Permᴰ.symm (insert_by-perm x ys)) (follows x y later, h),
        insert_by-Pairwise x ys k,
      )
    ]

    pub sort_by-Pairwise : (xs : List A) → Pairwise R (sort_by xs)
    unfolding sort_by
    sort_by-Pairwise [] = tt
    sort_by-Pairwise (x ∷ xs) = insert_by-Pairwise x (sort_by xs) (sort_by-Pairwise xs)
