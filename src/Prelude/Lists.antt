-- ===== src/Prelude/Lists.antt =====
-- Lists measured by native numbers, filtered by Boolean tests, and predicates over them.
use Prim.Native.Nat.{◌+◌, ◌≤◌, ℕ, zero, suc, ◌<◌}
use mathlib.Core.Path.{◌≡◌, ◌∙◌, subst, refl, ap}
use mathlib.Core.Bool.{Bool, true, false, ◌&&◌, ◌||◌}
use mathlib.Core.Option.{Option, none, some}
use mathlib.Core.Logic.{◌⊎◌, inl, inr, ◌↔◌}
use mathlib.Core.List.{map, List, [], ◌∷◌, ◌++◌, Memᴰ, Permᴰ}
use native.Mathlib.Omega.{arith}
use oplet.Prelude.Tests.{if◌then◌else◌}

module _ {ℓ} {A : Type ℓ} where
  abbrev pub length : List A → ℕ
  length [] = 0
  length (x ∷ xs) = suc (length xs)

  abbrev pub take : ℕ → List A → List A
  take zero xs = []
  take (suc n) [] = []
  take (suc n) (x ∷ xs) = x ∷ take n xs

  abbrev pub drop : ℕ → List A → List A
  drop zero xs = xs
  drop (suc n) [] = []
  drop (suc n) (x ∷ xs) = drop n xs

  -- The library's `filter` takes a decision; this one takes a Boolean test.
  abbrev pub filter : (A → Bool) → List A → List A
  filter p [] = []
  filter p (x ∷ xs) = let rest = filter p xs in if p x then x ∷ rest else rest

  abbrev pub all : (A → Bool) → List A → Bool
  all p [] = true
  all p (x ∷ xs) = p x && all p xs

  abbrev pub any : (A → Bool) → List A → Bool
  any p [] = false
  any p (x ∷ xs) = p x || any p xs

  -- the first element, if there is one
  abbrev pub first_row : List A → Option A
  first_row [] = none
  first_row (x ∷ xs) = some x

module _ {ℓ κ} {A : Type ℓ} (P : A → Type κ) where
  abbrev pub All : List A → Type κ
  All [] = Unit
  All (x ∷ xs) = P x × All xs

  pub All-append : (xs ys : List A) → All xs → All ys → All (xs ++ ys)
  All-append [] ys hx hy = hy
  All-append (x ∷ xs) ys hx hy = (hx.0, All-append xs ys hx.1 hy)

  pub All-take : (n : ℕ) (xs : List A) → All xs → All (take n xs)
  All-take zero xs h = tt
  All-take (suc n) [] h = tt
  All-take (suc n) (x ∷ xs) h = (h.0, All-take n xs h.1)

  pub All-drop : (n : ℕ) (xs : List A) → All xs → All (drop n xs)
  All-drop zero xs h = h
  All-drop (suc n) [] h = tt
  All-drop (suc n) (x ∷ xs) h = All-drop n xs h.1

  pub All-filter : (p : A → Bool) (xs : List A) → ((x : A) → p x ≡ true → P x) → All (filter p xs)
  All-filter p [] h = tt
  All-filter p (x ∷ xs) h = go (p x) refl (All-filter p xs h)
    where
      go :
          (b : Bool)
          → p x ≡ b
          → All (filter p xs)
          → All (if b then x ∷ filter p xs else filter p xs)
      go true e k = (h x e, k)
      go false e k = k

  pub All-of_Memᴰ : (xs : List A) → ((x : A) → Memᴰ x xs → P x) → All xs
  All-of_Memᴰ [] h = tt
  All-of_Memᴰ (x ∷ xs) h = (h x (Memᴰ.head refl), All-of_Memᴰ xs (λ y m. h y (Memᴰ.tail m)))

module _ {ℓ} {A : Type ℓ} where
  pub Memᴰ-filter :
      (p : A → Bool) (xs : List A) {a : A} → Memᴰ a (filter p xs) → Memᴰ a xs × (p a ≡ true)
  Memᴰ-filter p [] m = elim m [ ]
  Memᴰ-filter p (x ∷ xs) {a} m = go (p x) refl (λ k. Memᴰ-filter p xs k) m
    where
      go :
          (b : Bool)
          → p x ≡ b
          → (Memᴰ a (filter p xs) → Memᴰ a xs × (p a ≡ true))
          → Memᴰ a (if b then x ∷ filter p xs else filter p xs)
          → Memᴰ a (x ∷ xs) × (p a ≡ true)
      go true e rest (Memᴰ.head same) = (Memᴰ.head same, rw same e)
      go true e rest (Memᴰ.tail later) = let (there, holds) = rest later in (Memᴰ.tail there, holds)
      go false e rest later = let (there, holds) = rest later in (Memᴰ.tail there, holds)

  pub filter-Memᴰ :
      (p : A → Bool) (xs : List A) {a : A} → p a ≡ true → Memᴰ a xs → Memᴰ a (filter p xs)
  filter-Memᴰ p [] h m = elim m [ ]
  filter-Memᴰ p (x ∷ xs) h (Memᴰ.head same) = rw (← same, h) (Memᴰ.head refl)
  filter-Memᴰ p (x ∷ xs) {a} h (Memᴰ.tail later) = go (p x) (filter-Memᴰ p xs h later)
    where
      go : (b : Bool) → Memᴰ a (filter p xs) → Memᴰ a (if b then x ∷ filter p xs else filter p xs)
      go true m = Memᴰ.tail m
      go false m = m

  pub any_of_Memᴰ : (p : A → Bool) (xs : List A) {a : A} → p a ≡ true → Memᴰ a xs → any p xs ≡ true
  any_of_Memᴰ p [] h m = elim m [ ]
  any_of_Memᴰ p (x ∷ xs) h (Memᴰ.head same) = ground (arith, ap p same)
  any_of_Memᴰ p (x ∷ xs) h (Memᴰ.tail later) = ground (arith, any_of_Memᴰ p xs h later)

module _ {ℓ κ} {A : Type ℓ} (P : A → Type κ) where
  pub All-Memᴰ : (xs : List A) {a : A} → All P xs → Memᴰ a xs → P a
  All-Memᴰ [] h m = elim m [ ]
  All-Memᴰ (x ∷ xs) h (Memᴰ.head same) = rw same h.0
  All-Memᴰ (x ∷ xs) h (Memᴰ.tail later) = All-Memᴰ xs h.1 later

pub All-Permᴰ {ℓ κ} :
    {A : Type ℓ} (P : A → Type κ) {xs ys : List A} → Permᴰ xs ys → All P xs → All P ys
All-Permᴰ P Permᴰ.nil h = tt
All-Permᴰ P (Permᴰ.cons same r) (h, k) = (subst P same h, All-Permᴰ P r k)
All-Permᴰ P (Permᴰ.swap e f) (h, (k, rest)) = (subst P f k, (subst P e h, rest))
All-Permᴰ P (Permᴰ.trans r s) h = All-Permᴰ P s (All-Permᴰ P r h)

module _ {ℓ} {A : Type ℓ} where
  pub Memᴰ-Permᴰ : {a : A} {xs ys : List A} → Permᴰ xs ys → Memᴰ a xs → Memᴰ a ys
  Memᴰ-Permᴰ Permᴰ.nil m = m
  Memᴰ-Permᴰ (Permᴰ.cons same r) (Memᴰ.head e) = Memᴰ.head (e ∙ same)
  Memᴰ-Permᴰ (Permᴰ.cons same r) (Memᴰ.tail m) = Memᴰ.tail (Memᴰ-Permᴰ r m)
  Memᴰ-Permᴰ (Permᴰ.swap e f) (Memᴰ.head x) = Memᴰ.tail (Memᴰ.head (x ∙ e))
  Memᴰ-Permᴰ (Permᴰ.swap e f) (Memᴰ.tail (Memᴰ.head x)) = Memᴰ.head (x ∙ f)
  Memᴰ-Permᴰ (Permᴰ.swap e f) (Memᴰ.tail (Memᴰ.tail m)) = Memᴰ.tail (Memᴰ.tail m)
  Memᴰ-Permᴰ (Permᴰ.trans r s) m = Memᴰ-Permᴰ s (Memᴰ-Permᴰ r m)

pub List-cases {ℓ} :
    {A : Type ℓ} (xs : List A) → (xs ≡ []) ⊎ ((x : A) × (rest : List A) × (xs ≡ x ∷ rest))
List-cases [] = inl refl
List-cases (x ∷ rest) = inr (x, rest, refl)

module _ {ℓ} {A : Type ℓ} {a : A} where
  pub Memᴰ-split : (xs ys : List A) → Memᴰ a (xs ++ ys) → Memᴰ a xs ⊎ Memᴰ a ys
  Memᴰ-split [] ys m = inr m
  Memᴰ-split (x ∷ xs) ys (Memᴰ.head same) = inl (Memᴰ.head same)
  Memᴰ-split (x ∷ xs) ys (Memᴰ.tail later) = elim (Memᴰ-split xs ys later) [
    | inl m ↦ inl (Memᴰ.tail m)
    | inr m ↦ inr m
  ]

  pub Memᴰ-left : (xs ys : List A) → Memᴰ a xs → Memᴰ a (xs ++ ys)
  Memᴰ-left [] ys m = elim m [ ]
  Memᴰ-left (x ∷ xs) ys (Memᴰ.head same) = Memᴰ.head same
  Memᴰ-left (x ∷ xs) ys (Memᴰ.tail later) = Memᴰ.tail (Memᴰ-left xs ys later)

  pub Memᴰ-right : (xs ys : List A) → Memᴰ a ys → Memᴰ a (xs ++ ys)
  Memᴰ-right [] ys m = m
  Memᴰ-right (x ∷ xs) ys m = Memᴰ.tail (Memᴰ-right xs ys m)

pub map-Memᴰ {ℓ κ} :
    {A : Type ℓ} {B : Type κ} (f : A → B) (xs : List A) {a : A} → Memᴰ a xs → Memᴰ (f a) (map f xs)
map-Memᴰ f [] m = elim m [ ]
map-Memᴰ f (x ∷ xs) (Memᴰ.head same) = Memᴰ.head (ap f same)
map-Memᴰ f (x ∷ xs) (Memᴰ.tail later) = Memᴰ.tail (map-Memᴰ f xs later)

module _ {ℓ} {A : Type ℓ} (p : A → Bool) where
  pub any-append : (xs ys : List A) → any p (xs ++ ys) ≡ (any p xs || any p ys)
  any-append [] ys = refl
  any-append (x ∷ xs) ys = let rest = any-append xs ys in ground arith

  pub any-map : (f : A → A) (xs : List A) → ((x : A) → p (f x) ≡ p x) → any p (map f xs) ≡ any p xs
  any-map f [] same = refl
  any-map f (x ∷ xs) same = rw (same x, any-map f xs same) refl

  pub any_iff_length : (xs : List A) → (any p xs ≡ true) ↔ (0 < length (filter p xs))
  any_iff_length [] = ground arith
  any_iff_length (x ∷ xs) = let rest = any_iff_length xs in ground arith

-- Two disjoint tests choose no more than a test that both of them imply.
pub length-filter_split {ℓ} :
    {A : Type ℓ} (p q r : A → Bool) (xs : List A)
    → ((x : A) → p x ≡ true → (r x ≡ true) × (q x ≡ false))
    → ((x : A) → q x ≡ true → r x ≡ true)
    → length (filter p xs) + length (filter q xs) ≤ length (filter r xs)
length-filter_split p q r [] hp hq = omega arith
length-filter_split p q r (x ∷ xs) hp hq =
    let rest = length-filter_split p q r xs hp hq in
    let hp' = hp x in let hq' = hq x in ground arith

pub length-filter_le {ℓ} :
    {A : Type ℓ} (p q : A → Bool) (xs : List A)
    → ((x : A) → p x ≡ true → q x ≡ true)
    → length (filter p xs) ≤ length (filter q xs)
length-filter_le p q [] sub = omega arith
length-filter_le p q (x ∷ xs) sub =
    let rest = length-filter_le p q xs sub in let here = sub x in ground arith

module _ {ℓ} {A : Type ℓ} (p : A → Bool) where
  pub filter-append : (xs ys : List A) → filter p (xs ++ ys) ≡ filter p xs ++ filter p ys
  filter-append [] ys = refl
  filter-append (x ∷ xs) ys = let rest = filter-append xs ys in ground arith

  pub filter_every : (xs : List A) → All (λ x. p x ≡ true) xs → filter p xs ≡ xs
  filter_every [] h = refl
  filter_every (x ∷ xs) h = rw (h.0, filter_every xs h.1) refl

  pub filter_none : (xs : List A) → All (λ x. p x ≡ false) xs → filter p xs ≡ []
  filter_none [] h = refl
  filter_none (x ∷ xs) h = rw (h.0, filter_none xs h.1) refl

  pub any_none : (xs : List A) → All (λ x. p x ≡ false) xs → any p xs ≡ false
  any_none [] h = refl
  any_none (x ∷ xs) h = rw (h.0, any_none xs h.1) refl

pub append_nil {ℓ} : {A : Type ℓ} (xs : List A) → xs ++ [] ≡ xs
append_nil [] = refl
append_nil (x ∷ xs) = ap (◌∷◌ x) (append_nil xs)

pub All-map_of {ℓ κ μ} :
    {A : Type ℓ} (P : A → Type κ) (Q : A → Type μ) (xs : List A)
    → ((x : A) → P x → Q x)
    → All P xs
    → All Q xs
All-map_of P Q [] f h = tt
All-map_of P Q (x ∷ xs) f h = (f x h.0, All-map_of P Q xs f h.1)
