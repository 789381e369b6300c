-- ===== src/Oci/Search/Infix.antt =====
-- The substring search against its description: there is a text before and a text after.
use oplet.Prelude.{
  ℕ, zero, suc, ◌+◌, ◌-◌, ◌<◌, ◌≤◌, ◌≡◌, refl, ap, ◌∙◌, ◌↔◌, ◌⊎◌, inl, inr, Bool, ◌||◌, true, none,
  some, List, [], ◌∷◌, ◌++◌, length, take, drop, arith, Bool-cases, Option-cases,
}
use mathlib.Core.List.{append-nil}
use oplet.Oci.Search.{
  bytes, bytes_eq, found, index_loop, index_of_substring, contains, is_not_found_error,
}

pub bytes_eq-eq : (s t : List ℕ) → bytes_eq s t ≡ true → s ≡ t
bytes_eq-eq [] [] h = refl
bytes_eq-eq [] (b ∷ t) h = cc
bytes_eq-eq (a ∷ s) [] h = cc
bytes_eq-eq (a ∷ s) (b ∷ t) h = ground (arith, bytes_eq-eq s t)

pub bytes_eq_refl : (s : List ℕ) → bytes_eq s s ≡ true
bytes_eq_refl [] = refl
bytes_eq_refl (a ∷ s) = ground (arith, bytes_eq_refl s)

abbrev pub IsInfix : List ℕ → List ℕ → Type 0
IsInfix substr s = (before : List ℕ) × (after : List ℕ) × (s ≡ before ++ (substr ++ after))

take-append-drop : (n : ℕ) (s : List ℕ) → take n s ++ drop n s ≡ s
take-append-drop zero s = refl
take-append-drop (suc n) [] = refl
take-append-drop (suc n) (a ∷ s) = ap (λ (t : List ℕ). a ∷ t) (take-append-drop n s)

take-append : (s t : List ℕ) → take (length s) (s ++ t) ≡ s
take-append [] t = refl
take-append (a ∷ s) t = ap (λ (u : List ℕ). a ∷ u) (take-append s t)

drop-append : (s t : List ℕ) → drop (length s) (s ++ t) ≡ t
drop-append [] t = refl
drop-append (a ∷ s) t = drop-append s t

length-append : (s t : List ℕ) → length (s ++ t) ≡ length s + length t
length-append [] t = omega arith
length-append (a ∷ s) t = omega (arith, length-append s t)

-- What is read at an index is an infix.
slice-IsInfix : (i n : ℕ) (s t : List ℕ) → bytes_eq (take n (drop i s)) t ≡ true → IsInfix t s
slice-IsInfix i n s t h = (
  take i s,
  drop n (drop i s),
  rw (← bytes_eq-eq (take n (drop i s)) t h, take-append-drop n (drop i s), take-append-drop i s),
)

index_loop-IsInfix :
    (s t : List ℕ) (i rounds : ℕ) {j : ℕ} → index_loop s t i rounds ≡ some j → IsInfix t s
unfolding index_loop
index_loop-IsInfix s t i zero h = cc
index_loop-IsInfix s t i (suc rounds) h =
    elim (Bool-cases (bytes_eq (take (length t) (drop i s)) t)) [
      | inl here ↦ slice-IsInfix i (length t) s t here
      | inr missed ↦ index_loop-IsInfix s t (i + 1) rounds (rw missed at h)
    ]

index_loop-some :
    (s t : List ℕ) (i rounds j : ℕ)
    → i ≤ j
    → j < i + rounds
    → bytes_eq (take (length t) (drop j s)) t ≡ true
    → (k : ℕ) × (index_loop s t i rounds ≡ some k)
unfolding index_loop
index_loop-some s t i zero j le lt h = absurd (omega arith)
index_loop-some s t i (suc rounds) j le lt h =
    elim (Bool-cases (bytes_eq (take (length t) (drop i s)) t)) [
      | inl here ↦ (i, rw here)
      | inr missed ↦ rw missed (index_loop-some s t (i + 1) rounds j (ground arith) (omega arith) h)
    ]

found-IsInfix : (s t : List ℕ) → found (index_of_substring s t) ≡ true → IsInfix t s
unfolding index_of_substring
found-IsInfix s t h = elim (Option-cases (index_loop s t 0 (length s + 1 - length t))) [
  | inl missed ↦ let e : found none ≡ true = rw missed at h in cc
  | inr (j, e) ↦ index_loop-IsInfix s t 0 (length s + 1 - length t) e
]

contains-cases :
    (s t : List ℕ)
    → contains s t ≡ true
    → (bytes_eq s t ≡ true)
      ⊎ ((bytes_eq (take (length t) s) t ≡ true)
          ⊎ ((bytes_eq (drop (length s - length t) s) t ≡ true)
              ⊎ (found (index_of_substring s t) ≡ true)))
unfolding contains
contains-cases s t h = ground arith

suffix-IsInfix : (k : ℕ) (s t : List ℕ) → bytes_eq (drop k s) t ≡ true → IsInfix t s
suffix-IsInfix k s t h =
    (take k s, [], rw (append-nil, ← bytes_eq-eq (drop k s) t h, take-append-drop k s))

contains_sound : (s t : List ℕ) → contains s t ≡ true → IsInfix t s
contains_sound s t h = elim (contains-cases s t h) [
  | inl same ↦ ([], [], rw append-nil (bytes_eq-eq s t same))
  | inr (inl front) ↦ slice-IsInfix 0 (length t) s t front
  | inr (inr (inl back)) ↦ suffix-IsInfix (length s - length t) s t back
  | inr (inr (inr inside)) ↦ found-IsInfix s t inside
]

-- Unless nothing stands around it, an infix is shorter, and the loop reaches the place where it
-- begins.
inside-contains :
    (s t before after : List ℕ)
    → s ≡ before ++ (t ++ after)
    → length t < length s
    → contains s t ≡ true
unfolding contains index_of_substring
inside-contains s t before after e shorter =
    let placed : bytes_eq (take (length t) (drop (length before) s)) t ≡ true =
      rw (e, drop-append, take-append) (bytes_eq_refl t) in
    let long : length s ≡ length before + (length t + length after) =
      rw e (rw (length-append, length-append) refl) in
    let (k, hit) =
      index_loop-some s t 0 (length s + 1 - length t) (length before) (omega arith) (omega arith)
        placed in
    ground arith

contains_complete : (s t : List ℕ) → IsInfix t s → contains s t ≡ true
unfolding contains
contains_complete s t ([], [], e) =
    let same : s ≡ t = e ∙ append-nil t in rw same (ground (arith, bytes_eq_refl t))
contains_complete s t (a ∷ before, after, e) =
    inside-contains s t (a ∷ before) after e
      (rw e (omega (arith, length-append before (t ++ after), length-append t after)))
contains_complete s t ([], a ∷ after, e) =
    inside-contains s t [] (a ∷ after) e (rw e (omega (arith, length-append t (a ∷ after))))

-- `contains` holds exactly if the second text stands somewhere in the first, in the same case.
pub contains_iff : (s substr : List ℕ) → (contains s substr ≡ true) ↔ IsInfix substr s
contains_iff s substr = (contains_sound s substr, contains_complete s substr)

any_of :
    (a b c d : Bool)
    → ((a || b || c || d) ≡ true) ↔ ((a ≡ true) ⊎ ((b ≡ true) ⊎ ((c ≡ true) ⊎ (d ≡ true))))
any_of a b c d = ground arith

-- `isNotFoundError` holds exactly if one of its four markers stands somewhere in the message.
pub is_not_found_error_iff :
    (err_str : List ℕ)
    → (is_not_found_error err_str ≡ true) ↔ (
        IsInfix (bytes "not found") err_str
        ⊎ (IsInfix (bytes "404") err_str
            ⊎ (IsInfix (bytes "MANIFEST_UNKNOWN") err_str
                ⊎ IsInfix (bytes "NAME_UNKNOWN") err_str)))
unfolding is_not_found_error
is_not_found_error_iff e =
    let (to, from) =
      any_of (contains e (bytes "not found")) (contains e (bytes "404"))
        (contains e (bytes "MANIFEST_UNKNOWN")) (contains e (bytes "NAME_UNKNOWN")) in
    (
      λ h. elim (to h) [
        | inl a ↦ inl (contains_sound e (bytes "not found") a)
        | inr (inl b) ↦ inr (inl (contains_sound e (bytes "404") b))
        | inr (inr (inl c)) ↦ inr (inr (inl (contains_sound e (bytes "MANIFEST_UNKNOWN") c)))
        | inr (inr (inr d)) ↦ inr (inr (inr (contains_sound e (bytes "NAME_UNKNOWN") d)))
      ],
      λ h. from (elim h [
        | inl a ↦ inl (contains_complete e (bytes "not found") a)
        | inr (inl b) ↦ inr (inl (contains_complete e (bytes "404") b))
        | inr (inr (inl c)) ↦ inr (inr (inl (contains_complete e (bytes "MANIFEST_UNKNOWN") c)))
        | inr (inr (inr d)) ↦ inr (inr (inr (contains_complete e (bytes "NAME_UNKNOWN") d)))
      ]),
    )
