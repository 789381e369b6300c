-- ===== src/Forms/Task/Arranged.antt =====
-- The fields of a task's form (newForm of internal/http/handler/webui/common/task/form.go).
use oplet.Strings.Order.{text_le_total, text_le_trans}
use oplet.Prelude.{
  [], ◌∷◌, String, ◌≡◌, true, false, List, Permᴰ, map, arith, All, ◌∙◌, sym, Bool, inl, inr,
  Bool-cases,
}
use oplet.Prelude.Sorting.{Pairwise, sort_by-perm, sort_by-Pairwise}
use oplet.Forms.{Field, ◌∷◌}
use oplet.Forms.Task.{TaskInput, input_field, comes_first, new_form, sort_by, text_le}

-- Only the first field is required, or the two are alike in this and the names are in order.
pub data Leads (a b : Field) : Type 0 where
  required_first : a.required ≡ true → b.required ≡ false → Leads a b
  by_name : a.required ≡ b.required → text_le a.name b.name ≡ true → Leads a b

comes_first-Leads : (a b : Field) → comes_first a b ≡ true → Leads a b
comes_first-Leads a b h = elim (Bool-cases a.required) [
  | inl e ↦ elim (Bool-cases b.required) [
    | inl f ↦ by_name (e ∙ sym f) (rw (e, f) at h)
    | inr f ↦ required_first e f
  ]
  | inr e ↦ elim (Bool-cases b.required) [
    | inl f ↦ absurd (let g : ◌≡◌ {A = Bool} false true = rw (e, f) at h in cc)
    | inr f ↦ by_name (e ∙ sym f) (rw (e, f) at h)
  ]
]

comes_first_total : (a b : Field) → comes_first a b ≡ false → comes_first b a ≡ true
comes_first_total a b h = let k = text_le_total a.name b.name in ground arith

comes_first_trans :
    (a b c : Field) → comes_first a b ≡ true → comes_first b c ≡ true → comes_first a c ≡ true
comes_first_trans a b c h k = let l = text_le_trans a.name b.name c.name in ground arith

Pairwise-weaken :
    {R S : Field → Field → Type 0} (fields : List Field)
    → ((a b : Field) → R a b → S a b)
    → Pairwise R fields
    → Pairwise S fields
Pairwise-weaken [] w h = tt
Pairwise-weaken {R} {S} (f ∷ fields) w (h, k) = (All-weaken fields h, Pairwise-weaken fields w k)
  where
    All-weaken : (gs : List Field) → All (R f) gs → All (S f) gs
    All-weaken [] h = tt
    All-weaken (g ∷ gs) h = (w f g h.0, All-weaken gs h.1)

-- The form has one field for each input, the required fields first, and each group in the order of
-- the names.
pub new_form-Leads :
    (inputs : List TaskInput) (default_values : List (String × String))
    → Permᴰ (new_form inputs default_values).fields (map input_field inputs)
      × Pairwise Leads (new_form inputs default_values).fields
unfolding new_form
new_form-Leads inputs default_values = (
  sort_by-perm comes_first (map input_field inputs),
  Pairwise-weaken (sort_by comes_first (map input_field inputs)) comes_first-Leads (
      sort_by-Pairwise comes_first (λ a b. comes_first a b ≡ true) (λ a b h. h) comes_first_total
        comes_first_trans (map input_field inputs)),
)
