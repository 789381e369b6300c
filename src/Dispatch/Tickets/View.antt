-- ===== src/Dispatch/Tickets/View.antt =====
-- What writing rows does to the tickets.
use oplet.Prelude.{
  ℕ, ◌≡◌, refl, sym, ap, ◌∙◌, ◌≢◌, inl, inr, List, [], ◌∷◌, ◌++◌, map, All, Bool-cases, nat_eq_iff,
  Memᴰ, All-append, true, All-Memᴰ, false,
}
use oplet.Store.Rows.{TaskExecution}
use oplet.Store.Orm.{same_id}
use oplet.Store.Session.{executions_table}
use oplet.Execution.Queue.{saved_rows}
use oplet.Dispatch.Tickets.{Ticket, ticket, waits, tickets}

-- Every row has its own id.
unfoldable pub Distinct : List TaskExecution → Type 0
Distinct [] = Unit
Distinct (e ∷ rows) = All (λ s. s.id ≢ e.id) rows × Distinct rows

pub tickets-append :
    (rows more : List TaskExecution) → tickets (rows ++ more) ≡ tickets rows ++ tickets more
tickets-append [] more = refl
tickets-append (e ∷ rows) more = elim (Bool-cases (waits e)) [
  | inl yes_ ↦ rw (yes_, tickets-append rows more)
  | inr no_ ↦ rw (no_, tickets-append rows more)
]

-- A change that keeps each row's id, its time and whether it waits.
module _ (f : TaskExecution → TaskExecution) (same : (s : TaskExecution) → ticket (f s) ≡ ticket s)
    (keep : (s : TaskExecution) → waits (f s) ≡ waits s) where
  pub tickets-map : (rows : List TaskExecution) → tickets (map f rows) ≡ tickets rows
  tickets-map [] = refl
  tickets-map (e ∷ rows) = rw (keep e, same e, tickets-map rows)

-- A change that keeps each row's id.
module _ (f : TaskExecution → TaskExecution) (same : (s : TaskExecution) → (f s).id ≡ s.id) where
  All-map :
      (n : ℕ) (rows : List TaskExecution)
      → All (λ s. s.id ≢ n) rows
      → All (λ s. s.id ≢ n) (map f rows)
  All-map n [] h = tt
  All-map n (s ∷ rows) (here, later) = (λ e. here (sym (same s) ∙ e), All-map n rows later)

  pub Distinct-map : (rows : List TaskExecution) → Distinct rows → Distinct (map f rows)
  unfolding Distinct
  Distinct-map [] h = tt
  Distinct-map (s ∷ rows) (here, later) =
      (rw (same s) (All-map s.id rows here), Distinct-map rows later)

pub Distinct-saved_rows :
    (e : TaskExecution) (rows : List TaskExecution) → Distinct rows → Distinct (saved_rows e rows)
Distinct-saved_rows e = Distinct-map _ (λ s. elim (Bool-cases (same_id executions_table e s)) [
  | inl hit ↦ rw hit ((nat_eq_iff e.id s.id).0 hit)
  | inr miss ↦ rw miss
])

pub Distinct-append :
    (rows : List TaskExecution) (row : TaskExecution)
    → All (λ s. s.id ≢ row.id) rows
    → Distinct rows
    → Distinct (rows ++ row ∷ [])
unfolding Distinct
Distinct-append [] row fresh h = (tt, tt)
Distinct-append (s ∷ rows) row (this, fresh) (here, later) = (
  All-append (λ (x : TaskExecution). x.id ≢ s.id) rows (row ∷ []) here ((λ e. this (sym e)), tt),
  Distinct-append rows row fresh later,
)

saved_rows-miss :
    (e : TaskExecution) (rows : List TaskExecution)
    → All (λ s. s.id ≢ e.id) rows
    → saved_rows e rows ≡ rows
saved_rows-miss e [] h = refl
saved_rows-miss e (s ∷ rows) (here, later) = elim (Bool-cases (same_id executions_table e s)) [
  | inl hit ↦ elim (here (sym ((nat_eq_iff e.id s.id).0 hit))) [ ]
  | inr miss ↦ rw (miss, saved_rows-miss e rows later)
]

saved_rows-hit :
    (e s : TaskExecution) (rows : List TaskExecution)
    → e.id ≡ s.id
    → All (λ x. x.id ≢ s.id) rows
    → saved_rows e (s ∷ rows) ≡ e ∷ rows
saved_rows-hit e s rows same others =
    rw ((nat_eq_iff e.id s.id).1 same, saved_rows-miss e rows (rw same others))

saved_rows-skip :
    (e x : TaskExecution) (rows : List TaskExecution)
    → x.id ≢ e.id
    → saved_rows e (x ∷ rows) ≡ x ∷ saved_rows e rows
saved_rows-skip e x rows other = elim (Bool-cases (same_id executions_table e x)) [
  | inl hit ↦ elim (other (sym ((nat_eq_iff e.id x.id).0 hit))) [ ]
  | inr miss ↦ rw miss
]

-- One row is rewritten.
module _ (e : TaskExecution) where
  pub saved_rows-kept :
      (rows : List TaskExecution) (s : TaskExecution)
      → ticket e ≡ ticket s
      → waits e ≡ waits s
      → Distinct rows
      → Memᴰ s rows
      → tickets (saved_rows e rows) ≡ tickets rows
  unfolding Distinct
  saved_rows-kept [] s t w d m = elim m [ ]
  saved_rows-kept (x ∷ rows) s t w (others, d) (Memᴰ.head same) =
      let hit =
        saved_rows-hit e x rows (ap (λ (k : Ticket). k.number) (t ∙ ap ticket same)) others in
      ap tickets hit ∙ rw (w, t, same)
  saved_rows-kept (x ∷ rows) s t w (others, d) (Memᴰ.tail later) =
      let skip = saved_rows-skip e x rows (λ q.
        All-Memᴰ (λ y. y.id ≢ x.id) rows others later
          (sym (q ∙ ap (λ (k : Ticket). k.number) t))) in
      ap tickets skip ∙ rw (saved_rows-kept rows s t w d later)

  pub saved_rows-withdrawn :
      (rows : List TaskExecution) (s : TaskExecution)
      → ticket e ≡ ticket s
      → waits s ≡ true
      → waits e ≡ false
      → Distinct rows
      → Memᴰ s rows
      → (before : List Ticket) × (after : List Ticket) × (tickets rows ≡ before ++ ticket s ∷ after)
        × (tickets (saved_rows e rows) ≡ before ++ after)
  unfolding Distinct
  saved_rows-withdrawn [] s t w v d m = elim m [ ]
  saved_rows-withdrawn (x ∷ rows) s t w v (others, d) (Memᴰ.head same) =
      let hit =
        saved_rows-hit e x rows (ap (λ (k : Ticket). k.number) (t ∙ ap ticket same)) others in
      ([], tickets rows, rw (← same, w), ap tickets hit ∙ rw v)
  saved_rows-withdrawn (x ∷ rows) s t w v (others, d) (Memᴰ.tail later) =
      let (before, after, was, is) = saved_rows-withdrawn rows s t w v d later in
      let skip = saved_rows-skip e x rows (λ q.
        All-Memᴰ (λ y. y.id ≢ x.id) rows others later
          (sym (q ∙ ap (λ (k : Ticket). k.number) t))) in
      elim (Bool-cases (waits x)) [
        | inl waiting ↦
            (ticket x ∷ before, after, rw (waiting, was), ap tickets skip ∙ rw (waiting, is))
        | inr not_ ↦ (before, after, rw (not_, was), ap tickets skip ∙ rw (not_, is))
      ]
