-- ===== src/Dispatch/Served.antt =====
-- First come, first served: how many claims an execution waits for.
use oplet.Prelude.{
  ℕ, suc, ◌+◌, ◌≤◌, ◌<◌, ◌≡◌, sym, ap, ◌∙◌, ◌⊎◌, inl, inr, List, [], ◌∷◌, ◌++◌, length, Memᴰ,
  Memᴰ-split, Memᴰ-left, Memᴰ-right, All-Memᴰ, leb, le→leb, arith, if◌then◌else◌, ok,
}
use oplet.Crypto.{Random}
use oplet.Store.Rows.{Time, TaskExecution}
use oplet.Store.Session.{Database, Gorm}
use oplet.Execution.{next_task}
use oplet.Dispatch.{dispatched}
use oplet.Dispatch.Tickets.{Ticket, view, take, QueueStep, taken}
use oplet.Dispatch.Tickets.View.{Distinct}
use oplet.Dispatch.Refines.{Step-QueueStep}

-- Successful calls of NextTask one after the other, and the ids that they answer.
pub data Serves (gorm : Gorm) : Database → List ℕ → Database → Type 0 where
  done : {db : Database} → Serves gorm db [] db
  next :
      {db db₁ db₂ : Database} {ids : List ℕ} (random : Random) (now : Time) (e : TaskExecution)
      → next_task gorm random now db ≡ (ok e, db₁)
      → Serves gorm db₁ ids db₂
      → Serves gorm db (e.id ∷ ids) db₂

-- the number of tickets that are not newer, its own included
abbrev pub rank : Ticket → List Ticket → ℕ
rank t [] = 0
rank t (u ∷ q) = (if leb u.at t.at then 1 else 0) + rank t q

rank-append : (t : Ticket) (q r : List Ticket) → rank t (q ++ r) ≡ rank t q + rank t r
rank-append t [] r = omega arith
rank-append t (u ∷ q) r = ground (arith, rank-append t q r)

rank-middle :
    (t u : Ticket) (before after : List Ticket)
    → u.at ≤ t.at
    → rank t (before ++ u ∷ after) ≡ suc (rank t (before ++ after))
rank-middle t u before after h =
    ground (arith, rank-append t before (u ∷ after), rank-append t before after, le→leb u.at t.at h)

rank-positive : (t : Ticket) (q : List Ticket) → Memᴰ t q → 0 < rank t q
rank-positive t [] m = elim m [ ]
rank-positive t (u ∷ q) (Memᴰ.head same) = ground (arith, le→leb u.at t.at (rw same (omega arith)))
rank-positive t (u ∷ q) (Memᴰ.tail later) = ground (arith, rank-positive t q later)

Memᴰ-middle :
    {A : Type 0} {a : A} (b : A) (before after : List A)
    → Memᴰ a (before ++ b ∷ after)
    → (a ≡ b) ⊎ Memᴰ a (before ++ after)
Memᴰ-middle b before after m = elim (Memᴰ-split before (b ∷ after) m) [
  | inl early ↦ inr (Memᴰ-left before after early)
  | inr (Memᴰ.head same) ↦ inl same
  | inr (Memᴰ.tail late) ↦ inr (Memᴰ-right before after late)
]

take-rank :
    (t : Ticket) {n : ℕ} {q q' : List Ticket}
    → QueueStep (take n) q q'
    → Memᴰ t q
    → (t.number ≡ n) ⊎ (Memᴰ t q' × (rank t q ≡ suc (rank t q')))
take-rank t {n} {q} {q'} (taken u before after named was is oldest) m =
    elim (Memᴰ-middle u before after (rw was at m)) [
      | inl same ↦ inl (ap (λ (k : Ticket). k.number) same ∙ named)
      | inr stays ↦ inr (
        rw is stays,
        ap (rank t) was
            ∙ rank-middle t u before after (All-Memᴰ (λ v. u.at ≤ v.at) q oldest m)
            ∙ ap suc (ap (rank t) (sym is)),
      )
    ]

-- If every execution has its own id and an execution waits, then it is among those that NextTask
-- answers in a row as soon as there are as many answers as executions that wait and are not newer
-- than it, itself included.
pub Serves-Memᴰ :
    (gorm : Gorm) (db db' : Database) (ids : List ℕ) (t : Ticket)
    → Serves gorm db ids db'
    → Distinct db.executions
    → Memᴰ t (view db)
    → rank t (view db) ≤ length ids
    → Memᴰ t.number ids
Serves-Memᴰ gorm db db' ids t done d m h =
    let g : ⊥ = omega (arith, rank-positive t (view db) m) in elim g [ ]
Serves-Memᴰ gorm db db' ids t (next {db₁ = db₁} {ids = ids₁} random now e h serves) d m bound =
    let (step, d') =
      Step-QueueStep gorm record { database = db; in_flight = [] }
        record { database = db₁; in_flight = [] } (dispatched random now e h) tt d in
    elim (take-rank t step m) [
      | inl served ↦ Memᴰ.head served
      | inr (stays, less) ↦
          Memᴰ.tail (Serves-Memᴰ gorm db₁ db' ids₁ t serves d' stays (omega (arith, less)))
    ]
