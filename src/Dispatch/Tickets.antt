-- ===== src/Dispatch/Tickets.antt =====
-- The queue as its clients see it: a ticket for each waiting execution, and what an operation may do
-- to the tickets. Statuses, logs, tokens and the rows that do not wait are forgotten.
pub mod View
use oplet.Prelude.{ℕ, ◌≤◌, ◌≡◌, Bool, ◌&&◌, List, [], ◌∷◌, ◌++◌, All, if◌then◌else◌}
use oplet.Store.Rows.{Time, TaskExecution}
use oplet.Store.Orm.{is_none, is_live}
use oplet.Store.Session.{Database, executions_table}

pub record Ticket : Type 0 where
  pub number : ℕ
  pub at : Time

abbrev pub ticket : TaskExecution → Ticket
ticket e = record { number = e.id; at = e.created_at }

abbrev pub waits : TaskExecution → Bool
waits e = is_live executions_table e && is_none e.started_at

abbrev pub tickets : List TaskExecution → List Ticket
tickets [] = []
tickets (e ∷ rows) = let rest = tickets rows in if waits e then ticket e ∷ rest else rest

abbrev pub view : Database → List Ticket
view db = tickets db.executions

pub data Operation : Type 0 where
  submit report : Operation
  take : ℕ → Operation
  other : Operation

-- What an operation may do to the tickets.
pub data QueueStep : Operation → List Ticket → List Ticket → Type 0 where
  put : {q q' : List Ticket} (t : Ticket) → q' ≡ q ++ t ∷ [] → QueueStep submit q q'
  started : {q : List Ticket} → QueueStep submit q q
  taken :
      {q q' : List Ticket} {n : ℕ} (t : Ticket) (before after : List Ticket)
      → t.number ≡ n
      → q ≡ before ++ t ∷ after
      → q' ≡ before ++ after
      → All (λ u. t.at ≤ u.at) q
      → QueueStep (take n) q q'
  withdrawn :
      {q q' : List Ticket} (t : Ticket) (before after : List Ticket)
      → q ≡ before ++ t ∷ after
      → q' ≡ before ++ after
      → QueueStep report q q'
  kept : {q : List Ticket} → QueueStep report q q
  idle : {q : List Ticket} → QueueStep other q q
