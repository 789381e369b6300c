-- ===== src/Tests/Queue.antt =====
-- NextTask on a queue of three executions.
use oplet.Prelude.{some, [], ◌∷◌, refl}
use oplet.Store.Rows.{TaskExecution}
use oplet.Store.Session.{Database, with_tx}
use oplet.Store.Engine.{memory}
use oplet.Crypto.{random_token}
use oplet.Execution.{next_task, claim}
use oplet.Execution.Queue.{Claims, next_task-Claims}
use oplet.Tests.Data.{pending, database, one_byte}

abbrev three : Database
three =
    database
      (record (pending 1 7 10) { started_at = some 12 } ∷ pending 2 7 20 ∷ pending 3 8 15 ∷ [])

abbrev claimed : TaskExecution
claimed = claim 30 "ab" (pending 3 8 15)

abbrev after : Database
after = database (record (pending 1 7 10) { started_at = some 12 } ∷ pending 2 7 20 ∷ claimed ∷ [])

next_task-Claims_example : Claims one_byte 30 three claimed after
unfolding next_task memory with_tx random_token
next_task-Claims_example = next_task-Claims memory one_byte 30 three claimed after refl

abbrev busy : Database
busy = database (record (pending 1 7 10) { started_at = some 12 } ∷ [])
