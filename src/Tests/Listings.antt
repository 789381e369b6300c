-- ===== src/Tests/Listings.antt =====
-- The listings of one user.
use oplet.Prelude.{refl, All, some, [], ◌∷◌}
use oplet.Prelude.Int.{pos}
use oplet.Store.Session.{Database, with_database}
use oplet.Store.Engine.{memory}
use oplet.Execution.Listing.{ExecutionFilters, search_executions_for_user}
use oplet.Execution.Listing.Own.{IsOwn, search_executions_for_user-IsOwn}
use oplet.Tests.Data.{pending, database}

abbrev shared : Database
shared = database (pending 1 7 10 ∷ record (pending 2 7 20) { user_id = 2 } ∷ pending 3 8 30 ∷ [])

abbrev filters : ExecutionFilters
filters = record {
  status = "pending";
  user_id = 2;
  task_id = 0;
  date_from = "2024-01-01";
  date_to = "";
}

search_executions_for_user-IsOwn_example : All (IsOwn 1 shared) (pending 3 8 30 ∷ [])
unfolding search_executions_for_user memory with_database
search_executions_for_user-IsOwn_example =
    search_executions_for_user-IsOwn memory shared 1 (λ s. some 15) filters (pos 1) (pos 0)
      (pending 3 8 30 ∷ []) refl
