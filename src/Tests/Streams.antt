-- ===== src/Tests/Streams.antt =====
-- A container's log, streamed over three reads.
use oplet.Prelude.{
  ℕ, String, ◌==◌, ◌≡◌, refl, true, false, Option, some, List, [], ◌∷◌, if◌then◌else◌,
}
use oplet.Prelude.Int.{ℤ, pos}
use oplet.Task.Executor.Logs.{LogEntry, log_line}
use oplet.Runner.Streaming.{Read, unreadable, opened, entry, tick, closed}

abbrev parse : String → Option ℤ
parse s = if s == "2025-01-01T00:00:01Z" then some (pos 1) else some (pos 2)

abbrev raw : List String
raw = "2025-01-01T00:00:01Z fetching" ∷ "2025-01-01T00:00:02Z all done" ∷ []

abbrev now : ℕ → ℤ
now i = pos 99

unstamped : log_line parse (pos 99) "no stamp" ≡ (pos 99, "no stamp")
unfolding log_line
unstamped = refl

abbrev reads : List Read
reads =
    opened (entry (pos 1) "fetching" 0 ∷ tick ∷ []) closed
    ∷ unreadable false
    ∷ opened (entry (pos 1) "fetching" 0 ∷ entry (pos 2) "all done" 1 ∷ []) closed
    ∷ unreadable true
    ∷ []

abbrev emitted : List LogEntry
emitted =
    record { timestamp = pos 1; message = "fetching"; clock = 0 }
    ∷ record { timestamp = pos 2; message = "all done"; clock = 1 }
    ∷ []
