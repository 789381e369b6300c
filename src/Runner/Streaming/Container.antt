-- ===== src/Runner/Streaming/Container.antt =====
-- The streaming on top of the Docker executor's GetLogs, against the lines of the container's log.
use oplet.Prelude.{ℕ, String, ◌≡◌, true, Option, some, List, [], ◌∷◌, ◌++◌, map, All, ok, err}
use oplet.Prelude.Int.{ℤ}
use oplet.Api.Trace
use oplet.Task.Executor.Logs.{LogEntry, contains_text, split_space, get_logs}
use oplet.Runner.Streaming.{Read, unreadable, opened, log_entry}
use oplet.Runner.Streaming.Filter.{entries}

module _ (parse : String → Option ℤ) where
  -- A line as the daemon writes it: a timestamp, a space, and the text.
  pub record IsStamped (line : String) : Type 0 where
    pub stamp : String
    pub text : String
    pub time : ℤ
    pub has_t : contains_text line "T" ≡ true
    pub has_z : contains_text line "Z" ≡ true
    pub split : split_space line ≡ some (stamp, text)
    pub parsed : parse stamp ≡ some time

  -- the timestamps and the texts of the lines
  abbrev pub container_log : (raw : List String) → All IsStamped raw → List (ℤ × String)
  container_log [] h = []
  container_log (line ∷ raw) (h, rest) = (h.time, h.text) ∷ container_log raw rest

  -- what the streaming makes of an entry
  abbrev pub received : LogEntry → Trace.LogEntry
  received e = log_entry e.timestamp e.message e.clock

  -- A read of the container's log: GetLogs fails on a container that is or is not there, or its
  -- channel has given the entries of the log's first lines.
  abbrev pub Follows : List String → Read → Type 0
  Follows raw (unreadable gone) =
      (now : ℕ → ℤ) × (e : String) × (get_logs parse now (err e) ≡ err gone)
  Follows raw (opened events end) =
      (now : ℕ → ℤ) × (before : List String) × (after : List String) × (raw ≡ before ++ after)
      × (es : List LogEntry) × (get_logs parse now (ok before) ≡ ok es)
      × (entries events ≡ map received es)
