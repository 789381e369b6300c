-- ===== src/Runner/Streaming.antt =====
-- The log streaming of startLogStreaming (internal/runner/runner.go). One round of its outer loop
-- is a read: GetLogs fails, or it gives a channel, whose entries interleave with the ticks of the
-- timer until the channel closes or the context ends.
pub mod Filter
pub mod Complete
pub mod Ordered
pub mod Container
use oplet.Prelude.{ℕ, String, Bool, true, false, List, [], ◌∷◌, ◌++◌, leb, if◌then◌else◌}
use oplet.Prelude.Int.{ℤ}
use oplet.Api.Trace.{LogEntry}

pub data Event : Type 0 where
  entry : ℤ → String → ℕ → Event
  tick : Event

pub data End : Type 0 where
  closed done : End

pub data Read : Type 0 where
  -- GetLogs fails, and whether the error is ErrContainerNotFound
  unreadable : Bool → Read
  opened : List Event → End → Read

-- The variables of the goroutine, and the batches that it has called SubmitLogs with, the latest last.
-- A call may fail: the goroutine then logs a warning and goes on as after a success, so the batch is
-- lost; whether it arrives is not part of this state.
pub record Stream : Type 0 where
  pub local_clock : ℕ
  pub logs : List LogEntry
  pub submitted : List (List LogEntry)

abbrev pub start : Stream
start = record { local_clock = 0; logs = []; submitted = [] }

-- the call of SubmitLogs, whose error changes nothing here
abbrev submit : List LogEntry → Stream → Stream
submit [] s = s
submit (log ∷ logs) s = record s { logs = []; submitted = s.submitted ++ (log ∷ logs) ∷ [] }

unfoldable pub submit_logs : Stream → Stream
submit_logs s = submit s.logs s

abbrev pub log_entry : ℤ → String → ℕ → LogEntry
log_entry timestamp message clock = record {
  timestamp = timestamp;
  source = "container";
  message = message;
  clock = clock;
}

-- one case of the `select`
unfoldable pub on_event : Event → Stream → Stream
unfolding submit_logs
on_event (entry timestamp message clock) s =
    if leb s.local_clock clock
    then record s { local_clock = clock; logs = s.logs ++ log_entry timestamp message clock ∷ [] }
    else s
on_event tick s = submit_logs s

unfoldable pub on_events : List Event → Stream → Stream
unfolding on_event
on_events [] s = s
on_events (event ∷ events) s = on_events events (on_event event s)

-- The outer loop over the reads that happen, up to its return; the deferred submitLogs runs there.
unfoldable pub stream_logs : List Read → Stream → Stream
unfolding submit_logs on_events
stream_logs [] s = s
stream_logs (unreadable true ∷ reads) s = submit_logs (record s { logs = [] })
stream_logs (unreadable false ∷ reads) s = stream_logs reads (record s { logs = [] })
stream_logs (opened events closed ∷ reads) s =
    stream_logs reads (submit_logs (on_events events (record s { logs = [] })))
stream_logs (opened events done ∷ reads) s = submit_logs (on_events events (record s { logs = [] }))
