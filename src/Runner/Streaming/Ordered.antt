-- ===== src/Runner/Streaming/Ordered.antt =====
-- The order in which startLogStreaming (internal/runner/runner.go) hands over the lines.
use mathlib.Core.List.{append-nil, append_assoc}
use oplet.Prelude.{
  ℕ, ◌≤◌, List, [], ◌∷◌, ◌++◌, All, arith, Bool-cases, inl, inr, leb, true, false, All-append,
}
use oplet.Prelude.Sorting.{Pairwise}
use oplet.Api.Trace.{LogEntry}
use oplet.Runner.Streaming.{
  Event, Read, unreadable, opened, closed, done, Stream, submit_logs, on_events, stream_logs, start,
}
use oplet.Runner.Streaming.Filter.{
  sent, delivered, entries, keep, clock_after, submit_logs-effect, on_events-effect,
}

-- The entries stand in the order of their clocks.
abbrev pub IsOrdered : List LogEntry → Type 0
IsOrdered = Pairwise (λ (a b : LogEntry). a.clock ≤ b.clock)

-- in order, and none after the local clock
abbrev IsHeld : ℕ → List LogEntry → Type 0
IsHeld c es = IsOrdered es × All (λ (e : LogEntry). e.clock ≤ c) es

IsOrdered-snoc :
    (e : LogEntry) (es : List LogEntry)
    → IsOrdered es
    → All (λ (x : LogEntry). x.clock ≤ e.clock) es
    → IsOrdered (es ++ e ∷ [])
IsOrdered-snoc e [] h below = (tt, tt)
IsOrdered-snoc e (x ∷ es) (h, rest) (low, below) = (
  All-append (λ (y : LogEntry). x.clock ≤ y.clock) es (e ∷ []) h (low, tt),
  IsOrdered-snoc e es rest below,
)

All-raise :
    (c d : ℕ) (es : List LogEntry)
    → c ≤ d
    → All (λ (e : LogEntry). e.clock ≤ c) es
    → All (λ (e : LogEntry). e.clock ≤ d) es
All-raise c d [] le h = tt
All-raise c d (e ∷ es) le (h, rest) = (omega (arith, h, le), All-raise c d es le rest)

keep-IsHeld :
    (es old : List LogEntry) (c : ℕ) → IsHeld c old → IsHeld (clock_after c es) (old ++ keep c es)
unfolding keep clock_after
keep-IsHeld [] old c h = rw (append-nil old) h
keep-IsHeld (e ∷ es) old c (order, below) = elim (Bool-cases (leb c e.clock)) [
  | inr passed ↦ rw passed (keep-IsHeld es old c (order, below))
  | inl taken ↦
      let le : c ≤ e.clock = ground (arith, taken) in
      let raised = All-raise c e.clock old le below in
      let h : IsHeld e.clock (old ++ e ∷ []) = (
        IsOrdered-snoc e old order raised,
        All-append (λ (x : LogEntry). x.clock ≤ e.clock) old (e ∷ []) raised (omega arith, tt),
      ) in
      let later = keep-IsHeld es (old ++ e ∷ []) e.clock h in
      rw taken (rw (append_assoc old (e ∷ []) (keep e.clock es)) at later)
]

abbrev IsKept : Stream → Type 0
IsKept s = IsHeld s.local_clock (sent s)

submit_logs-IsKept : (s : Stream) → IsHeld s.local_clock (delivered s) → IsKept (submit_logs s)
submit_logs-IsKept s h = let (same, empty, clock) = submit_logs-effect s in rw (same, clock) h

cleared-IsKept :
    (events : List Event) (s : Stream)
    → IsKept s
    → IsKept (submit_logs (on_events events (record s { logs = [] })))
cleared-IsKept events s h =
    let s₀ : Stream = record s { logs = [] } in
    let (out, clock) = on_events-effect events s₀ in
    submit_logs-IsKept (on_events events s₀) (
      rw (out, clock)
        (keep-IsHeld (entries events) (delivered s₀) s.local_clock (rw (append-nil (sent s)) h)))

stream_logs-IsKept : (reads : List Read) (s : Stream) → IsKept s → IsKept (stream_logs reads s)
unfolding stream_logs
stream_logs-IsKept [] s h = h
stream_logs-IsKept (unreadable true ∷ reads) s h =
    submit_logs-IsKept (record s { logs = [] }) (rw (append-nil (sent s)) h)
stream_logs-IsKept (unreadable false ∷ reads) s h =
    stream_logs-IsKept reads (record s { logs = [] }) h
stream_logs-IsKept (opened events closed ∷ reads) s h =
    stream_logs-IsKept reads (submit_logs (on_events events (record s { logs = [] })))
      (cleared-IsKept events s h)
stream_logs-IsKept (opened events done ∷ reads) s h = cleared-IsKept events s h

-- Whatever is read, the lines are handed over in the order of their clocks.
pub stream_logs-IsOrdered : (reads : List Read) → IsOrdered (sent (stream_logs reads start))
stream_logs-IsOrdered reads = (stream_logs-IsKept reads start (tt, tt)).0
