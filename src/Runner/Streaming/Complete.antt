-- ===== src/Runner/Streaming/Complete.antt =====
-- The streaming against the container's log: which lines SubmitLogs is called with.
use oplet.Prelude.{
  ℕ, suc, ◌-◌, ◌<◌, String, ◌≡◌, refl, ap, ◌∙◌, ◌↔◌, inl, inr, true, false, List, [], ◌∷◌, ◌++◌,
  length, Memᴰ, leb, ltb, arith, if◌then◌else◌, Bool-cases, Memᴰ-split, Memᴰ-left, Memᴰ-right,
  ltb→lt, List-cases, All,
}
use mathlib.Core.Path.{subst}
use mathlib.Core.List.{append-nil}
use oplet.Prelude.Int.{ℤ}
use oplet.Api.Trace.{LogEntry}
use oplet.Runner.Streaming.{
  Event, End, closed, done, Read, unreadable, opened, Stream, submit_logs, on_events, stream_logs,
  start,
}
use oplet.Runner.Streaming.Filter.{
  sent, entries, keep, clock_after, submit_logs-effect, on_events-effect, numbered, numbered-below,
  numbered-prefix, numbered-append, Memᴰ-keep, keep-Memᴰ, clock_after-numbered,
}

-- The channel gives the log's first lines, numbered from 0.
abbrev pub IsRead : List (ℤ × String) → Read → Type 0
IsRead log (unreadable gone) = Unit
IsRead log (opened events end) =
    (before : List (ℤ × String)) × (after : List (ℤ × String)) × (log ≡ before ++ after)
    × (entries events ≡ numbered 0 before)

abbrev max : ℕ → ℕ → ℕ
max m n = if leb m n then n else m

max_zero : (n : ℕ) → max n 0 ≡ n
max_zero n = ground arith

zero_max : (n : ℕ) → max 0 n ≡ n
zero_max n = ground arith

max_assoc : (a b c : ℕ) → max (max a b) c ≡ max a (max b c)
max_assoc a b c = ground arith

-- the number of lines that the reads up to the return have given, the longest read alone
abbrev pub longest : List Read → ℕ
longest [] = 0
longest (unreadable true ∷ reads) = 0
longest (unreadable false ∷ reads) = longest reads
longest (opened events closed ∷ reads) =
    let rest = longest reads in max (length (entries events)) rest
longest (opened events done ∷ reads) = length (entries events)

-- Between the rounds: the buffer is empty, and the first `n` lines have been submitted.
record Between (log : List (ℤ × String)) (n : ℕ) (s : Stream) : Type 0 where
  empty : s.logs ≡ []
  clock : s.local_clock ≡ n - 1
  lines : (e : LogEntry) → Memᴰ e (sent s) ↔ (Memᴰ e (numbered 0 log) × (e.clock < n))

numbered-length : (i : ℕ) (lines : List (ℤ × String)) → length (numbered i lines) ≡ length lines
unfolding numbered
numbered-length i [] = refl
numbered-length i (line ∷ lines) = ap suc (numbered-length (suc i) lines)

module _ (before after : List (ℤ × String)) (n c : ℕ) (at : c ≡ n - 1) where
  round-clock : clock_after c (numbered 0 before) ≡ max n (length (numbered 0 before)) - 1
  unfolding clock_after numbered
  round-clock = elim (List-cases before) [
    | inl none_read ↦ rw none_read (ground arith)
    | inr (line, lines, some_read) ↦
        rw (some_read, numbered-length 0 (line ∷ lines), clock_after-numbered c 0 line lines)
          (ground arith)
  ]

  round-lines :
      (old : List LogEntry) (e : LogEntry)
      → (Memᴰ e old ↔ (Memᴰ e (numbered 0 (before ++ after)) × (e.clock < n)))
      → Memᴰ e (old ++ keep c (numbered 0 before))
        ↔ (Memᴰ e (numbered 0 (before ++ after)) × (e.clock < max n (length (numbered 0 before))))
  round-lines old e h = (to, from)
    where
      size : length (numbered 0 before) ≡ length before
      size = numbered-length 0 before

      to :
          Memᴰ e (old ++ keep c (numbered 0 before))
          → Memᴰ e (numbered 0 (before ++ after)) × (e.clock < max n (length (numbered 0 before)))
      to m = elim (Memᴰ-split old _ m) [
        | inl was ↦ let (there, low) = h.0 was in (there, ground (arith, low))
        | inr fresh ↦
            let m' = Memᴰ-keep c (numbered 0 before) fresh in
            let low = numbered-below 0 before m' in
            (numbered-append 0 before after m', ground (arith, size, low))
      ]

      from :
          Memᴰ e (numbered 0 (before ++ after)) × (e.clock < max n (length (numbered 0 before)))
          → Memᴰ e (old ++ keep c (numbered 0 before))
      from (m, low) = elim (Bool-cases (ltb e.clock n)) [
        | inl was ↦ Memᴰ-left old _ (h.1 (m, ltb→lt e.clock n was))
        | inr fresh ↦ Memᴰ-right old _ (
            keep-Memᴰ c 0 before
              (numbered-prefix 0 before after m (ground (arith, size, low, fresh)))
              (ground (arith, at, fresh)))
      ]

round :
    (log : List (ℤ × String)) (n : ℕ) (s : Stream) (events : List Event) (end : End)
    → Between log n s
    → IsRead log (opened events end)
    → Between log
        (max n (length (entries events)))
        (submit_logs (on_events events (record s { logs = [] })))
round log n s events end b (before, after, whole, same) =
    let s₀ : Stream = record s { logs = [] } in
    let (out, clock) = on_events-effect events s₀ in
    let (flushed, empty, kept_clock) = submit_logs-effect (on_events events s₀) in
    let sends : sent (submit_logs (on_events events s₀))
        ≡ sent s ++ keep s.local_clock (numbered 0 before) =
      flushed ∙ out ∙ rw (same, append-nil) in
    record {
      empty = empty;
      clock = kept_clock ∙ clock ∙ rw same (round-clock before after n s.local_clock b.clock);
      lines = λ e.
          rw (sends, same, whole)
            (round-lines before after n s.local_clock b.clock (sent s) e (rw whole at b.lines e));
    }

no_line : {A : Type 0} {k : ℕ} → k < 0 → A
no_line h = let g : ⊥ = omega (arith, h) in elim g [ ]

Between-start : (log : List (ℤ × String)) → Between log 0 start
Between-start log = record {
  empty = refl;
  clock = omega arith;
  lines = λ e. (λ m. elim m [ ], λ h. no_line h.1);
}

-- What has been submitted is the log's first `n` lines.
abbrev Lines : List (ℤ × String) → ℕ → Stream → Type 0
Lines log n s = (e : LogEntry) → Memᴰ e (sent s) ↔ (Memᴰ e (numbered 0 log) × (e.clock < n))

stream_logs-Lines :
    (log : List (ℤ × String)) (n : ℕ) (reads : List Read) (s : Stream)
    → Between log n s
    → All (IsRead log) reads
    → Lines log (max n (longest reads)) (stream_logs reads s)
unfolding stream_logs
stream_logs-Lines log n [] s b reading = λ e. rw (max_zero n) (b.lines e)
stream_logs-Lines log n (unreadable true ∷ reads) s b reading =
    let (flushed, empty, clock) = submit_logs-effect (record s { logs = [] }) in
    λ e. rw (flushed, append-nil, max_zero n) (b.lines e)
stream_logs-Lines log n (unreadable false ∷ reads) s b (_, reading) =
    stream_logs-Lines log n reads (record s { logs = [] })
      record { empty = refl; clock = b.clock; lines = b.lines } reading
stream_logs-Lines log n (opened events closed ∷ reads) s b (here, reading) =
    let next = submit_logs (on_events events (record s { logs = [] })) in
    subst (λ k. Lines log k (stream_logs reads next))
      (max_assoc n (length (entries events)) (longest reads))
      (stream_logs-Lines log (max n (length (entries events))) reads next
        (round log n s events closed b here) reading)
stream_logs-Lines log n (opened events done ∷ reads) s b (here, reading) =
    let after = round log n s events done b here in after.lines

-- If every read of the log gives its first lines, however many, numbered from zero, then the
-- lines that the runner has submitted are exactly those that the longest read has given up to the
-- return, whatever the ticks, failed reads and reconnections in between.
pub stream_logs_complete :
    (log : List (ℤ × String)) (reads : List Read)
    → All (IsRead log) reads
    → (e : LogEntry)
    → Memᴰ e (sent (stream_logs reads start))
      ↔ (Memᴰ e (numbered 0 log) × (e.clock < longest reads))
stream_logs_complete log reads reading e =
    subst (λ k. Memᴰ e (sent (stream_logs reads start)) ↔ (Memᴰ e (numbered 0 log) × (e.clock < k)))
      (zero_max (longest reads)) (stream_logs-Lines log 0 reads start (Between-start log) reading e)
