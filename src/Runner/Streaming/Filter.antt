-- ===== src/Runner/Streaming/Filter.antt =====
-- One read of the streaming: what its events add, and the filter by the clock on a numbered log.
use oplet.Prelude.{
  ℕ, suc, ◌+◌, ◌<◌, ◌≤◌, String, ◌≡◌, refl, ap, ◌∙◌, inl, inr, List, [], ◌∷◌, ◌++◌, length, Memᴰ,
  leb, le→leb, arith, if◌then◌else◌, Bool-cases,
}
use oplet.Prelude.Int.{ℤ}
use oplet.Api.Trace.{LogEntry}
use oplet.Runner.Streaming.{
  Event, entry, tick, Stream, submit, submit_logs, log_entry, on_event, on_events,
}
use mathlib.Core.List.{append-nil, append_assoc}

-- what has been submitted, in order
abbrev pub flatten : List (List LogEntry) → List LogEntry
flatten [] = []
flatten (batch ∷ batches) = batch ++ flatten batches

abbrev pub sent : Stream → List LogEntry
sent s = flatten s.submitted

-- what has been submitted or waits for the next tick
abbrev pub delivered : Stream → List LogEntry
delivered s = sent s ++ s.logs

-- the entries of the channel
abbrev pub entries : List Event → List LogEntry
entries [] = []
entries (entry timestamp message clock ∷ events) =
    log_entry timestamp message clock ∷ entries events
entries (tick ∷ events) = entries events

-- the test `e.Clock >= localClock` on one read
unfoldable pub keep : ℕ → List LogEntry → List LogEntry
keep c [] = []
keep c (e ∷ es) =
    let taken = keep e.clock es in
    let passed = keep c es in if leb c e.clock then e ∷ taken else passed

unfoldable pub clock_after : ℕ → List LogEntry → ℕ
clock_after c [] = c
clock_after c (e ∷ es) =
    let taken = clock_after e.clock es in
    let passed = clock_after c es in if leb c e.clock then taken else passed

flatten-append :
    (a : List (List LogEntry)) (b : List LogEntry) → flatten (a ++ b ∷ []) ≡ flatten a ++ b
flatten-append [] b = append-nil b
flatten-append (x ∷ a) b = rw (flatten-append a b, append_assoc)

submit-effect :
    (logs : List LogEntry) (s : Stream)
    → s.logs ≡ logs
    → (sent (submit logs s) ≡ delivered s)
      × ((submit logs s).logs ≡ [])
      × ((submit logs s).local_clock ≡ s.local_clock)
submit-effect [] s empty = (rw (empty, append-nil), empty, refl)
submit-effect (log ∷ logs) s full = (rw (full, flatten-append), refl, refl)

pub submit_logs-effect :
    (s : Stream)
    → (sent (submit_logs s) ≡ delivered s)
      × ((submit_logs s).logs ≡ [])
      × ((submit_logs s).local_clock ≡ s.local_clock)
unfolding submit_logs
submit_logs-effect s = submit-effect s.logs s refl

regroup :
    (s : Stream) (e : LogEntry) (es : List LogEntry)
    → (sent s ++ (s.logs ++ e ∷ [])) ++ es ≡ (sent s ++ s.logs) ++ e ∷ es
regroup s e es = rw (append_assoc, append_assoc, append_assoc)

pub on_events-effect :
    (events : List Event) (s : Stream)
    → (delivered (on_events events s) ≡ delivered s ++ keep s.local_clock (entries events))
      × ((on_events events s).local_clock ≡ clock_after s.local_clock (entries events))
unfolding on_events on_event keep clock_after
on_events-effect [] s = (rw append-nil, refl)
on_events-effect (tick ∷ events) s =
    let (same, empty, clock) = submit_logs-effect s in
    let (out, after) = on_events-effect events (submit_logs s) in
    (out ∙ rw (same, empty, clock, append-nil), after ∙ rw clock)
on_events-effect (entry timestamp message clock ∷ events) s =
    elim (Bool-cases (leb s.local_clock clock)) [
      | inl taken ↦
          let e = log_entry timestamp message clock in
          let s' : Stream = record s { local_clock = clock; logs = s.logs ++ e ∷ [] } in
          let (out, after) = on_events-effect events s' in
          let step : on_event (entry timestamp message clock) s ≡ s' = rw taken in
          (
            ap (λ x. delivered (on_events events x)) step
                ∙ out
                ∙ rw taken (regroup s e (keep clock (entries events))),
            ap (λ (x : Stream). (on_events events x).local_clock) step ∙ after ∙ rw taken,
          )
      | inr passed ↦
          let (out, after) = on_events-effect events s in
          let step : on_event (entry timestamp message clock) s ≡ s = rw passed in
          (
            ap (λ x. delivered (on_events events x)) step ∙ out ∙ rw passed,
            ap (λ (x : Stream). (on_events events x).local_clock) step ∙ after ∙ rw passed,
          )
    ]

-- Memberships after the filter, in a log numbered from `i`.
unfoldable pub numbered : ℕ → List (ℤ × String) → List LogEntry
numbered i [] = []
numbered i ((timestamp, message) ∷ lines) = log_entry timestamp message i ∷ numbered (suc i) lines

numbered-above :
    (i : ℕ) (lines : List (ℤ × String)) {e : LogEntry} → Memᴰ e (numbered i lines) → i ≤ e.clock
unfolding numbered
numbered-above i [] m = elim m [ ]
numbered-above i (line ∷ lines) (Memᴰ.head same) = rw same (omega arith)
numbered-above i (line ∷ lines) (Memᴰ.tail later) =
    omega (arith, numbered-above (suc i) lines later)

pub numbered-below :
    (i : ℕ) (lines : List (ℤ × String)) {e : LogEntry}
    → Memᴰ e (numbered i lines)
    → e.clock < i + length lines
unfolding numbered
numbered-below i [] m = elim m [ ]
numbered-below i (line ∷ lines) (Memᴰ.head same) = rw same (omega arith)
numbered-below i (line ∷ lines) (Memᴰ.tail later) =
    omega (arith, numbered-below (suc i) lines later)

pub numbered-prefix :
    (i : ℕ) (before after : List (ℤ × String)) {e : LogEntry}
    → Memᴰ e (numbered i (before ++ after))
    → e.clock < i + length before
    → Memᴰ e (numbered i before)
unfolding numbered
numbered-prefix i [] after m h = let g : ⊥ = omega (arith, numbered-above i after m) in elim g [ ]
numbered-prefix i (line ∷ before) after (Memᴰ.head same) h = Memᴰ.head same
numbered-prefix i (line ∷ before) after (Memᴰ.tail later) h =
    Memᴰ.tail (numbered-prefix (suc i) before after later (omega arith))

pub numbered-append :
    (i : ℕ) (before after : List (ℤ × String)) {e : LogEntry}
    → Memᴰ e (numbered i before)
    → Memᴰ e (numbered i (before ++ after))
unfolding numbered
numbered-append i [] after m = elim m [ ]
numbered-append i (line ∷ before) after (Memᴰ.head same) = Memᴰ.head same
numbered-append i (line ∷ before) after (Memᴰ.tail later) =
    Memᴰ.tail (numbered-append (suc i) before after later)

Memᴰ-tails :
    {A : Type 0} {a x : A} {xs ys : List A}
    → (Memᴰ a xs → Memᴰ a ys)
    → Memᴰ a (x ∷ xs)
    → Memᴰ a (x ∷ ys)
Memᴰ-tails f (Memᴰ.head same) = Memᴰ.head same
Memᴰ-tails f (Memᴰ.tail later) = Memᴰ.tail (f later)

pub Memᴰ-keep : (c : ℕ) (es : List LogEntry) {e : LogEntry} → Memᴰ e (keep c es) → Memᴰ e es
unfolding keep
Memᴰ-keep c [] m = elim m [ ]
Memᴰ-keep c (x ∷ es) m = elim (Bool-cases (leb c x.clock)) [
  | inl taken ↦ Memᴰ-tails (Memᴰ-keep x.clock es) (rw taken at m)
  | inr passed ↦ Memᴰ.tail (Memᴰ-keep c es (rw passed at m))
]

pub keep-Memᴰ :
    (c i : ℕ) (lines : List (ℤ × String)) {e : LogEntry}
    → Memᴰ e (numbered i lines)
    → c ≤ e.clock
    → Memᴰ e (keep c (numbered i lines))
unfolding keep numbered
keep-Memᴰ c i [] m h = elim m [ ]
keep-Memᴰ c i (line ∷ lines) (Memᴰ.head same) h = rw (le→leb c i (rw same at h)) (Memᴰ.head same)
keep-Memᴰ c i (line ∷ lines) {e} (Memᴰ.tail later) h = elim (Bool-cases (leb c i)) [
  | inl taken ↦ rw taken (
      Memᴰ.tail
        (keep-Memᴰ i (suc i) lines later (omega (arith, numbered-above (suc i) lines later))))
  | inr passed ↦ rw passed (keep-Memᴰ c (suc i) lines later h)
]

pub clock_after-numbered :
    (c i : ℕ) (line : ℤ × String) (lines : List (ℤ × String))
    → clock_after c (numbered i (line ∷ lines))
      ≡ (if leb c (i + length lines) then i + length lines else c)
unfolding clock_after numbered
clock_after-numbered c i line [] = ground arith
clock_after-numbered c i line (next ∷ lines) =
    ground
      (arith, clock_after-numbered c (suc i) next lines, clock_after-numbered i (suc i) next lines)
