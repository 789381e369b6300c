-- ===== src/Task/Executor/Logs.antt =====
-- GetLogs of internal/task/docker/executor.go: the entries that it sends for the lines that its
-- scanner reads. Timestamps are in microseconds.
use Prim.Native.Char.{code, Char}
use text.Mathlib.Text.{starts_with}
use oplet.Prelude.{
  ℕ, suc, String, ◌&&◌, ◌||◌, Bool, Option, none, some, List, [], ◌∷◌, Result, ok, err, nat_eq,
  if◌then◌else◌,
}
use oplet.Prelude.Int.{ℤ}

-- task.LogEntry
pub record LogEntry : Type 0 where
  pub timestamp : ℤ
  pub message : String
  pub clock : ℕ

-- strings.Contains
unfoldable pub contains_text : String → String → Bool
contains_text String.[] t = starts_with "" t
contains_text (String.◌∷◌ c s) t = starts_with (String.◌∷◌ c s) t || contains_text s t

abbrev put_first : Char → Option (String × String) → Option (String × String)
put_first c none = none
put_first c (some (a, b)) = some (String.◌∷◌ c a, b)

-- strings.SplitN(message, " ", 2), `none` for one part
unfoldable pub split_space : String → Option (String × String)
split_space String.[] = none
split_space (String.◌∷◌ c s) =
    let rest = split_space s in if nat_eq (code c) b' ' then some ("", s) else put_first c rest

-- `parse` is time.Parse for RFC 3339.
module _ (parse : String → Option ℤ) where
  abbrev or_now : ℤ → Option ℤ → ℤ
  or_now now none = now
  or_now now (some ts) = ts

  abbrev pub stamped_parts : ℤ → String → Option (String × String) → ℤ × String
  stamped_parts now message none = (now, message)
  stamped_parts now message (some (stamp, line)) = (or_now now (parse stamp), line)

  -- the timestamp and the text of a line
  unfoldable pub log_line : ℤ → String → ℤ × String
  unfolding contains_text split_space
  log_line now message =
      if (contains_text message "T" && contains_text message "Z")
      then stamped_parts now message (split_space message)
      else (now, message)

  abbrev entry_of : ℕ → ℤ × String → LogEntry
  entry_of clock (timestamp, line) = record { timestamp = timestamp; message = line; clock = clock }

  -- the loop over the lines; `now` is time.Now() at each of them
  unfoldable pub scan : (ℕ → ℤ) → ℕ → List String → List LogEntry
  unfolding log_line
  scan now clock [] = []
  scan now clock (message ∷ lines) =
      entry_of clock (log_line (now clock) message) ∷ scan now (suc clock) lines

  -- `read` is what ContainerLogs and the scanner give; an error is told as ErrContainerNotFound or
  -- another one.
  unfoldable pub get_logs : (ℕ → ℤ) → Result String (List String) → Result Bool (List LogEntry)
  unfolding contains_text scan
  get_logs now (err e) = err (contains_text e "No such container")
  get_logs now (ok lines) = ok (scan now 0 lines)
