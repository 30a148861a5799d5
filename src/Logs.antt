-- ===== src/Logs.antt =====
-- src/cli/commands/logs.ts: how a log file is read as entries, filtered and shown. A text is a list of code
-- points; `Date` of the language is a parameter, which gives the milliseconds of a text or NaN, here `none`.
pub mod Dump
pub mod Selection
use Prim.Native.Char.{Char, code}
use Prim.Native.String.{[] as empty, ◌∷◌ as ◌▹◌}
use bitsocial_cli.Common.{
  ℕ, zero, suc, ◌-◌, String, ◌<>◌, Bool, true, false, not, ◌&&◌, ◌||◌, Option, none, some, List, [],
  ◌∷◌, ◌++◌, map, length, drop, keep, is_some, ltb, leb, ◌==◌, ◌>>=◌, split_on, join, if◌then◌else◌,
}

pub data Stream : Type 0 where
  stdout stderr : Stream

-- `null` is the outer `none`; a date that is no date is the inner one.
pub record LogEntry : Type 0 where
  pub timestamp : Option (Option ℕ)
  pub stream : Option Stream
  pub lines : List String

-- The rest of a text after a pattern, in which "0" stands for a digit.
abbrev after_pattern : String → String → Option String
after_pattern String.[] s = some s
after_pattern (String.◌∷◌ p ps) String.[] = none
after_pattern (String.◌∷◌ p ps) (String.◌∷◌ c s) =
    if (if code p == b'0' then leb b'0' (code c) && leb (code c) b'9' else code c == code p)
    then after_pattern ps s
    else none

abbrev stamp : String
stamp = "[0000-00-00T00:00:00.000Z] "

abbrev take_chars : ℕ → String → String
take_chars zero s = ""
take_chars (suc n) String.[] = ""
take_chars (suc n) (String.◌∷◌ c s) = String.◌∷◌ c (take_chars n s)

abbrev skip_char : String → String
skip_char String.[] = ""
skip_char (String.◌∷◌ c s) = s

-- Whether a line starts with the literal text "[stdout] " or "[stderr] ".
abbrev stream_at : String → Option Stream
stream_at s =
    if is_some (after_pattern "[stdout] " s)
    then some stdout
    else if is_some (after_pattern "[stderr] " s)
    then some stderr
    else none

-- `_extractStream`
unfoldable pub extract_stream : String → Option Stream
extract_stream line = after_pattern stamp line >>= stream_at

abbrev pub newline : Char
newline = "\n"

abbrev pub entry_of : Option (Option ℕ) → Option Stream → String → LogEntry
entry_of t stream line = record { timestamp = t; stream = stream; lines = line ∷ [] }

-- A continuation line goes to the last entry; without one it is an entry of its own.
unfoldable pub continue_last : List LogEntry → String → List LogEntry
continue_last [] line = entry_of none none line ∷ []
continue_last (e ∷ []) line = record e { lines = e.lines ++ (line ∷ []) } ∷ []
continue_last (e ∷ f ∷ es) line = e ∷ continue_last (f ∷ es) line

module _ (date : String → Option ℕ) where
  -- `_extractTimestamp`
  unfoldable pub extract_timestamp : String → Option (Option ℕ)
  extract_timestamp line =
      if is_some (after_pattern stamp line)
      then some (date (take_chars 24 (skip_char line)))
      else none

  -- One round of the loop.
  unfoldable pub add_line : List LogEntry → String → List LogEntry
  add_line entries line =
      if is_some (extract_timestamp line)
      then entries ++ (entry_of (extract_timestamp line) (extract_stream line) line ∷ [])
      else continue_last entries line

  unfoldable pub add_lines : List LogEntry → List String → List LogEntry
  add_lines entries [] = entries
  add_lines entries (line ∷ lines) = add_lines (add_line entries line) lines

  -- `_parseLogEntries`
  unfoldable pub parse_log_entries : String → List LogEntry
  parse_log_entries content = add_lines [] (split_on newline "" content)

-- `entry.timestamp < since`, which is false of a date that is no date.
abbrev pub before : Option ℕ → Option ℕ → Bool
before (some a) (some b) = ltb a b
before _ _ = false

abbrev pub is_shown : Option ℕ → Option ℕ → LogEntry → Bool
is_shown since until e = elim e.timestamp [
  | none ↦ not (is_some since)
  | some t ↦ if before t since then false else not (before until t)
]

-- `_filterEntries`; a bound is a date, since `_parseTimestamp` throws on any other.
unfoldable pub filter_entries : Option ℕ → Option ℕ → List LogEntry → List LogEntry
filter_entries since until entries = keep (is_shown since until) entries

abbrev is_stream : Stream → Stream → Bool
is_stream stdout stdout = true
is_stream stderr stderr = true
is_stream _ _ = false

abbrev pub is_of_stream : Stream → LogEntry → Bool
is_of_stream stream e = elim e.stream [ none ↦ false | some s ↦ is_stream s stream ]

-- `_filterByStream`
unfoldable pub filter_by_stream : Stream → List LogEntry → List LogEntry
filter_by_stream stream entries = keep (is_of_stream stream) entries

-- `_tailEntries`, for "all" (`none`) or a number: `slice(-n)` is everything if there are fewer.
unfoldable pub tail_entries : Option ℕ → List LogEntry → List LogEntry
tail_entries none entries = entries
tail_entries (some zero) entries = []
tail_entries (some (suc n)) entries = drop (length entries - suc n) entries

abbrev by_stream : Option Stream → List LogEntry → List LogEntry
by_stream none entries = entries
by_stream (some s) entries = filter_by_stream s entries

abbrev pub texts : List LogEntry → List String
texts [] = []
texts (e ∷ es) = join newline e.lines ∷ texts es

abbrev pub terminated : String → String
terminated String.[] = ""
terminated (String.◌∷◌ c s) = String.◌∷◌ c s <> "\n"

-- What `run` writes without `--follow`.
unfoldable pub dump :
    (String → Option ℕ) → Option ℕ → Option ℕ → Option Stream → Option ℕ → String → String
dump date since until stream tail content = terminated (
    join newline (
      texts (
        tail_entries tail
          (by_stream stream (filter_entries since until (parse_log_entries date content))))))
