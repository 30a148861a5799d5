-- ===== src/Logs/Selection.antt =====
-- src/cli/commands/logs.ts: what the filters and `--tail` select.
use bitsocial_cli.Common.{
  ℕ, zero, suc, ◌-◌, min, ◌≡◌, refl, sym, ap, ◌∙◌, Bool, ◌&&◌, Option, some, List, [], ◌∷◌, ◌++◌,
  length, drop, keep-keep, keep-same, append_nil, arith,
}
use bitsocial_cli.Logs.{
  LogEntry, Stream, is_shown, is_of_stream, filter_entries, filter_by_stream, tail_entries,
}

length-drop : (n : ℕ) (es : List LogEntry) → length (drop n es) ≡ length es - n
length-drop zero es = omega arith
length-drop (suc n) [] = omega arith
length-drop (suc n) (e ∷ es) = omega (arith, length-drop n es)

drop-suffix : (n : ℕ) (es : List LogEntry) → (front : List LogEntry) × (es ≡ front ++ drop n es)
drop-suffix zero es = ([], refl)
drop-suffix (suc n) [] = ([], refl)
drop-suffix (suc n) (e ∷ es) = let (front, h) = drop-suffix n es in (e ∷ front, ap (λ l. e ∷ l) h)

and_comm : (a b : Bool) → (a && b) ≡ (b && a)
and_comm a b = ground arith

-- `--tail n` shows the last n entries, or all of them if there are fewer: what it shows ends the list, and
-- its length is the smaller of the two.
tail_entries-suffix :
    (n : ℕ) (es : List LogEntry)
    → ((front : List LogEntry) × (es ≡ front ++ tail_entries (some n) es))
      × (length (tail_entries (some n) es) ≡ min n (length es))
unfolding tail_entries
tail_entries-suffix zero es = ((es, sym (append_nil es)), omega arith)
tail_entries-suffix (suc n) es =
    (drop-suffix (length es - suc n) es, omega (arith, length-drop (length es - suc n) es))

-- The order of the filters does not matter: selecting a stream and selecting a time span commute.
pub filter_entries-filter_by_stream :
    (since until : Option ℕ) (stream : Stream) (es : List LogEntry)
    → filter_by_stream stream (filter_entries since until es)
      ≡ filter_entries since until (filter_by_stream stream es)
unfolding filter_entries filter_by_stream
filter_entries-filter_by_stream since until stream es =
    keep-keep (is_of_stream stream) (is_shown since until) es
    ∙ keep-same (λ e. is_shown since until e && is_of_stream stream e)
        (λ e. is_of_stream stream e && is_shown since until e)
        (λ e. and_comm (is_shown since until e) (is_of_stream stream e)) es
    ∙ sym (keep-keep (is_shown since until) (is_of_stream stream) es)
