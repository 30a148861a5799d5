-- ===== src/Logs/Dump.antt =====
-- src/cli/commands/logs.ts: parsing loses no line, and an unfiltered dump is the file.
use bitsocial_cli.Common.{
  ℕ, String, ◌<>◌, ◌≡◌, refl, sym, ap, ◌∙◌, inl, inr, true, false, Option, none, some, List, [],
  ◌∷◌, ◌++◌, All, All-append, append_nil, keep_all, is_some, split_on, join, join-split_on,
  join-append, join-cons, join-single, IsInhabited, append-IsInhabited, one, arith, Bool-cases,
  Option-cases,
}
use text.Mathlib.TextLemmas.{nil-append}
use bitsocial_cli.Logs.{
  LogEntry, newline, entry_of, extract_stream, extract_timestamp, continue_last, add_line,
  add_lines, parse_log_entries, is_shown, before, filter_entries, tail_entries, texts, terminated,
  dump,
}

abbrev pub all_lines : List LogEntry → List String
all_lines [] = []
all_lines (e ∷ es) = e.lines ++ all_lines es

append_assoc : (xs ys zs : List String) → (xs ++ ys) ++ zs ≡ xs ++ (ys ++ zs)
append_assoc [] ys zs = refl
append_assoc (x ∷ xs) ys zs = ap (λ l. x ∷ l) (append_assoc xs ys zs)

all_lines-append : (es fs : List LogEntry) → all_lines (es ++ fs) ≡ all_lines es ++ all_lines fs
all_lines-append [] fs = refl
all_lines-append (e ∷ es) fs =
    ap (λ l. e.lines ++ l) (all_lines-append es fs)
    ∙ sym (append_assoc e.lines (all_lines es) (all_lines fs))

continue_last-lines :
    (es : List LogEntry) (line : String)
    → all_lines (continue_last es line) ≡ all_lines es ++ (line ∷ [])
unfolding continue_last
continue_last-lines [] line = refl
continue_last-lines (e ∷ []) line =
    append_nil (e.lines ++ (line ∷ [])) ∙ ap (λ l. l ++ (line ∷ [])) (sym (append_nil e.lines))
continue_last-lines (e ∷ f ∷ es) line =
    ap (λ l. e.lines ++ l) (continue_last-lines (f ∷ es) line)
    ∙ sym (append_assoc e.lines (all_lines (f ∷ es)) (line ∷ []))

module _ (date : String → Option ℕ) where
  add_line-lines :
      (es : List LogEntry) (line : String)
      → all_lines (add_line date es line) ≡ all_lines es ++ (line ∷ [])
  unfolding add_line
  add_line-lines es line = elim (Bool-cases (is_some (extract_timestamp date line))) [
    | inl e ↦ rw e (
        all_lines-append es
          (entry_of (extract_timestamp date line) (extract_stream line) line ∷ []))
    | inr e ↦ rw e (continue_last-lines es line)
  ]

  add_lines-lines :
      (es : List LogEntry) (lines : List String)
      → all_lines (add_lines date es lines) ≡ all_lines es ++ lines
  unfolding add_lines
  add_lines-lines es [] = sym (append_nil (all_lines es))
  add_lines-lines es (line ∷ lines) =
      add_lines-lines (add_line date es line) lines
      ∙ ap (λ l. l ++ lines) (add_line-lines es line)
      ∙ append_assoc (all_lines es) (line ∷ []) lines

abbrev HasLines : LogEntry → Type 0
HasLines e = IsInhabited e.lines

continue_last-HasLines :
    (es : List LogEntry) (line : String) → All HasLines es → All HasLines (continue_last es line)
unfolding continue_last
continue_last-HasLines [] line h = (tt, tt)
continue_last-HasLines (e ∷ []) line (p, h) = (append-IsInhabited e.lines (line ∷ []) p, tt)
continue_last-HasLines (e ∷ f ∷ es) line (p, h) = (p, continue_last-HasLines (f ∷ es) line h)

module _ (date : String → Option ℕ) where
  add_line-HasLines :
      (es : List LogEntry) (line : String) → All HasLines es → All HasLines (add_line date es line)
  unfolding add_line
  add_line-HasLines es line h = elim (Bool-cases (is_some (extract_timestamp date line))) [
    | inl e ↦ rw e (
        All-append HasLines es
          (entry_of (extract_timestamp date line) (extract_stream line) line ∷ []) h (tt, tt))
    | inr e ↦ rw e (continue_last-HasLines es line h)
  ]

  add_lines-HasLines :
      (es : List LogEntry) (lines : List String)
      → All HasLines es
      → All HasLines (add_lines date es lines)
  unfolding add_lines
  add_lines-HasLines es [] h = h
  add_lines-HasLines es (line ∷ lines) h =
      add_lines-HasLines (add_line date es line) lines (add_line-HasLines es line h)

join-texts :
    (es : List LogEntry) → All HasLines es → join newline (texts es) ≡ join newline (all_lines es)
join-texts [] h = refl
join-texts (e ∷ []) (p, h) =
    join-single newline (join newline e.lines) ∙ ap (join newline) (sym (append_nil e.lines))
join-texts (e ∷ f ∷ es) (p, (q, h)) =
    join-cons newline (join newline e.lines) (texts (f ∷ es)) tt
    ∙ ap (λ t. join newline e.lines <> (one newline <> t)) (join-texts (f ∷ es) (q, h))
    ∙ sym (
        join-append newline e.lines (all_lines (f ∷ es)) p
          (append-IsInhabited f.lines (all_lines es) q))

-- Parsing a log puts every line of it into exactly one entry, in order.
pub parse_log_entries-lines :
    (date : String → Option ℕ) (content : String)
    → all_lines (parse_log_entries date content) ≡ split_on newline "" content
unfolding parse_log_entries
parse_log_entries-lines date content = add_lines-lines date [] (split_on newline "" content)

before-none : (t : Option ℕ) → (before t none ≡ false) × (before none t ≡ false)
before-none none = (refl, refl)
before-none (some t) = (refl, refl)

is_shown-unbounded : (e : LogEntry) → is_shown none none e ≡ true
is_shown-unbounded e = elim (Option-cases e.timestamp) [
  | inl h ↦ ground (arith, h)
  | inr (t, h) ↦ ground (arith, h, before-none t)
]

-- `bitsocial logs` without options shows the file as it is, and a line end after it unless it is empty.
pub dump-file :
    (date : String → Option ℕ) (content : String)
    → dump date none none none none content ≡ terminated content
unfolding dump filter_entries tail_entries parse_log_entries
dump-file date content =
    ap (λ es. terminated (join newline (texts es)))
      (keep_all (is_shown none none) is_shown-unbounded (parse_log_entries date content))
    ∙ ap terminated (
        join-texts (parse_log_entries date content)
          (add_lines-HasLines date [] (split_on newline "" content) tt))
    ∙ ap (λ ls. terminated (join newline ls)) (parse_log_entries-lines date content)
    ∙ ap terminated (join-split_on newline "" content ∙ nil-append content)
