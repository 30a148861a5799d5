-- ===== src/Reachability/Hostnames.antt =====
-- src/reachability/caddy.ts: `isValidDomain`, over code points.
use mathlib.Core.Path.{subst}
use text.Mathlib.TextLemmas.{nil-append}
use bitsocial_cli.Common.{
  ℕ, String, ◌<>◌, Bool, true, false, ◌&&◌, ◌||◌, ◌≡◌, refl, ◌∙◌, List, [], ◌∷◌, All, All-append,
  length, codes, codes-append, join, split_on, join-split_on, one, leb, ◌==◌, arith,
}

-- `[a-zA-Z]`, `[a-zA-Z0-9]` and `[a-zA-Z0-9-]`
unfoldable pub is_letter : ℕ → Bool
is_letter c = (leb b'a' c && leb c b'z') || (leb b'A' c && leb c b'Z')

unfoldable pub is_alphanumeric : ℕ → Bool
is_alphanumeric c = is_letter c || (leb b'0' c && leb c b'9')

unfoldable pub is_label_char : ℕ → Bool
is_label_char c = is_alphanumeric c || (c == b'-')

unfoldable pub ends_alphanumeric : List ℕ → Bool
ends_alphanumeric [] = false
ends_alphanumeric (c ∷ []) = is_alphanumeric c
ends_alphanumeric (c ∷ d ∷ cs) = is_label_char c && ends_alphanumeric (d ∷ cs)

-- One to 63 letters, digits and dashes, with no dash at either end.
unfoldable pub is_label : List ℕ → Bool
is_label [] = false
is_label (c ∷ cs) = is_alphanumeric c && ends_alphanumeric (c ∷ cs) && leb (length (c ∷ cs)) 63

unfoldable pub is_last_label : List ℕ → Bool
is_last_label [] = false
is_last_label (c ∷ cs) = is_letter c && is_label (c ∷ cs)

unfoldable pub are_labels : List String → Bool
are_labels [] = false
are_labels (label ∷ []) = is_last_label (codes label)
are_labels (label ∷ next ∷ labels) = is_label (codes label) && are_labels (next ∷ labels)

unfoldable pub has_dot : List String → Bool
has_dot (label ∷ next ∷ labels) = true
has_dot _ = false

-- `HOSTNAME_PATTERN.test(domain)`
unfoldable pub is_valid_domain : String → Bool
is_valid_domain domain =
    leb (length (codes domain)) 253
    && has_dot (split_on "." "" domain)
    && are_labels (split_on "." "" domain)

-- The characters of a host name.
unfoldable pub is_host_char : ℕ → Bool
is_host_char c = is_label_char c || (c == b'.')

abbrev HostChars : List ℕ → Type 0
HostChars = All (λ c. is_host_char c ≡ true)

ends_alphanumeric-HostChars : (cs : List ℕ) → ends_alphanumeric cs ≡ true → HostChars cs
unfolding ends_alphanumeric is_label_char is_host_char
ends_alphanumeric-HostChars [] h = tt
ends_alphanumeric-HostChars (c ∷ []) h = ground arith
ends_alphanumeric-HostChars (c ∷ d ∷ cs) h = ground (arith, ends_alphanumeric-HostChars (d ∷ cs))

is_label-HostChars : (cs : List ℕ) → is_label cs ≡ true → HostChars cs
unfolding is_label
is_label-HostChars [] h = tt
is_label-HostChars (c ∷ cs) h = ends_alphanumeric-HostChars (c ∷ cs) (ground arith)

is_last_label-HostChars : (cs : List ℕ) → is_last_label cs ≡ true → HostChars cs
unfolding is_last_label
is_last_label-HostChars [] h = tt
is_last_label-HostChars (c ∷ cs) h = is_label-HostChars (c ∷ cs) (ground arith)

are_labels-HostChars :
    (labels : List String) → are_labels labels ≡ true → HostChars (codes (join "." labels))
unfolding are_labels join is_host_char is_label_char is_alphanumeric is_letter
are_labels-HostChars [] h = tt
are_labels-HostChars (label ∷ []) h = is_last_label-HostChars (codes label) h
are_labels-HostChars (label ∷ next ∷ labels) h =
    rw
      (
        codes-append label (one "." <> join "." (next ∷ labels)),
        codes-append (one ".") (join "." (next ∷ labels)),
      )
      (All-append (λ c. is_host_char c ≡ true) (codes label) _
        (is_label-HostChars (codes label) (ground (arith, h)))
        (refl, are_labels-HostChars (next ∷ labels) (ground (arith, h))))

-- No valid domain holds a space, a quote, a brace or a line break, which could add a directive of its own: it is
-- made of letters, digits, dashes and dots.
pub is_valid_domain-HostChars :
    (domain : String) → is_valid_domain domain ≡ true → HostChars (codes domain)
unfolding is_valid_domain
is_valid_domain-HostChars domain h =
    subst (λ s. HostChars (codes s)) (join-split_on "." "" domain ∙ nil-append domain)
      (are_labels-HostChars (split_on "." "" domain) (ground (arith, h)))
