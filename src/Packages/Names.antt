-- ===== src/Packages/Names.antt =====
-- src/common-utils/package-registry.ts: `assertValidPackageName`.
use Prim.Native.Char.{code}
use bitsocial_cli.Common.{
  ℕ, ◌≤◌, String, ◌<>◌, ◌≡◌, ◌≢◌, refl, ap, Bool, true, false, ◌&&◌, ◌||◌, List, [], ◌∷◌, All, leb,
  ◌==◌, codes, if◌then◌else◌, arith, length,
}

-- `[a-zA-Z0-9~-]`
unfoldable pub is_first_char : ℕ → Bool
is_first_char c =
    (leb b'a' c && leb c b'z')
    || (leb b'A' c && leb c b'Z')
    || (leb b'0' c && leb c b'9')
    || (c == b'~')
    || (c == b'-')

-- `[a-zA-Z0-9._~-]`
unfoldable pub is_later_char : ℕ → Bool
is_later_char c = is_first_char c || (c == b'.') || (c == b'_')

abbrev all_later : String → Bool
all_later String.[] = true
all_later (String.◌∷◌ c s) = is_later_char (code c) && all_later s

-- `PACKAGE_NAME_SEGMENT`
unfoldable pub is_segment : String → Bool
is_segment String.[] = false
is_segment (String.◌∷◌ c s) = is_first_char (code c) && all_later s

-- The loop of `split("/")`, over code points.
unfoldable pub split_slash : String → String → List String
split_slash cur String.[] = cur ∷ []
split_slash cur (String.◌∷◌ c s) =
    let closed = cur ∷ split_slash "" s in
    let longer = split_slash (cur <> String.◌∷◌ c String.[]) s in
    if code c == b'/' then closed else longer

abbrev is_scope : String → Bool
is_scope String.[] = false
is_scope (String.◌∷◌ c s) = (code c == b'@') && is_segment s

abbrev are_segments : List String → Bool
are_segments (s ∷ []) = is_segment s
are_segments (scope ∷ s ∷ []) = is_scope scope && is_segment s
are_segments _ = false

-- `assertValidPackageName` does not throw.
unfoldable pub is_valid_package_name : String → Bool
is_valid_package_name name = are_segments (split_slash "" name)

-- A text that names an entry of the directory it is joined to: it has no separator, and is neither empty
-- nor "." nor "..".
abbrev pub IsEntry : String → Type 0
IsEntry s =
    All (λ c. ((c == b'/') ≡ false) × ((c == 92) ≡ false)) (codes s)
    × (s ≢ "")
    × (s ≢ ".")
    × (s ≢ "..")

all_later-codes :
    (s : String)
    → all_later s ≡ true
    → All (λ c. ((c == b'/') ≡ false) × ((c == 92) ≡ false)) (codes s)
unfolding is_later_char is_first_char
all_later-codes String.[] h = tt
all_later-codes (String.◌∷◌ c s) h =
    ((ground (arith, h), ground (arith, h)), all_later-codes s (ground (arith, h)))

segment-codes :
    (s : String)
    → is_segment s ≡ true
    → All (λ c. ((c == b'/') ≡ false) × ((c == 92) ≡ false)) (codes s)
unfolding is_segment is_first_char
segment-codes String.[] h = absurd (ground (arith, h))
segment-codes (String.◌∷◌ c s) h =
    ((ground (arith, h), ground (arith, h)), all_later-codes s (ground (arith, h)))

-- What a test rejects, a text that passes it is not.
apart : (test : String → Bool) (s t : String) → test s ≡ true → test t ≡ false → s ≢ t
apart test s t h k e = ground (arith, ap test e, h, k)

segment-IsEntry : (s : String) → is_segment s ≡ true → IsEntry s
unfolding is_segment is_first_char
segment-IsEntry s h = (
  segment-codes s h,
  apart is_segment s "" h refl,
  apart is_segment s "." h refl,
  apart is_segment s ".." h refl,
)

scope-codes :
    (s : String)
    → is_scope s ≡ true
    → All (λ c. ((c == b'/') ≡ false) × ((c == 92) ≡ false)) (codes s)
scope-codes String.[] h = absurd (ground (arith, h))
scope-codes (String.◌∷◌ c s) h =
    ((ground (arith, h), ground (arith, h)), segment-codes s (ground (arith, h)))

scope-IsEntry : (s : String) → is_scope s ≡ true → IsEntry s
scope-IsEntry s h = (
  scope-codes s h,
  apart is_scope s "" h refl,
  apart is_scope s "." h refl,
  apart is_scope s ".." h refl,
)

are_segments-IsEntry :
    (ss : List String) → are_segments ss ≡ true → All IsEntry ss × (length ss ≤ 2)
are_segments-IsEntry [] h = absurd (ground (arith, h))
are_segments-IsEntry (s ∷ []) h = ((segment-IsEntry s h, tt), ground arith)
are_segments-IsEntry (scope ∷ s ∷ []) h =
    let (first, second) : (is_scope scope ≡ true) × (is_segment s ≡ true) = ground (arith, h) in
    ((scope-IsEntry scope first, (segment-IsEntry s second, tt)), ground arith)
are_segments-IsEntry (a ∷ b ∷ c ∷ ss) h = absurd (ground (arith, h))

-- A package name that is not rejected has one or two segments, each of which names an entry of the
-- directory it is joined to: it holds no separator and is neither empty nor "." nor "..".
pub is_valid_package_name-IsEntry :
    (name : String)
    → is_valid_package_name name ≡ true
    → All IsEntry (split_slash "" name) × (length (split_slash "" name) ≤ 2)
unfolding is_valid_package_name
is_valid_package_name-IsEntry name h = are_segments-IsEntry (split_slash "" name) h
