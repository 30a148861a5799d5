-- ===== src/Update/Semver/Prerelease.antt =====
-- src/update/semver.ts: what the comparison makes of segments that are no numbers. The loop compares
-- `String(NaN)` for them, since the parts have been through `Number` by then.
use Prim.Native.Char.{code}
use text.Mathlib.TextLemmas.{append-nil, append_assoc, nil-append, cons-append}
use bitsocial_cli.Common.{
  ◌≡◌, refl, sym, ap, ◌∙◌, ℕ, String, ◌<>◌, true, false, ◌&&◌, ◌||◌, ◌==◌, Option, none, some, List,
  [], ◌∷◌, ◌++◌, map, length, lacks, arith, Bool-cases, inl, inr,
}
use bitsocial_cli.Update.Semver.{
  less, equal, compare_segments, compare_segment, compare_versions, parts, normalize, split_from,
  or_else,
}
use bitsocial_cli.Update.Semver.Order.{compare_segment-key_sign}

compare_segment_self : (a : Option ℕ) → compare_segment (some a) (some a) ≡ equal
compare_segment_self none = compare_segment-key_sign (some none) (some none)
compare_segment_self (some n) =
    rw (compare_segment-key_sign (some (some n)) (some (some n))) (ground arith)

pub compare_segments-append_left :
    (ps xs ys : List (Option ℕ)) → compare_segments (ps ++ xs) (ps ++ ys) ≡ compare_segments xs ys
unfolding compare_segments
compare_segments-append_left [] xs ys = refl
compare_segments-append_left (p ∷ ps) xs ys =
    rw (compare_segment_self p) (compare_segments-append_left ps xs ys)

-- Of two versions that agree up to a segment, the one whose next segment is a number is below the one
-- whose next segment is none, whatever follows: 1.2.3 is below 1.2.3-rc.
pub compare_versions-number_first :
    (number : String → Option ℕ) (a b : String) (ps xs ys : List (Option ℕ)) (n : ℕ)
    → parts number a ≡ ps ++ (some n ∷ xs)
    → parts number b ≡ ps ++ (none ∷ ys)
    → compare_versions number a b ≡ less
unfolding compare_versions compare_segments
compare_versions-number_first number a b ps xs ys n p q = rw (
  p,
  q,
  compare_segments-append_left ps (some n ∷ xs) (none ∷ ys),
  compare_segment-key_sign (some (some n)) (some none),
)

normalize-dot : (v s : String) → normalize (v <> ("." <> s)) ≡ normalize v <> ("." <> s)
unfolding normalize
normalize-dot String.[] s = rw (nil-append ("." <> s), cons-append "." "" s, nil-append s) refl
normalize-dot (String.◌∷◌ c v) s = elim (Bool-cases ((code c == b'v') || (code c == b'V'))) [
  | inl e ↦ rw (cons-append c v ("." <> s), normalize, e) refl
  | inr e ↦ rw (cons-append c v ("." <> s), normalize, e) (sym (cons-append c v ("." <> s)))
]

split_from-dot :
    (cur v s : String) → split_from cur (v <> ("." <> s)) ≡ split_from cur v ++ split_from "" s
unfolding split_from
split_from-dot cur String.[] s = rw (nil-append ("." <> s), cons-append "." "" s, nil-append s) refl
split_from-dot cur (String.◌∷◌ c v) s = elim (Bool-cases (code c == b'.')) [
  | inl e ↦
      rw (cons-append c v ("." <> s), split_from, e) (ap (λ l. cur ∷ l) (split_from-dot "" v s))
  | inr e ↦
      rw (cons-append c v ("." <> s), split_from, e)
        (split_from-dot (cur <> String.◌∷◌ c String.[]) v s)
]

split_from-lacks : (cur s : String) → lacks "." s ≡ true → split_from cur s ≡ (cur <> s) ∷ []
unfolding split_from
split_from-lacks cur String.[] h = rw (append-nil cur) refl
split_from-lacks cur (String.◌∷◌ c s) h =
    let other : (code c == b'.') ≡ false = ground arith in
    rw (other) (
      split_from-lacks (cur <> String.◌∷◌ c String.[]) s (ground arith)
      ∙ ap (λ t. t ∷ [])
          (append_assoc cur (String.◌∷◌ c String.[]) s
            ∙ ap (λ t. cur <> t) (cons-append c String.[] s ∙ ap (String.◌∷◌ c) (nil-append s))))

map-append : (f : String → Option ℕ) (xs ys : List String) → map f (xs ++ ys) ≡ map f xs ++ map f ys
map-append f [] ys = refl
map-append f (x ∷ xs) ys = ap (λ l. f x ∷ l) (map-append f xs ys)

parts-dot :
    (number : String → Option ℕ) (v s : String)
    → lacks "." s ≡ true
    → parts number (v <> ("." <> s)) ≡ parts number v ++ (number s ∷ [])
unfolding parts
parts-dot number v s h =
    ap (λ t. map number (split_from "" t)) (normalize-dot v s)
    ∙ ap (map number) (
        split_from-dot "" (normalize v) s
        ∙ ap (λ l. split_from "" (normalize v) ++ l)
            (split_from-lacks "" s h ∙ ap (λ t. t ∷ []) (nil-append s)))
    ∙ map-append number (split_from "" (normalize v)) (s ∷ [])

compare_segments-append_none :
    (xs ys : List (Option ℕ))
    → length xs ≡ length ys
    → compare_segments (xs ++ (none ∷ [])) (ys ++ (none ∷ [])) ≡ compare_segments xs ys
unfolding compare_segments
compare_segments-append_none [] [] h = rw (compare_segment_self none) refl
compare_segments-append_none [] (y ∷ ys) h = absurd (ground arith)
compare_segments-append_none (x ∷ xs) [] h = absurd (ground arith)
compare_segments-append_none (x ∷ xs) (y ∷ ys) h =
    ap (or_else (compare_segment (some x) (some y)))
      (compare_segments-append_none xs ys (ground arith))

-- Where a last segment is no number, what it says does not count: of two versions with as many segments before such a
-- last one, the comparison is the one of the versions without it, so that 1.2.3-alpha and 1.2.3-beta compare as equal. With
-- a number for it, the version is below the one with any of them.
pub compare_versions-suffix :
    (number : String → Option ℕ) (v w s t u : String) (n : ℕ)
    → length (parts number v) ≡ length (parts number w)
    → (lacks "." s && lacks "." t && lacks "." u) ≡ true
    → number s ≡ none
    → number t ≡ none
    → number u ≡ some n
    → (compare_versions number (v <> ("." <> s)) (w <> ("." <> t)) ≡ compare_versions number v w)
      × (compare_versions number (v <> ("." <> u)) (v <> ("." <> s)) ≡ less)
unfolding compare_versions
compare_versions-suffix number v w s t u n same plain a b c = (
  rw (parts-dot number v s (ground arith), parts-dot number w t (ground arith), a, b)
      (compare_segments-append_none (parts number v) (parts number w) same),
  compare_versions-number_first number (v <> ("." <> u)) (v <> ("." <> s)) (parts number v) [] [] n
      (parts-dot number v u (ground arith) ∙ ap (λ m. parts number v ++ (m ∷ [])) c)
      (parts-dot number v s (ground arith) ∙ ap (λ m. parts number v ++ (m ∷ [])) a),
)
