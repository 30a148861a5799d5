-- ===== src/Update/Semver/Order.antt =====
-- src/update/semver.ts: the comparison is a total preorder, with NaN above every number.
use bitsocial_cli.Common.{
  ◌≡◌, refl, ℕ, zero, suc, ◌+◌, ◌≤◌, length, String, true, false, Option, none, some, List, [], ◌∷◌,
  codes, decimal, StartsWithDigit, decimal-StartsWithDigit, arith,
}
use bitsocial_cli.Update.Semver.{
  Sign, less, equal, greater, codes_lt, segment_text, compare_segment, compare_segments, or_else,
  compare_versions, parts, number_sign, part_or_zero,
}

abbrev pub flip : Sign → Sign
flip less = greater
flip equal = equal
flip greater = less

-- A number, or NaN, which stands above all numbers.
abbrev pub key_sign : Option ℕ → Option ℕ → Sign
key_sign (some m) (some n) = number_sign m n
key_sign (some m) none = less
key_sign none (some n) = greater
key_sign none none = equal

digit-lt-NaN :
    (s : String)
    → StartsWithDigit s
    → (codes_lt (codes s) (codes "NaN") ≡ true) × (codes_lt (codes "NaN") (codes s) ≡ false)
unfolding codes_lt
digit-lt-NaN String.[] h = absurd h
digit-lt-NaN (String.◌∷◌ c s) h = ground arith

-- The text comparison only tells whether a segment is NaN.
pub compare_segment-key_sign :
    (a b : Option (Option ℕ)) → compare_segment a b ≡ key_sign (part_or_zero a) (part_or_zero b)
unfolding compare_segment segment_text codes_lt
compare_segment-key_sign none none = refl
compare_segment-key_sign none (some none) = refl
compare_segment-key_sign none (some (some n)) = refl
compare_segment-key_sign (some none) none = refl
compare_segment-key_sign (some none) (some none) = refl
compare_segment-key_sign (some none) (some (some n)) =
    ground (arith, digit-lt-NaN (decimal n) (decimal-StartsWithDigit n))
compare_segment-key_sign (some (some m)) none = refl
compare_segment-key_sign (some (some m)) (some none) =
    ground (arith, digit-lt-NaN (decimal m) (decimal-StartsWithDigit m))
compare_segment-key_sign (some (some m)) (some (some n)) = refl

key_sign-flip : (a b : Option ℕ) → key_sign b a ≡ flip (key_sign a b)
key_sign-flip none none = refl
key_sign-flip none (some n) = refl
key_sign-flip (some m) none = refl
key_sign-flip (some m) (some n) = ground arith

compare_segment-flip : (a b : Option (Option ℕ)) → compare_segment b a ≡ flip (compare_segment a b)
compare_segment-flip a b =
    rw (compare_segment-key_sign b a, compare_segment-key_sign a b)
      (key_sign-flip (part_or_zero a) (part_or_zero b))

or_else-flip : (s t u : Sign) → u ≡ flip t → or_else (flip s) u ≡ flip (or_else s t)
or_else-flip less t u h = refl
or_else-flip equal t u h = h
or_else-flip greater t u h = refl

pub compare_segments-flip :
    (xs ys : List (Option ℕ)) → compare_segments ys xs ≡ flip (compare_segments xs ys)
unfolding compare_segments
compare_segments-flip [] [] = refl
compare_segments-flip (x ∷ xs) [] =
    rw (compare_segment-flip (some x) none)
      (or_else-flip (compare_segment (some x) none) _ _ (compare_segments-flip xs []))
compare_segments-flip [] (y ∷ ys) =
    rw (compare_segment-flip none (some y))
      (or_else-flip (compare_segment none (some y)) _ _ (compare_segments-flip [] ys))
compare_segments-flip (x ∷ xs) (y ∷ ys) =
    rw (compare_segment-flip (some x) (some y))
      (or_else-flip (compare_segment (some x) (some y)) _ _ (compare_segments-flip xs ys))

-- Exchanging the versions turns the sign round, whatever `Number` reads.
pub compare_versions-flip :
    (number : String → Option ℕ) (a b : String)
    → compare_versions number b a ≡ flip (compare_versions number a b)
unfolding compare_versions
compare_versions-flip number a b = compare_segments-flip (parts number a) (parts number b)

-- How the signs of a pair, of the next pair and of the outer pair go together in a total preorder.
abbrev pub Fits : Sign → Sign → Sign → Type 0
Fits less less u = u ≡ less
Fits less equal u = u ≡ less
Fits equal less u = u ≡ less
Fits equal equal u = u ≡ equal
Fits _ _ u = Unit

or_else-Fits :
    (s t u s' t' u' : Sign)
    → Fits s t u
    → Fits s' t' u'
    → Fits (or_else s s') (or_else t t') (or_else u u')
or_else-Fits less less u s' t' u' h k = ground arith
or_else-Fits less equal u s' less u' h k = ground arith
or_else-Fits less equal u s' equal u' h k = ground arith
or_else-Fits less equal u s' greater u' h k = tt
or_else-Fits less greater u s' t' u' h k = tt
or_else-Fits equal less u less t' u' h k = ground arith
or_else-Fits equal less u equal t' u' h k = ground arith
or_else-Fits equal less u greater t' u' h k = tt
or_else-Fits equal equal u s' t' u' h k = rw h k
or_else-Fits equal greater u less t' u' h k = tt
or_else-Fits equal greater u equal t' u' h k = tt
or_else-Fits equal greater u greater t' u' h k = tt
or_else-Fits greater t u s' t' u' h k = tt

key_sign-Fits : (a b c : Option ℕ) → Fits (key_sign a b) (key_sign b c) (key_sign a c)
key_sign-Fits none none none = refl
key_sign-Fits none none (some n) = tt
key_sign-Fits none (some m) none = tt
key_sign-Fits none (some m) (some n) = tt
key_sign-Fits (some k) none none = refl
key_sign-Fits (some k) none (some n) = tt
key_sign-Fits (some k) (some m) none = ground arith
key_sign-Fits (some k) (some m) (some n) = ground arith

compare_segment-Fits :
    (a b c : Option (Option ℕ))
    → Fits (compare_segment a b) (compare_segment b c) (compare_segment a c)
compare_segment-Fits a b c =
    rw (compare_segment-key_sign a b, compare_segment-key_sign b c, compare_segment-key_sign a c)
      (key_sign-Fits (part_or_zero a) (part_or_zero b) (part_or_zero c))

-- The parts from the first one on, with `none` beyond the end.
abbrev first : List (Option ℕ) → Option (Option ℕ)
first [] = none
first (x ∷ xs) = some x

abbrev rest : List (Option ℕ) → List (Option ℕ)
rest [] = []
rest (x ∷ xs) = xs

compare_segments-step :
    (xs ys : List (Option ℕ))
    → compare_segments xs ys
      ≡ or_else (compare_segment (first xs) (first ys)) (compare_segments (rest xs) (rest ys))
unfolding compare_segments compare_segment segment_text codes_lt
compare_segments-step [] [] = refl
compare_segments-step (x ∷ xs) [] = refl
compare_segments-step [] (y ∷ ys) = refl
compare_segments-step (x ∷ xs) (y ∷ ys) = refl

rest_le : (xs : List (Option ℕ)) {n : ℕ} → length xs ≤ suc n → length (rest xs) ≤ n
rest_le [] h = omega arith
rest_le (x ∷ xs) h = omega arith

compare_segments-Fits_below :
    (n : ℕ) (xs ys zs : List (Option ℕ))
    → length xs ≤ n
    → length ys ≤ n
    → length zs ≤ n
    → Fits (compare_segments xs ys) (compare_segments ys zs) (compare_segments xs zs)
unfolding compare_segments
compare_segments-Fits_below zero [] [] [] p q r = refl
compare_segments-Fits_below zero [] [] (z ∷ zs) p q r = absurd (omega arith)
compare_segments-Fits_below zero [] (y ∷ ys) zs p q r = absurd (omega arith)
compare_segments-Fits_below zero (x ∷ xs) ys zs p q r = absurd (omega arith)
compare_segments-Fits_below (suc n) xs ys zs p q r =
    rw (compare_segments-step xs ys, compare_segments-step ys zs, compare_segments-step xs zs)
      (or_else-Fits (compare_segment (first xs) (first ys)) (compare_segment (first ys) (first zs))
        (compare_segment (first xs) (first zs)) _ _ _
        (compare_segment-Fits (first xs) (first ys) (first zs))
        (compare_segments-Fits_below n (rest xs) (rest ys) (rest zs) (rest_le xs p) (rest_le ys q)
          (rest_le zs r)))

-- The signs of three versions go together as in a total preorder: less and equal are transitive, and
-- so are their mixtures, whatever `Number` reads.
pub compare_versions-Fits :
    (number : String → Option ℕ) (a b c : String)
    → Fits (compare_versions number a b) (compare_versions number b c) (compare_versions number a c)
unfolding compare_versions
compare_versions-Fits number a b c =
    let n = length (parts number a) + length (parts number b) + length (parts number c) in
    compare_segments-Fits_below n (parts number a) (parts number b) (parts number c) (omega arith)
      (omega arith) (omega arith)
