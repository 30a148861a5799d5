-- ===== src/Update/Semver.antt =====
-- src/update/semver.ts: `compareVersions`. `Number` of the language is a parameter: it reads a segment as
-- a natural number, or gives NaN, here `none`.
pub mod Order
pub mod Prerelease
use Prim.Native.Char.{Char, code}
use Prim.Native.String.{[] as empty, ◌∷◌ as ◌▹◌}
use mathlib.Core.Logic.{ite}
use native.Mathlib.Decide.{ℕ_discrete}
use bitsocial_cli.Common.{
  ℕ, String, ◌<>◌, Bool, true, false, ◌||◌, Option, none, some, List, [], ◌∷◌, ◌++◌, map, decimal,
  codes, ltb, ◌==◌, if◌then◌else◌,
}

pub data Sign : Type 0 where
  less equal greater : Sign

-- `v.replace(/^v/i, "")`
unfoldable pub normalize : String → String
normalize String.[] = String.[]
normalize (String.◌∷◌ c s) = if (code c == b'v') || (code c == b'V') then s else String.◌∷◌ c s

-- The loop of `split(".")`, over code points.
unfoldable pub split_from : String → String → List String
split_from cur String.[] = cur ∷ []
split_from cur (String.◌∷◌ c s) =
    let closed = cur ∷ split_from "" s in
    let longer = split_from (cur <> String.◌∷◌ c String.[]) s in
    if code c == b'.' then closed else longer

-- `<` of two texts, by their code units.
unfoldable pub codes_lt : List ℕ → List ℕ → Bool
codes_lt [] [] = false
codes_lt [] (d ∷ ds) = true
codes_lt (c ∷ cs) [] = false
codes_lt (c ∷ cs) (d ∷ ds) = if ltb c d then true else if ltb d c then false else codes_lt cs ds

-- `String(part ?? "")`, for a part that is a number, NaN or beyond the end.
unfoldable pub segment_text : Option (Option ℕ) → String
segment_text none = ""
segment_text (some none) = "NaN"
segment_text (some (some n)) = decimal n

abbrev text_sign : List ℕ → List ℕ → Sign
text_sign sa sb = if codes_lt sa sb then less else if codes_lt sb sa then greater else equal

abbrev number_sign : ℕ → ℕ → Sign
number_sign na nb = if ltb na nb then less else if ltb nb na then greater else equal

-- `part ?? 0`
abbrev part_or_zero : Option (Option ℕ) → Option ℕ
part_or_zero none = some 0
part_or_zero (some n) = n

abbrev sign_of : Option ℕ → Option ℕ → Sign → Sign
sign_of (some na) (some nb) by_text = number_sign na nb
sign_of _ _ by_text = by_text

-- One round of the loop.
unfoldable pub compare_segment : Option (Option ℕ) → Option (Option ℕ) → Sign
compare_segment a b =
    sign_of (part_or_zero a) (part_or_zero b)
      (text_sign (codes (segment_text a)) (codes (segment_text b)))

abbrev pub or_else : Sign → Sign → Sign
or_else equal rest = rest
or_else s rest = s

-- The loop, up to the longer of the two.
unfoldable pub compare_segments : List (Option ℕ) → List (Option ℕ) → Sign
compare_segments [] [] = equal
compare_segments (a ∷ as') [] = or_else (compare_segment (some a) none) (compare_segments as' [])
compare_segments [] (b ∷ bs) = or_else (compare_segment none (some b)) (compare_segments [] bs)
compare_segments (a ∷ as') (b ∷ bs) =
    or_else (compare_segment (some a) (some b)) (compare_segments as' bs)

module _ (number : String → Option ℕ) where
  unfoldable pub parts : String → List (Option ℕ)
  parts v = map number (split_from "" (normalize v))

  unfoldable pub compare_versions : String → String → Sign
  compare_versions a b = compare_segments (parts a) (parts b)
