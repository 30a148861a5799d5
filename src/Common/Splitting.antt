-- ===== src/Common/Splitting.antt =====
-- `split` and `join` of JavaScript with a one-character separator, over code points.
use Prim.Native.Char.{Char, code}
use Prim.Native.String.{String, ◌++◌ as ◌<>◌}
use mathlib.Core.Path.{◌≡◌, refl, sym, ap, ◌∙◌}
use mathlib.Core.Logic.{inl, inr}
use mathlib.Core.List.{List, [], ◌∷◌, ◌++◌}
use mathlib.Core.Bool.{Bool, true, false, not, ◌&&◌}
use native.Mathlib.Omega.{arith}
use text.Mathlib.Text
use text.Mathlib.TextEquality.{Char-path, eq_iff}
use text.Mathlib.TextLemmas.{append-nil, append_assoc, nil-append, cons-append}
use bitsocial_cli.Common.Tests.{◌==◌, ==_self, if◌then◌else◌, Bool-cases}

abbrev pub one : Char → String
one c = String.◌∷◌ c String.[]

-- The loop of `split`, with the part that is not closed.
unfoldable pub split_on : Char → String → String → List String
split_on sep cur String.[] = cur ∷ []
split_on sep cur (String.◌∷◌ c s) =
    let closed = cur ∷ split_on sep "" s in
    let longer = split_on sep (cur <> one c) s in if code c == code sep then closed else longer

unfoldable pub join : Char → List String → String
join sep [] = ""
join sep (s ∷ []) = s
join sep (s ∷ t ∷ ts) = s <> (one sep <> join sep (t ∷ ts))

-- A list with an element.
abbrev pub IsInhabited : {A : Type 0} → List A → Type 0
IsInhabited [] = ⊥
IsInhabited (x ∷ xs) = Unit

pub split_on-IsInhabited : (sep : Char) (cur s : String) → IsInhabited (split_on sep cur s)
unfolding split_on
split_on-IsInhabited sep cur String.[] = tt
split_on-IsInhabited sep cur (String.◌∷◌ c s) =
    ground (arith, split_on-IsInhabited sep (cur <> one c) s)

one-append : (c : Char) (s : String) → one c <> s ≡ String.◌∷◌ c s
one-append c s = cons-append c String.[] s ∙ ap (String.◌∷◌ c) (nil-append s)

pub join-single : (sep : Char) (s : String) → join sep (s ∷ []) ≡ s
unfolding join
join-single sep s = refl

pub join-cons :
    (sep : Char) (s : String) (ts : List String)
    → IsInhabited ts
    → join sep (s ∷ ts) ≡ s <> (one sep <> join sep ts)
unfolding join
join-cons sep s [] h = absurd h
join-cons sep s (t ∷ ts) h = refl

pub join-split_on : (sep : Char) (cur s : String) → join sep (split_on sep cur s) ≡ cur <> s
unfolding split_on join
join-split_on sep cur String.[] = sym (append-nil cur)
join-split_on sep cur (String.◌∷◌ c s) = elim (Bool-cases (code c == code sep)) [
  | inl e ↦ rw e (
      join-cons sep cur (split_on sep "" s) (split_on-IsInhabited sep "" s)
      ∙ ap (λ t. cur <> (one sep <> t)) (join-split_on sep "" s ∙ nil-append s)
      ∙ ap (λ d. cur <> (one d <> s)) (Char-path sep c (ground (arith, e)))
      ∙ ap (λ t. cur <> t) (one-append c s))
  | inr e ↦ rw e (
      join-split_on sep (cur <> one c) s
      ∙ append_assoc cur (one c) s
      ∙ ap (λ t. cur <> t) (one-append c s))
]

pub append-IsInhabited : {A : Type 0} (xs ys : List A) → IsInhabited xs → IsInhabited (xs ++ ys)
append-IsInhabited [] ys h = absurd h
append-IsInhabited (x ∷ xs) ys h = tt

pub join-append :
    (sep : Char) (xs ys : List String)
    → IsInhabited xs
    → IsInhabited ys
    → join sep (xs ++ ys) ≡ join sep xs <> (one sep <> join sep ys)
unfolding join
join-append sep [] ys h k = absurd h
join-append sep (x ∷ []) ys h k = join-cons sep x ys k
join-append sep (x ∷ y ∷ xs) ys h k =
    join-cons sep x (y ∷ xs ++ ys) tt
    ∙ ap (λ t. x <> (one sep <> t)) (join-append sep (y ∷ xs) ys tt k)
    ∙ ap (λ t. x <> t) (sym (append_assoc (one sep) (join sep (y ∷ xs)) (one sep <> join sep ys)))
    ∙ sym (append_assoc x (one sep <> join sep (y ∷ xs)) (one sep <> join sep ys))
    ∙ ap (λ t. t <> (one sep <> join sep ys)) (sym (join-cons sep x (y ∷ xs) tt))

-- The text does not have the separator.
abbrev pub lacks : Char → String → Bool
lacks sep String.[] = true
lacks sep (String.◌∷◌ c s) = not (code c == code sep) && lacks sep s

abbrev pub all_lack : Char → List String → Bool
all_lack sep [] = true
all_lack sep (s ∷ ts) = lacks sep s && all_lack sep ts

split_on-lacks :
    (sep : Char) (cur s rest : String)
    → lacks sep s ≡ true
    → split_on sep cur (s <> rest) ≡ split_on sep (cur <> s) rest
unfolding split_on
split_on-lacks sep cur String.[] rest h = rw (nil-append rest, append-nil cur) refl
split_on-lacks sep cur (String.◌∷◌ c s) rest h =
    let other : (code c == code sep) ≡ false = ground arith in
    rw (cons-append c s rest, split_on, other)
      (split_on-lacks sep (cur <> one c) s rest (ground arith)
        ∙ ap (λ t. split_on sep t rest)
            (append_assoc cur (one c) s ∙ ap (λ t. cur <> t) (one-append c s)))

split_on-one :
    (sep : Char) (cur rest : String)
    → split_on sep cur (one sep <> rest) ≡ cur ∷ split_on sep "" rest
unfolding split_on
split_on-one sep cur rest = rw (one-append sep rest, split_on, ==_self (code sep)) refl

pub split_on-join :
    (sep : Char) (s : String) (ts : List String)
    → all_lack sep (s ∷ ts) ≡ true
    → split_on sep "" (join sep (s ∷ ts)) ≡ s ∷ ts
unfolding split_on join
split_on-join sep s [] h =
    ap (split_on sep "") (sym (append-nil s))
    ∙ split_on-lacks sep "" s "" (ground arith)
    ∙ ap (λ t. t ∷ []) (nil-append s)
split_on-join sep s (t ∷ ts) h =
    split_on-lacks sep "" s (one sep <> join sep (t ∷ ts)) (ground arith)
    ∙ split_on-one sep ("" <> s) (join sep (t ∷ ts))
    ∙ ap (λ u. u ∷ split_on sep "" (join sep (t ∷ ts))) (nil-append s)
    ∙ ap (λ us. s ∷ us) (split_on-join sep t ts (ground arith))

-- The texts lack the separator, and none is empty.
abbrev pub are_plain : Char → List String → Bool
are_plain sep [] = true
are_plain sep (s ∷ ts) = not (Text.◌==◌ s "") && lacks sep s && are_plain sep ts

are_plain-all_lack :
    (sep : Char) (ts : List String) → are_plain sep ts ≡ true → all_lack sep ts ≡ true
are_plain-all_lack sep [] h = refl
are_plain-all_lack sep (s ∷ ts) h = ground (arith, are_plain-all_lack sep ts)

abbrev first_of : List String → String
first_of [] = ""
first_of (s ∷ ts) = s

blank :
    (sep : Char) (s : String) (ts : List String)
    → are_plain sep (s ∷ ts) ≡ true
    → ◌≡◌ {A = List String} ("" ∷ []) (s ∷ ts)
    → ⊥
blank sep s ts h e = ground (arith, (eq_iff s "").1 (sym (ap first_of e)))

-- Such texts can be told from what `join` makes of them.
pub join-injective :
    (sep : Char) (xs ys : List String)
    → are_plain sep xs ≡ true
    → are_plain sep ys ≡ true
    → join sep xs ≡ join sep ys
    → xs ≡ ys
unfolding join split_on
join-injective sep [] [] h k e = refl
join-injective sep [] (y ∷ ys) h k e = absurd (
    blank sep y ys k
      (ap (split_on sep "") e ∙ split_on-join sep y ys (are_plain-all_lack sep (y ∷ ys) k)))
join-injective sep (x ∷ xs) [] h k e = absurd (
    blank sep x xs h
      (ap (split_on sep "") (sym e) ∙ split_on-join sep x xs (are_plain-all_lack sep (x ∷ xs) h)))
join-injective sep (x ∷ xs) (y ∷ ys) h k e =
    sym (split_on-join sep x xs (are_plain-all_lack sep (x ∷ xs) h))
    ∙ ap (split_on sep "") e
    ∙ split_on-join sep y ys (are_plain-all_lack sep (y ∷ ys) k)
