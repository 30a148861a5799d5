-- ===== src/Common/Texts.antt =====
-- Text comparison, lists of text, and decimal numerals.
use Prim.Native.Nat.{ℕ, zero, suc, ◌/◌, ◌%◌, ◌≤◌}
use Prim.Native.Char.{Char, code}
use Prim.Native.String.{String, ◌++◌ as ◌<>◌}
use mathlib.Core.Path.{◌≡◌, refl, ap}
use text.Mathlib.TextLemmas.{nil-append, cons-append}
use mathlib.Core.Bool.{true, ◌&&◌, Bool, false, ◌||◌}
use mathlib.Core.List.{◌++◌, List, [], ◌∷◌}
use text.Mathlib.Text
use mathlib.Core.Logic.{inl, inr}
use mathlib.Core.Option.{none, some}
use native.Mathlib.Omega.{arith}
use bitsocial_cli.Common.Tests.{if◌then◌else◌, ltb, ◌==◌, ==_self, Bool-cases}

abbrev pub str_eq : String → String → Bool
str_eq s t = Text.◌==◌ s t

-- `list.includes(s)`
abbrev pub includes : String → List String → Bool
includes s [] = false
includes s (t ∷ ts) = str_eq s t || includes s ts

-- The code points of a text.
abbrev pub codes : String → List ℕ
codes String.[] = []
codes (String.◌∷◌ c s) = code c ∷ codes s

-- A decimal digit.
abbrev pub digit : ℕ → Char
digit zero = "0"
digit (suc zero) = "1"
digit (suc (suc zero)) = "2"
digit (suc (suc (suc zero))) = "3"
digit (suc (suc (suc (suc zero)))) = "4"
digit (suc (suc (suc (suc (suc zero))))) = "5"
digit (suc (suc (suc (suc (suc (suc zero)))))) = "6"
digit (suc (suc (suc (suc (suc (suc (suc zero))))))) = "7"
digit (suc (suc (suc (suc (suc (suc (suc (suc zero)))))))) = "8"
digit _ = "9"

-- The decimal numeral of a number below `10 ^ fuel`, in front of a text.
decimal_from : ℕ → ℕ → String → String
decimal_from zero n rest = rest
decimal_from (suc fuel) n rest =
    let more = decimal_from fuel (n / 10) (String.◌∷◌ (digit (n % 10)) rest) in
    if ltb n 10 then String.◌∷◌ (digit n) rest else more

-- `${n}` for a number of at most 20 digits.
unfoldable pub decimal : ℕ → String
unfolding decimal_from
decimal n = decimal_from 20 n ""

-- The text begins with a digit.
abbrev pub StartsWithDigit : String → Type 0
StartsWithDigit String.[] = ⊥
StartsWithDigit (String.◌∷◌ c s) = code c ≤ b'9'

digit-le : (d : ℕ) → code (digit d) ≤ b'9'
digit-le zero = omega arith
digit-le (suc zero) = omega arith
digit-le (suc (suc zero)) = omega arith
digit-le (suc (suc (suc zero))) = omega arith
digit-le (suc (suc (suc (suc zero)))) = omega arith
digit-le (suc (suc (suc (suc (suc zero))))) = omega arith
digit-le (suc (suc (suc (suc (suc (suc zero)))))) = omega arith
digit-le (suc (suc (suc (suc (suc (suc (suc zero))))))) = omega arith
digit-le (suc (suc (suc (suc (suc (suc (suc (suc zero)))))))) = omega arith
digit-le (suc (suc (suc (suc (suc (suc (suc (suc (suc n))))))))) = omega arith

decimal_from-StartsWithDigit :
    (fuel n : ℕ) (rest : String) → StartsWithDigit rest → StartsWithDigit (decimal_from fuel n rest)
unfolding decimal_from
decimal_from-StartsWithDigit zero n rest h = h
decimal_from-StartsWithDigit (suc fuel) n rest h = elim (Bool-cases (ltb n 10)) [
  | inl small ↦ rw small (digit-le n)
  | inr large ↦ rw large (decimal_from-StartsWithDigit fuel (n / 10) _ (digit-le (n % 10)))
]

pub decimal-StartsWithDigit : (n : ℕ) → StartsWithDigit (decimal n)
unfolding decimal
decimal-StartsWithDigit n = elim (Bool-cases (ltb n 10)) [
  | inl small ↦ rw small (digit-le n)
  | inr large ↦ rw large (decimal_from-StartsWithDigit 19 (n / 10) _ (digit-le (n % 10)))
]

-- Lists of code points.
abbrev pub codes_eq : List ℕ → List ℕ → Bool
codes_eq [] [] = true
codes_eq (x ∷ xs) (y ∷ ys) = (x == y) && codes_eq xs ys
codes_eq _ _ = false

-- `text.endsWith(suffix)`
unfoldable pub ends_with : List ℕ → List ℕ → Bool
ends_with suffix [] = codes_eq suffix []
ends_with suffix (x ∷ xs) = codes_eq suffix (x ∷ xs) || ends_with suffix xs

pub codes_eq_self : (xs : List ℕ) → codes_eq xs xs ≡ true
codes_eq_self [] = refl
codes_eq_self (x ∷ xs) = rw (==_self x) (codes_eq_self xs)

pub ends_with-append : (suffix xs : List ℕ) → ends_with suffix (xs ++ suffix) ≡ true
unfolding ends_with
ends_with-append [] [] = refl
ends_with-append (s ∷ ss) [] = rw (codes_eq_self (s ∷ ss))
ends_with-append suffix (x ∷ xs) = ground (arith, ends_with-append suffix xs)

pub codes-append : (s t : String) → codes (s <> t) ≡ codes s ++ codes t
codes-append String.[] t = rw (nil-append t)
codes-append (String.◌∷◌ c s) t = rw (cons-append c s t) (ap (◌∷◌ (code c)) (codes-append s t))

-- `text.includes(part)` and `text.startsWith(part)`
abbrev pub contains : String → String → Bool
contains text part = elim (Text.find? text part) [ none ↦ false | some position ↦ true ]

abbrev pub starts_with : String → String → Bool
starts_with text part = Text.starts_with text part

-- `texts.join(separator)`
unfoldable pub join_with : String → List String → String
join_with separator [] = ""
join_with separator (s ∷ []) = s
join_with separator (s ∷ t ∷ ts) = s <> (separator <> join_with separator (t ∷ ts))

-- `filter((text) => text !== a)` and `[...new Set(texts)]`
unfoldable pub without : String → List String → List String
without a [] = []
without a (x ∷ xs) = if str_eq x a then without a xs else x ∷ without a xs

unfoldable pub distinct : List String → List String
distinct [] = []
distinct (x ∷ xs) = x ∷ without x (distinct xs)
