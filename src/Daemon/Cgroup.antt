-- ===== src/Daemon/Cgroup.antt =====
-- src/common-utils/daemon-state.ts: `parseSystemdUnitFromCgroup`, over code points.
use mathlib.Core.List.{append-nil, append_assoc}
use bitsocial_cli.Common.{
  ℕ, ◌≡◌, refl, ap, ◌∙◌, Bool, true, false, ◌&&◌, ◌||◌, not, Option, none, some, List, [], ◌∷◌,
  ◌++◌, All, codes, ends_with, arith, ◌==◌, ==_self, ltb, if◌then◌else◌,
}

-- `content.split("\n")`, with the line that is read so far.
unfoldable pub lines_from : List ℕ → List ℕ → List (List ℕ)
lines_from line [] = line ∷ []
lines_from line (c ∷ cs) =
    let closed = line ∷ lines_from [] cs in
    let longer = lines_from (line ++ (c ∷ [])) cs in if c == b'\n' then closed else longer

-- The white space of `trim` among the ASCII characters.
unfoldable pub is_space : ℕ → Bool
is_space c = (c == b' ') || (not (ltb c 9) && ltb c 14)

-- `!line.trim()`
unfoldable pub is_blank : List ℕ → Bool
is_blank [] = true
is_blank (c ∷ cs) = is_space c && is_blank cs

-- `s.slice(s.lastIndexOf(c) + 1)`, with what follows the last `c` so far.
unfoldable pub after_last : ℕ → List ℕ → List ℕ → List ℕ
after_last c best [] = best
after_last c best (x ∷ xs) = after_last c (if x == c then xs else best) xs

unfoldable pub leaf_of : List ℕ → List ℕ
leaf_of line =
    let cgroup_path = after_last b':' line line in after_last b'/' cgroup_path cgroup_path

-- The loop over the lines.
unfoldable pub first_unit : List (List ℕ) → Option (List ℕ)
first_unit [] = none
first_unit (line ∷ lines) =
    let rest = first_unit lines in
    if is_blank line
    then rest
    else if ends_with (codes ".service") (leaf_of line)
    then some (leaf_of line)
    else rest

unfoldable pub parse_systemd_unit_from_cgroup : List ℕ → Option (List ℕ)
parse_systemd_unit_from_cgroup content = first_unit (lines_from [] content)

-- The list does not hold the code point.
abbrev pub Lacks : ℕ → List ℕ → Type 0
Lacks c = All (λ x. (x == c) ≡ false)

after_last-Lacks : (c : ℕ) (best xs : List ℕ) → Lacks c xs → after_last c best xs ≡ best
unfolding after_last
after_last-Lacks c best [] h = refl
after_last-Lacks c best (x ∷ xs) (p, h) = rw p (after_last-Lacks c best xs h)

after_last-append :
    (c : ℕ) (best xs ys : List ℕ) → Lacks c ys → after_last c best (xs ++ (c ∷ ys)) ≡ ys
unfolding after_last
after_last-append c best [] ys h = rw (==_self c, after_last) (after_last-Lacks c ys ys h)
after_last-append c best (x ∷ xs) ys h =
    after_last-append c (if x == c then xs ++ (c ∷ ys) else best) xs ys h

lines_from-line :
    (line xs rest : List ℕ)
    → Lacks b'\n' xs
    → lines_from line (xs ++ (b'\n' ∷ rest)) ≡ (line ++ xs) ∷ lines_from [] rest
unfolding lines_from
lines_from-line line [] rest h = rw append-nil
lines_from-line line (x ∷ xs) rest (p, h) = rw p (
    lines_from-line (line ++ (x ∷ [])) xs rest h
    ∙ ap (λ l. l ∷ lines_from [] rest) (append_assoc line (x ∷ []) xs))

is_blank-append : (xs ys : List ℕ) → is_blank ys ≡ false → is_blank (xs ++ ys) ≡ false
unfolding is_blank
is_blank-append [] ys h = h
is_blank-append (x ∷ xs) ys h = ground (arith, is_blank-append xs ys h)

first_unit-ends_with :
    (lines : List (List ℕ)) (unit : List ℕ)
    → first_unit lines ≡ some unit
    → ends_with (codes ".service") unit ≡ true
unfolding first_unit
first_unit-ends_with [] unit h = cc
first_unit-ends_with (line ∷ lines) unit h = ground (arith, first_unit-ends_with lines unit)

-- What is taken for a unit ends in `.service`, so a session's scope never is.
pub parse_systemd_unit_from_cgroup-ends_with :
    (content unit : List ℕ)
    → parse_systemd_unit_from_cgroup content ≡ some unit
    → ends_with (codes ".service") unit ≡ true
unfolding parse_systemd_unit_from_cgroup
parse_systemd_unit_from_cgroup-ends_with content unit h =
    first_unit-ends_with (lines_from [] content) unit h

-- A first line `pre:path/unit` names the unit, if it ends in `.service` and holds no separator, the
-- path no colon, and the parts no line break.
parse_systemd_unit_from_cgroup-line :
    (pre path unit rest : List ℕ)
    → Lacks b'\n' (pre ++ (b':' ∷ (path ++ (b'/' ∷ unit))))
    → Lacks b':' (path ++ (b'/' ∷ unit))
    → Lacks b'/' unit
    → ends_with (codes ".service") unit ≡ true
    → parse_systemd_unit_from_cgroup ((pre ++ (b':' ∷ (path ++ (b'/' ∷ unit)))) ++ (b'\n' ∷ rest))
      ≡ some unit
unfolding parse_systemd_unit_from_cgroup first_unit leaf_of
parse_systemd_unit_from_cgroup-line pre path unit rest one_line no_colon no_slash service =
    let cgroup_path = path ++ (b'/' ∷ unit) in
    let line = pre ++ (b':' ∷ cgroup_path) in
    rw (
      lines_from-line [] line rest one_line,
      first_unit,
      is_blank-append pre (b':' ∷ cgroup_path) not_blank,
      after_last-append b':' line pre cgroup_path no_colon,
      after_last-append b'/' cgroup_path path unit no_slash,
      service,
    )
  where
    not_blank : is_blank (b':' ∷ (path ++ (b'/' ∷ unit))) ≡ false
    not_blank = unfold is_blank is_space in refl
