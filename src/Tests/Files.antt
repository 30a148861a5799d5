-- ===== src/Tests/Files.antt =====
-- src/common-utils/package-registry.ts and src/cli/commands/logs.ts: a challenge that shadows a built-in one
-- and is removed, and a log of three lines.
use bitsocial_cli.Common.{
  ℕ, ◌≤◌, String, ◌≡◌, refl, true, false, Option, none, some, [], ◌∷◌, All, includes, length,
  str_eq, if◌then◌else◌, arith,
}
use bitsocial_cli.Packages.Loader.{InstalledPackage, LoaderState, names, load_packages_into_pkc}
use bitsocial_cli.Packages.Loader.Shadowing.{IsConsistent}
use bitsocial_cli.Packages.Loader.Reload.{load_packages_into_pkc-hands_back}
use bitsocial_cli.Packages.Names.{
  is_valid_package_name, split_slash, is_segment, is_first_char, is_later_char, IsEntry,
  is_valid_package_name-IsEntry,
}
use bitsocial_cli.Logs.{dump, terminated}
use bitsocial_cli.Logs.Dump.{dump-file}

-- Factories are numbers here: pkc-js ships 1 as "question", and a package of that name brought 2.
abbrev builtin : String → Option ℕ
builtin n = if str_eq n "question" then some 1 else none

abbrev shadowing : LoaderState ℕ
shadowing = record {
  registry = λ n. if str_eq n "question" then some 2 else none;
  shadowed = record { name = "question"; previous = some 1 } ∷ [];
  loaded = [];
}

shadowing-IsConsistent : IsConsistent builtin shadowing
shadowing-IsConsistent = record { originals = (refl, tt); untouched = λ n h. ground (arith, h) }

abbrev question : InstalledPackage
question = record {
  name = "question";
  version = "1.0.0";
  description = "";
  path = "/challenges/question";
}

abbrev other : InstalledPackage
other = record question { name = "other" }

load_packages_into_pkc-hands_back_example :
    IsConsistent builtin (load_packages_into_pkc (λ p. some 3) (other ∷ []) shadowing)
    × ((n : String)
        → includes n (names (other ∷ [])) ≡ false
        → (load_packages_into_pkc (λ p. some 3) (other ∷ []) shadowing).registry n ≡ builtin n)
load_packages_into_pkc-hands_back_example =
    load_packages_into_pkc-hands_back builtin (λ p. some 3) (other ∷ []) shadowing
      shadowing-IsConsistent

valid_name : is_valid_package_name "@scope/pkg" ≡ true
unfolding is_valid_package_name split_slash is_segment is_first_char is_later_char
valid_name = refl

is_valid_package_name-IsEntry_example :
    All IsEntry (split_slash "" "@scope/pkg") × (length (split_slash "" "@scope/pkg") ≤ 2)
is_valid_package_name-IsEntry_example = is_valid_package_name-IsEntry "@scope/pkg" valid_name

abbrev content : String
content = "[2026-01-02T13:23:37.000Z] [stdout] ready\nmore\n"

abbrev date : String → Option ℕ
date s = some 1767360217000

dump-file_example : dump date none none none none content ≡ terminated content
dump-file_example = dump-file date content
