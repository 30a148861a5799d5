-- ===== src/Packages/Loader/Reload.antt =====
-- src/common-utils/package-registry.ts: what a reload does to the names of removed and of broken packages.
use bitsocial_cli.Common.{
  String, ◌≡◌, refl, ◌∙◌, inl, inr, true, false, Option, none, List, [], ◌∷◌, All, includes, eq_iff,
  arith, Option-cases,
}
use bitsocial_cli.Packages.Loader.{
  InstalledPackage, LoaderState, names, hand_back, still_shadowed, load_package, load_all,
  load_packages_into_pkc,
}
use bitsocial_cli.Packages.Loader.Shadowing.{
  IsConsistent, hand_back-IsConsistent, load_all-IsConsistent, load_all-other, hand_back-installed,
  hand_back-removed,
}

-- Where the loader has shadowed only what pkc-js had, it still has after a reload, and every name of which
-- no package is installed then holds what pkc-js registered, a built-in or nothing, whichever packages were
-- loaded before and whichever imports fail.
pub load_packages_into_pkc-hands_back :
    {Factory : Type 0} (builtin : String → Option Factory)
    (import_factory : InstalledPackage → Option Factory) (packages : List InstalledPackage)
    (s : LoaderState Factory)
    → IsConsistent builtin s
    → IsConsistent builtin (load_packages_into_pkc import_factory packages s)
      × ((n : String)
          → includes n (names packages) ≡ false
          → (load_packages_into_pkc import_factory packages s).registry n ≡ builtin n)
unfolding load_packages_into_pkc
load_packages_into_pkc-hands_back {Factory} builtin import_factory packages s h =
    let start : LoaderState Factory = record {
      registry = hand_back (names packages) s.shadowed s.registry;
      shadowed = still_shadowed (names packages) s.shadowed;
      loaded = [];
    } in
    (
      load_all-IsConsistent builtin import_factory packages start
          (hand_back-IsConsistent builtin (names packages) s h),
      λ n i.
          load_all-other builtin import_factory packages start n i
          ∙ hand_back-removed builtin (names packages) s.shadowed s.registry n i h.originals
              (h.untouched n),
    )

-- Every package of that name throws when it is imported.
abbrev pub IsBroken :
    {Factory : Type 0}
    → (InstalledPackage → Option Factory)
    → String
    → List InstalledPackage
    → Type 0
IsBroken import_factory n ps = All (λ p. (p.name ≡ n) → (import_factory p ≡ none)) ps

load_all-broken :
    {Factory : Type 0} (import_factory : InstalledPackage → Option Factory)
    (ps : List InstalledPackage) (s : LoaderState Factory) (n : String)
    → IsBroken import_factory n ps
    → (load_all import_factory ps s).registry n ≡ s.registry n
unfolding load_all load_package
load_all-broken import_factory [] s n h = refl
load_all-broken import_factory (p ∷ ps) s n (k, h) =
    load_all-broken import_factory ps (load_package import_factory p s) n h
    ∙ elim (Option-cases (import_factory p)) [
      | inl e ↦ rw (e, load_package) refl
      | inr (f, e) ↦ rw (e, load_package) (ground (arith, eq_iff n p.name, e, k))
    ]

-- A package that is installed but whose import throws keeps the factory that its name held before.
pub load_packages_into_pkc-broken :
    {Factory : Type 0} (import_factory : InstalledPackage → Option Factory)
    (packages : List InstalledPackage) (s : LoaderState Factory) (n : String)
    → includes n (names packages) ≡ true
    → IsBroken import_factory n packages
    → (load_packages_into_pkc import_factory packages s).registry n ≡ s.registry n
unfolding load_packages_into_pkc
load_packages_into_pkc-broken {Factory} import_factory packages s n h b =
    let start : LoaderState Factory = record {
      registry = hand_back (names packages) s.shadowed s.registry;
      shadowed = still_shadowed (names packages) s.shadowed;
      loaded = [];
    } in
    load_all-broken import_factory packages start n b
    ∙ hand_back-installed s.registry (names packages) s.shadowed s.registry n h
