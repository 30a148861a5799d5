-- ===== src/Packages/Loader.antt =====
-- src/common-utils/package-registry.ts: `loadPackagesIntoPKC`. A factory is of any type; importing one of
-- the installed packages gives its factory or throws, here `none`.
pub mod Shadowing
pub mod Reload
use bitsocial_cli.Common.{
  ℕ, String, Bool, true, false, not, Option, none, some, List, [], ◌∷◌, ◌++◌, map, keep, includes,
  any, str_eq, if◌then◌else◌,
}

pub record InstalledPackage : Type 0 where
  pub name : String
  pub version : String
  pub description : String
  pub path : String

abbrev pub names : List InstalledPackage → List String
names [] = []
names (p ∷ ps) = p.name ∷ names ps

module _ (Factory : Type 0) where
  -- An entry of `shadowed`: `none` where the name was not in the registry (`hadPrevious: false`).
  pub record Shadow : Type 0 where
    pub name : String
    pub previous : Option Factory

  -- pkc-js's registry, the entries of `shadowed` in their order, and the list of the loaded packages.
  pub record LoaderState : Type 0 where
    pub registry : String → Option Factory
    pub shadowed : List Shadow
    pub loaded : List InstalledPackage

module _ {Factory : Type 0} where
  abbrev pub write : (String → Option Factory) → String → Option Factory → String → Option Factory
  write registry k v n = if str_eq n k then v else registry n

  abbrev pub has : String → List (Shadow Factory) → Bool
  has n [] = false
  has n (e ∷ es) = if str_eq n e.name then true else has n es

  -- The first loop.
  unfoldable pub hand_back :
      List String → List (Shadow Factory) → (String → Option Factory) → String → Option Factory
  hand_back installed [] registry = registry
  hand_back installed (e ∷ es) registry =
      hand_back installed es
        (if includes e.name installed then registry else write registry e.name e.previous)

  unfoldable pub still_shadowed : List String → List (Shadow Factory) → List (Shadow Factory)
  still_shadowed installed [] = []
  still_shadowed installed (e ∷ es) =
      let rest = still_shadowed installed es in if includes e.name installed then e ∷ rest else rest

  unfoldable pub remember : String → LoaderState Factory → List (Shadow Factory)
  remember n s =
      if has n s.shadowed
      then s.shadowed
      else s.shadowed ++ (record { name = n; previous = s.registry n } ∷ [])

  module _ (import_factory : InstalledPackage → Option Factory) where
    -- One round of the second loop.
    unfoldable pub load_package : InstalledPackage → LoaderState Factory → LoaderState Factory
    load_package p s = elim (import_factory p) [
      | none ↦ s
      | some f ↦ record {
        registry = write s.registry p.name (some f);
        shadowed = remember p.name s;
        loaded = s.loaded ++ (p ∷ []);
      }
    ]

    unfoldable pub load_all : List InstalledPackage → LoaderState Factory → LoaderState Factory
    load_all [] s = s
    load_all (p ∷ ps) s = load_all ps (load_package p s)

    unfoldable pub load_packages_into_pkc :
        List InstalledPackage → LoaderState Factory → LoaderState Factory
    load_packages_into_pkc packages s =
        let installed = names packages in
        load_all packages (record {
          registry = hand_back installed s.shadowed s.registry;
          shadowed = still_shadowed installed s.shadowed;
          loaded = [];
        })
