-- ===== src/Packages/Loader/Shadowing.antt =====
-- src/common-utils/package-registry.ts: loading keeps what pkc-js itself registered.
use bitsocial_cli.Common.{
  String, ◌≡◌, refl, ◌∙◌, inl, inr, true, false, ◌&&◌, ◌||◌, Option, List, [], ◌∷◌, ◌++◌, All,
  All-append, includes, str_eq, eq_iff, arith, Bool-cases, Option-cases,
}
use bitsocial_cli.Packages.Loader.{
  InstalledPackage, Shadow, LoaderState, write, has, names, hand_back, still_shadowed, remember,
  load_package, load_all,
}

module _ {Factory : Type 0} (builtin : String → Option Factory) where
  -- What is shadowed is what pkc-js had, and what is not shadowed is still that.
  pub record IsConsistent (s : LoaderState Factory) : Type 0 where
    pub originals : All (λ e. e.previous ≡ builtin e.name) s.shadowed
    pub untouched : (n : String) → has n s.shadowed ≡ false → s.registry n ≡ builtin n

  pub hand_back-installed :
      (installed : List String) (es : List (Shadow Factory)) (registry : String → Option Factory)
      (n : String)
      → includes n installed ≡ true
      → hand_back installed es registry n ≡ registry n
  unfolding hand_back
  hand_back-installed installed [] registry n h = refl
  hand_back-installed installed (e ∷ es) registry n h =
      elim (Bool-cases (includes e.name installed)) [
        | inl k ↦ rw k (hand_back-installed installed es registry n h)
        | inr k ↦ rw k (
            hand_back-installed installed es (write registry e.name e.previous) n h
            ∙ ground (arith, h, k, eq_iff n e.name))
      ]

  pub hand_back-removed :
      (installed : List String) (es : List (Shadow Factory)) (registry : String → Option Factory)
      (n : String)
      → includes n installed ≡ false
      → All (λ e. e.previous ≡ builtin e.name) es
      → (has n es ≡ false → registry n ≡ builtin n)
      → hand_back installed es registry n ≡ builtin n
  unfolding hand_back
  hand_back-removed installed [] registry n h a k = k refl
  hand_back-removed installed (e ∷ es) registry n h (p, a) k =
      elim (Bool-cases (includes e.name installed)) [
        | inl i ↦ rw i (
            hand_back-removed installed es registry n h a
              (λ z. k (ground (arith, z, i, h, eq_iff n e.name))))
        | inr i ↦ rw i (
            hand_back-removed installed es (write registry e.name e.previous) n h a
              (λ z. ground (arith, z, k, p, eq_iff n e.name)))
      ]

  still_shadowed-has :
      (installed : List String) (es : List (Shadow Factory)) (n : String)
      → has n (still_shadowed installed es) ≡ (has n es && includes n installed)
  unfolding still_shadowed
  still_shadowed-has installed [] n = refl
  still_shadowed-has installed (e ∷ es) n =
      ground (arith, still_shadowed-has installed es n, eq_iff n e.name)

  still_shadowed-All :
      (P : Shadow Factory → Type 0) (installed : List String) (es : List (Shadow Factory))
      → All P es
      → All P (still_shadowed installed es)
  unfolding still_shadowed
  still_shadowed-All P installed [] h = tt
  still_shadowed-All P installed (e ∷ es) (p, h) =
      ground (arith, p, still_shadowed-All P installed es h)

  has-append :
      (n : String) (es fs : List (Shadow Factory)) → has n (es ++ fs) ≡ (has n es || has n fs)
  has-append n [] fs = refl
  has-append n (e ∷ es) fs = ground (arith, has-append n es fs)

  -- Both loops keep the state consistent.
  pub hand_back-IsConsistent :
      (installed : List String) (s : LoaderState Factory)
      → IsConsistent s
      → IsConsistent (record {
        registry = hand_back installed s.shadowed s.registry;
        shadowed = still_shadowed installed s.shadowed;
        loaded = [];
      })
  hand_back-IsConsistent installed s h = record {
    originals =
        still_shadowed-All (λ e. e.previous ≡ builtin e.name) installed s.shadowed h.originals;
    untouched = λ n k. elim (Bool-cases (includes n installed)) [
      | inl i ↦
          hand_back-installed installed s.shadowed s.registry n i
          ∙ h.untouched n (ground (arith, i, k, still_shadowed-has installed s.shadowed n))
      | inr i ↦ hand_back-removed installed s.shadowed s.registry n i h.originals (h.untouched n)
    ];
  }

  remember-All :
      (n : String) (s : LoaderState Factory)
      → IsConsistent s
      → All (λ e. e.previous ≡ builtin e.name) (remember n s)
  unfolding remember
  remember-All n s h = elim (Bool-cases (has n s.shadowed)) [
    | inl e ↦ rw e h.originals
    | inr e ↦ rw e (
        All-append (λ x. x.previous ≡ builtin x.name) s.shadowed
          (record { name = n; previous = s.registry n } ∷ []) h.originals (h.untouched n e, tt))
  ]

  remember-has :
      (n m : String) (s : LoaderState Factory)
      → has m (remember n s) ≡ (has m s.shadowed || str_eq m n)
  unfolding remember
  remember-has n m s = ground (
    arith,
    has-append m s.shadowed (record { name = n; previous = s.registry n } ∷ []),
    eq_iff m n,
    Bool-cases (has n s.shadowed),
  )

  load_package-IsConsistent :
      (import_factory : InstalledPackage → Option Factory) (p : InstalledPackage)
      (s : LoaderState Factory)
      → IsConsistent s
      → IsConsistent (load_package import_factory p s)
  unfolding load_package
  load_package-IsConsistent import_factory p s h = elim (Option-cases (import_factory p)) [
    | inl e ↦ rw (e, load_package) h
    | inr (f, e) ↦
        rw (e, load_package)
          (record {
            originals = remember-All p.name s h;
            untouched = λ n k. ground (arith, k, h.untouched n, remember-has p.name n s);
          })
  ]

  pub load_all-IsConsistent :
      (import_factory : InstalledPackage → Option Factory) (ps : List InstalledPackage)
      (s : LoaderState Factory)
      → IsConsistent s
      → IsConsistent (load_all import_factory ps s)
  unfolding load_all
  load_all-IsConsistent import_factory [] s h = h
  load_all-IsConsistent import_factory (p ∷ ps) s h =
      load_all-IsConsistent import_factory ps (load_package import_factory p s)
        (load_package-IsConsistent import_factory p s h)

  pub load_all-other :
      (import_factory : InstalledPackage → Option Factory) (ps : List InstalledPackage)
      (s : LoaderState Factory) (n : String)
      → includes n (names ps) ≡ false
      → (load_all import_factory ps s).registry n ≡ s.registry n
  unfolding load_all load_package
  load_all-other import_factory [] s n h = refl
  load_all-other import_factory (p ∷ ps) s n h =
      load_all-other import_factory ps (load_package import_factory p s) n (ground (arith, h))
      ∙ ground (arith, h)
