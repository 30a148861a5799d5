-- ===== src/Update/Install/Outcomes.antt =====
-- src/cli/commands/update/install.ts: how the run ends, and what it has done to the daemons by then.
use bitsocial_cli.Common.{
  ℕ, String, ◌≡◌, refl, ap, inl, inr, Bool, true, false, not, ◌&&◌, ◌||◌, Option, none, some, List,
  [], ◌∷◌, ◌++◌, map, All, append_nil, arith, Bool-cases, if◌then◌else◌, or_default,
}
use bitsocial_cli.Daemon.Supervisor.{DaemonState, DaemonSupervisor}
use bitsocial_cli.Update.Semver.{normalize, compare_versions}
use bitsocial_cli.Update.Restart.{
  DaemonPlan, Action, stop_unmanaged, start_unmanaged, plan_daemon_restarts,
  start_unmanaged_daemons, restart_managed_daemons,
}
use bitsocial_cli.Update.Install.{
  Step, lifecycle, fetch_latest_version, fast_install_global, install_global, Outcome, installed,
  already_on, refused, failed, Execution, World, Request, after, finish, step, if_known, has_any,
  is_equal, stay, bring_back, full_install, install_version, reach_version, resolve_version,
  wants_latest,
}
use bitsocial_cli.Update.Install.Flow.{perform_all-fine, perform_all-works, restart_loop-works}

-- A step that brings no daemon up.
abbrev pub StartsNothing : Step → Type 0
StartsNothing (lifecycle (stop_unmanaged d)) = Unit
StartsNothing (lifecycle _) = ⊥
StartsNothing _ = Unit

abbrev pub starts : DaemonPlan → List Step
starts plan = map lifecycle (map start_unmanaged plan.unmanaged)

abbrev pub restarts : World → DaemonPlan → List Step
restarts world plan = map lifecycle (restart_managed_daemons world.works plan).trace

-- The registry is asked unless the request names a version, and what is to be installed is then known.
abbrev pub lookups : Request → List Step
lookups request = if wants_latest request.version then fetch_latest_version ∷ [] else []

abbrev pub target : World → Request → Option String
target world request =
    if wants_latest request.version
    then world.latest
    else some (normalize (or_default request.version ""))

-- The installation of a version: a fast one first, unless it is forced, and a full one if that does not do.
abbrev pub installs : World → Request → String → List Step
installs world request v =
    if request.force
    then install_global v ∷ []
    else if world.fast_installs v
    then fast_install_global v ∷ []
    else fast_install_global v ∷ install_global v ∷ []

-- One of them has succeeded.
abbrev pub is_installed : World → Request → String → Bool
is_installed world request v = (not request.force && world.fast_installs v) || world.installs v

-- The version is the current one, and the request does not force it.
abbrev pub is_current : (String → Option ℕ) → String → Request → String → Bool
is_current number current request v =
    is_equal (compare_versions number current v) && not request.force

-- What an execution that has stopped its daemons owes, by its outcome: `I` is of the steps of one that installs,
-- `A` of one that finds its version installed.
module _ (world : World) where
  abbrev pub Owes : (List Step → Type 0) → (List Step → Type 0) → Outcome → List Step → Type 0
  Owes I A installed steps = I steps
  Owes I A already_on steps = A steps
  Owes I A refused steps = ⊥
  Owes I A failed steps = ((a : Action) → world.works a ≡ true) → All StartsNothing steps

  abbrev pub Pays : (List Step → Type 0) → (List Step → Type 0) → Execution → Type 0
  Pays I A x = Owes I A x.outcome x.steps

  if-Pays :
      (I A : List Step → Type 0) (b : Bool) (x y : Execution)
      → (b ≡ true → Pays I A x)
      → (b ≡ false → Pays I A y)
      → Pays I A (if b then x else y)
  if-Pays I A true x y h k = h refl
  if-Pays I A false x y h k = k refl

  Owes-map :
      (I A J B : List Step → Type 0) (o : Outcome) (steps : List Step)
      → ((l : List Step) → I l → J l)
      → ((l : List Step) → A l → B l)
      → Owes I A o steps
      → Owes J B o steps
  Owes-map I A J B installed steps f g h = f steps h
  Owes-map I A J B already_on steps f g h = g steps h
  Owes-map I A J B refused steps f g h = h
  Owes-map I A J B failed steps f g h = h

  step-Owes :
      (I A J B : List Step → Type 0) (s : Step) (o : Outcome) (steps : List Step)
      → StartsNothing s
      → ((l : List Step) → I l → J (s ∷ l))
      → ((l : List Step) → A l → B (s ∷ l))
      → Owes I A o steps
      → Owes J B o (s ∷ steps)
  step-Owes I A J B s installed steps k f g h = f steps h
  step-Owes I A J B s already_on steps k f g h = g steps h
  step-Owes I A J B s refused steps k f g h = h
  step-Owes I A J B s failed steps k f g h = λ w. (k, h w)

abbrev Never : List Step → Type 0
Never steps = ⊥

module _ (world : World) (plan : DaemonPlan) where
  -- The daemons are brought back, and nothing else is done.
  abbrev pub brought_back : List Step
  brought_back = starts plan ++ restarts world plan

  abbrev IsBack : List Step → Type 0
  IsBack steps = steps ≡ brought_back

  abbrev IsStarted : List Step → Type 0
  IsStarted steps = steps ≡ starts plan

  starts-fine :
      ((a : Action) → world.works a ≡ true) → (start_unmanaged_daemons world.works plan).fine ≡ true
  unfolding start_unmanaged_daemons
  starts-fine w = perform_all-works world.works w (map start_unmanaged plan.unmanaged)

  starts-trace :
      (start_unmanaged_daemons world.works plan).fine ≡ true
      → map lifecycle (start_unmanaged_daemons world.works plan).trace ≡ starts plan
  unfolding start_unmanaged_daemons
  starts-trace h =
      ap (map lifecycle) (perform_all-fine world.works (map start_unmanaged plan.unmanaged) h)

  restarts-fine :
      ((a : Action) → world.works a ≡ true) → (restart_managed_daemons world.works plan).fine ≡ true
  unfolding restart_managed_daemons
  restarts-fine w = restart_loop-works world.works w [] plan.managed

  stay-Pays :
      (request : Request)
      → request.restart_daemons ≡ true
      → Pays world Never IsStarted (stay world plan request)
  unfolding stay
  stay-Pays request e = elim (Bool-cases (start_unmanaged_daemons world.works plan).fine) [
    | inl f ↦ rw (e, f, starts-trace f) (append_nil (starts plan))
    | inr f ↦ rw (e, f) (λ w. absurd (ground (arith, starts-fine w, f)))
  ]

  restarted-Pays :
      (start_unmanaged_daemons world.works plan).fine ≡ true
      → Pays world IsBack Never (
          after
            (start_unmanaged_daemons world.works plan)
            (after (restart_managed_daemons world.works plan) (finish installed)))
  restarted-Pays f = elim (Bool-cases (restart_managed_daemons world.works plan).fine) [
    | inl g ↦
        rw (f, g, starts-trace f) (ap (λ l. starts plan ++ l) (append_nil (restarts world plan)))
    | inr g ↦ rw (f, g) (λ w. absurd (ground (arith, restarts-fine w, g)))
  ]

  bring_back-Pays :
      (request : Request) (alive : List DaemonState)
      → request.restart_daemons ≡ true
      → has_any alive ≡ true
      → Pays world IsBack Never (bring_back world plan request alive)
  unfolding bring_back
  bring_back-Pays request alive e h =
      elim (Bool-cases (start_unmanaged_daemons world.works plan).fine) [
        | inl f ↦ rw (e, h) (restarted-Pays f)
        | inr f ↦ rw (e, h, f) (λ w. absurd (ground (arith, starts-fine w, f)))
      ]

  -- The version is installed by these steps, of which the last has succeeded, and the daemons are brought back.
  abbrev IsFull : String → List Step → Type 0
  IsFull v steps = (steps ≡ install_global v ∷ brought_back) × (world.installs v ≡ true)

  abbrev pub IsInstall : Request → String → List Step → Type 0
  IsInstall request v steps =
      (steps ≡ installs world request v ++ brought_back) × (is_installed world request v ≡ true)

  full_install-Pays :
      (request : Request) (alive : List DaemonState) (v : String)
      → Pays world IsBack Never (bring_back world plan request alive)
      → Pays world (IsFull v) Never (full_install world plan request alive v)
  unfolding full_install
  full_install-Pays request alive v h =
      let back = bring_back world plan request alive in
      let rest = if world.installs v then back else finish failed in
      let I : List Step → Type 0 = λ l. IsBack l × (world.installs v ≡ true) in
      step-Owes world I Never (IsFull v) Never (install_global v) rest.outcome rest.steps tt
        (λ l (e, k). (ap (λ m. install_global v ∷ m) e, k)) (λ l x. x)
        (if-Pays world I Never (world.installs v) back (finish failed)
          (λ k.
            Owes-map world IsBack Never I Never back.outcome back.steps (λ l e. (e, k)) (λ l x. x)
              h)
          (λ k w. tt))

  full-IsInstall :
      (request : Request) (v : String) (l : List Step)
      → request.force ≡ true
      → IsFull v l
      → IsInstall request v l
  full-IsInstall request v l f (e, k) = (rw f e, rw (f, k) refl)

  fast-IsInstall :
      (request : Request) (v : String) (l : List Step)
      → request.force ≡ false
      → world.fast_installs v ≡ true
      → IsBack l
      → IsInstall request v (fast_install_global v ∷ l)
  fast-IsInstall request v l f k e =
      (rw (f, k) (ap (λ m. fast_install_global v ∷ m) e), rw (f, k) refl)

  both-IsInstall :
      (request : Request) (v : String) (l : List Step)
      → request.force ≡ false
      → world.fast_installs v ≡ false
      → IsFull v l
      → IsInstall request v (fast_install_global v ∷ l)
  both-IsInstall request v l f k (e, i) =
      (rw (f, k) (ap (λ m. fast_install_global v ∷ m) e), rw (f, k, i) refl)

  install_version-Pays :
      (request : Request) (alive : List DaemonState) (v : String)
      → Pays world IsBack Never (bring_back world plan request alive)
      → Pays world (IsInstall request v) Never (install_version world plan request alive v)
  unfolding install_version
  install_version-Pays request alive v h =
      let back = bring_back world plan request alive in
      let full = full_install world plan request alive v in
      let rest = if world.fast_installs v then back else full in
      let paid = full_install-Pays request alive v h in
      let I = IsInstall request v in
      let J : List Step → Type 0 = λ l. I (fast_install_global v ∷ l) in
      if-Pays world I Never request.force full (step (fast_install_global v) rest)
        (λ f.
          Owes-map world (IsFull v) Never I Never full.outcome full.steps
            (λ l. full-IsInstall request v l f) (λ l x. x) paid)
        (λ f.
          step-Owes world J Never I Never (fast_install_global v) rest.outcome rest.steps tt
            (λ l x. x) (λ l x. x)
            (if-Pays world J Never (world.fast_installs v) back full
              (λ k.
                Owes-map world IsBack Never J Never back.outcome back.steps
                  (λ l. fast-IsInstall request v l f k) (λ l x. x) h)
              (λ k.
                Owes-map world (IsFull v) Never J Never full.outcome full.steps
                  (λ l. both-IsInstall request v l f k) (λ l x. x) paid)))

module _ (number : String → Option ℕ) (resolve : DaemonState → Option DaemonSupervisor)
    (current : String) (alive : List DaemonState) (world : World) (request : Request) where
  -- The steps after the stops, for the version that is looked up.
  abbrev pub HasInstalled : List Step → Type 0
  HasInstalled steps =
      let plan = plan_daemon_restarts resolve alive in
      (v : String) × (target world request ≡ some v)
      × (is_current number current request v ≡ false)
      × (is_installed world request v ≡ true)
      × (steps
          ≡ lookups request ++ (installs world request v ++ (starts plan ++ restarts world plan)))

  abbrev pub HasStayed : List Step → Type 0
  HasStayed steps =
      (v : String) × (target world request ≡ some v)
      × (is_current number current request v ≡ true)
      × (steps ≡ lookups request ++ starts (plan_daemon_restarts resolve alive))

  abbrev AtInstall : String → List Step → Type 0
  AtInstall v steps =
      (is_current number current request v ≡ false)
      × IsInstall world (plan_daemon_restarts resolve alive) request v steps

  abbrev AtStay : String → List Step → Type 0
  AtStay v steps =
      (is_current number current request v ≡ true)
      × (steps ≡ starts (plan_daemon_restarts resolve alive))

  reach_version-Pays :
      request.restart_daemons ≡ true
      → has_any alive ≡ true
      → (v : String)
      → Pays world
          (AtInstall v)
          (AtStay v)
          (reach_version number resolve current alive world request v)
  unfolding reach_version
  reach_version-Pays e h v =
      let plan = plan_daemon_restarts resolve alive in
      let stayed = stay world plan request in
      let install = install_version world plan request alive v in
      if-Pays world (AtInstall v) (AtStay v) (is_current number current request v) stayed install
        (λ c.
          Owes-map world Never (λ l. l ≡ starts plan) (AtInstall v) (AtStay v) stayed.outcome
            stayed.steps (λ l x. absurd x) (λ l x. (c, x)) (stay-Pays world plan request e))
        (λ c.
          Owes-map world (IsInstall world plan request v) Never (AtInstall v) (AtStay v)
            install.outcome install.steps (λ l x. (c, x)) (λ l x. absurd x)
            (install_version-Pays world plan request alive v
              (bring_back-Pays world plan request alive e h)))

  asked-Pays :
      request.restart_daemons ≡ true
      → has_any alive ≡ true
      → wants_latest request.version ≡ true
      → (latest : Option String) → world.latest ≡ latest
      → Pays world HasInstalled HasStayed (
          step fetch_latest_version
            (if_known latest (reach_version number resolve current alive world request)))
  asked-Pays e h l none known = λ w. (tt, tt)
  asked-Pays e h l (some v) known =
      let x = reach_version number resolve current alive world request v in
      step-Owes world (AtInstall v) (AtStay v) HasInstalled HasStayed fetch_latest_version x.outcome
        x.steps tt
        (λ m (c, (s, i)). (v, rw l known, c, i, rw l (ap (λ n. fetch_latest_version ∷ n) s)))
        (λ m (c, s). (v, rw l known, c, rw l (ap (λ n. fetch_latest_version ∷ n) s)))
        (reach_version-Pays e h v)

  pub resolve_version-Pays :
      request.restart_daemons ≡ true
      → has_any alive ≡ true
      → Pays world HasInstalled HasStayed
          (resolve_version number resolve current alive world request)
  unfolding resolve_version
  resolve_version-Pays e h =
      let reach = reach_version number resolve current alive world request in
      let wanted = normalize (or_default request.version "") in
      let x = reach wanted in
      if-Pays world HasInstalled HasStayed (wants_latest request.version)
        (step fetch_latest_version (if_known world.latest reach)) x
        (λ l. asked-Pays e h l world.latest refl)
        (λ l.
          Owes-map world (AtInstall wanted) (AtStay wanted) HasInstalled HasStayed x.outcome x.steps
            (λ m (c, (s, i)). (wanted, rw l refl, c, i, rw l s))
            (λ m (c, s). (wanted, rw l refl, c, rw l s)) (reach_version-Pays e h wanted))
