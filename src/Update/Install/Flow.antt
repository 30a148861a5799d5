-- ===== src/Update/Install/Flow.antt =====
-- src/cli/commands/update/install.ts: what the run does to the daemons.
use bitsocial_cli.Common.{
  ℕ, String, ◌≡◌, refl, inl, inr, Bool, true, false, not, ◌&&◌, Option, none, some, List, [], ◌∷◌,
  map, All, All-append, In, arith, Bool-cases, Option-cases, if◌then◌else◌, or_default,
}
use bitsocial_cli.Daemon.Supervisor.{DaemonState, DaemonSupervisor}
use bitsocial_cli.Update.Semver.{normalize, compare_versions}
use bitsocial_cli.Update.Restart.{
  DaemonPlan, ManagedDaemon, Action, stop_unmanaged, start_unmanaged, restart_managed, Run,
  perform_all, restart_loop, plan_daemon_restarts, stop_unmanaged_daemons, start_unmanaged_daemons,
  restart_managed_daemons,
}
use bitsocial_cli.Update.Install.{
  Step, lifecycle, fetch_latest_version, fast_install_global, install_global, installed, already_on,
  refused, Execution, World, Request, after, finish, step, if_known, has_any, is_equal, stay,
  bring_back, full_install, install_version, reach_version, resolve_version, install_run,
  wants_latest,
}

pub perform_all-fine :
    (works : Action → Bool) (as' : List Action)
    → (perform_all works as').fine ≡ true
    → (perform_all works as').trace ≡ as'
unfolding perform_all
perform_all-fine works [] h = refl
perform_all-fine works (a ∷ as') h = ground (arith, perform_all-fine works as')

pub perform_all-works :
    (works : Action → Bool)
    → ((a : Action) → works a ≡ true)
    → (as' : List Action) → (perform_all works as').fine ≡ true
unfolding perform_all
perform_all-works works h [] = refl
perform_all-works works h (a ∷ as') = ground (arith, h a, perform_all-works works h as')

pub restart_loop-works :
    (works : Action → Bool)
    → ((a : Action) → works a ≡ true)
    → (restarted : List String) (ms : List ManagedDaemon)
    → (restart_loop works restarted ms).fine ≡ true
unfolding restart_loop
restart_loop-works works h restarted [] = refl
restart_loop-works works h restarted (m ∷ ms) = ground (
  arith,
  h (restart_managed m.supervisor),
  restart_loop-works works h restarted ms,
  restart_loop-works works h (m.supervisor.unit ∷ restarted) ms,
)

-- A property of steps that all lifecycle actions of a plan have, and all steps of other kinds.
module _ (P : Step → Type 0) where
  perform_all-All :
      (works : Action → Bool) (f : DaemonState → Action) (ds : List DaemonState)
      → All (λ d. P (lifecycle (f d))) ds
      → All P (map lifecycle (perform_all works (map f ds)).trace)
  unfolding perform_all
  perform_all-All works f [] h = tt
  perform_all-All works f (d ∷ ds) (p, h) = ground (arith, perform_all-All works f ds h)

  restart_loop-All :
      (works : Action → Bool) (restarted : List String) (ms : List ManagedDaemon)
      → All (λ m. P (lifecycle (restart_managed m.supervisor))) ms
      → All P (map lifecycle (restart_loop works restarted ms).trace)
  unfolding restart_loop
  restart_loop-All works restarted [] h = tt
  restart_loop-All works restarted (m ∷ ms) (p, h) = ground (
    arith,
    restart_loop-All works restarted ms h,
    restart_loop-All works (m.supervisor.unit ∷ restarted) ms h,
  )

  after-All :
      (run : Run) (rest : Execution)
      → All P (map lifecycle run.trace)
      → All P rest.steps
      → All P (after run rest).steps
  after-All run rest h k = elim (Bool-cases run.fine) [
    | inl e ↦ rw e (All-append P (map lifecycle run.trace) rest.steps h k)
    | inr e ↦ rw e (All-append P (map lifecycle run.trace) [] h tt)
  ]

  if-All :
      (b : Bool) (x y : Execution)
      → All P x.steps
      → All P y.steps
      → All P (if b then x else y).steps
  if-All true x y h k = h
  if-All false x y h k = k

  -- What the plan and the other steps have to satisfy.
  record Holds (plan : DaemonPlan) : Type 0 where
    stops : All (λ d. P (lifecycle (stop_unmanaged d))) plan.unmanaged
    starts : All (λ d. P (lifecycle (start_unmanaged d))) plan.unmanaged
    restarts : All (λ m. P (lifecycle (restart_managed m.supervisor))) plan.managed
    fetches : P fetch_latest_version
    fast : (v : String) → P (fast_install_global v)
    full : (v : String) → P (install_global v)

module _ (P : Step → Type 0) (world : World) (plan : DaemonPlan) (h : Holds P plan) where
  stops-All : All P (map lifecycle (stop_unmanaged_daemons world.works plan).trace)
  unfolding stop_unmanaged_daemons
  stops-All = perform_all-All P world.works stop_unmanaged plan.unmanaged h.stops

  starts-All : All P (map lifecycle (start_unmanaged_daemons world.works plan).trace)
  unfolding start_unmanaged_daemons
  starts-All = perform_all-All P world.works start_unmanaged plan.unmanaged h.starts

  restarts-All : All P (map lifecycle (restart_managed_daemons world.works plan).trace)
  unfolding restart_managed_daemons
  restarts-All = restart_loop-All P world.works [] plan.managed h.restarts

  stay-All : (request : Request) → All P (stay world plan request).steps
  unfolding stay
  stay-All request =
      let run = start_unmanaged_daemons world.works plan in
      if-All P request.restart_daemons (after run (finish already_on)) (finish already_on)
        (after-All P run (finish already_on) starts-All tt) tt

  bring_back-All :
      (request : Request) (alive : List DaemonState)
      → All P (bring_back world plan request alive).steps
  unfolding bring_back
  bring_back-All request alive =
      let starts = start_unmanaged_daemons world.works plan in
      let restarts = restart_managed_daemons world.works plan in
      let rest = after restarts (finish installed) in
      if-All P (has_any alive && request.restart_daemons) (after starts rest) (finish installed)
        (after-All P starts rest starts-All
          (after-All P restarts (finish installed) restarts-All tt))
        tt

  install_version-All :
      (request : Request) (alive : List DaemonState) (v : String)
      → All P (install_version world plan request alive v).steps
  unfolding install_version full_install
  install_version-All request alive v =
      ground (arith, h.full v, h.fast v, bring_back-All request alive)

module _ (number : String → Option ℕ) (resolve : DaemonState → Option DaemonSupervisor)
    (current : String) (alive : List DaemonState) (world : World) (request : Request) where
  reach_version-All :
      (P : Step → Type 0) (h : Holds P (plan_daemon_restarts resolve alive)) (v : String)
      → All P (reach_version number resolve current alive world request v).steps
  unfolding reach_version
  reach_version-All P h v =
      let plan = plan_daemon_restarts resolve alive in
      if-All P (is_equal (compare_versions number current v) && not request.force)
        (stay world plan request) (install_version world plan request alive v)
        (stay-All P world plan h request) (install_version-All P world plan h request alive v)

  if_known-All :
      (P : Step → Type 0) (o : Option String) (rest : String → Execution)
      → ((v : String) → All P (rest v).steps)
      → All P (if_known o rest).steps
  if_known-All P none rest h = tt
  if_known-All P (some v) rest h = h v

  resolve_version-All :
      (P : Step → Type 0)
      → Holds P (plan_daemon_restarts resolve alive)
      → All P (resolve_version number resolve current alive world request).steps
  unfolding resolve_version
  resolve_version-All P h =
      let rest = reach_version number resolve current alive world request in
      let wanted = normalize (or_default request.version "") in
      if-All P (wants_latest request.version)
        (step fetch_latest_version (if_known world.latest rest)) (rest wanted)
        (h.fetches, if_known-All P world.latest rest (reach_version-All P h))
        (reach_version-All P h wanted)

  install_run-All :
      (P : Step → Type 0)
      → Holds P (plan_daemon_restarts resolve alive)
      → All P (install_run number resolve current alive world request).steps
  unfolding install_run
  install_run-All P h =
      let plan = plan_daemon_restarts resolve alive in
      let rest = resolve_version number resolve current alive world request in
      let stopped = after (stop_unmanaged_daemons world.works plan) rest in
      if-All P (has_any alive) (if request.restart_daemons then stopped else finish refused) rest
        (if-All P request.restart_daemons stopped (finish refused)
          (after-All P (stop_unmanaged_daemons world.works plan) rest (stops-All P world plan h)
            (resolve_version-All P h))
          tt)
        (resolve_version-All P h)

-- No lifecycle action of the step concerns a supervised daemon, but by its supervisor.
abbrev pub RespectsSupervisor :
    (DaemonState → Option DaemonSupervisor) → List DaemonState → Step → Type 0
RespectsSupervisor resolve alive (lifecycle (stop_unmanaged d)) = resolve d ≡ none
RespectsSupervisor resolve alive (lifecycle (start_unmanaged d)) = resolve d ≡ none
RespectsSupervisor resolve alive (lifecycle (restart_managed s)) =
    (d : DaemonState) × In d alive × (resolve d ≡ some s)
RespectsSupervisor resolve alive _ = Unit

unmanaged-resolve :
    (resolve : DaemonState → Option DaemonSupervisor) (ds : List DaemonState)
    → All (λ d. resolve d ≡ none) (plan_daemon_restarts resolve ds).unmanaged
unfolding plan_daemon_restarts
unmanaged-resolve resolve [] = tt
unmanaged-resolve resolve (d ∷ ds) = ground (arith, unmanaged-resolve resolve ds)

managed-resolve :
    (resolve : DaemonState → Option DaemonSupervisor) (P : DaemonSupervisor → Type 0)
    (ds : List DaemonState)
    → ((d : DaemonState) (s : DaemonSupervisor) → In d ds → resolve d ≡ some s → P s)
    → All (λ m. P m.supervisor) (plan_daemon_restarts resolve ds).managed
unfolding plan_daemon_restarts
managed-resolve resolve P [] h = tt
managed-resolve resolve P (d ∷ ds) h =
    let rest = managed-resolve resolve P ds (λ x s i. h x s (inr i)) in
    elim (Option-cases (resolve d)) [
      | inl e ↦ rw (e, plan_daemon_restarts) rest
      | inr (s, e) ↦ rw (e, plan_daemon_restarts) (h d s (inl refl) e, rest)
    ]

-- Whatever fails, `update install` stops and starts only daemons that no supervisor owns, and has a
-- supervisor restarted only if it owns a running daemon.
pub install_run-RespectsSupervisor :
    (number : String → Option ℕ) (resolve : DaemonState → Option DaemonSupervisor)
    (current : String) (alive : List DaemonState) (world : World) (request : Request)
    → All
        (RespectsSupervisor resolve alive)
        (install_run number resolve current alive world request).steps
install_run-RespectsSupervisor number resolve current alive world request =
    install_run-All number resolve current alive world request (RespectsSupervisor resolve alive)
      (record {
        stops = unmanaged-resolve resolve alive;
        starts = unmanaged-resolve resolve alive;
        restarts =
            managed-resolve resolve
              (λ s. RespectsSupervisor resolve alive (lifecycle (restart_managed s))) alive
              (λ d s i e. (d, i, e));
        fetches = tt;
        fast = λ v. tt;
        full = λ v. tt;
      })
