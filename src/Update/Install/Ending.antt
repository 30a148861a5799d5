-- ===== src/Update/Install/Ending.antt =====
-- src/cli/commands/update/install.ts: what the whole run has done to the daemons when it ends.
use mathlib.Core.Path.{subst}
use bitsocial_cli.Common.{
  ℕ, String, ◌≡◌, ◌≢◌, ◌↔◌, refl, sym, ap, ◌∙◌, inl, inr, Bool, true, false, Option, some, List,
  ◌++◌, map, All, arith, Bool-cases, if◌then◌else◌,
}
use bitsocial_cli.Daemon.Supervisor.{DaemonState, DaemonSupervisor}
use bitsocial_cli.Update.Restart.{
  DaemonPlan, Action, stop_unmanaged, Run, plan_daemon_restarts, stop_unmanaged_daemons,
}
use bitsocial_cli.Update.Install.{
  Step, lifecycle, Outcome, installed, already_on, refused, failed, Execution, World, Request,
  after, has_any, finish, resolve_version, install_run,
}
use bitsocial_cli.Update.Install.Flow.{perform_all-fine, perform_all-works}
use bitsocial_cli.Update.Install.Outcomes.{
  StartsNothing, Owes, starts, restarts, lookups, target, installs, is_installed, is_current,
  HasInstalled, HasStayed, resolve_version-Pays,
}

abbrev pub stops : DaemonPlan → List Step
stops plan = map lifecycle (map stop_unmanaged plan.unmanaged)

if_true : (b : Bool) (x y : Execution) → b ≡ true → (if b then x else y) ≡ x
if_true true x y h = refl
if_true false x y h = absurd (ground (arith, h))

if_false : (b : Bool) (x y : Execution) → b ≡ false → (if b then x else y) ≡ y
if_false false x y h = refl
if_false true x y h = absurd (ground (arith, h))

after-outcome :
    (run : Run) (rest : Execution) (o : Outcome)
    → o ≢ failed
    → (after run rest).outcome ≡ o
    → (run.fine ≡ true) × (rest.outcome ≡ o)
after-outcome run rest o n h = ground (arith, Bool-cases run.fine)

stops-trace :
    (world : World) (plan : DaemonPlan)
    → (stop_unmanaged_daemons world.works plan).fine ≡ true
    → map lifecycle (stop_unmanaged_daemons world.works plan).trace ≡ stops plan
unfolding stop_unmanaged_daemons
stops-trace world plan h =
    ap (map lifecycle) (perform_all-fine world.works (map stop_unmanaged plan.unmanaged) h)

stops-fine :
    (world : World) (plan : DaemonPlan)
    → ((a : Action) → world.works a ≡ true)
    → (stop_unmanaged_daemons world.works plan).fine ≡ true
unfolding stop_unmanaged_daemons
stops-fine world plan w = perform_all-works world.works w (map stop_unmanaged plan.unmanaged)

fine-outcome :
    (run : Run) (rest : Execution) → run.fine ≡ true → rest.outcome ≡ (after run rest).outcome
fine-outcome run rest h = ground (arith, h)

after-stops :
    (world : World) (plan : DaemonPlan) (rest : Execution)
    → (stop_unmanaged_daemons world.works plan).fine ≡ true
    → (after (stop_unmanaged_daemons world.works plan) rest).steps ≡ stops plan ++ rest.steps
after-stops world plan rest h = rw (h, stops-trace world plan h) refl

module _ (number : String → Option ℕ) (resolve : DaemonState → Option DaemonSupervisor)
    (current : String) (alive : List DaemonState) (world : World) (request : Request)
    (h : has_any alive ≡ true) where
  run-after :
      request.restart_daemons ≡ true
      → install_run number resolve current alive world request
        ≡ after
            (stop_unmanaged_daemons world.works (plan_daemon_restarts resolve alive))
            (resolve_version number resolve current alive world request)
  unfolding install_run
  run-after e =
      let rest = resolve_version number resolve current alive world request in
      let run = stop_unmanaged_daemons world.works (plan_daemon_restarts resolve alive) in
      if_true (has_any alive) (if request.restart_daemons then after run rest else finish refused)
        rest h
      ∙ if_true request.restart_daemons (after run rest) (finish refused) e

  run-refused :
      request.restart_daemons ≡ false
      → install_run number resolve current alive world request ≡ finish refused
  unfolding install_run
  run-refused e =
      let rest = resolve_version number resolve current alive world request in
      let run = stop_unmanaged_daemons world.works (plan_daemon_restarts resolve alive) in
      if_true (has_any alive) (if request.restart_daemons then after run rest else finish refused)
        rest h
      ∙ if_false request.restart_daemons (after run rest) (finish refused) e

  -- Only the permission to restart lets a run go on.
  run-restarts :
      (o : Outcome)
      → o ≢ refused
      → (install_run number resolve current alive world request).outcome ≡ o
      → request.restart_daemons ≡ true
  run-restarts o n oc = elim (Bool-cases request.restart_daemons) [
    | inl e ↦ e
    | inr e ↦ absurd (n (sym oc ∙ ap (λ x. x.outcome) (run-refused e)))
  ]

  abbrev WasInstalled : List Step → Type 0
  WasInstalled = HasInstalled number resolve current alive world request

  abbrev WasThere : List Step → Type 0
  WasThere = HasStayed number resolve current alive world request

  -- Where the run gets to after the stops, if it does not fail.
  stopped-Owes :
      (o : Outcome)
      → o ≢ failed
      → request.restart_daemons ≡ true
      → (install_run number resolve current alive world request).outcome ≡ o
      → (rest : List Step) × Owes world WasInstalled WasThere o rest
        × ((install_run number resolve current alive world request).steps
            ≡ stops (plan_daemon_restarts resolve alive) ++ rest)
  stopped-Owes o n e h' =
      let plan = plan_daemon_restarts resolve alive in
      let rest = resolve_version number resolve current alive world request in
      let run = stop_unmanaged_daemons world.works plan in
      let (fine, reached) =
        after-outcome run rest o n (sym (ap (λ x. x.outcome) (run-after e)) ∙ h') in
      (
        rest.steps,
        subst (λ p. Owes world WasInstalled WasThere p rest.steps) reached
            (resolve_version-Pays number resolve current alive world request e h),
        ap (λ x. x.steps) (run-after e) ∙ after-stops world plan rest fine,
      )

  -- With daemons running, an update is refused, and has done nothing, exactly if `--no-restart-daemons`
  -- was given.
  install_run-refused :
      (install_run number resolve current alive world request ≡ finish refused)
      ↔ (request.restart_daemons ≡ false)
  install_run-refused = (
    λ e. elim (Bool-cases request.restart_daemons) [
      | inl k ↦
          let (_, owed, _) = stopped-Owes refused (ground arith) k (ap (λ x. x.outcome) e) in
          absurd owed
      | inr k ↦ k
    ],
    run-refused,
  )

  -- With daemons running, an update that installs has stopped every unsupervised daemon, then looked the latest
  -- version up unless the request names one, then installed a version that is known and not the current one or
  -- forced, by a fast installation that succeeded or a full one that did, then started every unsupervised daemon,
  -- and then had the supervisors restart theirs; it has done nothing else.
  pub install_run-installed :
      (install_run number resolve current alive world request).outcome ≡ installed
      → let plan = plan_daemon_restarts resolve alive in
        (v : String) × (target world request ≡ some v)
        × (is_current number current request v ≡ false)
        × (is_installed world request v ≡ true)
        × ((install_run number resolve current alive world request).steps
            ≡ stops plan
              ++ (lookups request
                  ++ (installs world request v ++ (starts plan ++ restarts world plan))))
  install_run-installed oc =
      let (rest, (v, known, new, done, e), f) =
        stopped-Owes installed (ground arith) (run-restarts installed (ground arith) oc) oc in
      (v, known, new, done, f ∙ ap (λ l. stops (plan_daemon_restarts resolve alive) ++ l) e)

  -- With daemons running, an update that finds its version installed has stopped every unsupervised daemon, then
  -- looked the latest version up unless the request names one, which is the current one and not forced, and then
  -- started every unsupervised daemon, and nothing else.
  pub install_run-already_on :
      (install_run number resolve current alive world request).outcome ≡ already_on
      → let plan = plan_daemon_restarts resolve alive in
        (v : String) × (target world request ≡ some v)
        × (is_current number current request v ≡ true)
        × ((install_run number resolve current alive world request).steps
            ≡ stops plan ++ (lookups request ++ starts plan))
  install_run-already_on oc =
      let (rest, (v, known, same, e), f) =
        stopped-Owes already_on (ground arith) (run-restarts already_on (ground arith) oc) oc in
      (v, known, same, f ∙ ap (λ l. stops (plan_daemon_restarts resolve alive) ++ l) e)

  -- If no action on a daemon fails, an update with daemons running that fails has stopped every unsupervised
  -- daemon and, from then on, brought no daemon up again.
  pub install_run-left_stopped :
      ((a : Action) → world.works a ≡ true)
      → (install_run number resolve current alive world request).outcome ≡ failed
      → (rest : List Step) × All StartsNothing rest
        × ((install_run number resolve current alive world request).steps
            ≡ stops (plan_daemon_restarts resolve alive) ++ rest)
  install_run-left_stopped w oc =
      let e = run-restarts failed (ground arith) oc in
      let plan = plan_daemon_restarts resolve alive in
      let rest = resolve_version number resolve current alive world request in
      let fine : (stop_unmanaged_daemons world.works plan).fine ≡ true = stops-fine world plan w in
      let reached : rest.outcome ≡ failed =
        fine-outcome (stop_unmanaged_daemons world.works plan) rest fine
        ∙ sym (ap (λ x. x.outcome) (run-after e))
        ∙ oc in
      (
        rest.steps,
        subst (λ p. Owes world WasInstalled WasThere p rest.steps) reached
            (resolve_version-Pays number resolve current alive world request e h) w,
        ap (λ x. x.steps) (run-after e) ∙ after-stops world plan rest fine,
      )
