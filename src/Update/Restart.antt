-- ===== src/Update/Restart.antt =====
-- src/update/restart-orchestration.ts: which daemons an update stops, starts and has restarted. An
-- effect of the lifecycle is an action in a trace; `works` says which effects succeed, and the first that
-- throws ends the loop.
use bitsocial_cli.Common.{
  String, ◌≡◌, refl, inl, inr, Bool, true, false, not, ◌||◌, Option, none, some, List, [], ◌∷◌, map,
  eq_iff, eq_refl, includes, All, In, keep, is_some, arith, if◌then◌else◌, Bool-cases,
}
use bitsocial_cli.Daemon.Supervisor.{DaemonState, DaemonSupervisor}

pub record ManagedDaemon : Type 0 where
  pub daemon : DaemonState
  pub supervisor : DaemonSupervisor

pub record DaemonPlan : Type 0 where
  pub managed : List ManagedDaemon
  pub unmanaged : List DaemonState

pub data Action : Type 0 where
  stop_unmanaged : DaemonState → Action
  start_unmanaged : DaemonState → Action
  restart_managed : DaemonSupervisor → Action

abbrev pub add_managed : DaemonState → DaemonSupervisor → DaemonPlan → DaemonPlan
add_managed d s plan = record plan {
  managed = record { daemon = d; supervisor = s } ∷ plan.managed;
}

abbrev add_unmanaged : DaemonState → DaemonPlan → DaemonPlan
add_unmanaged d plan = record plan { unmanaged = d ∷ plan.unmanaged }

-- The daemons in their order; `resolve` finds the supervisor.
unfoldable pub plan_daemon_restarts :
    (DaemonState → Option DaemonSupervisor) → List DaemonState → DaemonPlan
plan_daemon_restarts resolve [] = record { managed = []; unmanaged = [] }
plan_daemon_restarts resolve (d ∷ ds) =
    let rest = plan_daemon_restarts resolve ds in
    elim (resolve d) [ some s ↦ add_managed d s rest | none ↦ add_unmanaged d rest ]

-- The actions that were begun, and whether all of them succeeded.
pub record Run : Type 0 where
  pub trace : List Action
  pub fine : Bool

abbrev pub begun : Action → Run → Run
begun a run = record run { trace = a ∷ run.trace }

abbrev pub idle : Run
idle = record { trace = []; fine = true }

module _ (works : Action → Bool) where
  unfoldable pub perform_all : List Action → Run
  perform_all [] = idle
  perform_all (a ∷ as') =
      let rest = perform_all as' in
      if works a then begun a rest else record { trace = a ∷ []; fine = false }

  unfoldable pub stop_unmanaged_daemons : DaemonPlan → Run
  stop_unmanaged_daemons plan = perform_all (map stop_unmanaged plan.unmanaged)

  unfoldable pub start_unmanaged_daemons : DaemonPlan → Run
  start_unmanaged_daemons plan = perform_all (map start_unmanaged plan.unmanaged)

  -- The loop of `restartManagedDaemons`, with the units that were restarted. The key of a supervisor is
  -- "systemd:" and its unit.
  unfoldable pub restart_loop : List String → List ManagedDaemon → Run
  restart_loop restarted [] = idle
  restart_loop restarted (m ∷ ms) =
      let skipped = restart_loop restarted ms in
      let rest = restart_loop (m.supervisor.unit ∷ restarted) ms in
      let a = restart_managed m.supervisor in
      if includes m.supervisor.unit restarted
      then skipped
      else if works a
      then begun a rest
      else record { trace = a ∷ []; fine = false }

  unfoldable pub restart_managed_daemons : DaemonPlan → Run
  restart_managed_daemons plan = restart_loop [] plan.managed

-- The units that a trace has restarted, in order.
abbrev pub restarted_units : List Action → List String
restarted_units [] = []
restarted_units (restart_managed s ∷ as') = s.unit ∷ restarted_units as'
restarted_units (_ ∷ as') = restarted_units as'

-- No text stands in the list twice.
abbrev pub IsDistinct : List String → Type 0
IsDistinct [] = Unit
IsDistinct (s ∷ ss) = (includes s ss ≡ false) × IsDistinct ss

-- A unit that was restarted before is not restarted.
restart_loop-includes :
    (works : Action → Bool) (u : String) (restarted : List String) (ms : List ManagedDaemon)
    → includes u restarted ≡ true
    → includes u (restarted_units (restart_loop works restarted ms).trace) ≡ false
unfolding restart_loop
restart_loop-includes works u restarted [] h = refl
restart_loop-includes works u restarted (m ∷ ms) h =
    let seen = Bool-cases (includes m.supervisor.unit restarted) in
    let run = Bool-cases (works (restart_managed m.supervisor)) in
    ground (
      arith,
      seen,
      run,
      restart_loop-includes works u restarted ms h,
      restart_loop-includes works u (m.supervisor.unit ∷ restarted) ms (ground (arith, h)),
      eq_iff u m.supervisor.unit,
    )

restart_loop-IsDistinct :
    (works : Action → Bool) (restarted : List String) (ms : List ManagedDaemon)
    → IsDistinct (restarted_units (restart_loop works restarted ms).trace)
unfolding restart_loop
restart_loop-IsDistinct works restarted [] = tt
restart_loop-IsDistinct works restarted (m ∷ ms) = ground (
  arith,
  restart_loop-IsDistinct works restarted ms,
  restart_loop-IsDistinct works (m.supervisor.unit ∷ restarted) ms,
  restart_loop-includes works m.supervisor.unit (m.supervisor.unit ∷ restarted) ms,
  eq_refl m.supervisor.unit,
)

-- Every unit of the plan is among the restarted ones, unless a restart failed.
restart_loop_complete :
    (works : Action → Bool) (restarted : List String) (ms : List ManagedDaemon) (m : ManagedDaemon)
    → (restart_loop works restarted ms).fine ≡ true
    → In m ms
    → (includes m.supervisor.unit (restarted_units (restart_loop works restarted ms).trace)
        || includes m.supervisor.unit restarted)
      ≡ true
unfolding restart_loop
restart_loop_complete works restarted [] m h i = absurd i
restart_loop_complete works restarted (n ∷ ms) m h (inl e) =
    rw e (ground (arith, eq_refl n.supervisor.unit))
restart_loop_complete works restarted (n ∷ ms) m h (inr i) = ground (
  arith,
  restart_loop_complete works restarted ms m,
  restart_loop_complete works (n.supervisor.unit ∷ restarted) ms m,
  eq_iff n.supervisor.unit m.supervisor.unit,
)

-- Whatever daemons share a unit, `restartManagedDaemons` restarts no unit twice; if no restart fails, it
-- restarts the unit of each supervised daemon of the plan.
pub restart_managed_daemons-once :
    (works : Action → Bool) (plan : DaemonPlan)
    → IsDistinct (restarted_units (restart_managed_daemons works plan).trace)
      × ((restart_managed_daemons works plan).fine ≡ true
          → (m : ManagedDaemon) → In m plan.managed
          → includes m.supervisor.unit (restarted_units (restart_managed_daemons works plan).trace)
            ≡ true)
unfolding restart_managed_daemons
restart_managed_daemons-once works plan = (
  restart_loop-IsDistinct works [] plan.managed,
  λ h m i. ground (arith, restart_loop_complete works [] plan.managed m h i),
)

-- The plan splits the daemons by whether they have a supervisor, in their order.
pub plan_daemon_restarts-split :
    (resolve : DaemonState → Option DaemonSupervisor) (ds : List DaemonState)
    → ((plan_daemon_restarts resolve ds).unmanaged ≡ keep (λ d. not (is_some (resolve d))) ds)
      × (map (λ m. m.daemon) (plan_daemon_restarts resolve ds).managed
          ≡ keep (λ d. is_some (resolve d)) ds)
      × All (λ m. resolve m.daemon ≡ some m.supervisor) (plan_daemon_restarts resolve ds).managed
unfolding plan_daemon_restarts
plan_daemon_restarts-split resolve [] = (refl, refl, tt)
plan_daemon_restarts-split resolve (d ∷ ds) = ground (arith, plan_daemon_restarts-split resolve ds)
