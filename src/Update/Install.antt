-- ===== src/Update/Install.antt =====
-- src/cli/commands/update/install.ts: `run`. A step of the run is in its trace; which of them succeed is
-- the `World`. The version comparison and the supervisor lookup are parameters.
pub mod Flow
pub mod Outcomes
pub mod Ending
use bitsocial_cli.Common.{
  ℕ, String, str_eq, ◌||◌, or_default, Bool, true, false, not, ◌&&◌, Option, none, some, List, [],
  ◌∷◌, ◌++◌, map, if◌then◌else◌,
}
use bitsocial_cli.Daemon.Supervisor.{DaemonState, DaemonSupervisor}
use bitsocial_cli.Update.Semver.{Sign, equal, normalize, compare_versions}
use bitsocial_cli.Update.Restart.{
  DaemonPlan, Action, Run, plan_daemon_restarts, stop_unmanaged_daemons, start_unmanaged_daemons,
  restart_managed_daemons,
}

pub data Step : Type 0 where
  lifecycle : Action → Step
  fetch_latest_version : Step
  fast_install_global : String → Step
  install_global : String → Step

pub data Outcome : Type 0 where
  installed already_on refused failed : Outcome

pub record Execution : Type 0 where
  pub steps : List Step
  pub outcome : Outcome

-- What the effects do: a lifecycle action works or throws; the registry answers or throws; the fast
-- install reports whether it installed, and one that throws counts as one that did not.
pub record World : Type 0 where
  pub works : Action → Bool
  pub latest : Option String
  pub fast_installs : String → Bool
  pub installs : String → Bool

pub record Request : Type 0 where
  pub version : Option String
  pub force : Bool
  pub restart_daemons : Bool

abbrev pub has_any : List DaemonState → Bool
has_any [] = false
has_any (d ∷ ds) = true

abbrev is_equal : Sign → Bool
is_equal equal = true
is_equal _ = false

-- The lifecycle actions first; what follows runs only if all of them succeeded.
abbrev pub after : Run → Execution → Execution
after run rest = record {
  steps = map lifecycle run.trace ++ (if run.fine then rest.steps else []);
  outcome = if run.fine then rest.outcome else failed;
}

abbrev pub finish : Outcome → Execution
finish o = record { steps = []; outcome = o }

abbrev pub step : Step → Execution → Execution
step s rest = record rest { steps = s ∷ rest.steps }

module _ (world : World) (plan : DaemonPlan) (request : Request) where
  -- Nothing to install: the unsupervised daemons come back.
  unfoldable pub stay : Execution
  stay =
      if request.restart_daemons
      then after (start_unmanaged_daemons world.works plan) (finish already_on)
      else finish already_on

module _ (world : World) (plan : DaemonPlan) (request : Request) (alive : List DaemonState) where
  -- The daemons come back on the new binary.
  unfoldable pub bring_back : Execution
  bring_back =
      if has_any alive && request.restart_daemons
      then after (start_unmanaged_daemons world.works plan)
          (after (restart_managed_daemons world.works plan) (finish installed))
      else finish installed

  unfoldable pub full_install : String → Execution
  full_install v = step (install_global v) (if world.installs v then bring_back else finish failed)

  unfoldable pub install_version : String → Execution
  install_version v =
      if request.force
      then full_install v
      else step (fast_install_global v)
          (if world.fast_installs v then bring_back else full_install v)

-- A registry that does not answer ends the run.
abbrev pub if_known : Option String → (String → Execution) → Execution
if_known none rest = finish failed
if_known (some v) rest = rest v

-- `!args.version || args.version === "latest"`
abbrev pub wants_latest : Option String → Bool
wants_latest none = true
wants_latest (some v) = str_eq v "" || str_eq v "latest"

module _ (number : String → Option ℕ) (resolve : DaemonState → Option DaemonSupervisor)
    (current : String) (alive : List DaemonState) where
  unfoldable pub reach_version : World → Request → String → Execution
  reach_version world request v =
      if is_equal (compare_versions number current v) && not request.force
      then stay world (plan_daemon_restarts resolve alive) request
      else install_version world (plan_daemon_restarts resolve alive) request alive v

  unfoldable pub resolve_version : World → Request → Execution
  resolve_version world request =
      if wants_latest request.version
      then step fetch_latest_version (if_known world.latest (reach_version world request))
      else reach_version world request (normalize (or_default request.version ""))

  -- `Install.run`
  unfoldable pub install_run : World → Request → Execution
  install_run world request =
      if has_any alive
      then (if request.restart_daemons
          then after (stop_unmanaged_daemons world.works (plan_daemon_restarts resolve alive))
              (resolve_version world request)
          else finish refused)
      else resolve_version world request
