-- ===== src/Tests/Updates.antt =====
-- src/update and src/cli/commands/update/install.ts with one supervised daemon and one that is not.
use bitsocial_cli.Common.{
  ℕ, String, ◌<>◌, ◌≡◌, refl, true, false, Option, none, some, List, [], ◌∷◌, ◌++◌, All, In,
  includes, str_eq, if◌then◌else◌,
}
use bitsocial_cli.Daemon.Supervisor.{DaemonState, DaemonSupervisor}
use bitsocial_cli.Update.Semver.{
  less, parts, compare_versions, split_from, normalize, compare_segments, compare_segment,
}
use bitsocial_cli.Update.Semver.Order.{flip, Fits, compare_versions-flip, compare_versions-Fits}
use bitsocial_cli.Update.Semver.Prerelease.{compare_versions-number_first, compare_versions-suffix}
use bitsocial_cli.Update.Restart.{
  ManagedDaemon, DaemonPlan, plan_daemon_restarts, perform_all, stop_unmanaged_daemons,
  start_unmanaged_daemons, restart_loop, restart_managed_daemons, restarted_units, IsDistinct,
  restart_managed_daemons-once,
}
use bitsocial_cli.Update.Install.{
  Step, World, Request, installed, already_on, failed, install_run, resolve_version, reach_version,
  install_version, full_install, bring_back, stay,
}
use bitsocial_cli.Update.Install.Flow.{RespectsSupervisor, install_run-RespectsSupervisor}
use bitsocial_cli.Update.Install.Outcomes.{
  StartsNothing, starts, restarts, lookups, target, installs, is_installed, is_current,
}
use bitsocial_cli.Update.Install.Ending.{
  stops, install_run-installed, install_run-already_on, install_run-left_stopped,
}

-- `Number` on the segments of the versions below.
abbrev number : String → Option ℕ
number s =
    if str_eq s "0"
    then some 0
    else if str_eq s "1"
    then some 1
    else if str_eq s "19"
    then some 19
    else if str_eq s "20"
    then some 20
    else none

abbrev supervised : DaemonState
supervised = record {
  pid = 100;
  started_at = "2026-01-02T13:23:37.000Z";
  argv = [];
  pkc_rpc_url = "ws://localhost:9138/";
  proc_start_time = none;
  supervisor = some (record { unit = "bitsocial.service" });
}

abbrev detached : DaemonState
detached = record supervised { pid = 200; supervisor = none }

abbrev resolve : DaemonState → Option DaemonSupervisor
resolve d = d.supervisor

abbrev alive : List DaemonState
alive = supervised ∷ detached ∷ []

abbrev world : World
world = record {
  works = λ a. true;
  latest = some "0.20.0";
  fast_installs = λ v. false;
  installs = λ v. true;
}

abbrev offline : World
offline = record world { latest = none }

abbrev current : World
current = record world { latest = some "0.19.0" }

abbrev request : Request
request = record { version = none; force = false; restart_daemons = true }

abbrev plan : DaemonPlan
plan = plan_daemon_restarts resolve alive

install_run-RespectsSupervisor_example :
    All
      (RespectsSupervisor resolve alive)
      (install_run number resolve "0.19.0" alive world request).steps
install_run-RespectsSupervisor_example =
    install_run-RespectsSupervisor number resolve "0.19.0" alive world request

run-installed : (install_run number resolve "0.19.0" alive world request).outcome ≡ installed
unfolding install_run stop_unmanaged_daemons perform_all plan_daemon_restarts resolve_version
    reach_version install_version full_install bring_back start_unmanaged_daemons
    restart_managed_daemons restart_loop compare_versions compare_segments compare_segment parts
    split_from normalize
run-installed = refl

install_run-installed_example :
    (v : String) × (target world request ≡ some v)
    × (is_current number "0.19.0" request v ≡ false)
    × (is_installed world request v ≡ true)
    × ((install_run number resolve "0.19.0" alive world request).steps
        ≡ stops plan
          ++ (lookups request
              ++ (installs world request v ++ (starts plan ++ restarts world plan))))
install_run-installed_example =
    install_run-installed number resolve "0.19.0" alive world request refl run-installed

restart_managed_daemons-once_example :
    IsDistinct (restarted_units (restart_managed_daemons (λ a. true) plan).trace)
    × ((restart_managed_daemons (λ a. true) plan).fine ≡ true
        → (m : ManagedDaemon) → In m plan.managed
        → includes m.supervisor.unit
            (restarted_units (restart_managed_daemons (λ a. true) plan).trace)
          ≡ true)
restart_managed_daemons-once_example = restart_managed_daemons-once (λ a. true) plan

run-already_on : (install_run number resolve "0.19.0" alive current request).outcome ≡ already_on
unfolding install_run stop_unmanaged_daemons perform_all plan_daemon_restarts resolve_version
    reach_version start_unmanaged_daemons compare_versions compare_segments compare_segment parts
    split_from normalize stay
run-already_on = refl

install_run-already_on_example :
    (v : String) × (target current request ≡ some v)
    × (is_current number "0.19.0" request v ≡ true)
    × ((install_run number resolve "0.19.0" alive current request).steps
        ≡ stops plan ++ (lookups request ++ starts plan))
install_run-already_on_example =
    install_run-already_on number resolve "0.19.0" alive current request refl run-already_on

run-failed : (install_run number resolve "0.19.0" alive offline request).outcome ≡ failed
unfolding install_run stop_unmanaged_daemons perform_all plan_daemon_restarts resolve_version
run-failed = refl

install_run-left_stopped_example :
    (rest : List Step) × All StartsNothing rest
    × ((install_run number resolve "0.19.0" alive offline request).steps ≡ stops plan ++ rest)
install_run-left_stopped_example =
    install_run-left_stopped number resolve "0.19.0" alive offline request refl (λ a. refl)
      run-failed

compare_versions-flip_example :
    compare_versions number "0.20.0" "0.19.0" ≡ flip (compare_versions number "0.19.0" "0.20.0")
compare_versions-flip_example = compare_versions-flip number "0.19.0" "0.20.0"

compare_versions-Fits_example :
    Fits
      (compare_versions number "0.19" "0.19.1")
      (compare_versions number "0.19.1" "0.20")
      (compare_versions number "0.19" "0.20")
compare_versions-Fits_example = compare_versions-Fits number "0.19" "0.19.1" "0.20"

release-parts : parts number "0.19.1" ≡ some 0 ∷ some 19 ∷ some 1 ∷ []
unfolding parts split_from normalize
release-parts = refl

prerelease-parts : parts number "0.19.1-rc" ≡ some 0 ∷ some 19 ∷ none ∷ []
unfolding parts split_from normalize
prerelease-parts = refl

-- A release is below its own candidate.
compare_versions-number_first_example : compare_versions number "0.19.1" "0.19.1-rc" ≡ less
compare_versions-number_first_example =
    compare_versions-number_first number "0.19.1" "0.19.1-rc" (some 0 ∷ some 19 ∷ []) [] [] 1
      release-parts prerelease-parts

-- The text of a pre-release does not count.
compare_versions-suffix_example :
    (compare_versions number ("0.19" <> ("." <> "1-alpha")) ("0.20" <> ("." <> "1-rc"))
      ≡ compare_versions number "0.19" "0.20")
    × (compare_versions number ("0.19" <> ("." <> "1")) ("0.19" <> ("." <> "1-alpha")) ≡ less)
unfolding parts split_from normalize
compare_versions-suffix_example =
    compare_versions-suffix number "0.19" "0.20" "1-alpha" "1-rc" "1" 1 refl refl refl refl refl
