-- ===== src/Tests/Daemons.antt =====
-- src/common-utils/daemon-state.ts on a daemon that a systemd unit owns and on a dead one.
use bitsocial_cli.Common.{
  ℕ, String, ◌≡◌, ◌≢◌, ◌↔◌, ◌⊎◌, refl, true, not, Option, none, some, List, [], ◌∷◌, ◌++◌, In, keep,
  any, codes, ends_with, ◌==◌, if◌then◌else◌,
}
use bitsocial_cli.Daemon.Supervisor.{
  DaemonState, present, detect_self_supervisor, detect_self_supervisor_iff,
}
use bitsocial_cli.Daemon.Cgroup.{
  parse_systemd_unit_from_cgroup, lines_from, first_unit, is_blank, is_space, leaf_of, after_last,
}
use bitsocial_cli.Daemon.States.{
  StateFile, Processes, sent, no_process, unlinked, write_daemon_state, read_files,
  read_all_daemon_states, is_daemon_state_alive, get_alive_daemon_states,
}
use bitsocial_cli.Daemon.States.Prune.{
  started, write_daemon_state-read, get_alive_daemon_states-keep, fails, removes,
}

abbrev path : List ℕ
path = codes "/system.slice"

abbrev unit : List ℕ
unit = codes "bitsocial.service"

abbrev line : List ℕ
line = codes "0:" ++ (b':' ∷ (path ++ (b'/' ∷ unit)))

abbrev content : List ℕ
content = line ++ (b'\n' ∷ [])

content-unit : parse_systemd_unit_from_cgroup content ≡ some unit
unfolding parse_systemd_unit_from_cgroup lines_from first_unit is_blank is_space leaf_of after_last
    ends_with
content-unit = refl

abbrev main_pid : String → Option ℕ
main_pid _ = some 100

detect_self_supervisor_iff_example :
    (detect_self_supervisor (some "bitsocial.service") main_pid (some "1f2e") 100 1
      ≡ some (record { unit = "bitsocial.service" }))
    ↔ ((present (some "1f2e") ≢ none)
        × (present (some "bitsocial.service") ≡ some "bitsocial.service")
        × ((main_pid "bitsocial.service" ≡ some 100) ⊎ (main_pid "bitsocial.service" ≡ some 1)))
detect_self_supervisor_iff_example =
    detect_self_supervisor_iff (some "bitsocial.service") main_pid (some "1f2e") 100 1
      "bitsocial.service"

abbrev state : DaemonState
state = record {
  pid = 100;
  started_at = "2026-01-02T13:23:37.000Z";
  argv = [];
  pkc_rpc_url = "ws://localhost:9138/";
  proc_start_time = none;
  supervisor = none;
}

-- Only process 100 lives.
abbrev os : Processes
os = record {
  kill = λ pid. if pid == 100 then sent else no_process;
  start_time = λ pid. some "12345";
  names_bitsocial = λ pid. some true;
}

abbrev dead : DaemonState
dead = record state { pid = 200 }

abbrev dir : List StateFile
dir =
    record { name = "100-daemon.state"; content = some state }
    ∷ record { name = "200-daemon.state"; content = some dead }
    ∷ []

-- The pid of the daemon after a restart of the machine.
abbrev restarted_os : Processes
restarted_os = record os { start_time = λ pid. some "77" }

write_daemon_state-read_example :
    In (started state "12345") (read_all_daemon_states (some (write_daemon_state os state dir)))
    × ((is_daemon_state_alive restarted_os (started state "12345") ≡ true) ↔ (
        (restarted_os.kill state.pid ≢ no_process)
        × ((restarted_os.start_time state.pid ≡ none)
            ⊎ (restarted_os.start_time state.pid ≡ some "12345"))))
write_daemon_state-read_example =
    write_daemon_state-read os restarted_os state dir "12345" refl refl

get_alive_daemon_states-keep_example : get_alive_daemon_states os (λ name. unlinked) dir ≡ (
    if any (fails os (λ name. unlinked)) (read_files dir)
    then none
    else some (
      keep (is_daemon_state_alive os) (read_files dir),
      keep (λ f. not (any (removes os (λ name. unlinked) f.name) (read_files dir))) dir,
    ))
get_alive_daemon_states-keep_example = get_alive_daemon_states-keep os (λ name. unlinked) dir
