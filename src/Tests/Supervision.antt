-- ===== src/Tests/Supervision.antt =====
-- src/cli/commands/daemon.ts on a kubo that starts, ends and is started again.
use bitsocial_cli.Common.{◌≤◌, ◌≡◌, refl, true, false, some, List, [], ◌∷◌, ◌++◌, length, ℕ, ◌⊎◌}
use bitsocial_cli.Daemon.Kubo.{
  with_pid, torn_down, Supervision, waiting, supervision, exit_handler, Event, keep_up, port_known,
  compared, spawned, daemon_ready, process_exit, shutdown, starts_timeout, interrupt_timeout,
  run_from, step, keep_kubo_up, port_checked, warn_and_prepare, prepare, spawned_in, on_spawn,
  holds, remove, start_resolved, end_attempt, attempt_step,
}
use bitsocial_cli.Daemon.Kubo.Safety.{tracks, run_from-one_kubo}
use bitsocial_cli.Daemon.Kubo.Ended.{run_from-torn_down}
use bitsocial_cli.Daemon.Kubo.Recovery.{run_from-restarts}

abbrev first_start : List Event
first_start = keep_up ∷ port_known false ∷ compared true ∷ spawned (with_pid 70) ∷ daemon_ready ∷ []

run_from-one_kubo_example :
    (length (run_from true supervision first_start).alive ≤ 1)
    × (tracks
          (run_from true supervision first_start).kubo
          (run_from true supervision first_start).alive
        ≡ true)
    × ((exit_handler (run_from true supervision first_start)).alive ≡ [])
run_from-one_kubo_example = run_from-one_kubo true first_start

run_from-restarts_example :
    let t = run_from true (run_from true supervision first_start) (
      process_exit 70
      ∷ port_known false
      ∷ compared true
      ∷ spawned (with_pid 71)
      ∷ daemon_ready
      ∷ []) in
    (t.exited ≡ false) × (t.kubo ≡ some (with_pid 71)) × (t.alive ≡ 71 ∷ []) × (t.failed ≡ false)
unfolding run_from step keep_kubo_up port_checked warn_and_prepare prepare spawned_in on_spawn holds
    remove start_resolved end_attempt attempt_step
run_from-restarts_example = run_from-restarts true first_start 70 71 refl refl refl

-- A start that hangs while the watchdog asks again, and whose process comes only after the teardown.
abbrev asked : List Event
asked = keep_up ∷ port_known false ∷ compared true ∷ []

abbrev left : Supervision
left = run_from true (run_from true supervision asked) (
    shutdown
    ∷ ((keep_up ∷ [])
        ++ (starts_timeout ∷ ([] ++ (interrupt_timeout ∷ (spawned (with_pid 80) ∷ []))))))

run_from-torn_down_example :
    (left.teardown ≡ torn_down)
    × ((left.alive ≡ []) ⊎ ((p : ℕ) × (left.phase ≡ waiting (with_pid p)) × (left.alive ≡ p ∷ [])))
unfolding run_from step keep_kubo_up port_checked warn_and_prepare prepare end_attempt attempt_step
run_from-torn_down_example =
    run_from-torn_down true asked (keep_up ∷ []) [] (spawned (with_pid 80) ∷ []) refl
