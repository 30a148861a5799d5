-- ===== src/Daemon/Kubo/Shutdown.antt =====
-- src/cli/commands/daemon.ts: the shutdown comes to its end, and nothing starts after it.
use bitsocial_cli.Common.{ℕ, ◌≤◌, ◌≡◌, refl, Bool, true, false, List, [], ◌∷◌, ◌++◌, arith}
use bitsocial_cli.Daemon.Kubo.{
  Phase, idle, Teardown, up, awaiting_starts, interrupting, torn_down, Supervision, remove,
  clear_kubo, kill, end_attempt, keep_kubo_up, prepare, warn_and_prepare, port_checked, on_spawn,
  start_rejected, start_resolved, on_kubo_exit, sweep, finish_kill, interrupt, shutdown_daemon,
  exit_listeners, kill_listener, process_exited, Event, keep_up, process_exit, shutdown,
  starts_settled, starts_timeout, interrupt_timeout, spawned_in, attempt_step, teardown_step, step,
  run_from,
}

-- How far the shutdown is.
unfoldable pub stage : Teardown → ℕ
stage up = 0
stage awaiting_starts = 1
stage (interrupting p) = 2
stage torn_down = 3

-- The shutdown has come at least this far, and the daemon knows that it ends.
abbrev pub IsAt : ℕ → Supervision → Type 0
IsAt n s = (s.exited ≡ true) × (n ≤ stage s.teardown)

attempt_step-IsAt :
    (n : ℕ) (compares : Bool) (event : Event) (phase : Phase) (s : Supervision)
    → IsAt n s
    → IsAt n (attempt_step compares event phase s)
unfolding attempt_step port_checked warn_and_prepare prepare end_attempt start_rejected clear_kubo
    start_resolved kill spawned_in on_spawn
attempt_step-IsAt n compares event phase s h = ground arith

process_exited-IsAt : (n p : ℕ) (s : Supervision) → IsAt n s → IsAt n (process_exited p s)
unfolding process_exited exit_listeners kill_listener kill on_kubo_exit start_rejected end_attempt
    finish_kill sweep stage
process_exited-IsAt n p s h = ground arith

step-IsAt :
    (n : ℕ) (compares : Bool) (event : Event) (s : Supervision)
    → IsAt n s
    → IsAt n (step compares event s)
unfolding step teardown_step keep_kubo_up end_attempt shutdown_daemon stage finish_kill sweep kill
    interrupt
step-IsAt n compares (process_exit p) s h = process_exited-IsAt n p s h
step-IsAt n compares keep_up s h = ground arith
step-IsAt n compares shutdown s h = ground arith
step-IsAt n compares starts_settled s h = ground arith
step-IsAt n compares starts_timeout s h = ground arith
step-IsAt n compares interrupt_timeout s h = ground arith
step-IsAt n compares event s h = attempt_step-IsAt n compares event s.phase s h

run_from-IsAt :
    (n : ℕ) (compares : Bool) (s : Supervision) (events : List Event)
    → IsAt n s
    → IsAt n (run_from compares s events)
unfolding run_from
run_from-IsAt n compares s [] h = h
run_from-IsAt n compares s (event ∷ events) h =
    run_from-IsAt n compares (step compares event s) events (step-IsAt n compares event s h)

run_from-append :
    (compares : Bool) (s : Supervision) (xs ys : List Event)
    → run_from compares s (xs ++ ys) ≡ run_from compares (run_from compares s xs) ys
unfolding run_from
run_from-append compares s [] ys = refl
run_from-append compares s (x ∷ xs) ys = run_from-append compares (step compares x s) xs ys

shut_down : (s : Supervision) → s.exited ≡ false → IsAt 1 (shutdown_daemon s)
unfolding shutdown_daemon interrupt sweep stage
shut_down s e = ground arith

starts_timed_out :
    (compares : Bool) (s : Supervision) → IsAt 1 s → IsAt 2 (step compares starts_timeout s)
unfolding step teardown_step interrupt sweep stage
starts_timed_out compares s h = ground arith

interrupt_timed_out :
    (compares : Bool) (s : Supervision) → IsAt 2 s → IsAt 3 (step compares interrupt_timeout s)
unfolding step teardown_step finish_kill sweep kill stage
interrupt_timed_out compares s h = ground arith

torn_down_at : (s : Supervision) → IsAt 3 s → s.teardown ≡ torn_down
unfolding stage
torn_down_at s h = ground arith

pub timers-torn_down :
    (compares : Bool) (s : Supervision) (first second third : List Event)
    → s.exited ≡ false
    → (run_from compares s
        (shutdown ∷ (first ++ (starts_timeout ∷ (second ++ (interrupt_timeout ∷ third)))))).teardown
      ≡ torn_down
unfolding run_from step
timers-torn_down compares s first second third e =
    let one = run_from compares (shutdown_daemon s) first in
    let two = run_from compares (step compares starts_timeout one) second in
    let h = run_from-IsAt 1 compares (shutdown_daemon s) first (shut_down s e) in
    let k =
      run_from-IsAt 2 compares (step compares starts_timeout one) second
        (starts_timed_out compares one h) in
    rw
      (
        run_from-append compares (shutdown_daemon s) first
            (starts_timeout ∷ (second ++ (interrupt_timeout ∷ third))),
        run_from-append compares (step compares starts_timeout one) second
            (interrupt_timeout ∷ third),
      )
      (torn_down_at (run_from compares (step compares interrupt_timeout two) third) (
        run_from-IsAt 3 compares (step compares interrupt_timeout two) third
          (interrupt_timed_out compares two k)))

-- The daemon is on its way out with no start in flight and nothing alive.
abbrev pub IsQuiet : Supervision → Type 0
IsQuiet s = (s.exited ≡ true) × (s.phase ≡ idle) × (s.alive ≡ [])

process_exited-IsQuiet : (p : ℕ) (s : Supervision) → IsQuiet s → IsQuiet (process_exited p s)
unfolding process_exited exit_listeners kill_listener kill on_kubo_exit finish_kill sweep remove
process_exited-IsQuiet p s h = ground arith

step-IsQuiet :
    (compares : Bool) (event : Event) (s : Supervision)
    → IsQuiet s
    → IsQuiet (step compares event s)
unfolding step teardown_step keep_kubo_up end_attempt shutdown_daemon finish_kill sweep kill
    interrupt remove attempt_step
step-IsQuiet compares (process_exit p) s h = process_exited-IsQuiet p s h
step-IsQuiet compares keep_up s h = ground arith
step-IsQuiet compares shutdown s h = ground arith
step-IsQuiet compares starts_settled s h = ground arith
step-IsQuiet compares starts_timeout s h = ground arith
step-IsQuiet compares interrupt_timeout s h = ground arith
step-IsQuiet compares event s h = ground arith

-- Once the daemon is on its way out with no start in flight and no kubo alive, no kubo comes alive again,
-- however often it is asked to keep one up.
pub run_from-IsQuiet :
    (compares : Bool) (s : Supervision) (events : List Event)
    → IsQuiet s
    → IsQuiet (run_from compares s events)
unfolding run_from
run_from-IsQuiet compares s [] h = h
run_from-IsQuiet compares s (event ∷ events) h =
    run_from-IsQuiet compares (step compares event s) events (step-IsQuiet compares event s h)
