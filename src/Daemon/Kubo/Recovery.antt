-- ===== src/Daemon/Kubo/Recovery.antt =====
-- src/cli/commands/daemon.ts: a kubo that ends is started again.
use bitsocial_cli.Common.{
  ℕ, ◌≡◌, refl, Bool, true, false, not, ◌&&◌, ◌||◌, Option, none, some, List, [], ◌∷◌, arith,
  ==_self,
}
use bitsocial_cli.Daemon.Kubo.{
  Child, pidless, with_pid, Phase, idle, checking_port, asking_version, comparing, preparing,
  waiting, Teardown, up, Supervision, supervision, holds, remove, same_child, is_kubo, clear_kubo,
  kill, end_attempt, keep_kubo_up, prepare, warn_and_prepare, port_checked, on_spawn,
  start_rejected, start_resolved, on_kubo_exit, sweep, finish_kill, interrupt, shutdown_daemon,
  exit_listeners, kill_listener, process_exited, Event, keep_up, port_known, version_known,
  compared, not_prepared, spawned, spawn_error, daemon_ready, process_exit, shutdown,
  starts_settled, starts_timeout, interrupt_timeout, spawned_in, attempt_step, teardown_step, step,
  run_from,
}
use bitsocial_cli.Daemon.Kubo.Safety.{
  all_gone, tracks-remove, is_alive, Inv, starts, kubo_fits, holds-remove, step-Inv, run_from-Inv,
  supervision-Inv,
}

unfoldable pub is_up : Teardown → Bool
is_up up = true
is_up _ = false

-- The exit of `kuboProcess` will be noticed: by the start that waits for it, or by its `onKuboExit`.
unfoldable pub is_heard : Phase → Option Child → List ℕ → List ℕ → Bool
is_heard (waiting (with_pid p)) kubo watched silenced = not (holds p silenced)
is_heard (waiting pidless) kubo watched silenced = true
is_heard _ none watched silenced = true
is_heard _ (some pidless) watched silenced = false
is_heard _ (some (with_pid p)) watched silenced = holds p watched && not (holds p silenced)

-- While the daemon is up, the exit of kubo never goes unnoticed.
unfoldable pub attends : Supervision → Bool
attends s = s.exited || (is_up s.teardown && is_heard s.phase s.kubo s.watched s.silenced)

is_heard-none :
    (phase : Phase) (watched silenced : List ℕ)
    → starts phase ≡ false
    → is_heard phase none watched silenced ≡ true
unfolding is_heard starts
is_heard-none phase watched silenced e = ground arith

attempt_step-attends :
    (compares : Bool) (event : Event) (phase : Phase) (s : Supervision)
    → Inv s
    → attends s ≡ true
    → s.phase ≡ phase
    → attends (attempt_step compares event phase s) ≡ true
unfolding attempt_step attends is_heard starts kubo_fits is_kubo same_child holds
attempt_step-attends compares (port_known taken) checking_port s h a e =
    unfold port_checked warn_and_prepare prepare end_attempt in ground arith
attempt_step-attends compares (version_known healthy) asking_version s h a e =
    unfold end_attempt in ground arith
attempt_step-attends compares (compared ok) comparing s h a e =
    unfold prepare end_attempt in ground arith
attempt_step-attends compares not_prepared preparing s h a e =
    unfold start_rejected end_attempt in ground arith
attempt_step-attends compares (spawned (with_pid p)) preparing s h a e =
    unfold spawned_in on_spawn in ground (arith, holds-remove p p s.silenced)
attempt_step-attends compares (spawned pidless) preparing s h a e =
    unfold spawned_in on_spawn in ground (arith)
attempt_step-attends compares spawn_error (waiting pidless) s h a e =
    unfold start_rejected clear_kubo end_attempt in ground arith
attempt_step-attends compares daemon_ready (waiting (with_pid p)) s h a e =
    unfold start_resolved clear_kubo kill end_attempt in ground arith
attempt_step-attends compares _ _ s h a e = a

on_kubo_exit-attends :
    (p : ℕ) (k : Option Child) (s : Supervision)
    → s.kubo ≡ k
    → attends s ≡ true
    → attends (on_kubo_exit p s) ≡ true
unfolding on_kubo_exit clear_kubo keep_kubo_up end_attempt attends is_heard is_kubo same_child
on_kubo_exit-attends p none s e a = ground arith
on_kubo_exit-attends p (some pidless) s e a = ground arith
on_kubo_exit-attends p (some (with_pid q)) s e a = ground (arith, holds-remove p q s.watched)

exit_listeners-attends :
    (p : ℕ) (s : Supervision)
    → attends s ≡ true
    → kubo_fits s.phase s.kubo ≡ true
    → attends (exit_listeners p s) ≡ true
unfolding exit_listeners start_rejected clear_kubo end_attempt attends is_heard kubo_fits is_kubo
    same_child
exit_listeners-attends p s a f = ground (arith, on_kubo_exit-attends p s.kubo s refl a)

kill_listener-attends :
    (p : ℕ) (s : Supervision) → attends s ≡ true → attends (kill_listener p s) ≡ true
unfolding kill_listener finish_kill sweep attends is_up
kill_listener-attends p s a = ground arith

process_exited-attends :
    (p : ℕ) (s : Supervision) → Inv s → attends s ≡ true → attends (process_exited p s) ≡ true
unfolding process_exited kill attends
process_exited-attends p s h a =
    let dead = record (kill p s) { live_pids = remove p s.live_pids } in
    let next = exit_listeners-attends p dead a h.fits in
    ground (arith, kill_listener-attends p (exit_listeners p dead) next)

step-attends :
    (compares : Bool) (event : Event) (s : Supervision)
    → Inv s
    → attends s ≡ true
    → attends (step compares event s) ≡ true
unfolding step
step-attends compares (process_exit p) s h a = process_exited-attends p s h a
step-attends compares keep_up s h a =
    unfold keep_kubo_up attends end_attempt is_heard in ground arith
step-attends compares shutdown s h a =
    unfold shutdown_daemon attends interrupt sweep in ground arith
step-attends compares starts_settled s h a =
    unfold teardown_step attends is_up interrupt sweep in ground arith
step-attends compares starts_timeout s h a =
    unfold teardown_step attends is_up interrupt sweep in ground arith
step-attends compares interrupt_timeout s h a =
    unfold teardown_step attends is_up finish_kill kill sweep in ground arith
step-attends compares event s h a = attempt_step-attends compares event s.phase s h a refl

run_from-attends :
    (compares : Bool) (s : Supervision) (events : List Event)
    → Inv s
    → attends s ≡ true
    → attends (run_from compares s events) ≡ true
unfolding run_from
run_from-attends compares s [] h a = a
run_from-attends compares s (event ∷ events) h a =
    run_from-attends compares (step compares event s) events (step-Inv compares event s h)
      (step-attends compares event s h a)

-- The daemon stays up, and no kubo is tracked or alive.
abbrev IsClear : Supervision → Type 0
IsClear s = (s.exited ≡ false) × (s.kubo ≡ none) × (s.alive ≡ [])

kubo_exited :
    (p : ℕ) (s : Supervision)
    → Inv s
    → attends s ≡ true
    → s.exited ≡ false
    → s.phase ≡ idle
    → s.kubo ≡ some (with_pid p)
    → (IsClear (process_exited p s) × ((process_exited p s).phase ≡ checking_port))
      × ((process_exited p s).pending ≡ false)
unfolding attends is_up is_heard process_exited exit_listeners kill_listener kill on_kubo_exit
    clear_kubo keep_kubo_up starts is_kubo same_child is_alive
kubo_exited p s h a running e k = ground (
  arith,
  h.tracked,
  h.start,
  ==_self p,
  all_gone (with_pid p) s.kubo (remove p s.alive),
  tracks-remove s.kubo p s.alive,
  holds-remove p p s.alive,
)

port_free :
    (compares : Bool) (s : Supervision)
    → IsClear s
    → s.pending ≡ false
    → let t = step compares (compared true) (port_checked compares false s) in
      IsClear t × (t.phase ≡ preparing)
unfolding port_checked warn_and_prepare prepare step attempt_step
port_free compares s h e = ground arith

started :
    (compares : Bool) (q : ℕ) (s : Supervision)
    → IsClear s
    → s.phase ≡ preparing
    → let t = run_from compares s (spawned (with_pid q) ∷ daemon_ready ∷ []) in
      (t.exited ≡ false) × (t.kubo ≡ some (with_pid q)) × (t.alive ≡ q ∷ []) × (t.failed ≡ false)
unfolding run_from step attempt_step spawned_in holds on_spawn start_resolved end_attempt
started compares q s h e = ground arith

supervision-attends : attends supervision ≡ true
unfolding attends is_up is_heard
supervision-attends = refl

-- When the kubo that a running daemon tracks ends between two attempts, it is noticed: if its port is free
-- and the next kubo comes up, the daemon tracks the new one, and that alone is alive.
pub run_from-restarts :
    (compares : Bool) (events : List Event) (p q : ℕ)
    → (run_from compares supervision events).exited ≡ false
    → (run_from compares supervision events).phase ≡ idle
    → (run_from compares supervision events).kubo ≡ some (with_pid p)
    → let t = run_from compares (run_from compares supervision events) (
        process_exit p
        ∷ port_known false
        ∷ compared true
        ∷ spawned (with_pid q)
        ∷ daemon_ready
        ∷ []) in
      (t.exited ≡ false) × (t.kubo ≡ some (with_pid q)) × (t.alive ≡ q ∷ []) × (t.failed ≡ false)
unfolding run_from step attempt_step port_checked process_exited
run_from-restarts compares events p q running e k =
    let s = run_from compares supervision events in
    let h = run_from-Inv compares supervision events supervision-Inv in
    let a = run_from-attends compares supervision events supervision-Inv supervision-attends in
    let ((gone, checking), free) = kubo_exited p s h a running e k in
    let (clear, prepared) = port_free compares (process_exited p s) gone free in
    rw checking (
      started compares q
        (step compares (compared true) (port_checked compares false (process_exited p s))) clear
        prepared)
