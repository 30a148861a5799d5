-- ===== src/Daemon/Kubo/Ended.antt =====
-- src/cli/commands/daemon.ts: what of kubo is left when the shutdown has come to its end.
use bitsocial_cli.Common.{
  ℕ, ◌≤◌, ◌≡◌, refl, Bool, true, false, not, ◌&&◌, ◌||◌, Option, none, some, List, [], ◌∷◌, ◌++◌,
  arith, ◌⊎◌, inl, inr, length,
}
use bitsocial_cli.Daemon.Kubo.Safety.{
  Inv, tracks, swept_away, tracks-remove, kill-Inv, exit_listeners-Inv, dead-Inv, step-Inv,
  run_from-Inv, supervision-Inv, untracked, holds-remove, is_alive, all_gone,
}
use bitsocial_cli.Daemon.Kubo.{
  Child, pidless, with_pid, holds, is_kubo, same_child, supervision, port_known, version_known,
  compared, not_prepared, spawned, spawn_error, daemon_ready, checking_port, asking_version,
  comparing, preparing, waiting, Phase, idle, Teardown, up, interrupting, torn_down, Supervision,
  remove, clear_kubo, kill, end_attempt, keep_kubo_up, prepare, warn_and_prepare, port_checked,
  on_spawn, start_rejected, start_resolved, on_kubo_exit, sweep, finish_kill, interrupt,
  shutdown_daemon, exit_listeners, kill_listener, process_exited, Event, keep_up, process_exit,
  shutdown, starts_settled, starts_timeout, interrupt_timeout, spawned_in, attempt_step,
  teardown_step, step, run_from,
}
use bitsocial_cli.Daemon.Kubo.Shutdown.{timers-torn_down}

-- The process of the start that waits, if one does.
unfoldable pub waiting_child : Phase → Option Child
waiting_child (waiting c) = some c
waiting_child _ = none

unfoldable pub is_up : Teardown → Bool
is_up up = true
is_up _ = false

unfoldable pub is_torn_down : Teardown → Bool
is_torn_down torn_down = true
is_torn_down _ = false

-- A daemon whose kubo is taken down is on its way out, and after that only a start that waits has a process.
unfoldable pub is_over : Supervision → Bool
is_over s =
    (is_up s.teardown || s.exited)
    && (not (is_torn_down s.teardown) || tracks (waiting_child s.phase) s.alive)

-- What is alive is the process, so if that is killed nothing is.
tracks-remove_only : (p : ℕ) (xs : List ℕ) → tracks (some (with_pid p)) xs ≡ true → remove p xs ≡ []
unfolding tracks is_kubo same_child remove
tracks-remove_only p [] h = refl
tracks-remove_only p (x ∷ xs) h = ground (arith, tracks-remove_only p xs)

tracks-pidless : (xs : List ℕ) → tracks (some pidless) xs ≡ true → xs ≡ []
unfolding tracks is_kubo same_child
tracks-pidless [] h = refl
tracks-pidless (x ∷ xs) h = ground arith

swept-is_over : (s : Supervision) → Inv s → s.exited ≡ true → is_over (sweep s) ≡ true
unfolding is_over sweep is_torn_down is_up tracks
swept-is_over s h e = ground (arith, swept_away s.live_pids s.alive)

interrupt-is_over : (s : Supervision) → Inv s → s.exited ≡ true → is_over (interrupt s) ≡ true
unfolding interrupt is_over is_torn_down is_up sweep tracks
interrupt-is_over s h e = ground (arith, swept_away s.live_pids s.alive)

finish_kill-is_over : (s : Supervision) → Inv s → s.exited ≡ true → is_over (finish_kill s) ≡ true
unfolding finish_kill is_over is_torn_down is_up sweep tracks
finish_kill-is_over s h e = ground (arith, swept_away s.live_pids s.alive)

attempt_step-is_over :
    (compares : Bool) (event : Event) (phase : Phase) (s : Supervision)
    → s.phase ≡ phase
    → is_over s ≡ true
    → is_over (attempt_step compares event phase s) ≡ true
unfolding attempt_step is_over waiting_child is_up is_torn_down port_checked warn_and_prepare
    prepare end_attempt start_rejected clear_kubo spawned_in on_spawn start_resolved kill tracks
    is_kubo same_child
attempt_step-is_over compares (port_known taken) checking_port s e h = ground arith
attempt_step-is_over compares (version_known healthy) asking_version s e h = ground arith
attempt_step-is_over compares (compared ok) comparing s e h = ground arith
attempt_step-is_over compares not_prepared preparing s e h = ground arith
attempt_step-is_over compares (spawned c) preparing s e h = ground (arith, untracked s.alive)
attempt_step-is_over compares spawn_error (waiting pidless) s e h =
    ground (arith, tracks-pidless s.alive)
attempt_step-is_over compares daemon_ready (waiting (with_pid p)) s e h =
    ground (arith, tracks-remove_only p s.alive)
attempt_step-is_over compares _ _ s e h = h

-- The listeners of a process that has ended.
exit_listeners-is_over :
    (p : ℕ) (s : Supervision)
    → is_over s ≡ true
    → holds p s.alive ≡ false
    → is_over (exit_listeners p s) ≡ true
unfolding exit_listeners on_kubo_exit keep_kubo_up clear_kubo start_rejected end_attempt is_over
    waiting_child is_up is_torn_down tracks is_alive is_kubo same_child
exit_listeners-is_over p s h gone =
    ground (arith, all_gone (with_pid p) (some (with_pid p)) s.alive)

kill-exited : (p : ℕ) (s : Supervision) → (kill p s).exited ≡ s.exited
unfolding kill
kill-exited p s = refl

kill-is_over : (p : ℕ) (s : Supervision) → is_over s ≡ true → is_over (kill p s) ≡ true
unfolding is_over kill
kill-is_over p s h = ground (arith, tracks-remove (waiting_child s.phase) p s.alive)

exited-Inv : (s : Supervision) → Inv s → Inv (record s { exited = true })
exited-Inv s i = ground arith

kill_listener-is_over :
    (p : ℕ) (s : Supervision) → Inv s → is_over s ≡ true → is_over (kill_listener p s) ≡ true
unfolding kill_listener is_over is_up
kill_listener-is_over p s i h = ground (arith, finish_kill-is_over s i)

process_exited-is_over :
    (p : ℕ) (s : Supervision) → Inv s → is_over s ≡ true → is_over (process_exited p s) ≡ true
unfolding process_exited kill
process_exited-is_over p s i h =
    let dead = record (kill p s) { live_pids = remove p s.live_pids } in
    let gone : holds p (remove p s.alive) ≡ false = ground (arith, holds-remove p p s.alive) in
    let over : is_over dead ≡ true = unfold is_over kill in kill-is_over p s h in
    ground (
      arith,
      kill-is_over p s h,
      kill_listener-is_over p (exit_listeners p dead)
          (exit_listeners-Inv p dead (dead-Inv p s i) gone)
          (exit_listeners-is_over p dead over gone),
    )

interrupted-is_over :
    (teardown : Teardown) (s : Supervision)
    → s.teardown ≡ teardown
    → Inv s
    → is_over s ≡ true
    → is_over (teardown_step interrupt_timeout teardown s) ≡ true
unfolding teardown_step is_over is_up
interrupted-is_over (interrupting p) s e i h =
    ground (arith, finish_kill-is_over (kill p s) (kill-Inv p s i), kill-exited p s)
interrupted-is_over _ s e i h = h

step-is_over :
    (compares : Bool) (event : Event) (s : Supervision)
    → Inv s
    → is_over s ≡ true
    → is_over (step compares event s) ≡ true
unfolding step teardown_step keep_kubo_up end_attempt shutdown_daemon is_over is_up is_torn_down
    waiting_child
step-is_over compares (process_exit p) s i h = process_exited-is_over p s i h
step-is_over compares keep_up s i h = ground arith
step-is_over compares shutdown s i h =
    ground (arith, interrupt-is_over (record s { exited = true }) (exited-Inv s i))
step-is_over compares starts_settled s i h = ground (arith, interrupt-is_over s i)
step-is_over compares starts_timeout s i h = ground (arith, interrupt-is_over s i)
step-is_over compares interrupt_timeout s i h = interrupted-is_over s.teardown s refl i h
step-is_over compares event s i h = attempt_step-is_over compares event s.phase s refl h

run_from-is_over :
    (compares : Bool) (s : Supervision) (events : List Event)
    → Inv s
    → is_over s ≡ true
    → is_over (run_from compares s events) ≡ true
unfolding run_from
run_from-is_over compares s [] i h = h
run_from-is_over compares s (event ∷ events) i h =
    run_from-is_over compares (step compares event s) events (step-Inv compares event s i)
      (step-is_over compares event s i h)

supervision-is_over : is_over supervision ≡ true
unfolding is_over is_up is_torn_down
supervision-is_over = refl

torn_down-tracks :
    (s : Supervision)
    → is_over s ≡ true
    → s.teardown ≡ torn_down
    → tracks (waiting_child s.phase) s.alive ≡ true
unfolding is_over is_up is_torn_down
torn_down-tracks s h e = ground arith

late :
    (phase : Phase) (xs : List ℕ)
    → tracks (waiting_child phase) xs ≡ true
    → length xs ≤ 1
    → (xs ≡ []) ⊎ ((p : ℕ) × (phase ≡ waiting (with_pid p)) × (xs ≡ p ∷ []))
unfolding waiting_child tracks is_kubo same_child
late phase [] h l = inl refl
late (waiting (with_pid p)) (x ∷ []) h l = inr (p, refl, ground arith)
late (waiting (with_pid p)) (x ∷ y ∷ xs) h l = absurd (ground arith)
late (waiting pidless) (x ∷ xs) h l = absurd (ground arith)
late idle (x ∷ xs) h l = absurd (ground arith)
late checking_port (x ∷ xs) h l = absurd (ground arith)
late asking_version (x ∷ xs) h l = absurd (ground arith)
late comparing (x ∷ xs) h l = absurd (ground arith)
late preparing (x ∷ xs) h l = absurd (ground arith)

-- Whatever happens before and meanwhile, and however a start hangs: once a shutdown's two timers have run out, the one
-- for the starts and then the one for the interrupted process, the teardown is over, and what of kubo is alive is at
-- most the one process of a start that still waits for it to be ready; if no start waits, nothing is.
pub run_from-torn_down :
    (compares : Bool) (before first second third : List Event)
    → (run_from compares supervision before).exited ≡ false
    → let t =
        run_from compares
          (run_from compares supervision before)
          (shutdown ∷ (first ++ (starts_timeout ∷ (second ++ (interrupt_timeout ∷ third))))) in
      (t.teardown ≡ torn_down)
      × ((t.alive ≡ []) ⊎ ((p : ℕ) × (t.phase ≡ waiting (with_pid p)) × (t.alive ≡ p ∷ [])))
run_from-torn_down compares before first second third e =
    let s = run_from compares supervision before in
    let events = shutdown ∷ (first ++ (starts_timeout ∷ (second ++ (interrupt_timeout ∷ third)))) in
    let t = run_from compares s events in
    let inv = run_from-Inv compares supervision before supervision-Inv in
    let over =
      run_from-is_over compares s events inv
        (run_from-is_over compares supervision before supervision-Inv supervision-is_over) in
    let down = timers-torn_down compares s first second third e in
    let held = torn_down-tracks t over down in
    (down, late t.phase t.alive held (run_from-Inv compares s events inv).single)
