-- ===== src/Daemon/Kubo/Safety.antt =====
-- src/cli/commands/daemon.ts: at most one kubo of the daemon is alive, and none outlives it.
use bitsocial_cli.Common.{
  ℕ, ◌≤◌, ◌≡◌, refl, Bool, true, false, not, ◌&&◌, ◌||◌, Option, none, some, List, [], ◌∷◌, keep,
  ◌==◌, is_some, length, arith,
}
use bitsocial_cli.Daemon.Kubo.{
  Child, pidless, with_pid, Phase, idle, checking_port, asking_version, comparing, preparing,
  waiting, Teardown, awaiting_starts, interrupting, Supervision, supervision, holds, remove,
  same_child, is_kubo, clear_kubo, kill, end_attempt, keep_kubo_up, prepare, warn_and_prepare,
  port_checked, on_spawn, start_rejected, start_resolved, on_kubo_exit, sweep, finish_kill,
  interrupt, shutdown_daemon, exit_listeners, kill_listener, process_exited, exit_handler, Event,
  keep_up, port_known, version_known, compared, not_prepared, spawned, spawn_error, daemon_ready,
  process_exit, shutdown, starts_settled, starts_timeout, interrupt_timeout, spawned_in,
  attempt_step, teardown_step, step, run_from,
}

-- A start that is under way, and whether it has its process yet.
unfoldable pub starts : Phase → Bool
starts preparing = true
starts (waiting c) = true
starts _ = false

unfoldable pub kubo_fits : Phase → Option Child → Bool
kubo_fits idle k = true
kubo_fits checking_port k = true
kubo_fits asking_version k = true
kubo_fits comparing k = not (is_some k)
kubo_fits preparing k = not (is_some k)
kubo_fits (waiting c) k = not (is_some k) || is_kubo c k

-- Everything that is alive is `kuboProcess`.
unfoldable pub tracks : Option Child → List ℕ → Bool
tracks k [] = true
tracks k (p ∷ ps) = is_kubo (with_pid p) k && tracks k ps

-- Everything that is alive is among the live pids.
unfoldable pub covers : List ℕ → List ℕ → Bool
covers live [] = true
covers live (p ∷ ps) = holds p live && covers live ps

-- What is alive is `kuboProcess` and a live pid, and there is no second one.
pub record Inv (s : Supervision) : Type 0 where
  pub tracked : tracks s.kubo s.alive ≡ true
  pub swept : covers s.live_pids s.alive ≡ true
  pub single : length s.alive ≤ 1
  pub start : s.pending ≡ starts s.phase
  pub fits : kubo_fits s.phase s.kubo ≡ true

length-remove : (p : ℕ) (xs : List ℕ) → length (remove p xs) ≤ length xs
unfolding remove
length-remove p [] = omega arith
length-remove p (x ∷ xs) = ground (arith, length-remove p xs)

pub tracks-remove :
    (k : Option Child) (p : ℕ) (xs : List ℕ) → tracks k xs ≡ true → tracks k (remove p xs) ≡ true
unfolding tracks remove
tracks-remove k p [] h = h
tracks-remove k p (x ∷ xs) h = ground (arith, tracks-remove k p xs)

pub covers-remove :
    (live : List ℕ) (p : ℕ) (xs : List ℕ) → covers live xs ≡ true → covers live (remove p xs) ≡ true
unfolding covers remove
covers-remove live p [] h = h
covers-remove live p (x ∷ xs) h = ground (arith, covers-remove live p xs)

pub holds-remove : (p q : ℕ) (xs : List ℕ) → holds q (remove p xs) ≡ (holds q xs && not (q == p))
unfolding holds remove
holds-remove p q [] = refl
holds-remove p q (x ∷ xs) = ground (arith, holds-remove p q xs)

-- A pid that is taken off both lists.
covers-remove_both :
    (live : List ℕ) (p : ℕ) (xs : List ℕ)
    → covers live xs ≡ true
    → covers (remove p live) (remove p xs) ≡ true
unfolding covers remove
covers-remove_both live p [] h = refl
covers-remove_both live p (x ∷ xs) h =
    ground (arith, holds-remove p x live, covers-remove_both live p xs)

covers-more :
    (p : ℕ) (live xs : List ℕ) → covers live xs ≡ true → covers (p ∷ remove p live) xs ≡ true
unfolding covers holds
covers-more p live [] h = refl
covers-more p live (x ∷ xs) h = ground (arith, holds-remove p x live, covers-more p live xs)

-- Nothing that is covered is left by a sweep.
pub swept_away : (live xs : List ℕ) → covers live xs ≡ true → keep (λ p. not (holds p live)) xs ≡ []
unfolding covers
swept_away live [] h = refl
swept_away live (x ∷ xs) h = ground (arith, swept_away live xs)

unfoldable pub is_alive : Child → List ℕ → Bool
is_alive pidless xs = false
is_alive (with_pid p) xs = holds p xs

-- What is alive is `kuboProcess`, so if that has ended nothing is.
pub all_gone :
    (c : Child) (k : Option Child) (xs : List ℕ)
    → tracks k xs ≡ true
    → is_kubo c k ≡ true
    → is_alive c xs ≡ false
    → xs ≡ []
unfolding tracks is_kubo same_child is_alive holds
all_gone c k [] h e d = refl
all_gone c none (x ∷ xs) h e d = ground arith
all_gone c (some pidless) (x ∷ xs) h e d = ground arith
all_gone pidless (some (with_pid k)) (x ∷ xs) h e d = ground arith
all_gone (with_pid p) (some (with_pid k)) (x ∷ xs) h e d = ground arith

pub untracked : (xs : List ℕ) → tracks none xs ≡ true → xs ≡ []
unfolding tracks is_kubo
untracked [] h = refl
untracked (x ∷ xs) h = ground arith

pub kill-Inv : (p : ℕ) (s : Supervision) → Inv s → Inv (kill p s)
unfolding kill
kill-Inv p s h = ground (
  arith,
  tracks-remove s.kubo p s.alive,
  covers-remove s.live_pids p s.alive,
  length-remove p s.alive,
)

kubo_fits-none : (phase : Phase) → kubo_fits phase none ≡ true
unfolding kubo_fits
kubo_fits-none idle = refl
kubo_fits-none checking_port = refl
kubo_fits-none asking_version = refl
kubo_fits-none comparing = refl
kubo_fits-none preparing = refl
kubo_fits-none (waiting c) = refl

clear_kubo-Inv :
    (c : Child) (s : Supervision) → Inv s → is_alive c s.alive ≡ false → Inv (clear_kubo c s)
unfolding clear_kubo tracks kubo_fits
clear_kubo-Inv c s h d = ground (arith, all_gone c s.kubo s.alive)

keep_kubo_up-Inv : (s : Supervision) → Inv s → Inv (keep_kubo_up s)
unfolding keep_kubo_up end_attempt starts kubo_fits
keep_kubo_up-Inv s h = ground arith

port_checked-Inv :
    (compares taken : Bool) (s : Supervision)
    → Inv s
    → s.phase ≡ checking_port
    → Inv (port_checked compares taken s)
unfolding port_checked warn_and_prepare prepare end_attempt starts kubo_fits
port_checked-Inv compares taken s h e = ground arith

start_rejected-Inv :
    (c : Child) (s : Supervision)
    → Inv s
    → is_alive c s.alive ≡ false
    → Inv (start_rejected (some c) s)
unfolding start_rejected clear_kubo end_attempt starts kubo_fits tracks
start_rejected-Inv c s h d = ground (arith, all_gone c s.kubo s.alive)

start_resolved-Inv :
    (p : ℕ) (s : Supervision) → Inv s → s.phase ≡ waiting (with_pid p) → Inv (start_resolved p s)
unfolding start_resolved clear_kubo kill end_attempt starts kubo_fits tracks is_alive is_kubo
    same_child
start_resolved-Inv p s h e = ground (
  arith,
  all_gone (with_pid p) s.kubo (remove p s.alive),
  untracked s.alive,
  holds-remove p p s.alive,
  tracks-remove s.kubo p s.alive,
  covers-remove s.live_pids p s.alive,
  length-remove p s.alive,
)

prepared-Inv : (s : Supervision) → Inv s → s.phase ≡ comparing → Inv (prepare s)
unfolding prepare starts kubo_fits
prepared-Inv s h e = ground arith

spawned_in-Inv : (c : Child) (s : Supervision) → Inv s → s.phase ≡ preparing → Inv (spawned_in c s)
unfolding spawned_in on_spawn starts kubo_fits tracks covers is_kubo same_child holds
spawned_in-Inv pidless s h e = ground (arith, untracked s.alive)
spawned_in-Inv (with_pid p) s h e = ground (arith, untracked s.alive)

sweep-Inv : (s : Supervision) → Inv s → Inv (sweep s)
unfolding sweep tracks covers
sweep-Inv s h = ground (arith, swept_away s.live_pids s.alive)

finish_kill-Inv : (s : Supervision) → Inv s → Inv (finish_kill s)
unfolding finish_kill sweep tracks covers
finish_kill-Inv s h = ground (arith, swept_away s.live_pids s.alive, kubo_fits-none s.phase)

interrupt-Inv : (s : Supervision) → Inv s → Inv (interrupt s)
unfolding interrupt
interrupt-Inv s h = ground (arith, sweep-Inv s h)

shutdown_daemon-Inv : (s : Supervision) → Inv s → Inv (shutdown_daemon s)
unfolding shutdown_daemon
shutdown_daemon-Inv s h = ground (arith, interrupt-Inv (record s { exited = true }))

on_kubo_exit-Inv :
    (p : ℕ) (s : Supervision) → Inv s → holds p s.alive ≡ false → Inv (on_kubo_exit p s)
unfolding on_kubo_exit clear_kubo keep_kubo_up end_attempt starts kubo_fits tracks is_alive
on_kubo_exit-Inv p s h d = ground (arith, all_gone (with_pid p) s.kubo s.alive)

pub exit_listeners-Inv :
    (p : ℕ) (s : Supervision) → Inv s → holds p s.alive ≡ false → Inv (exit_listeners p s)
unfolding exit_listeners is_alive
exit_listeners-Inv p s h d = ground (
  arith,
  on_kubo_exit-Inv p s h d,
  start_rejected-Inv (with_pid p) (record s { silenced = p ∷ s.silenced }),
)

kill_listener-Inv : (p : ℕ) (s : Supervision) → Inv s → Inv (kill_listener p s)
unfolding kill_listener
kill_listener-Inv p s h = ground (arith, finish_kill-Inv s h)

-- The state in which the listeners run.
pub dead-Inv :
    (p : ℕ) (s : Supervision) → Inv s → Inv (record (kill p s) { live_pids = remove p s.live_pids })
unfolding kill
dead-Inv p s h = ground (
  arith,
  tracks-remove s.kubo p s.alive,
  covers-remove_both s.live_pids p s.alive,
  length-remove p s.alive,
)

process_exited-Inv : (p : ℕ) (s : Supervision) → Inv s → Inv (process_exited p s)
unfolding process_exited kill
process_exited-Inv p s h =
    let dead = record (kill p s) { live_pids = remove p s.live_pids } in
    let gone : holds p (remove p s.alive) ≡ false = ground (arith, holds-remove p p s.alive) in
    ground (
      arith,
      kill-Inv p s h,
      kill_listener-Inv p (exit_listeners p dead) (exit_listeners-Inv p dead (dead-Inv p s h) gone),
    )

end_attempt-Inv :
    (failed : Bool) (s : Supervision) → Inv s → starts s.phase ≡ false → Inv (end_attempt failed s)
unfolding end_attempt starts kubo_fits
end_attempt-Inv failed s h e = ground arith

start_rejected_early-Inv : (s : Supervision) → Inv s → Inv (start_rejected none s)
unfolding start_rejected end_attempt starts kubo_fits
start_rejected_early-Inv s h = ground arith

pub attempt_step-Inv :
    (compares : Bool) (event : Event) (phase : Phase) (s : Supervision)
    → Inv s
    → s.phase ≡ phase
    → Inv (attempt_step compares event phase s)
unfolding attempt_step starts
attempt_step-Inv compares (port_known taken) checking_port s h e =
    port_checked-Inv compares taken s h e
attempt_step-Inv compares (version_known healthy) asking_version s h e =
    end_attempt-Inv (not healthy) s h (rw e refl)
attempt_step-Inv compares (compared true) comparing s h e = prepared-Inv s h e
attempt_step-Inv compares (compared false) comparing s h e = end_attempt-Inv true s h (rw e refl)
attempt_step-Inv compares not_prepared preparing s h e = start_rejected_early-Inv s h
attempt_step-Inv compares (spawned c) preparing s h e = spawned_in-Inv c s h e
attempt_step-Inv compares spawn_error (waiting pidless) s h e =
    start_rejected-Inv pidless s h (unfold is_alive in refl)
attempt_step-Inv compares daemon_ready (waiting (with_pid p)) s h e = start_resolved-Inv p s h e
attempt_step-Inv compares _ _ s h e = h

teardown_step-Inv :
    (event : Event) (teardown : Teardown) (s : Supervision)
    → Inv s
    → Inv (teardown_step event teardown s)
unfolding teardown_step
teardown_step-Inv starts_settled awaiting_starts s h = ground (arith, interrupt-Inv s h)
teardown_step-Inv starts_timeout awaiting_starts s h = interrupt-Inv s h
teardown_step-Inv interrupt_timeout (interrupting p) s h =
    finish_kill-Inv (kill p s) (kill-Inv p s h)
teardown_step-Inv _ _ s h = h

pub step-Inv :
    (compares : Bool) (event : Event) (s : Supervision) → Inv s → Inv (step compares event s)
unfolding step
step-Inv compares keep_up s h = keep_kubo_up-Inv s h
step-Inv compares (process_exit p) s h = process_exited-Inv p s h
step-Inv compares shutdown s h = shutdown_daemon-Inv s h
step-Inv compares starts_settled s h = teardown_step-Inv starts_settled s.teardown s h
step-Inv compares starts_timeout s h = teardown_step-Inv starts_timeout s.teardown s h
step-Inv compares interrupt_timeout s h = teardown_step-Inv interrupt_timeout s.teardown s h
step-Inv compares event s h = attempt_step-Inv compares event s.phase s h refl

pub run_from-Inv :
    (compares : Bool) (s : Supervision) (events : List Event)
    → Inv s
    → Inv (run_from compares s events)
unfolding run_from
run_from-Inv compares s [] h = h
run_from-Inv compares s (event ∷ events) h =
    run_from-Inv compares (step compares event s) events (step-Inv compares event s h)

pub supervision-Inv : Inv supervision
unfolding tracks covers starts kubo_fits
supervision-Inv = ground arith

exit_handler-alive : (s : Supervision) → Inv s → (exit_handler s).alive ≡ []
unfolding exit_handler kill remove
exit_handler-alive s h = ground (arith, swept_away s.live_pids s.alive)

-- Whatever happens, and in whatever order, at most one kubo that the daemon spawned is alive, it is the
-- one that the daemon tracks, and the `exit` handler leaves none.
pub run_from-one_kubo :
    (compares : Bool) (events : List Event)
    → (length (run_from compares supervision events).alive ≤ 1)
      × (tracks
            (run_from compares supervision events).kubo
            (run_from compares supervision events).alive
          ≡ true)
      × ((exit_handler (run_from compares supervision events)).alive ≡ [])
run_from-one_kubo compares events =
    let s = run_from compares supervision events in
    let h = run_from-Inv compares supervision events supervision-Inv in
    (h.single, h.tracked, exit_handler-alive s h)
