-- ===== src/Daemon/Kubo.antt =====
-- src/cli/commands/daemon.ts, with the spawn phase of src/ipfs/startIpfs.ts: how the daemon starts kubo,
-- starts it again and takes it down. Everything that JavaScript awaits is an event. A delay that only a
-- test sets is part of the wait before it.
pub mod Safety
pub mod Shutdown
pub mod Ended
pub mod Recovery
use bitsocial_cli.Common.{
  ℕ, Bool, true, false, not, ◌&&◌, ◌||◌, Option, none, some, List, [], ◌∷◌, keep, any, ◌==◌,
  is_some, if◌then◌else◌,
}

-- A `ChildProcess`: a spawn that fails has no pid.
pub data Child : Type 0 where
  pidless : Child
  with_pid : ℕ → Child

-- Where the attempt in flight waits.
pub data Phase : Type 0 where
  idle : Phase
  checking_port : Phase
  asking_version : Phase
  comparing : Phase
  preparing : Phase
  waiting : Child → Phase

-- Where `killKuboProcess` waits.
pub data Teardown : Type 0 where
  up : Teardown
  awaiting_starts : Teardown
  interrupting : ℕ → Teardown
  torn_down : Teardown

-- `exited` is `mainProcessExited`, `phase` is `keepKuboUpInFlight` with what it waits for, `failed` how the
-- last attempt ended. `watched` are the processes with an `onKuboExit`, `silenced` those whose listeners
-- are removed, and `alive` is the operating system's: what the daemon spawned and nothing has ended.
pub record Supervision : Type 0 where
  pub exited : Bool
  pub kubo : Option Child
  pub pending : Bool
  pub warned : Bool
  pub failed : Bool
  pub phase : Phase
  pub teardown : Teardown
  pub live_pids : List ℕ
  pub watched : List ℕ
  pub silenced : List ℕ
  pub alive : List ℕ

abbrev pub supervision : Supervision
supervision = record {
  exited = false;
  kubo = none;
  pending = false;
  warned = false;
  failed = false;
  phase = idle;
  teardown = up;
  live_pids = [];
  watched = [];
  silenced = [];
  alive = [];
}

unfoldable pub holds : ℕ → List ℕ → Bool
holds p = any (λ q. q == p)

unfoldable pub remove : ℕ → List ℕ → List ℕ
remove p = keep (λ q. not (q == p))

unfoldable pub same_child : Child → Child → Bool
same_child pidless pidless = true
same_child pidless (with_pid q) = false
same_child (with_pid p) pidless = false
same_child (with_pid p) (with_pid q) = p == q

-- `kuboProcess === child`
unfoldable pub is_kubo : Child → Option Child → Bool
is_kubo c none = false
is_kubo c (some k) = same_child k c

-- `kuboProcess = undefined`, if it is the child.
unfoldable pub clear_kubo : Child → Supervision → Supervision
clear_kubo c s = record s { kubo = if is_kubo c s.kubo then none else s.kubo }

-- `killKuboProcessGroup(pid, "SIGKILL")`: nothing survives it.
unfoldable pub kill : ℕ → Supervision → Supervision
kill p s = record s { alive = remove p s.alive }

-- The `finally` of `keepKuboUp`.
unfoldable pub end_attempt : Bool → Supervision → Supervision
end_attempt failed s = record s { phase = idle; failed = failed }

-- `keepKuboUp` up to its first wait. A call while an attempt is in flight shares it.
unfoldable pub keep_kubo_up : Supervision → Supervision
keep_kubo_up s = elim s.phase [
  | idle ↦
      if s.exited || is_some s.kubo || s.pending
      then end_attempt false s
      else record s { phase = checking_port }
  | _ ↦ s
]

unfoldable pub prepare : Supervision → Supervision
prepare s = record s { phase = preparing; pending = true }

-- The warning once per run; `compares` is whether the environment asks for it.
unfoldable pub warn_and_prepare : Bool → Supervision → Supervision
warn_and_prepare compares s =
    if s.warned
    then prepare s
    else if compares
    then record s { warned = true; phase = comparing }
    else prepare (record s { warned = true })

unfoldable pub port_checked : Bool → Bool → Supervision → Supervision
port_checked compares taken s =
    if s.exited || is_some s.kubo || s.pending
    then end_attempt false s
    else if taken
    then record s { phase = asking_version }
    else warn_and_prepare compares s

-- `onSpawn`
unfoldable pub on_spawn : Child → Supervision → Supervision
on_spawn pidless s = record s { kubo = some pidless; phase = waiting pidless }
on_spawn (with_pid p) s = record s {
  kubo = some (with_pid p);
  phase = waiting (with_pid p);
  live_pids = p ∷ remove p s.live_pids;
  watched = remove p s.watched;
  silenced = remove p s.silenced;
  alive = p ∷ s.alive;
}

-- The `catch` around the start.
unfoldable pub start_rejected : Option Child → Supervision → Supervision
start_rejected none s = end_attempt true (record s { pending = false })
start_rejected (some c) s =
    let t = record s { pending = false } in
    end_attempt true (if s.exited then t else clear_kubo c t)

-- What follows the start.
unfoldable pub start_resolved : ℕ → Supervision → Supervision
start_resolved p s =
    let t = end_attempt false (record s { pending = false }) in
    if s.exited
    then clear_kubo (with_pid p) (kill p t)
    else record t { kubo = some (with_pid p); watched = p ∷ s.watched }

unfoldable pub on_kubo_exit : ℕ → Supervision → Supervision
on_kubo_exit p s =
    let t = record s { watched = remove p s.watched } in
    if s.exited
    then record t { silenced = p ∷ s.silenced }
    else keep_kubo_up (clear_kubo (with_pid p) t)

-- `kuboProcess?.removeAllListeners()`
unfoldable pub silence : Option Child → List ℕ → List ℕ
silence none xs = xs
silence (some pidless) xs = xs
silence (some (with_pid p)) xs = p ∷ xs

-- The last lines of `killKuboProcess`.
unfoldable pub sweep : Supervision → Supervision
sweep s = record s {
  teardown = torn_down;
  alive = keep (λ p. not (holds p s.live_pids)) s.alive;
  live_pids = [];
}

-- The `finally` of `killKuboProcess`.
unfoldable pub finish_kill : Supervision → Supervision
finish_kill s = sweep (record s { silenced = silence s.kubo s.silenced; kubo = none })

unfoldable pub interrupt : Supervision → Supervision
interrupt s = elim s.kubo [
  | some (with_pid p) ↦ record s { teardown = interrupting p }
  | _ ↦ sweep s
]

-- `shutdownDaemon` up to its first wait for kubo; the deletion of the state file before it is part of the same step.
unfoldable pub shutdown_daemon : Supervision → Supervision
shutdown_daemon s =
    let t = record s { exited = true } in
    if s.exited
    then s
    else elim s.phase [ idle ↦ interrupt t | _ ↦ record t { teardown = awaiting_starts } ]

-- `onProcessExit` of a start that waits for the process; otherwise its `onKuboExit`, if it has one.
unfoldable pub exit_listeners : ℕ → Supervision → Supervision
exit_listeners p s =
    let watched = if holds p s.watched then on_kubo_exit p s else s in
    elim s.phase [
      | waiting (with_pid q) ↦
          if q == p
          then start_rejected (some (with_pid p)) (record s { silenced = p ∷ s.silenced })
          else watched
      | _ ↦ watched
    ]

-- The `once("exit")` of `killKuboProcess`.
unfoldable pub kill_listener : ℕ → Supervision → Supervision
kill_listener p s = elim s.teardown [ interrupting q ↦ if q == p then finish_kill s else s | _ ↦ s ]

unfoldable pub process_exited : ℕ → Supervision → Supervision
process_exited p s =
    let dead = kill p s in
    if holds p s.silenced
    then dead
    else kill_listener p (exit_listeners p (record dead { live_pids = remove p s.live_pids }))

-- The synchronous `exit` handler.
unfoldable pub exit_handler : Supervision → Supervision
exit_handler s =
    let swept = record s { alive = keep (λ p. not (holds p s.live_pids)) s.alive } in
    elim s.kubo [ some (with_pid p) ↦ kill p swept | _ ↦ swept ]

pub data Event : Type 0 where
  keep_up : Event
  port_known : Bool → Event
  version_known : Bool → Event
  compared : Bool → Event
  not_prepared : Event
  spawned : Child → Event
  spawn_error : Event
  daemon_ready : Event
  process_exit : ℕ → Event
  shutdown : Event
  starts_settled : Event
  starts_timeout : Event
  interrupt_timeout : Event

unfoldable pub spawned_in : Child → Supervision → Supervision
spawned_in pidless s = on_spawn pidless s
spawned_in (with_pid p) s = if holds p s.alive then s else on_spawn (with_pid p) s

-- An event that the phase does not wait for changes nothing. The operating system gives no pid twice at a
-- time, and an error before readiness comes of a spawn that failed.
unfoldable pub attempt_step : Bool → Event → Phase → Supervision → Supervision
attempt_step compares (port_known taken) checking_port s = port_checked compares taken s
attempt_step compares (version_known healthy) asking_version s = end_attempt (not healthy) s
attempt_step compares (compared ok) comparing s = if ok then prepare s else end_attempt true s
attempt_step compares not_prepared preparing s = start_rejected none s
attempt_step compares (spawned c) preparing s = spawned_in c s
attempt_step compares spawn_error (waiting pidless) s = start_rejected (some pidless) s
attempt_step compares daemon_ready (waiting (with_pid p)) s = start_resolved p s
attempt_step compares _ _ s = s

unfoldable pub teardown_step : Event → Teardown → Supervision → Supervision
teardown_step starts_settled awaiting_starts s = elim s.phase [ idle ↦ interrupt s | _ ↦ s ]
teardown_step starts_timeout awaiting_starts s = interrupt s
teardown_step interrupt_timeout (interrupting p) s = finish_kill (kill p s)
teardown_step _ _ s = s

unfoldable pub step : Bool → Event → Supervision → Supervision
step compares keep_up s = keep_kubo_up s
step compares (process_exit p) s = process_exited p s
step compares shutdown s = shutdown_daemon s
step compares starts_settled s = teardown_step starts_settled s.teardown s
step compares starts_timeout s = teardown_step starts_timeout s.teardown s
step compares interrupt_timeout s = teardown_step interrupt_timeout s.teardown s
step compares event s = attempt_step compares event s.phase s

unfoldable pub run_from : Bool → Supervision → List Event → Supervision
run_from compares s [] = s
run_from compares s (event ∷ events) = run_from compares (step compares event s) events
