-- ===== src/Daemon/States/Prune.antt =====
-- src/common-utils/daemon-state.ts: what is written is read again, and pruning removes exactly the
-- files of dead daemons.
use bitsocial_cli.Common.{
  ℕ, String, ◌≡◌, ◌≢◌, ◌↔◌, ◌⊎◌, refl, sym, ap, ◌∙◌, inl, inr, Bool, true, false, not, ◌||◌, Option,
  none, some, List, [], ◌∷◌, str_eq, codes, codes-append, ends_with-append, decimal, keep, arith,
  In, any, keep-keep, keep-same, keep_all, ◌&&◌, if◌then◌else◌, Bool-cases, Option-cases, eq_iff,
}
use mathlib.Core.Path.{ap₂, subst}
use bitsocial_cli.Daemon.Supervisor.{DaemonState}
use bitsocial_cli.Daemon.States.{
  StateFile, Processes, no_process, is_pid_alive, same_start, or_true, UnlinkAnswer, unlinked,
  other_error, state_file_name, is_daemon_state_alive, with_start_time, put_file,
  write_daemon_state, is_state_file, states_in, read_files, read_all_daemon_states, remove_name,
  delete_daemon_state, push_alive, sift, get_alive_daemon_states,
}

state_file_name-is_state_file : (pid : ℕ) → is_state_file (state_file_name pid) ≡ true
unfolding state_file_name
state_file_name-is_state_file pid =
    rw (codes-append (decimal pid) "-daemon.state")
      (ends_with-append (codes "-daemon.state") (codes (decimal pid)))

In-states_in :
    (s : DaemonState) (content : Option DaemonState) (rest : List DaemonState)
    → In s rest
    → In s (states_in content rest)
In-states_in s none rest h = h
In-states_in s (some t) rest h = inr h

put_file-read :
    (name : String) (s : DaemonState) (dir : List StateFile)
    → is_state_file name ≡ true
    → In s (read_files (put_file (record { name = name; content = some s }) dir))
unfolding put_file read_files
put_file-read name s [] h = rw h (inl refl)
put_file-read name s (f ∷ dir) h = elim (Bool-cases (str_eq f.name name)) [
  | inl same ↦ rw (same, read_files, h) (inl refl)
  | inr other ↦
      let later = put_file-read name s dir h in
      rw (other, read_files)
        (ground (
          arith,
          In-states_in s f.content
              (read_files (put_file (record { name = name; content = some s }) dir)) later,
        ))
]

-- What a process with that start time writes for itself, which records none before.
abbrev pub started : DaemonState → String → DaemonState
started state time = record state { proc_start_time = some time }

with_start_time-started :
    (os : Processes) (state : DaemonState) (time : String)
    → state.proc_start_time ≡ none
    → os.start_time state.pid ≡ some time
    → with_start_time os state ≡ started state time
unfolding with_start_time
with_start_time-started os state time fresh known = ground arith

alive_iff :
    (os : Processes) (state : DaemonState) (time : String)
    → (is_daemon_state_alive os (started state time) ≡ true) ↔ (
        (os.kill state.pid ≢ no_process)
        × ((os.start_time state.pid ≡ none) ⊎ (os.start_time state.pid ≡ some time)))
unfolding is_daemon_state_alive is_pid_alive same_start or_true
alive_iff os state time = elim (Option-cases (os.start_time state.pid)) [
  | inl e ↦ ground arith
  | inr (current, e) ↦ ground (arith, eq_iff current time)
]

-- A state that a process with a start time writes is read next with that start time, and counts from then on as alive
-- exactly while a process with its pid lives whose start time is the very same or cannot be read: another process
-- that gets the pid does not pass for the daemon.
pub write_daemon_state-read :
    (os later : Processes) (state : DaemonState) (dir : List StateFile) (time : String)
    → state.proc_start_time ≡ none
    → os.start_time state.pid ≡ some time
    → In (started state time) (read_all_daemon_states (some (write_daemon_state os state dir)))
      × ((is_daemon_state_alive later (started state time) ≡ true) ↔ (
          (later.kill state.pid ≢ no_process)
          × ((later.start_time state.pid ≡ none) ⊎ (later.start_time state.pid ≡ some time))))
unfolding write_daemon_state read_all_daemon_states
write_daemon_state-read os later state dir time fresh known = (
  subst (λ t. In t (read_all_daemon_states (some (write_daemon_state os state dir))))
      (with_start_time-started os state time fresh known)
      (put_file-read (state_file_name state.pid) (with_start_time os state) dir
        (state_file_name-is_state_file state.pid)),
  alive_iff later state time,
)

not-or : (a b : Bool) → (not a && not b) ≡ not (a || b)
not-or true b = refl
not-or false b = refl

abbrev is_unlinked : UnlinkAnswer → Bool
is_unlinked unlinked = true
is_unlinked _ = false

abbrev is_other_error : UnlinkAnswer → Bool
is_other_error other_error = true
is_other_error _ = false

module _ (os : Processes) (unlink : String → UnlinkAnswer) where
  -- The state is of no living daemon, and its file goes, or the unlink fails for an unknown reason.
  abbrev pub removes : String → DaemonState → Bool
  removes name s =
      not (is_daemon_state_alive os s)
      && (is_unlinked (unlink (state_file_name s.pid)) && str_eq name (state_file_name s.pid))

  abbrev pub fails : DaemonState → Bool
  fails s = not (is_daemon_state_alive os s) && is_other_error (unlink (state_file_name s.pid))

  delete_daemon_state_at :
      (s : DaemonState) (dir : List StateFile) (answer : UnlinkAnswer)
      → unlink (state_file_name s.pid) ≡ answer
      → is_daemon_state_alive os s ≡ false
      → fails s ≡ false
      → delete_daemon_state unlink s.pid dir ≡ some (keep (λ f. not (removes f.name s)) dir)
  unfolding delete_daemon_state
  delete_daemon_state_at s dir unlinked e dead h =
      let step : delete_daemon_state unlink s.pid dir
          ≡ some (remove_name (state_file_name s.pid) dir) =
        rw (e, delete_daemon_state) in
      step
      ∙ ap some (
          keep-same (λ f. not (str_eq f.name (state_file_name s.pid))) (λ f. not (removes f.name s))
            (λ f. rw (dead, e)) dir)
  delete_daemon_state_at s dir other_error e dead h = ground arith
  delete_daemon_state_at s dir _ e dead h =
      let step : delete_daemon_state unlink s.pid dir ≡ some dir = rw (e, delete_daemon_state) in
      step ∙ ap some (sym (keep_all (λ f. not (removes f.name s)) (λ f. rw (dead, e)) dir))

  sift_dead :
      (s : DaemonState) (states : List DaemonState) (dir left : List StateFile)
      → is_daemon_state_alive os s ≡ false
      → delete_daemon_state unlink s.pid dir ≡ some left
      → sift os unlink (s ∷ states) dir ≡ sift os unlink states left
  unfolding sift
  sift_dead s states dir left dead gone = rw (dead, sift, gone)

  sift-keep :
      (states : List DaemonState) (dir : List StateFile)
      → any fails states ≡ false
      → sift os unlink states dir
        ≡ some (
          keep (is_daemon_state_alive os) states,
          keep (λ f. not (any (removes f.name) states)) dir,
        )
  unfolding sift
  sift-keep [] dir h = ap (λ d. some ([], d)) (sym (keep_all (λ f. true) (λ f. refl) dir))
  sift-keep (s ∷ states) dir h = elim (Bool-cases (is_daemon_state_alive os s)) [
    | inl alive ↦
        let step : sift os unlink (s ∷ states) dir ≡ push_alive s (sift os unlink states dir) =
          rw (alive, sift) in
        step ∙ ap (push_alive s) (sift-keep states dir (ground arith)) ∙ rw alive
    | inr dead ↦
        let gone =
          delete_daemon_state_at s dir (unlink (state_file_name s.pid)) refl dead (ground arith) in
        let left = keep (λ f. not (removes f.name s)) dir in
        sift_dead s states dir left dead gone
        ∙ sift-keep states left (ground arith)
        ∙ ap₂ (λ a d. some (a, d)) (rw dead)
            (keep-keep (λ f. not (any (removes f.name) states)) (λ f. not (removes f.name s)) dir
              ∙ keep-same (λ f. not (removes f.name s) && not (any (removes f.name) states))
                  (λ f. not (any (removes f.name) (s ∷ states)))
                  (λ f. not-or (removes f.name s) (any (removes f.name) states)) dir)
  ]

  sift-none :
      (states : List DaemonState) (dir : List StateFile)
      → any fails states ≡ true
      → sift os unlink states dir ≡ none
  unfolding sift delete_daemon_state
  sift-none [] dir h = cc
  sift-none (s ∷ states) dir h =
      ground
        (arith, sift-none states dir, sift-none states (remove_name (state_file_name s.pid) dir))

  -- Unless the unlink of a dead daemon's file fails with an unknown code, the states of the living
  -- daemons are returned, in their order, and exactly the files go that a dead daemon's state was named
  -- for and that could be unlinked; a file that is locked or gone stops nothing. With such a failure the
  -- error is thrown on.
  pub get_alive_daemon_states-keep :
      (dir : List StateFile)
      → get_alive_daemon_states os unlink dir ≡ (
          if any fails (read_files dir)
          then none
          else some (
            keep (is_daemon_state_alive os) (read_files dir),
            keep (λ f. not (any (removes f.name) (read_files dir))) dir,
          ))
  unfolding get_alive_daemon_states
  get_alive_daemon_states-keep dir = elim (Bool-cases (any fails (read_files dir))) [
    | inl bad ↦ rw bad (sift-none (read_files dir) dir bad)
    | inr good ↦ rw good (sift-keep (read_files dir) dir good)
  ]
