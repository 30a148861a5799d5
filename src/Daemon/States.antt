-- ===== src/Daemon/States.antt =====
-- src/common-utils/daemon-state.ts: the directory of state files. A file holds what JSON.parse makes of
-- its text, `none` where that fails; what the system tells about a process enters as functions.
pub mod Prune
use bitsocial_cli.Common.{
  ℕ, String, ◌<>◌, Bool, true, false, ◌||◌, not, ◌&&◌, Option, none, some, List, [], ◌∷◌, ◌++◌,
  str_eq, codes, ends_with, decimal, keep, includes, if◌then◌else◌,
}
use bitsocial_cli.Daemon.Supervisor.{DaemonState}

pub record StateFile : Type 0 where
  pub name : String
  pub content : Option DaemonState

unfoldable pub state_file_name : ℕ → String
state_file_name pid = decimal pid <> "-daemon.state"

-- What the system answers about a process: whether a signal can be sent to it or is refused for lack of
-- permission, its start time, and its command line (here: whether it names bitsocial).
pub data KillAnswer : Type 0 where
  sent no_permission no_process : KillAnswer

pub record Processes : Type 0 where
  pub kill : ℕ → KillAnswer
  pub start_time : ℕ → Option String
  pub names_bitsocial : ℕ → Option Bool

unfoldable pub is_pid_alive : Processes → ℕ → Bool
is_pid_alive os pid = elim (os.kill pid) [ sent ↦ true | no_permission ↦ true | no_process ↦ false ]

unfoldable pub same_start : Option String → String → Bool
same_start none recorded = true
same_start (some current) recorded = str_eq current recorded

unfoldable pub or_true : Option Bool → Bool
or_true none = true
or_true (some b) = b

unfoldable pub is_daemon_state_alive : Processes → DaemonState → Bool
unfolding is_pid_alive same_start or_true
is_daemon_state_alive os state =
    if is_pid_alive os state.pid
    then (elim state.proc_start_time [
      | some recorded ↦ same_start (os.start_time state.pid) recorded
      | none ↦ or_true (os.names_bitsocial state.pid)
    ])
    else false

-- `writeDaemonState`: the state with its start time, written under its name by a rename.
unfoldable pub with_start_time : Processes → DaemonState → DaemonState
with_start_time os state = elim state.proc_start_time [
  | some t ↦ state
  | none ↦ record state { proc_start_time = os.start_time state.pid }
]

unfoldable pub put_file : StateFile → List StateFile → List StateFile
put_file file [] = file ∷ []
put_file file (f ∷ dir) = if str_eq f.name file.name then file ∷ dir else f ∷ put_file file dir

unfoldable pub write_daemon_state : Processes → DaemonState → List StateFile → List StateFile
write_daemon_state os state dir =
    put_file
      (record { name = state_file_name state.pid; content = some (with_start_time os state) }) dir

abbrev pub is_state_file : String → Bool
is_state_file name = ends_with (codes "-daemon.state") (codes name)

-- `none` is a directory that does not exist.
abbrev pub states_in : Option DaemonState → List DaemonState → List DaemonState
states_in none rest = rest
states_in (some s) rest = s ∷ rest

unfoldable pub read_files : List StateFile → List DaemonState
read_files [] = []
read_files (f ∷ dir) =
    let rest = read_files dir in if is_state_file f.name then states_in f.content rest else rest

unfoldable pub read_all_daemon_states : Option (List StateFile) → List DaemonState
read_all_daemon_states none = []
read_all_daemon_states (some dir) = read_files dir

-- The codes of a failed unlink that `deleteDaemonState` ignores, and the others.
pub data UnlinkAnswer : Type 0 where
  unlinked enoent eperm eacces ebusy other_error : UnlinkAnswer

abbrev pub remove_name : String → List StateFile → List StateFile
remove_name name = keep (λ f. not (str_eq f.name name))

-- `none` is the error thrown on.
unfoldable pub delete_daemon_state :
    (String → UnlinkAnswer) → ℕ → List StateFile → Option (List StateFile)
delete_daemon_state unlink pid dir = elim (unlink (state_file_name pid)) [
  | unlinked ↦ some (remove_name (state_file_name pid) dir)
  | other_error ↦ none
  | _ ↦ some dir
]

-- The loop of `getAliveDaemonStates`.
abbrev pub push_alive :
    DaemonState
    → Option (List DaemonState × List StateFile)
    → Option (List DaemonState × List StateFile)
push_alive state none = none
push_alive state (some (alive, dir)) = some (state ∷ alive, dir)

module _ (os : Processes) (unlink : String → UnlinkAnswer) where
  unfoldable pub sift :
      List DaemonState → List StateFile → Option (List DaemonState × List StateFile)
  sift [] dir = some ([], dir)
  sift (state ∷ states) dir = elim (is_daemon_state_alive os state) [
    | true ↦ push_alive state (sift states dir)
    | false ↦ elim (delete_daemon_state unlink state.pid dir) [
      | none ↦ none
      | some dir' ↦ sift states dir'
    ]
  ]

  unfoldable pub get_alive_daemon_states :
      List StateFile → Option (List DaemonState × List StateFile)
  get_alive_daemon_states dir = sift (read_files dir) dir
