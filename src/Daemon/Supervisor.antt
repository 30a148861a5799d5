-- ===== src/Daemon/Supervisor.antt =====
-- src/common-utils/daemon-state.ts: `DaemonState`, and the supervisor that owns a daemon. What the
-- system tells about processes and units enters as functions, with `none` for undefined.
use bitsocial_cli.Common.{
  ℕ, String, ◌≡◌, ◌≢◌, ◌↔◌, ◌⊎◌, Bool, false, ◌||◌, Option, none, some, List, str_eq, ◌==◌, arith,
  if◌then◌else◌,
}

-- The only `type` is "systemd".
pub record DaemonSupervisor : Type 0 where
  pub unit : String

pub record DaemonState : Type 0 where
  pub pid : ℕ
  pub started_at : String
  pub argv : List String
  pub pkc_rpc_url : String
  pub proc_start_time : Option String
  pub supervisor : Option DaemonSupervisor

-- A text that a condition takes for present: neither undefined nor "".
abbrev pub present : Option String → Option String
present none = none
present (some s) = if str_eq s "" then none else some s

module _ (read_unit : Option String) (get_main_pid : String → Option ℕ) where
  abbrev owner : String → (ℕ → Bool) → Option DaemonSupervisor
  owner unit owns = elim (get_main_pid unit) [
    | none ↦ none
    | some main_pid ↦ if owns main_pid then some (record { unit = unit }) else none
  ]

  abbrev supervisor_by : (ℕ → Bool) → Option DaemonSupervisor
  supervisor_by owns = elim (present read_unit) [ none ↦ none | some unit ↦ owner unit owns ]

  -- `read_unit` is the unit of the own cgroup.
  unfoldable pub detect_self_supervisor : Option String → ℕ → ℕ → Option DaemonSupervisor
  detect_self_supervisor invocation_id pid ppid = elim (present invocation_id) [
    | none ↦ none
    | some id ↦ supervisor_by (λ main_pid. (main_pid == pid) || (main_pid == ppid))
  ]

  abbrev is_parent : Option ℕ → ℕ → Bool
  is_parent none main_pid = false
  is_parent (some parent) main_pid = main_pid == parent

  -- `read_unit` and `parent_pid` are those of the process of the state.
  unfoldable pub resolve_daemon_supervisor : Option ℕ → DaemonState → Option DaemonSupervisor
  resolve_daemon_supervisor parent_pid state = elim state.supervisor [
    | some s ↦ some s
    | none ↦ supervisor_by (λ main_pid. (main_pid == state.pid) || is_parent parent_pid main_pid)
  ]

-- A daemon takes itself for supervised exactly if systemd started it ($INVOCATION_ID is a text), its
-- cgroup names a unit, and the main process of the unit is the daemon or its parent.
pub detect_self_supervisor_iff :
    (read_unit : Option String) (get_main_pid : String → Option ℕ) (invocation_id : Option String)
    (pid ppid : ℕ) (unit : String)
    → (detect_self_supervisor read_unit get_main_pid invocation_id pid ppid
        ≡ some (record { unit = unit }))
      ↔ ((present invocation_id ≢ none)
          × (present read_unit ≡ some unit)
          × ((get_main_pid unit ≡ some pid) ⊎ (get_main_pid unit ≡ some ppid)))
unfolding detect_self_supervisor
detect_self_supervisor_iff read_unit get_main_pid invocation_id pid ppid unit =
    (λ h. ground arith, λ h. ground arith)

-- A recorded supervisor stands. Without one, a daemon is supervised exactly if its cgroup names a unit
-- whose main process is the daemon or its parent, so a mere descendant of a service is not.
resolve_daemon_supervisor_iff :
    (read_unit : Option String) (get_main_pid : String → Option ℕ) (parent_pid : Option ℕ)
    (state : DaemonState) (unit : String)
    → (resolve_daemon_supervisor read_unit get_main_pid parent_pid state
        ≡ some (record { unit = unit }))
      ↔ ((state.supervisor ≡ some (record { unit = unit }))
          ⊎ ((state.supervisor ≡ none)
              × (present read_unit ≡ some unit)
              × ((get_main_pid unit ≡ some state.pid)
                  ⊎ ((parent_pid ≢ none) × (get_main_pid unit ≡ parent_pid)))))
unfolding resolve_daemon_supervisor
resolve_daemon_supervisor_iff read_unit get_main_pid parent_pid state unit =
    (λ h. ground arith, λ h. ground arith)
