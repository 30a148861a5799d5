-- ===== src/Reachability/Checks.antt =====
-- src/reachability/checks.ts: what `reachability status` and `setup` report. Regular expressions, the output of
-- commands and the texts of src/reachability/guidance.ts are parameters.
pub mod Evaluate
pub mod Verdicts
use bitsocial_cli.Common.{
  ℕ, ◌<◌, ◌≤◌, ◌+◌, ◌/◌, ◌%◌, ◌^◌, String, ◌<>◌, Bool, true, false, not, ◌&&◌, ◌||◌, ◌≡◌, ◌↔◌, ◌⊎◌,
  refl, Option, none, some, List, [], ◌∷◌, any, keep, contains, str_eq, ltb, leb, ◌==◌,
  if◌then◌else◌, arith,
}
use bitsocial_cli.Reachability.Discovery.{Autonat, PortState}

pub data CheckStatus : Type 0 where
  ok : CheckStatus
  warn : CheckStatus
  fail : CheckStatus
  unknown : CheckStatus

pub record ReachabilityCheck : Type 0 where
  pub id : String
  pub status : CheckStatus
  pub detail : String
  pub fix : Option String

pub data BindPermission : Type 0 where
  allowed : BindPermission
  denied : BindPermission
  not_known : BindPermission

pub record BindPermissionInput : Type 0 where
  pub platform : String
  pub port : ℕ
  pub uid : Option ℕ
  pub effective_capabilities : Option ℕ
  pub unprivileged_port_start : Option ℕ
  pub file_capabilities : Option String

unfoldable pub cap_net_bind_service_bit : ℕ
cap_net_bind_service_bit = 10

unfoldable pub has_bit : ℕ → ℕ → Bool
has_bit capabilities bit = (capabilities / 2 ^ bit) % 2 == 1

unfoldable pub is_unprivileged : Option ℕ → ℕ → Bool
is_unprivileged none port = false
is_unprivileged (some start) port = leb start port

unfoldable pub is_root : Option ℕ → Bool
is_root none = false
is_root (some uid) = uid == 0

unfoldable pub root_permission : Option ℕ → BindPermission
root_permission none = allowed
root_permission (some capabilities) =
    if has_bit capabilities cap_net_bind_service_bit then allowed else denied

unfoldable pub file_permission : Option String → BindPermission
file_permission none = not_known
file_permission (some capabilities) =
    if contains capabilities "cap_net_bind_service" then allowed else denied

unfoldable pub bind_permission : BindPermissionInput → BindPermission
bind_permission input =
    if not (str_eq input.platform "linux") || leb 1024 input.port
    then allowed
    else if is_unprivileged input.unprivileged_port_start input.port
    then allowed
    else if is_root input.uid
    then root_permission input.effective_capabilities
    else file_permission input.file_capabilities

pub data FirewallName : Type 0 where
  ufw : FirewallName
  firewalld : FirewallName

pub record FirewallState : Type 0 where
  pub name : FirewallName
  pub active : Bool
  pub allows_tcp443 : Bool
  pub allows_udp443 : Bool

-- A line that allows inbound traffic: the port parts of its first column, each a list of numbers (`none` is NaN), or
-- `Anywhere`; its protocol, and whether it names an app profile that opens TCP.
pub data Ports : Type 0 where
  anywhere : Ports
  port_parts : List (List (Option ℕ)) → Ports

pub record UfwRule : Type 0 where
  pub ports : Ports
  pub protocol : Option String
  pub is_tcp_profile : Bool

unfoldable pub at_most : Option ℕ → Option ℕ → Bool
at_most (some a) (some b) = leb a b
at_most _ _ = false

-- `const [first, last = first] = part`
unfoldable pub covers_443 : List (Option ℕ) → Bool
covers_443 [] = false
covers_443 (first ∷ []) = at_most first (some 443) && at_most (some 443) first
covers_443 (first ∷ last ∷ more) = at_most first (some 443) && at_most (some 443) last

unfoldable pub opens : String → UfwRule → Bool
opens protocol rule =
    let covered : Bool = elim rule.ports [ anywhere ↦ true | port_parts ps ↦ any covers_443 ps ] in
    elim rule.protocol [
      | none ↦ covered
      | some p ↦ if not (str_eq p "") && not (str_eq p protocol) then false else covered
    ]

-- `is_status` and `is_active` are the tests of the whole output, `rules` its lines that allow inbound traffic.
unfoldable pub parse_ufw_status : Bool → Bool → List UfwRule → Option FirewallState
parse_ufw_status is_status is_active rules =
    if not is_status
    then none
    else some (record {
      name = ufw;
      active = is_active;
      allows_tcp443 =
          any (opens "tcp") rules || any (λ (rule : UfwRule). rule.is_tcp_profile) rules;
      allows_udp443 = any (opens "udp") rules;
    })

-- The tests of the list of ports and of the list of services.
unfoldable pub parse_firewalld_state : Bool → Bool → Bool → Bool → Bool → FirewallState
parse_firewalld_state is_running has_443_tcp has_https has_443_udp has_http3 = record {
  name = firewalld;
  active = is_running;
  allows_tcp443 = has_443_tcp || has_https;
  allows_udp443 = has_443_udp || has_http3;
}

-- What the two firewalls answer, `none` if the command fails; an inactive ufw leaves it to firewalld.
unfoldable pub read_firewall :
    Bool → Option (Option FirewallState) → Option FirewallState → Option FirewallState
read_firewall is_linux ufw_answer firewalld_answer =
    if not is_linux then none else elim ufw_answer [
      | some (some parsed) ↦ if parsed.active then some parsed else firewalld_answer
      | _ ↦ firewalld_answer
    ]

-- A binary may bind a port unless it is a privileged one of Linux, below the unprivileged range, and either root
-- lacks the capability or the binary of another user is known to lack it.
bind_permission-denied_iff :
    (input : BindPermissionInput)
    → bind_permission input ≡ denied
      ↔ (str_eq input.platform "linux" ≡ true)
        × (input.port < 1024)
        × (is_unprivileged input.unprivileged_port_start input.port ≡ false)
        × (((is_root input.uid ≡ true) × (root_permission input.effective_capabilities ≡ denied))
            ⊎ ((is_root input.uid ≡ false) × (file_permission input.file_capabilities ≡ denied)))
unfolding bind_permission
bind_permission-denied_iff input = ground arith
