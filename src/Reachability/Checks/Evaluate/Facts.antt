-- ===== src/Reachability/Checks/Evaluate/Facts.antt =====
-- src/reachability/checks.ts: what the checks are made from, and the tests on it.
use bitsocial_cli.Common.{
  ℕ, ◌+◌, String, ◌<>◌, Bool, true, false, Option, none, some, List, [], ◌∷◌, any, contains, ltb,
  if◌then◌else◌, or_default, join_with, decimal,
}
use bitsocial_cli.Reachability.Discovery.{Autonat, PortState}
use bitsocial_cli.Reachability.Checks.{
  CheckStatus, ReachabilityCheck, BindPermission, denied, not_known, FirewallState,
}

-- A whole number of hours: `hours_ago n` are -(n + 1).
pub data Hours : Type 0 where
  hours : ℕ → Hours
  hours_ago : ℕ → Hours

pub record Certificate : Type 0 where
  pub names : List String
  pub hours_left : Hours

pub record CheckFacts : Type 0 where
  pub in_container : Bool
  pub enabled : Bool
  pub daemon_running : Bool
  pub public_ips : List String
  pub https_port : ℕ
  pub http_port : Option ℕ
  pub ws_port : Option ℕ
  pub caddy_path : String
  pub kubo_path : String
  pub our_caddy_running : Bool
  pub tcp443 : PortState
  pub tcp443_holder : Option String
  pub tcp80 : PortState
  pub tcp80_holder : Option String
  pub udp443 : PortState
  pub udp443_holder : Option String
  pub caddy_bind : BindPermission
  pub kubo_bind : BindPermission
  pub kubo_listen : Option (List String)
  pub announce : List String
  pub kubo_config_announce : Option (List String)
  pub kubo_running_announce : Option (List String)
  pub firewall : Option FirewallState
  pub certificates : List Certificate
  pub verified_wss : Option (List String)
  pub kubo_autonat : Option Autonat

-- The sysctl and `setcapCommand` of src/reachability/guidance.ts, and the UDP port that WebTransport may use
-- in place of 443: the digits that the regular expression finds.
pub record Guidance : Type 0 where
  pub unprivileged_port_sysctl : String
  pub setcap_command : String → String
  pub webtransport_port : String → Option String
  pub udp_port : String → String

unfoldable pub is_short : Hours → Bool
is_short (hours n) = ltb n 24
is_short (hours_ago n) = true

unfoldable pub hours_text : Hours → String
hours_text (hours n) = decimal n
hours_text (hours_ago n) = "-" <> decimal (n + 1)

unfoldable pub check : String → CheckStatus → String → Option String → ReachabilityCheck
check id status detail fix = record { id = id; status = status; detail = detail; fix = fix }

abbrev pub comma : List String → String
comma texts = join_with ", " texts

abbrev pub another : Option String → String
another holder = or_default holder "another program"

unfoldable pub is_denied : BindPermission → Bool
is_denied denied = true
is_denied _ = false

unfoldable pub is_not_known : BindPermission → Bool
is_not_known not_known = true
is_not_known _ = false

unfoldable pub is_empty {ℓ} : {A : Type ℓ} → List A → Bool
is_empty [] = true
is_empty (x ∷ xs) = false

-- `addresses?.some((address) => address.includes(part)) === true`
unfoldable pub listens : Option (List String) → String → Bool
listens none part = false
listens (some addresses) part = any (λ a. contains a part) addresses

unfoldable pub find_containing : List String → String → Option String
find_containing [] part = none
find_containing (a ∷ as') part = if contains a part then some a else find_containing as' part

unfoldable pub verified_on_port : CheckFacts → Option String
verified_on_port facts = elim facts.verified_wss [
  | none ↦ none
  | some addresses ↦ find_containing addresses ("/tcp/" <> decimal facts.https_port <> "/")
]
