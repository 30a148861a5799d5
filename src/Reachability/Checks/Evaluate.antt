-- ===== src/Reachability/Checks/Evaluate.antt =====
-- src/reachability/checks.ts: `evaluateChecks` and the checks it is made of.
pub mod Facts
pub mod Ports
use bitsocial_cli.Common.{
  ℕ, ◌+◌, String, ◌<>◌, Bool, true, false, not, ◌&&◌, ◌||◌, Option, none, some, List, [], ◌∷◌, ◌++◌,
  any, keep, contains, str_eq, ltb, ◌==◌, if◌then◌else◌, is_some, or_default, join_with, decimal,
  length,
}
use bitsocial_cli.Reachability.Discovery.{
  Autonat, PortState, busy, no_permission, same_state, addresses_not_announced,
}
use bitsocial_cli.Reachability.Checks.{
  CheckStatus, ok, warn, fail, unknown, ReachabilityCheck, BindPermission, denied, not_known,
  FirewallState, FirewallName, ufw, firewalld,
}
pub use bitsocial_cli.Reachability.Checks.Evaluate.Facts.{
  Hours, Certificate, CheckFacts, Guidance, hours, hours_ago,
}
unfoldable pub use bitsocial_cli.Reachability.Checks.Evaluate.Facts.{
  is_short, hours_text, check, comma, another, is_denied, is_not_known, is_empty, listens,
  find_containing, verified_on_port,
}
unfoldable pub use bitsocial_cli.Reachability.Checks.Evaluate.Ports.{
  bind_fix, is_udp_fallback, fallbacks_of, udp_unavailable_beside_working_wss, tcp443_check,
  has_any, udp443_check, public_address_check, tcp80_check, firewall_name, open_command,
  closed_ports, firewall_checks,
}

module _ (guidance : Guidance) where
  unfoldable pub kubo_announce_check : CheckFacts → Option ReachabilityCheck
  kubo_announce_check facts =
      let fix : String = "Run: bitsocial reachability enable" in
      let missing_from_config =
        addresses_not_announced facts.announce
          (or_default facts.kubo_config_announce facts.announce) in
      let not_running =
        addresses_not_announced facts.announce
          (or_default facts.kubo_running_announce facts.announce) in
      let what : String =
        if length facts.announce == 1
        then "the browser address"
        else "all " <> decimal (length facts.announce) <> " browser addresses" in
      if is_empty facts.announce
      then none
      else if not (is_some facts.kubo_config_announce) && not (is_some facts.kubo_running_announce)
      then none
      else if not (is_empty missing_from_config)
      then some (
          check "kubo-announce" fail
            ("kubo's config does not announce "
              <> comma missing_from_config
              <> ", so browsers cannot learn it from this node")
            (some fix))
      else if not (is_empty not_running)
      then some (
          check "kubo-announce" fail
            ("Running kubo does not announce "
              <> comma not_running
              <> ", so browsers cannot learn it from this node")
            (some (fix <> ". If that does not help, check Addresses.NoAnnounce in kubo's config")))
      else some (check "kubo-announce" ok ("kubo announces " <> what) none)

  unfoldable pub kubo_ws_check : CheckFacts → ℕ → ReachabilityCheck
  kubo_ws_check facts ws_port =
      let port = decimal ws_port in
      if listens facts.kubo_listen ("/tcp/" <> port <> "/ws")
      then check "kubo-ws" ok ("kubo is listening on 127.0.0.1:" <> port <> " for the terminator")
          none
      else check "kubo-ws" fail
          ("kubo is not listening on 127.0.0.1:" <> port <> ", so WSS cannot reach it")
          (some "Run: bitsocial reachability enable")

  unfoldable pub daemon_checks : CheckFacts → List ReachabilityCheck
  daemon_checks facts =
      if not facts.daemon_running
      then check "daemon" warn "The daemon is not running, so nothing is being served"
          (some "Run: bitsocial daemon")
        ∷ []
      else elim facts.ws_port [ none ↦ [] | some ws_port ↦ kubo_ws_check facts ws_port ∷ [] ]

  unfoldable pub certificate_checks : List Certificate → List ReachabilityCheck
  certificate_checks [] = []
  certificate_checks (certificate ∷ certificates) =
      (if is_short certificate.hours_left
        then check "certificate" warn
            ("The certificate for "
              <> comma certificate.names
              <> " has "
              <> hours_text certificate.hours_left
              <> " hours left")
            (some "Check that TCP 80 or 443 still reaches this machine")
          ∷ []
        else [])
      ++ certificate_checks certificates

  unfoldable pub to_list : Option ReachabilityCheck → List ReachabilityCheck
  to_list none = []
  to_list (some c) = c ∷ []

  unfoldable pub enabled_checks : CheckFacts → List ReachabilityCheck
  enabled_checks facts =
      if facts.enabled
      then daemon_checks facts
        ++ (to_list (kubo_announce_check facts) ++ certificate_checks facts.certificates)
      else []

  unfoldable pub autonat_of : CheckFacts → Autonat
  autonat_of facts =
      or_default facts.kubo_autonat (record { reachable = []; unreachable = []; unknown = [] })

  unfoldable pub result_line : String → List String → List String
  result_line lead addresses = if is_empty addresses then [] else (lead <> comma addresses) ∷ []

  unfoldable pub inbound_check : CheckFacts → ReachabilityCheck
  inbound_check facts =
      let autonat = autonat_of facts in
      let results = join_with ". " (
        result_line "AutoNAT reached: " autonat.reachable
        ++ (result_line "AutoNAT could not reach: " autonat.unreachable
            ++ result_line "Not tested yet: " autonat.unknown)) in
      let status =
        if not (is_empty autonat.reachable)
        then ok
        else if not (is_empty autonat.unreachable)
        then warn
        else unknown in
      if is_empty autonat.reachable && is_empty autonat.unreachable && is_empty autonat.unknown
      then check "inbound" unknown
          "Only a connection from another network can prove inbound traffic reaches this machine. A provider firewall cannot be seen from here"
          none
      else check "inbound" status
          (results
            <> ". This does not cover WSS through a reverse proxy, which only a connection from another network can prove")
          none

  unfoldable pub evaluate_checks : CheckFacts → List ReachabilityCheck
  evaluate_checks facts =
      public_address_check guidance facts
      ∷ tcp443_check guidance facts
      ∷ udp443_check guidance facts
      ∷ tcp80_check guidance facts
      ∷ (firewall_checks guidance facts ++ (enabled_checks facts ++ (inbound_check facts ∷ [])))

unfoldable pub mark_of : CheckStatus → String
mark_of ok = "ok"
mark_of warn = "warning"
mark_of fail = "problem"
mark_of unknown = "unknown"

-- `eol` is the operating system's line end.
unfoldable pub format_check : String → ReachabilityCheck → String
format_check eol c =
    let fix : String = elim c.fix [
      | none ↦ ""
      | some fix ↦ if str_eq fix "" then "" else eol <> "      Fix: " <> fix
    ] in
    "  [" <> mark_of c.status <> "] " <> c.detail <> fix
