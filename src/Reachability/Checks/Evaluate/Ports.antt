-- ===== src/Reachability/Checks/Evaluate/Ports.antt =====
-- src/reachability/checks.ts: the checks of the ports and of the firewalls.
use bitsocial_cli.Common.{
  String, ◌<>◌, Bool, false, not, ◌&&◌, ◌||◌, Option, none, some, List, [], ◌∷◌, ◌++◌, keep, str_eq,
  if◌then◌else◌, or_default, join_with, decimal,
}
use bitsocial_cli.Reachability.Discovery.{Autonat, busy, no_permission, same_state}
use bitsocial_cli.Reachability.Checks.{
  ok, warn, fail, unknown, ReachabilityCheck, FirewallState, FirewallName, ufw, firewalld,
}
use bitsocial_cli.Reachability.Checks.Evaluate.Facts.{
  CheckFacts, Guidance, check, comma, another, is_denied, is_not_known, is_empty, listens,
  verified_on_port,
}

module _ (guidance : Guidance) where
  unfoldable pub bind_fix : CheckFacts → String → String
  bind_fix facts binary_path =
      if facts.in_container
      then "Add cap_add: [NET_BIND_SERVICE] to your compose file"
      else "Run "
        <> guidance.unprivileged_port_sysctl
        <> " (persist it in /etc/sysctl.d/) or "
        <> guidance.setcap_command binary_path

  unfoldable pub is_udp_fallback : String → Bool
  is_udp_fallback address = elim (guidance.webtransport_port address) [
    | none ↦ false
    | some port ↦ not (str_eq port "443")
  ]

  unfoldable pub fallbacks_of : (Autonat → List String) → CheckFacts → List String
  fallbacks_of side facts = elim facts.kubo_autonat [
    | none ↦ []
    | some autonat ↦ keep is_udp_fallback (side autonat)
  ]

  unfoldable pub udp_unavailable_beside_working_wss : CheckFacts → ReachabilityCheck
  udp_unavailable_beside_working_wss facts =
      let is_held = same_state facts.udp443 busy in
      let held =
        if is_held
        then "UDP 443 is held by " <> another facts.udp443_holder
        else "kubo has no permission to bind UDP 443" in
      let fix =
        if is_held
        then "Stop whatever holds UDP 443, so kubo can listen there"
        else bind_fix facts facts.kubo_path in
      let untested =
        held
        <> ", and whether WebTransport works on kubo's other UDP port has not been tested yet" in
      elim (fallbacks_of (λ (a : Autonat). a.reachable) facts) [
        | address ∷ more ↦
            check "udp-443" ok
              (held
                <> ", but AutoNAT reached kubo on UDP "
                <> guidance.udp_port address
                <> ", which WebTransport can use: "
                <> comma (address ∷ more))
              none
        | [] ↦ elim (fallbacks_of (λ (a : Autonat). a.unreachable) facts) [
          | address ∷ more ↦
              check "udp-443" warn
                (held
                  <> ", and AutoNAT could not reach kubo's other UDP addresses, so WebTransport may not work: "
                  <> comma (address ∷ more))
                (some fix)
          | [] ↦ check "udp-443" warn untested (some fix)
        ]
      ]

  unfoldable pub tcp443_check : CheckFacts → ReachabilityCheck
  tcp443_check facts =
      let port = decimal facts.https_port in
      let is_held = same_state facts.tcp443 busy in
      let held = "TCP " <> port <> " is held by " <> another facts.tcp443_holder in
      let unverified =
        if is_held
        then check "tcp-443" fail (held <> ", so this node cannot serve its own certificate")
            (some "Free the port, or use --domain with your existing server as a reverse proxy")
        else if is_denied facts.caddy_bind
        then check "tcp-443" fail ("Caddy has no permission to bind TCP " <> port)
            (some (bind_fix facts facts.caddy_path))
        else if is_not_known facts.caddy_bind
        then check "tcp-443" unknown
            ("TCP " <> port
              <> " is free, but getcap is not installed so Caddy's permission could not be read")
            none
        else check "tcp-443" ok ("TCP " <> port <> " is free and Caddy may bind it") none in
      if facts.our_caddy_running
      then check "tcp-443" ok ("TCP " <> port <> " is served by this node's Caddy") none
      else elim (verified_on_port facts) [
        | some address ↦
            check "tcp-443" ok
              (if is_held
                then held <> ", which serves " <> address
                else "TCP " <> port <> " serves " <> address)
              none
        | none ↦ unverified
      ]

  unfoldable pub has_any : Option (List String) → Bool
  has_any none = false
  has_any (some addresses) = not (is_empty addresses)

  unfoldable pub udp443_check : CheckFacts → ReachabilityCheck
  udp443_check facts =
      let is_held = same_state facts.udp443 busy in
      if listens facts.kubo_listen "/udp/443/quic-v1/webtransport"
      then check "udp-443" ok "kubo is listening for WebTransport on UDP 443" none
      else if (is_held || is_denied facts.kubo_bind) && has_any facts.verified_wss
      then udp_unavailable_beside_working_wss facts
      else if is_held
      then check "udp-443" fail
          ("UDP 443 is held by " <> another facts.udp443_holder <> ", so kubo cannot listen there")
          (some "Stop whatever holds it. Until then WebTransport depends on kubo's other UDP port")
      else if is_denied facts.kubo_bind
      then check "udp-443" fail
          "kubo has no permission to bind UDP 443. It would start normally and silently not listen"
          (some (bind_fix facts facts.kubo_path))
      else if is_not_known facts.kubo_bind
      then check "udp-443" unknown
          "getcap is not installed, so kubo's permission to bind UDP 443 could not be read" none
      else if facts.enabled && facts.daemon_running
      then check "udp-443" fail "kubo should be listening on UDP 443 but is not"
          (some "Check the daemon log, then run: bitsocial reachability enable")
      else check "udp-443" ok "UDP 443 is free and kubo may bind it" none

  unfoldable pub public_address_check : CheckFacts → ReachabilityCheck
  public_address_check facts =
      if is_empty facts.public_ips
      then check "public-address" warn
          "No public address on this machine's interfaces. Setup also asks the router and kubo"
          (some
            "A public IPv4 address, global IPv6, or a router allowing UPnP or manual forwarding is needed")
      else check "public-address" ok ("Public addresses: " <> comma facts.public_ips) none

  unfoldable pub tcp80_check : CheckFacts → ReachabilityCheck
  tcp80_check facts =
      if same_state facts.tcp80 busy && not facts.our_caddy_running
      then check "tcp-80" warn
          ("TCP "
            <> decimal (or_default facts.http_port 80)
            <> " is held by "
            <> another facts.tcp80_holder
            <> ". Let's Encrypt can still validate over TCP 443, but HTTP validation is unavailable")
          none
      else if same_state facts.tcp80 no_permission && is_denied facts.caddy_bind
      then check "tcp-80" warn
          "Caddy has no permission to bind TCP 80, so only TCP 443 validation is available" none
      else check "tcp-80" ok "TCP 80 is available for certificate validation" none

  unfoldable pub firewall_name : FirewallName → String
  firewall_name ufw = "ufw"
  firewall_name firewalld = "firewalld"

  unfoldable pub open_command : FirewallName → String
  open_command ufw = "sudo ufw allow 443"
  open_command firewalld =
      "sudo firewall-cmd --permanent --add-port=443/tcp --add-port=443/udp && sudo firewall-cmd --reload"

  unfoldable pub closed_ports : FirewallState → List String
  closed_ports firewall =
      (if firewall.allows_tcp443 then [] else "TCP 443" ∷ [])
      ++ (if firewall.allows_udp443 then [] else "UDP 443" ∷ [])

  unfoldable pub firewall_checks : CheckFacts → List ReachabilityCheck
  firewall_checks facts = elim facts.firewall [
    | none ↦ []
    | some firewall ↦
        if not firewall.active
        then []
        else if is_empty (closed_ports firewall)
        then check "firewall" ok (firewall_name firewall.name <> " allows port 443") none ∷ []
        else check "firewall" warn
            (firewall_name firewall.name
              <> " is active and does not appear to allow "
              <> join_with " or " (closed_ports firewall))
            (some (open_command firewall.name))
          ∷ []
  ]
