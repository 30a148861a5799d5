-- ===== src/Reachability/Checks/Verdicts.antt =====
-- src/reachability/checks.ts: what the report always holds.
use bitsocial_cli.Common.{
  Bool, true, false, not, ◌||◌, ◌≡◌, ◌↔◌, ◌⊎◌, none, List, [], ◌∷◌, ◌++◌, All, All-append, is_some,
  if◌then◌else◌, arith,
}
use bitsocial_cli.Reachability.Discovery.{busy, same_state}
use bitsocial_cli.Reachability.Checks.{CheckStatus, fail, ReachabilityCheck, denied}
use bitsocial_cli.Reachability.Checks.Evaluate.{
  CheckFacts, Guidance, Certificate, check, tcp443_check, udp443_check,
  udp_unavailable_beside_working_wss, public_address_check, tcp80_check, firewall_checks,
  kubo_announce_check, kubo_ws_check, daemon_checks, certificate_checks, enabled_checks,
  inbound_check, evaluate_checks, to_list, verified_on_port, is_denied, is_not_known,
}

unfoldable pub is_fail : CheckStatus → Bool
is_fail fail = true
is_fail _ = false

-- A problem comes with what to do about it.
unfoldable pub is_helpful : ReachabilityCheck → Bool
is_helpful c = not (is_fail c.status) || is_some c.fix

abbrev Helpful : ReachabilityCheck → Type 0
Helpful c = is_helpful c ≡ true

abbrev pub AreHelpful : List ReachabilityCheck → Type 0
AreHelpful = All Helpful

if-AreHelpful :
    (b : Bool) (cs : List ReachabilityCheck) → AreHelpful cs → AreHelpful (if b then cs else [])
if-AreHelpful true cs h = h
if-AreHelpful false cs h = tt

module _ (guidance : Guidance) (facts : CheckFacts) where
  tcp443_check-is_helpful : is_helpful (tcp443_check guidance facts) ≡ true
  unfolding is_helpful is_fail tcp443_check check
  tcp443_check-is_helpful = ground arith

  beside-is_helpful : is_helpful (udp_unavailable_beside_working_wss guidance facts) ≡ true
  unfolding is_helpful is_fail udp_unavailable_beside_working_wss check
  beside-is_helpful = ground arith

  udp443_check-is_helpful : is_helpful (udp443_check guidance facts) ≡ true
  unfolding udp443_check check is_helpful is_fail
  udp443_check-is_helpful = ground (arith, beside-is_helpful)

  firewall_checks-AreHelpful : AreHelpful (firewall_checks guidance facts)
  unfolding firewall_checks check is_helpful is_fail
  firewall_checks-AreHelpful = ground arith

  kubo_announce_check-AreHelpful :
      AreHelpful (to_list guidance (kubo_announce_check guidance facts))
  unfolding kubo_announce_check check is_helpful is_fail to_list
  kubo_announce_check-AreHelpful = ground arith

  daemon_checks-AreHelpful : AreHelpful (daemon_checks guidance facts)
  unfolding daemon_checks kubo_ws_check check is_helpful is_fail
  daemon_checks-AreHelpful = ground arith

  certificate_checks-AreHelpful :
      (certificates : List Certificate) → AreHelpful (certificate_checks guidance certificates)
  unfolding certificate_checks check is_helpful is_fail
  certificate_checks-AreHelpful [] = tt
  certificate_checks-AreHelpful (c ∷ cs) = ground (arith, certificate_checks-AreHelpful cs)

  public_address_check-is_helpful : is_helpful (public_address_check guidance facts) ≡ true
  unfolding public_address_check check is_helpful is_fail
  public_address_check-is_helpful = ground arith

  tcp80_check-is_helpful : is_helpful (tcp80_check guidance facts) ≡ true
  unfolding tcp80_check check is_helpful is_fail
  tcp80_check-is_helpful = ground arith

  inbound_check-is_helpful : is_helpful (inbound_check guidance facts) ≡ true
  unfolding inbound_check check is_helpful is_fail
  inbound_check-is_helpful = ground arith

  enabled_checks-AreHelpful : AreHelpful (enabled_checks guidance facts)
  unfolding enabled_checks
  enabled_checks-AreHelpful = if-AreHelpful facts.enabled _ (
      All-append Helpful (daemon_checks guidance facts) _ daemon_checks-AreHelpful (
        All-append Helpful (to_list guidance (kubo_announce_check guidance facts)) _
          kubo_announce_check-AreHelpful (certificate_checks-AreHelpful facts.certificates)))

  -- Whatever the machine looks like, every problem that the report names comes with a fix.
  pub evaluate_checks-AreHelpful : AreHelpful (evaluate_checks guidance facts)
  unfolding evaluate_checks
  evaluate_checks-AreHelpful = (
    public_address_check-is_helpful,
    (tcp443_check-is_helpful, (udp443_check-is_helpful, (tcp80_check-is_helpful, rest))),
  )
    where
      rest : AreHelpful (
          firewall_checks guidance facts
          ++ (enabled_checks guidance facts ++ (inbound_check guidance facts ∷ [])))
      rest = All-append Helpful (firewall_checks guidance facts) _ firewall_checks-AreHelpful (
          All-append Helpful (enabled_checks guidance facts) _ enabled_checks-AreHelpful
            (inbound_check-is_helpful, tt))

  -- TCP 443 is a problem just when neither this node's Caddy nor a verified address is behind it, and
  -- another program holds it or Caddy may not bind it.
  pub tcp443_check-fail_iff :
      is_fail (tcp443_check guidance facts).status ≡ true
      ↔ (facts.our_caddy_running ≡ false)
        × (verified_on_port facts ≡ none)
        × ((facts.tcp443 ≡ busy) ⊎ (facts.caddy_bind ≡ denied))
  unfolding tcp443_check check is_fail same_state is_denied is_not_known
  tcp443_check-fail_iff = ground arith
