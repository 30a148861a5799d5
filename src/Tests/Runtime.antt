-- ===== src/Tests/Runtime.antt =====
-- src/reachability/runtime.ts on an address that moved and on a name that has failed for a day.
use bitsocial_cli.Common.{
  ℕ, ◌+◌, ◌<◌, ◌≢◌, All, String, ◌≡◌, refl, true, false, ◌||◌, Option, none, some, List, [], ◌∷◌,
  keep, str_eq, eq_iff, eq_refl, arith, Bool-cases, inl, inr,
}
use bitsocial_cli.Reachability.Runtime.{Net, IsNet, is_same_certificate_name}
use bitsocial_cli.Reachability.Runtime.IpChange.{
  family_next, plan_ip_change, plan_ip_change-settles, plan_ip_change-families,
}
use bitsocial_cli.Reachability.Runtime.Names.{NameConfig, ResolvedDomain, judge_name}
use bitsocial_cli.Reachability.Runtime.Backoff.{
  Backoff, failures_of, ip_family, wait_ms, back_off_issuance, addresses_worth_trying,
  addresses_worth_trying-waits,
}
use bitsocial_cli.Reachability.Runtime.Check.{NameStatus, check_names}
use bitsocial_cli.Reachability.Runtime.Conservation.{is_held, check_names-is_held}
use bitsocial_cli.Reachability.Runtime.Dropping.{fail_all, announced, judged, fail_all-dropped}

abbrev net : Net
net = record {
  is_ipv4 = λ s. str_eq s "203.0.113.7" || str_eq s "203.0.113.8";
  is_ipv6 = λ s. str_eq s "2001:db8::1";
  blocks = str_eq;
  to_lower = λ s. s;
}

net-IsNet : IsNet net
net-IsNet = record {
  apart = λ s h. elim (Bool-cases (str_eq s "203.0.113.7")) [
    | inl e ↦ rw ((eq_iff s "203.0.113.7").0 e) refl
    | inr e ↦ rw ((eq_iff s "203.0.113.8").0 (ground (arith, h, e))) refl
  ];
  holds = λ s h. eq_refl s;
}

-- The IPv4 address moved, and nothing is known of the IPv6 one.
abbrev held : List String
held = "203.0.113.7" ∷ "2001:db8::1" ∷ []

abbrev found : List String
found = "203.0.113.8" ∷ []

abbrev moved : List String
moved = "203.0.113.8" ∷ "2001:db8::1" ∷ []

held-moved : plan_ip_change net held found ≡ some moved
unfolding plan_ip_change family_next is_same_certificate_name
held-moved = refl

plan_ip_change-settles_example : plan_ip_change net moved found ≡ none
plan_ip_change-settles_example = plan_ip_change-settles net net-IsNet held found moved held-moved

plan_ip_change-families_example :
    ((keep net.is_ipv4 found ≡ [] → keep net.is_ipv4 moved ≡ keep net.is_ipv4 held)
      × (keep net.is_ipv4 moved ≡ []
          → (keep net.is_ipv4 found ≡ []) × (keep net.is_ipv4 held ≡ [])))
    × ((keep net.is_ipv6 found ≡ [] → keep net.is_ipv6 moved ≡ keep net.is_ipv6 held)
        × (keep net.is_ipv6 moved ≡ []
            → (keep net.is_ipv6 found ≡ []) × (keep net.is_ipv6 held ≡ [])))
plan_ip_change-families_example = plan_ip_change-families net net-IsNet held found moved held-moved

abbrev address : String
address = "/dns4/node.example/tcp/443/tls/ws"

abbrev config : NameConfig
config = record {
  announce = address ∷ [];
  dropped_announce = none;
  external_announce = none;
  domain = some "node.example";
  domain_forced = false;
}

abbrev unresolved : String → ResolvedDomain
unresolved name = record { v4 = []; v6 = [] }

abbrev failing : String → Option NameStatus
failing name = some (record {
  last_check_at = 300000;
  ok = false;
  failing_since = some 300000;
  dropped_from_announce = false;
})

abbrev never_warned : String → Option ℕ
never_warned name = none

check_names-is_held_example :
    is_held address (check_names net unresolved held 90000000 config failing never_warned).next
    ≡ is_held address config
check_names-is_held_example =
    check_names-is_held net unresolved held 90000000 config failing never_warned address

-- Checks that fail for a day and five minutes.
abbrev failures : List ℕ
failures = 300000 ∷ 86400000 ∷ 86700000 ∷ []

fail_all-dropped_example :
    ((fail_all (300000 ∷ failures) announced).failing_since ≡ some 300000)
    × ((fail_all (300000 ∷ failures) announced).dropped_from_announce ≡ true)
    × ((judge_name true (some (fail_all (300000 ∷ failures) announced)) none 90000000).restore
        ≡ true)
    × (judged (fail_all (300000 ∷ failures) announced) true 90000000 ≡ announced)
fail_all-dropped_example = fail_all-dropped 300000 failures 90000000 none

abbrev no_backoffs : ℕ → Option Backoff
no_backoffs family = none

-- The certificate of the new IPv4 address failed at 0, and the check of a minute later.
a_minute_later : 60000 < 0 + wait_ms (failures_of (no_backoffs (ip_family net "203.0.113.8")) + 1)
unfolding wait_ms
a_minute_later = omega arith

addresses_worth_trying-waits_example :
    All
      (λ x. ip_family net x ≢ ip_family net "203.0.113.8")
      (addresses_worth_trying net 60000 held
        (back_off_issuance net 0 "203.0.113.8" held no_backoffs)
        found)
addresses_worth_trying-waits_example =
    addresses_worth_trying-waits net net-IsNet 0 60000 "203.0.113.8" held found no_backoffs
      a_minute_later
