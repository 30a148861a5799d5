-- ===== src/Tests/Endpoints.antt =====
-- src/util.ts on a kubo that listens on a socket and on every interface.
use bitsocial_cli.Common.{
  ℕ, String, Bool, true, false, ◌||◌, ◌≡◌, refl, Option, none, some, List, [], ◌∷◌, str_eq, eq_iff,
  if◌then◌else◌, arith, Bool-cases, inl, inr,
}
use bitsocial_cli.Json.{Json, str, arr, nil, cons}
use bitsocial_cli.Daemon.Endpoints.{
  Component, Url, describe_kubo_endpoint_mismatch, first_usable, entries_of, opens_bracket,
  url_port, listeners_of, listener_of, text_of, multi_addr_to_host_port, find_component,
  host_components, host_of, port_of, dialed_url, host_for_url, to_connectable_hostname,
  strip_brackets,
}
use bitsocial_cli.Daemon.Endpoints.Agreement.{IsUrl, describe_kubo_endpoint_mismatch-first_usable}

abbrev addresses : Json
addresses = arr (cons (str "/unix/run/kubo.sock") (cons (str "/ip4/0.0.0.0/tcp/5001") nil))

abbrev number : String → Option ℕ
number s = if str_eq s "5001" then some 5001 else none

abbrev multiaddr : String → Option (List Component)
multiaddr s =
    if str_eq s "/ip4/0.0.0.0/tcp/5001"
    then some (
        record { name = "ip4"; value = some "0.0.0.0" }
        ∷ record { name = "tcp"; value = some "5001" }
        ∷ [])
    else none

abbrev new_url : String → Option Url
new_url s = none

abbrev at : String → ℕ → Url
at host port = record { protocol = "http:"; hostname = host; port = some port; href = host }

abbrev http_url : String → ℕ → String → Option Url
http_url host port path = some (at host port)

abbrev is_canonical : String → Bool
is_canonical h = str_eq h "127.0.0.1" || str_eq h "::1" || str_eq h "0.0.0.0"

bare : (h : String) → is_canonical h ≡ true → opens_bracket h ≡ false
unfolding opens_bracket
bare h c = elim (Bool-cases (str_eq h "127.0.0.1")) [
  | inl e ↦ rw ((eq_iff h "127.0.0.1").0 e) refl
  | inr e ↦ elim (Bool-cases (str_eq h "::1")) [
    | inl f ↦ rw ((eq_iff h "::1").0 f) refl
    | inr f ↦ rw ((eq_iff h "0.0.0.0").0 (ground (arith, c, e, f))) refl
  ]
]

urls : IsUrl http_url is_canonical
unfolding url_port
urls = record {
  bare = bare;
  ipv4_loopback = refl;
  ipv6_loopback = refl;
  keeps = λ h path port url c p done. ground arith;
}

abbrev warning : String → Json → String
warning href configured = href

describe_kubo_endpoint_mismatch-first_usable_example :
    describe_kubo_endpoint_mismatch number multiaddr new_url http_url
      (λ s. true)
      warning
      addresses
      (at "127.0.0.1" 5001)
    ≡ none
unfolding first_usable listeners_of entries_of listener_of text_of multi_addr_to_host_port
    find_component host_components host_of port_of dialed_url host_for_url to_connectable_hostname
    strip_brackets
describe_kubo_endpoint_mismatch-first_usable_example =
    describe_kubo_endpoint_mismatch-first_usable number multiaddr new_url http_url is_canonical urls
      (λ s. true) warning "/api/v0" addresses (at "127.0.0.1" 5001) refl refl refl
