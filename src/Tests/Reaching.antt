-- ===== src/Tests/Reaching.antt =====
-- src/reachability on a machine with one public IPv4 address, and on the files of a node that is set up.
use bitsocial_cli.Common.{
  String, ◌<>◌, Bool, true, false, ◌&&◌, ◌||◌, ◌≡◌, ◌↔◌, refl, none, some, List, [], ◌∷◌, All,
  str_eq, eq_iff, keep, every, codes, distinct, split_on,
}
use bitsocial_cli.Reachability.Discovery.{
  Internet, NetworkInterface, ipv4, free, busy, public_ips_from_interfaces, is_public_interface,
  is_public_ip, blocks, non_public_v4, subnet,
}
use bitsocial_cli.Reachability.Runtime.Derive.{derive_public_ips, derive_public_ips-own_ipv4}
use bitsocial_cli.Reachability.Runtime.CaddyWatch.{
  CaddyState, Found, watch_caddy_once, sites_of, is_settled, watched, perform_all,
  watch_caddy_once-settles, watch_sites, is_wanted, has_domain, with_sites, notice_adopted,
  reload_if_new, is_loaded,
}
use bitsocial_cli.Reachability.Checks.{allowed, denied, ok}
use bitsocial_cli.Reachability.Checks.Evaluate.{CheckFacts, Guidance, evaluate_checks}
use bitsocial_cli.Reachability.Checks.Verdicts.{is_helpful, evaluate_checks-AreHelpful}
use bitsocial_cli.Reachability.Unmanaged.{
  UnmanagedAddress, dialed, failed, is_of, is_none, status_of, browser_address_check,
  browser_address_check-ok_iff,
}
use bitsocial_cli.Reachability.Hostnames.{
  is_valid_domain, has_dot, are_labels, is_label, is_last_label, ends_alphanumeric, is_label_char,
  is_alphanumeric, is_letter, is_host_char, is_valid_domain-HostChars,
}

abbrev internet : Internet
internet = record {
  is_ipv4 = λ s. str_eq s "8.8.4.4" || str_eq s "10.0.0.2";
  is_ipv6 = λ s. str_eq s "2600::1";
  in_subnet = λ network prefix s. str_eq network "10.0.0.0" && str_eq s "10.0.0.2";
  ip_of = λ s. none;
}

abbrev interfaces : List NetworkInterface
interfaces =
    record { address = "10.0.0.2"; internal = false; family = ipv4 }
    ∷ record { address = "8.8.4.4"; internal = false; family = ipv4 }
    ∷ []

abbrev same_text : String → String
same_text s = s

apart : (ip : String) → internet.is_ipv6 ip ≡ true → internet.is_ipv4 ip ≡ false
apart ip h = rw ((eq_iff ip "2600::1").0 h) refl

derive_public_ips-own_ipv4_example :
    keep internet.is_ipv4
      (derive_public_ips internet same_text interfaces (some "1.2.3.4") (some []) [])
    ≡ keep internet.is_ipv4 (public_ips_from_interfaces internet interfaces)
unfolding public_ips_from_interfaces distinct is_public_interface is_public_ip blocks non_public_v4
    subnet
derive_public_ips-own_ipv4_example =
    derive_public_ips-own_ipv4 internet same_text interfaces (some "1.2.3.4") (some []) [] apart
      refl

-- A node whose Caddyfile has changed.
abbrev node : Found
node = record {
  config = some (record { enabled = true; public_ips = "8.8.4.4" ∷ []; domain = none });
  caddyfile = some "https://8.8.4.4 {";
  adopted_is_up = true;
  is_up = true;
  starts = true;
  reloads = true;
}

abbrev serving : CaddyState
serving = record {
  stopping = false;
  expecting_exit = false;
  adopted = false;
  running = true;
  loaded = some "https://9.9.9.9 {";
}

abbrev any_text : String → Bool
any_text text = true

watch_caddy_once-settles_example :
    (perform_all node (watch_caddy_once any_text node serving).calls (some "https://9.9.9.9 {")
      ≡ some "https://8.8.4.4 {")
    × (is_settled (sites_of any_text node) (watch_caddy_once any_text node serving).state ≡ true)
    × (watch_caddy_once any_text node (watch_caddy_once any_text node serving).state
        ≡ watched (watch_caddy_once any_text node serving).state [] false)
unfolding watch_caddy_once sites_of watch_sites is_wanted has_domain with_sites notice_adopted
    reload_if_new is_loaded watched
watch_caddy_once-settles_example =
    watch_caddy_once-settles any_text node node serving (some "https://9.9.9.9 {") refl refl refl
      refl refl

-- A web server holds TCP 443, and kubo may not bind UDP 443.
abbrev blocked : CheckFacts
blocked = record {
  in_container = false;
  enabled = true;
  daemon_running = true;
  public_ips = "8.8.4.4" ∷ [];
  https_port = 443;
  http_port = none;
  ws_port = some 4002;
  caddy_path = "/data/caddy";
  kubo_path = "/usr/bin/ipfs";
  our_caddy_running = false;
  tcp443 = busy;
  tcp443_holder = some "nginx";
  tcp80 = free;
  tcp80_holder = none;
  udp443 = free;
  udp443_holder = none;
  caddy_bind = allowed;
  kubo_bind = denied;
  kubo_listen = some [];
  announce = [];
  kubo_config_announce = none;
  kubo_running_announce = none;
  firewall = none;
  certificates = [];
  verified_wss = none;
  kubo_autonat = none;
}

abbrev guidance : Guidance
guidance = record {
  unprivileged_port_sysctl = "sysctl";
  setcap_command = λ path. "setcap " <> path;
  webtransport_port = λ address. none;
  udp_port = λ address. "4001";
}

evaluate_checks-AreHelpful_example :
    All (λ c. is_helpful c ≡ true) (evaluate_checks guidance blocked)
evaluate_checks-AreHelpful_example = evaluate_checks-AreHelpful guidance blocked

abbrev addresses : List UnmanagedAddress
addresses =
    record { address = "/dns4/a.example/tcp/443/wss"; status = dialed; error = none }
    ∷ record { address = "/dns4/b.example/tcp/443/wss"; status = failed; error = some "refused" }
    ∷ []

browser_address_check-ok_iff_example :
    status_of (browser_address_check addresses) ≡ some ok
    ↔ (is_none addresses ≡ false) × (every (is_of dialed) addresses ≡ true)
browser_address_check-ok_iff_example = browser_address_check-ok_iff addresses

node-is_valid_domain : is_valid_domain "node-1.example" ≡ true
unfolding is_valid_domain has_dot are_labels is_label is_last_label ends_alphanumeric is_label_char
    is_alphanumeric is_letter split_on
node-is_valid_domain = refl

is_valid_domain-HostChars_example : All (λ c. is_host_char c ≡ true) (codes "node-1.example")
is_valid_domain-HostChars_example = is_valid_domain-HostChars "node-1.example" node-is_valid_domain
