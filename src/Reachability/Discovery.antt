-- ===== src/Reachability/Discovery.antt =====
-- src/reachability/discovery.ts: addresses and ports. Node's `net`, the `multiaddr` package and what commands
-- print are parameters.
use bitsocial_cli.Common.{
  ℕ, String, ◌<>◌, Bool, true, false, not, ◌&&◌, ◌||◌, ◌≡◌, Option, none, some, List, [], ◌∷◌, ◌++◌,
  map, keep, any, includes, str_eq, starts_with, contains, distinct, decimal, if◌then◌else◌, arith,
  ◌↔◌,
}

-- `in_subnet network prefix a` is a `BlockList` of one subnet, asked for a; `ip_of` the first ip4 or ip6
-- component of a multiaddr, `none` if it does not parse or has none.
pub record Internet : Type 0 where
  pub is_ipv4 : String → Bool
  pub is_ipv6 : String → Bool
  pub in_subnet : String → ℕ → String → Bool
  pub ip_of : String → Option String

pub record Subnet : Type 0 where
  pub network : String
  pub prefix : ℕ

unfoldable pub subnet : String → ℕ → Subnet
subnet network prefix = record { network = network; prefix = prefix }

unfoldable pub non_public_v4 : List Subnet
non_public_v4 =
    subnet "0.0.0.0" 8
    ∷ subnet "10.0.0.0" 8
    ∷ subnet "100.64.0.0" 10
    ∷ subnet "127.0.0.0" 8
    ∷ subnet "169.254.0.0" 16
    ∷ subnet "172.16.0.0" 12
    ∷ subnet "192.0.0.0" 24
    ∷ subnet "192.0.2.0" 24
    ∷ subnet "192.168.0.0" 16
    ∷ subnet "198.18.0.0" 15
    ∷ subnet "198.51.100.0" 24
    ∷ subnet "203.0.113.0" 24
    ∷ subnet "224.0.0.0" 4
    ∷ subnet "240.0.0.0" 4
    ∷ []

unfoldable pub global_v6 : Subnet
global_v6 = subnet "2000::" 3

unfoldable pub documentation_v6 : Subnet
documentation_v6 = subnet "2001:db8::" 32

pub data Family : Type 0 where
  ipv4 : Family
  ipv6 : Family

unfoldable pub is_v4 : Family → Bool
is_v4 ipv4 = true
is_v4 ipv6 = false

-- An entry of `os.networkInterfaces()`
pub record NetworkInterface : Type 0 where
  pub address : String
  pub internal : Bool
  pub family : Family

-- The first element that fits.
unfoldable pub find_interface :
    (NetworkInterface → Bool) → List NetworkInterface → Option NetworkInterface
find_interface p [] = none
find_interface p (x ∷ xs) = if p x then some x else find_interface p xs

module _ (net : Internet) where
  unfoldable pub blocks : List Subnet → String → Bool
  blocks subnets ip = any (λ s. net.in_subnet s.network s.prefix ip) subnets

  unfoldable pub is_public_ip : String → Bool
  is_public_ip ip =
      if net.is_ipv4 ip
      then not (blocks non_public_v4 ip)
      else if net.is_ipv6 ip
      then blocks (global_v6 ∷ []) ip && not (blocks (documentation_v6 ∷ []) ip)
      else false

  unfoldable pub is_cgnat_ip : String → Bool
  is_cgnat_ip ip = if not (net.is_ipv4 ip) then false else blocks (subnet "100.64.0.0" 10 ∷ []) ip

  unfoldable pub is_public_interface : NetworkInterface → Bool
  is_public_interface info = not info.internal && is_public_ip info.address

  unfoldable pub public_ips_from_interfaces : List NetworkInterface → List String
  public_ips_from_interfaces infos =
      distinct (map (λ (info : NetworkInterface). info.address) (keep is_public_interface infos))

  unfoldable pub is_lan_ipv4 : NetworkInterface → Bool
  is_lan_ipv4 info = not info.internal && is_v4 info.family && not (is_public_ip info.address)

  unfoldable pub lan_ipv4_from_interfaces : List NetworkInterface → Option String
  lan_ipv4_from_interfaces infos = elim (find_interface is_lan_ipv4 infos) [
    | none ↦ none
    | some info ↦ some info.address
  ]

  -- `ips.add(host)` of a multiaddr's host, if it is public.
  unfoldable pub add_public_ip : List String → Option String → List String
  add_public_ip ips none = ips
  add_public_ip ips (some host) =
      if is_public_ip host && not (includes host ips) then ips ++ (host ∷ []) else ips

  -- The loop over the addresses; `without_peer_id` is the `replace` of its regular expression.
  unfoldable pub collect_public_ips :
      (String → String) → List String → List String → List String → List String
  collect_public_ips without_peer_id own ips [] = ips
  collect_public_ips without_peer_id own ips (a ∷ as') =
      let added = add_public_ip ips (net.ip_of a) in
      collect_public_ips without_peer_id own
        (if includes (without_peer_id a) own then ips else added) as'

  unfoldable pub public_ips_from_multiaddrs :
      (String → String) → List String → List String → List String
  public_ips_from_multiaddrs without_peer_id addresses own_announce =
      collect_public_ips without_peer_id own_announce [] addresses

unfoldable pub local_ips_from_interfaces : List NetworkInterface → List String
local_ips_from_interfaces infos = map (λ (info : NetworkInterface). info.address) infos

-- A `readFile` that fails is `none`; `says_container` is the test of the cgroup file.
unfoldable pub detect_container : Bool → Option String → Option String → (String → Bool) → Bool
detect_container is_linux dockerenv cgroup says_container =
    if not is_linux then false else elim dockerenv [
      | some _ ↦ true
      | none ↦ elim cgroup [ some text ↦ says_container text | none ↦ false ]
    ]

pub data PortState : Type 0 where
  free : PortState
  busy : PortState
  no_permission : PortState

unfoldable pub same_state : PortState → PortState → Bool
same_state free free = true
same_state busy busy = true
same_state no_permission no_permission = true
same_state _ _ = false

-- What the attempt to bind comes to: `none` is success, otherwise the error's code.
unfoldable pub bind_state : Option String → PortState
bind_state none = free
bind_state (some code) =
    if str_eq code "EADDRNOTAVAIL" || str_eq code "EAFNOSUPPORT"
    then free
    else if str_eq code "EACCES"
    then no_permission
    else busy

unfoldable pub worst_port_state : List PortState → PortState
worst_port_state states =
    if any (same_state busy) states
    then busy
    else if any (same_state no_permission) states
    then no_permission
    else free

-- `bind` and `accepts` are what the two probes of a host answer.
unfoldable pub probe_tcp_port :
    (String → Option String) → (String → Bool) → (String → String) → Option String → PortState
probe_tcp_port bind accepts to_connectable host =
    let hosts : List String = elim host [ none ↦ "0.0.0.0" ∷ "::" ∷ [] | some h ↦ h ∷ [] ] in
    let loopbacks : List String = elim host [
      | none ↦ "127.0.0.1" ∷ "::1" ∷ []
      | some h ↦ to_connectable h ∷ []
    ] in
    worst_port_state
      (map (λ h. bind_state (bind h)) hosts ++ map (λ h. busy) (keep accepts loopbacks))

unfoldable pub is_tcp_port_free :
    (String → Option String) → (String → Bool) → (String → String) → String → Bool
is_tcp_port_free bind accepts to_connectable host =
    same_state (probe_tcp_port bind accepts to_connectable (some host)) free

pub data PortHolder : Type 0 where
  nginx : PortHolder
  apache : PortHolder
  caddy : PortHolder
  iis : PortHolder
  other : PortHolder

unfoldable pub classify_port_holder : (String → String) → Option String → Option PortHolder
classify_port_holder to_lower none = none
classify_port_holder to_lower (some process_name) =
    let name = to_lower process_name in
    if str_eq process_name ""
    then none
    else if contains name "nginx"
    then some nginx
    else if contains name "apache" || contains name "httpd"
    then some apache
    else if contains name "caddy"
    then some caddy
    else if str_eq name "system" || contains name "w3wp" || contains name "http.sys"
    then some iis
    else some other

-- The columns of the lines of `netstat`.
unfoldable pub parse_netstat_pid : (String → String → Bool) → List (List String) → ℕ → Option String
parse_netstat_pid ends [] port = none
parse_netstat_pid ends ((protocol ∷ local ∷ remote ∷ state ∷ columns) ∷ lines) port =
    let rest = parse_netstat_pid ends lines port in
    if str_eq protocol "TCP" && ends local (":" <> decimal port) && str_eq state "LISTENING"
    then elim columns [ [] ↦ none | pid ∷ more ↦ some pid ]
    else rest
parse_netstat_pid ends (_ ∷ lines) port = parse_netstat_pid ends lines port

pub record Autonat : Type 0 where
  pub reachable : List String
  pub unreachable : List String
  pub unknown : List String

unfoldable pub is_announced : List String → String → Bool
is_announced announced address =
    any (λ entry. str_eq entry address || starts_with entry (address <> "/p2p/")) announced

unfoldable pub addresses_not_announced : List String → List String → List String
addresses_not_announced expected announced =
    keep (λ address. not (is_announced announced address)) expected

-- A port counts as free just when both families can bind it, or do not exist, and nothing accepts a
-- connection on either loopback address: a bind that succeeds is not believed alone.
pub probe_tcp_port-free_iff :
    (bind : String → Option String) (accepts : String → Bool) (to_connectable : String → String)
    → probe_tcp_port bind accepts to_connectable none ≡ free
      ↔ (bind_state (bind "0.0.0.0") ≡ free)
        × (bind_state (bind "::") ≡ free)
        × (accepts "127.0.0.1" ≡ false)
        × (accepts "::1" ≡ false)
unfolding probe_tcp_port worst_port_state same_state
probe_tcp_port-free_iff bind accepts to_connectable = ground arith
