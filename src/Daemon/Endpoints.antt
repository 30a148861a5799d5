-- ===== src/Daemon/Endpoints.antt =====
-- src/util.ts: the addresses at which kubo's config says that kubo listens, the URL that is dialled for them, and
-- `describeKuboEndpointMismatch`. The multiaddr package, URL and Number are
-- parameters: `http_url host port path` is `new URL` of `http://`, the host, a colon, the port and the path.
pub mod Agreement
use Prim.Native.Char.{code}
use bitsocial_cli.Common.{
  ℕ, String, ◌<>◌, Bool, true, false, not, ◌&&◌, ◌||◌, Option, none, some, List, [], ◌∷◌, any,
  includes, ◌==◌, contains, decimal, or_default, str_eq, if◌then◌else◌, ◌>>=◌,
}
use bitsocial_cli.Json.{Json, undefined, null, bool, num, str, arr, obj, Items, nil, cons, get_in}

pub record Component : Type 0 where
  pub name : String
  pub value : Option String

pub record HostPort : Type 0 where
  pub host : String
  pub port : ℕ

-- What is read of a URL, and its text. Its port is none where the text of the port is empty, as it is for the default.
pub record Url : Type 0 where
  pub protocol : String
  pub hostname : String
  pub port : Option ℕ
  pub href : String

unfoldable pub find_component : List String → List Component → Option Component
find_component names [] = none
find_component names (c ∷ cs) =
    let later = find_component names cs in if includes c.name names then some c else later

unfoldable pub host_components : List String
host_components = "ip4" ∷ "ip6" ∷ "dns" ∷ "dns4" ∷ "dns6" ∷ "dnsaddr" ∷ []

-- A text before a final bracket.
unfoldable pub before_close : String → Option String
before_close String.[] = none
before_close (String.◌∷◌ c s) =
    let rest = before_close s in
    elim rest [
      | some before ↦ some (String.◌∷◌ c before)
      | none ↦ if (code c == b']') && str_eq s "" then some "" else none
    ]

unfoldable pub opens_bracket : String → Bool
opens_bracket String.[] = false
opens_bracket (String.◌∷◌ c s) = code c == b'['

unfoldable pub strip_brackets : String → String
strip_brackets String.[] = ""
strip_brackets (String.◌∷◌ c s) =
    if code c == b'[' then or_default (before_close s) (String.◌∷◌ c s) else String.◌∷◌ c s

unfoldable pub host_for_url : String → String
host_for_url host =
    if contains host ":" && not (opens_bracket host) then "[" <> (host <> "]") else host

unfoldable pub to_connectable_hostname : String → String
to_connectable_hostname hostname =
    let bare = strip_brackets hostname in
    if str_eq bare "0.0.0.0" then "127.0.0.1" else if str_eq bare "::" then "::1" else bare

unfoldable pub is_wildcard_bind : String → Bool
is_wildcard_bind host = str_eq host "0.0.0.0" || str_eq host "::"

unfoldable pub is_loopback_literal : String → Bool
is_loopback_literal host = str_eq host "127.0.0.1" || str_eq host "::1"

unfoldable pub same_connectable_host : String → String → Bool
same_connectable_host a b =
    str_eq a b
    || (str_eq a "localhost" && is_loopback_literal b)
    || (str_eq b "localhost" && is_loopback_literal a)

-- `Array.isArray(addresses) ? addresses : [addresses]`
unfoldable pub entries_of : Json → Items
entries_of (arr entries) = entries
entries_of addresses = cons addresses nil

-- An entry that is a text and not empty.
unfoldable pub text_of : Json → Option String
text_of (str s) = if str_eq s "" then none else some s
text_of _ = none

unfoldable pub host_of : Component → Option String
host_of component = component.value >>= λ host. if str_eq host "" then none else some host

unfoldable pub no_listener : List HostPort → Bool
no_listener [] = true
no_listener (listener ∷ listeners) = false

unfoldable pub url_port : Url → ℕ
url_port url = or_default url.port (if str_eq url.protocol "https:" then 443 else 80)

unfoldable pub is_port : Url → ℕ → Bool
is_port chosen port = port == url_port chosen

unfoldable pub is_reached : Url → HostPort → Bool
is_reached chosen listener =
    is_port chosen listener.port
    && (is_wildcard_bind listener.host
        || same_connectable_host listener.host (to_connectable_hostname chosen.hostname))

module _ (number : String → Option ℕ) where
  -- No port is none, and 0 is too.
  unfoldable pub port_of : Component → Option ℕ
  port_of component = component.value >>= λ text.
      (if str_eq text ""
        then none
        else (number text >>= λ port. if port == 0 then none else some port))

  unfoldable pub multi_addr_to_host_port : List Component → Option HostPort
  multi_addr_to_host_port components =
      find_component host_components components >>= host_of >>= λ host.
      (find_component ("tcp" ∷ []) components >>= port_of >>= λ port.
      some (record { host = host; port = port }))

module _ (number : String → Option ℕ) (multiaddr : String → Option (List Component))
    (new_url : String → Option Url) (http_url : String → ℕ → String → Option Url) where
  unfoldable pub listener_of : Json → Option HostPort
  listener_of entry = text_of entry >>= multiaddr >>= multi_addr_to_host_port number

  unfoldable pub dialed_url : String → HostPort → Option Url
  dialed_url path listener =
      http_url (host_for_url (to_connectable_hostname listener.host)) listener.port path

  -- `path` is what of the URL follows the port. An entry that throws is skipped.
  unfoldable pub first_usable : String → Items → Option Url
  first_usable path nil = none
  first_usable path (cons entry entries) =
      let later = first_usable path entries in
      elim (listener_of entry >>= dialed_url path) [ some url ↦ some url | none ↦ later ]

  unfoldable pub kubo_rpc_url_from_kubo_config : Json → Option Url
  kubo_rpc_url_from_kubo_config config =
      first_usable "/api/v0" (entries_of (get_in "API" (get_in "Addresses" config)))

  unfoldable pub ipfs_gateway_url_from_kubo_config : Json → Option Url
  ipfs_gateway_url_from_kubo_config config =
      first_usable "" (entries_of (get_in "Gateway" (get_in "Addresses" config)))

  -- `none` is an exception: the variable holds no URL.
  unfoldable pub resolve_kubo_rpc_url : Json → Option String → Url → Option Url
  resolve_kubo_rpc_url config none fallback =
      some (or_default (kubo_rpc_url_from_kubo_config config) fallback)
  resolve_kubo_rpc_url config (some value) fallback =
      if str_eq value ""
      then some (or_default (kubo_rpc_url_from_kubo_config config) fallback)
      else new_url value

  unfoldable pub listeners_of : Items → List HostPort
  listeners_of nil = []
  listeners_of (cons entry entries) =
      let later = listeners_of entries in
      elim (listener_of entry) [ some listener ↦ listener ∷ later | none ↦ later ]

  -- `is_ip` is `net.isIP`; `warning` builds the warning from the URL's text and the configured value.
  unfoldable pub describe_kubo_endpoint_mismatch :
      (String → Bool) → (String → Json → String) → Json → Url → Option String
  describe_kubo_endpoint_mismatch is_ip warning configured chosen =
      let listeners = listeners_of (entries_of configured) in
      let host = to_connectable_hostname chosen.hostname in
      if no_listener listeners
      then none
      else if not (str_eq host "localhost") && not (is_ip host)
      then none
      else if str_eq chosen.protocol "http:" && any (is_reached chosen) listeners
      then none
      else some (warning chosen.href configured)
