-- ===== src/Daemon/Endpoints/Agreement.antt =====
-- src/util.ts: the endpoint that is chosen from kubo's config is one at which kubo listens.
use Prim.Native.Char.{code}
use text.Mathlib.TextLemmas.{cons-append, nil-append}
use bitsocial_cli.Common.{
  ℕ, String, ◌<>◌, Bool, true, false, ◌&&◌, ◌||◌, ◌≡◌, refl, ap, ◌∙◌, Option, none, some, List, [],
  ◌∷◌, any, ◌==◌, contains, str_eq, eq_iff, eq_refl, arith, Option-cases, Bool-cases, ==_self, inl,
  inr,
}
use bitsocial_cli.Json.{Json, Items, nil, cons, get_in}
use bitsocial_cli.Daemon.Endpoints.{
  Component, HostPort, Url, before_close, opens_bracket, strip_brackets, host_for_url,
  to_connectable_hostname, is_wildcard_bind, same_connectable_host, entries_of, listener_of,
  dialed_url, first_usable, kubo_rpc_url_from_kubo_config, url_port, listeners_of, is_port,
  is_reached, describe_kubo_endpoint_mismatch,
}

before_close-append : (s : String) → before_close (s <> "]") ≡ some s
unfolding before_close
before_close-append String.[] = refl
before_close-append (String.◌∷◌ c s) =
    rw (cons-append c s "]") (rw (before_close-append s, before_close) refl)

strip_brackets-around : (s : String) → strip_brackets ("[" <> (s <> "]")) ≡ s
unfolding strip_brackets
strip_brackets-around s =
    rw (cons-append "[" "" (s <> "]"), nil-append (s <> "]"), strip_brackets, before_close-append s)
      refl

strip_brackets-bare : (s : String) → opens_bracket s ≡ false → strip_brackets s ≡ s
unfolding strip_brackets opens_bracket
strip_brackets-bare String.[] h = refl
strip_brackets-bare (String.◌∷◌ c s) h = rw h refl

-- The host of a URL, without brackets.
strip_brackets-host_for_url :
    (h : String) → opens_bracket h ≡ false → strip_brackets (host_for_url h) ≡ h
unfolding host_for_url
strip_brackets-host_for_url h bare = elim (Bool-cases (contains h ":")) [
  | inl e ↦ rw (e, bare) (strip_brackets-around h)
  | inr e ↦ rw e (strip_brackets-bare h bare)
]

connectable-plain :
    (h x : String)
    → strip_brackets x ≡ h
    → str_eq h "0.0.0.0" ≡ false
    → str_eq h "::" ≡ false
    → to_connectable_hostname x ≡ h
unfolding to_connectable_hostname
connectable-plain h x s e f = rw (s, e, f) refl

connectable-other :
    (h : String)
    → opens_bracket h ≡ false
    → str_eq h "0.0.0.0" ≡ false
    → str_eq h "::" ≡ false
    → to_connectable_hostname (host_for_url (to_connectable_hostname h)) ≡ to_connectable_hostname h
connectable-other h bare e f =
    rw (connectable-plain h h (strip_brackets-bare h bare) e f)
      (connectable-plain h (host_for_url h) (strip_brackets-host_for_url h bare) e f)

-- What of a URL is dialled is the host that it was built from, if that is to be dialled itself.
connectable-host_for_url :
    (h : String)
    → opens_bracket h ≡ false
    → to_connectable_hostname (host_for_url (to_connectable_hostname h)) ≡ to_connectable_hostname h
unfolding to_connectable_hostname strip_brackets host_for_url opens_bracket before_close
connectable-host_for_url h bare = elim (Bool-cases (str_eq h "0.0.0.0")) [
  | inl e ↦ rw ((eq_iff h "0.0.0.0").0 e) refl
  | inr e ↦ elim (Bool-cases (str_eq h "::")) [
    | inl f ↦ rw ((eq_iff h "::").0 f) refl
    | inr f ↦ connectable-other h bare e f
  ]
]

-- A listener is reached at what is dialled for it.
dialed_host :
    (h : String)
    → opens_bracket h ≡ false
    → is_wildcard_bind h || same_connectable_host h (to_connectable_hostname h) ≡ true
unfolding to_connectable_hostname is_wildcard_bind same_connectable_host
dialed_host h bare = ground (arith, strip_brackets-bare h bare, eq_refl h)

-- What can follow a port.
abbrev pub is_path : String → Bool
is_path String.[] = true
is_path (String.◌∷◌ c s) = code c == b'/'

-- What is relied on of URL: one built for a host that is written canonically keeps it, the scheme and the port. A host
-- that begins with a bracket is not canonical, and the loopback addresses are.
pub record IsUrl (http_url : String → ℕ → String → Option Url) (is_canonical : String → Bool)
    : Type 0 where
  pub bare : (h : String) → is_canonical h ≡ true → opens_bracket h ≡ false
  pub ipv4_loopback : is_canonical "127.0.0.1" ≡ true
  pub ipv6_loopback : is_canonical "::1" ≡ true
  pub keeps :
      (h path : String) (port : ℕ) (url : Url)
      → is_canonical h ≡ true
      → is_path path ≡ true
      → http_url (host_for_url h) port path ≡ some url
      → (url.protocol ≡ "http:") × (url.hostname ≡ host_for_url h) × (url_port url ≡ port)

abbrev pub are_canonical : (String → Bool) → List HostPort → Bool
are_canonical is_canonical [] = true
are_canonical is_canonical (l ∷ ls) = is_canonical l.host && are_canonical is_canonical ls

module _ (number : String → Option ℕ) (multiaddr : String → Option (List Component))
    (new_url : String → Option Url) (http_url : String → ℕ → String → Option Url)
    (is_canonical : String → Bool) (urls : IsUrl http_url is_canonical) where
  connectable-canonical :
      (h : String) → is_canonical h ≡ true → is_canonical (to_connectable_hostname h) ≡ true
  unfolding to_connectable_hostname
  connectable-canonical h c =
      ground (arith, urls.ipv4_loopback, urls.ipv6_loopback, strip_brackets-bare h (urls.bare h c))

  is_reached-at :
      (url : Url) (listener : HostPort)
      → url_port url ≡ listener.port
      → to_connectable_hostname url.hostname ≡ to_connectable_hostname listener.host
      → opens_bracket listener.host ≡ false
      → is_reached url listener ≡ true
  unfolding is_reached is_port
  is_reached-at url listener port host bare =
      ground (arith, ==_self listener.port, dialed_host listener.host bare)

  dialed_url-is_reached :
      (path : String) (listener : HostPort) (url : Url)
      → is_canonical listener.host ≡ true
      → is_path path ≡ true
      → dialed_url number multiaddr new_url http_url path listener ≡ some url
      → (url.protocol ≡ "http:") × (is_reached url listener ≡ true)
  unfolding dialed_url
  dialed_url-is_reached path listener url c p done =
      let h = to_connectable_hostname listener.host in
      let d = connectable-canonical listener.host c in
      let bare = urls.bare listener.host c in
      let (protocol, hostname, port) = urls.keeps h path listener.port url d p done in
      (
        protocol,
        is_reached-at url listener port
            (ap to_connectable_hostname hostname ∙ connectable-host_for_url listener.host bare)
            bare,
      )

  first_usable-reached :
      (path : String) (entries : Items) (url : Url)
      → are_canonical is_canonical (listeners_of number multiaddr new_url http_url entries) ≡ true
      → is_path path ≡ true
      → first_usable number multiaddr new_url http_url path entries ≡ some url
      → (url.protocol ≡ "http:")
        × (any (is_reached url) (listeners_of number multiaddr new_url http_url entries) ≡ true)
  unfolding first_usable listeners_of
  first_usable-reached path nil url c p done = ground arith
  first_usable-reached path (cons entry entries) url c p done =
      let rest = first_usable-reached path entries url in
      elim (Option-cases (listener_of number multiaddr new_url http_url entry)) [
        | inl e ↦ ground (arith, rest)
        | inr (l, e) ↦ elim (Option-cases (dialed_url number multiaddr new_url http_url path l)) [
          | inl f ↦ ground (arith, rest)
          | inr (u, f) ↦ ground (arith, dialed_url-is_reached path l u)
        ]
      ]

  -- Where URL is as documented and the addresses of kubo's config name hosts canonically, the endpoint that is taken
  -- from them, of the API or of the gateway, gives no warning against them, whichever entries cannot be used.
  pub describe_kubo_endpoint_mismatch-first_usable :
      (is_ip : String → Bool) (warning : String → Json → String) (path : String) (configured : Json)
      (url : Url)
      → are_canonical is_canonical
          (listeners_of number multiaddr new_url http_url (entries_of configured))
        ≡ true
      → is_path path ≡ true
      → first_usable number multiaddr new_url http_url path (entries_of configured) ≡ some url
      → describe_kubo_endpoint_mismatch number multiaddr new_url http_url is_ip warning configured
          url
        ≡ none
  unfolding describe_kubo_endpoint_mismatch
  describe_kubo_endpoint_mismatch-first_usable is_ip warning path configured url c p done =
      let reached = first_usable-reached path (entries_of configured) url c p done in
      ground (arith, reached.1, (eq_iff url.protocol "http:").1 reached.0)

  -- So does the RPC endpoint of a config.
  kubo_rpc_url-agrees :
      (is_ip : String → Bool) (warning : String → Json → String) (config : Json) (url : Url)
      → are_canonical is_canonical (
          listeners_of number multiaddr new_url http_url
            (entries_of (get_in "API" (get_in "Addresses" config))))
        ≡ true
      → kubo_rpc_url_from_kubo_config number multiaddr new_url http_url config ≡ some url
      → describe_kubo_endpoint_mismatch number multiaddr new_url http_url is_ip warning
          (get_in "API" (get_in "Addresses" config))
          url
        ≡ none
  unfolding kubo_rpc_url_from_kubo_config
  kubo_rpc_url-agrees is_ip warning config url c done =
      describe_kubo_endpoint_mismatch-first_usable is_ip warning "/api/v0"
        (get_in "API" (get_in "Addresses" config)) url c refl done
