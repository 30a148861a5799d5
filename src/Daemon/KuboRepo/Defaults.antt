-- ===== src/Daemon/KuboRepo/Defaults.antt =====
-- src/ipfs/startIpfs.ts: `mergeCliDefaultsIntoIpfsConfig`, on a config that kubo has just made. As before, `none` stands for
-- the spread of a text or a list.
use bitsocial_cli.Common.{
  String, ◌<>◌, Bool, true, false, ◌&&◌, ◌≡◌, refl, Option, none, some, List, [], ◌∷◌, contains,
  distinct, str_eq, if◌then◌else◌, ◌>>=◌, arith, Option-cases, Bool-cases, inl, inr,
}
use bitsocial_cli.Json.{
  Json, undefined, bool, str, arr, obj, nil, cons, Fields, end, field, get, get_in, set,
}
use bitsocial_cli.Reachability.KuboConfig.Defs.{spread, is_false}
use bitsocial_cli.Daemon.KuboRepo.Settled.{get-set_self, get-set_ne}

-- The parts of a URL that are written.
pub record HostUrl : Type 0 where
  pub hostname : String
  pub port : String

-- What is spread of a gateway, which is nothing where it is no object.
unfoldable pub object_fields : Json → Option Fields
object_fields (obj f) = some f
object_fields (arr xs) = none
object_fields _ = some end

unfoldable pub subdomains_off : Fields → Option Fields
subdomains_off end = some end
subdomains_off (field hostname gateway gateways) =
    let rest = subdomains_off gateways in
    object_fields gateway >>= λ g.
    (rest >>= λ others. some (field hostname (obj (set "UseSubdomains" (bool false) g)) others))

unfoldable pub paths_or_default : Json → Json
paths_or_default (arr (cons path paths)) = arr (cons path paths)
paths_or_default _ = arr (cons (str "/ipfs/") (cons (str "/ipns/") nil))

unfoldable pub dns_link_or_default : Json → Json
dns_link_or_default undefined = bool false
dns_link_or_default v = v

-- A gateway is an object here, or missing.
unfoldable pub fields_or_empty : Json → Fields
fields_or_empty (obj f) = f
fields_or_empty _ = end

unfoldable pub default_gateway : Fields → Json
default_gateway g = obj (
    set "Paths" (paths_or_default (get "Paths" g)) (
      set "UseSubdomains" (bool false)
        (set "InlineDNSLink" (dns_link_or_default (get "InlineDNSLink" g)) g)))

unfoldable pub add_defaults : List String → Fields → Fields
add_defaults [] gateways = gateways
add_defaults (hostname ∷ hostnames) gateways =
    let added = set hostname (default_gateway (fields_or_empty (get hostname gateways))) gateways in
    add_defaults hostnames (if str_eq hostname "" then gateways else added)

unfoldable pub hostnames_for_defaults : HostUrl → List String
hostnames_for_defaults gateway =
    let canonical : String =
      if contains gateway.hostname ":" then "[" <> gateway.hostname <> "]" else gateway.hostname in
    distinct (canonical ∷ "localhost" ∷ "127.0.0.1" ∷ "[::1]" ∷ [])

unfoldable pub tcp_address : HostUrl → Json
tcp_address url = str ("/ip4/" <> url.hostname <> "/tcp/" <> url.port)

unfoldable pub with_sections :
    HostUrl → HostUrl → Fields → Fields → Fields → Fields → Fields → Fields
with_sections api gateway addresses auto_tls gateway_config gateways config =
    set "Gateway" (obj (set "PublicGateways" (obj gateways) gateway_config)) (
      set "AutoTLS" (obj (set "Enabled" (bool true) auto_tls)) (
        set "Addresses"
          (obj (set "API" (tcp_address api) (set "Gateway" (tcp_address gateway) addresses)))
          config))

unfoldable pub merge_cli_defaults : HostUrl → HostUrl → Fields → Option Fields
merge_cli_defaults api gateway config = spread (get "Gateway" config) >>= λ gateway_config.
    (spread (get "PublicGateways" gateway_config) >>= λ existing.
    (subdomains_off existing >>= λ gateways.
    (spread (get "Addresses" config) >>= λ addresses.
    (spread (get "AutoTLS" config) >>= λ auto_tls. some (
      with_sections api gateway addresses auto_tls gateway_config
        (add_defaults (hostnames_for_defaults gateway) gateways) config)))))

-- No gateway of the list uses subdomains.
abbrev uses_paths : Fields → Bool
uses_paths end = true
uses_paths (field hostname gateway gateways) =
    is_false (get_in "UseSubdomains" gateway) && uses_paths gateways

off :
    (g : Fields)
    → is_false (get_in "UseSubdomains" (obj (set "UseSubdomains" (bool false) g))) ≡ true
unfolding get_in
off g = rw (get-set_self "UseSubdomains" (bool false) g) refl

default_gateway-off : (g : Fields) → is_false (get_in "UseSubdomains" (default_gateway g)) ≡ true
unfolding get_in default_gateway
default_gateway-off g =
    let linked = set "InlineDNSLink" (dns_link_or_default (get "InlineDNSLink" g)) g in
    rw
      (
        get-set_ne "UseSubdomains" "Paths" (paths_or_default (get "Paths" g))
            (set "UseSubdomains" (bool false) linked) refl,
        get-set_self "UseSubdomains" (bool false) linked,
      )
      refl

subdomains_off-uses_paths :
    (existing gateways : Fields)
    → subdomains_off existing ≡ some gateways
    → uses_paths gateways ≡ true
unfolding subdomains_off
subdomains_off-uses_paths end gateways done = ground arith
subdomains_off-uses_paths (field hostname gateway rest) gateways done =
    elim (Option-cases (object_fields gateway)) [
      | inl e ↦ ground arith
      | inr (g, e) ↦ elim (Option-cases (subdomains_off rest)) [
        | inl f ↦ ground arith
        | inr (others, f) ↦ ground (arith, off g, subdomains_off-uses_paths rest others f)
      ]
    ]

set-uses_paths :
    (hostname : String) (gateway : Json) (gateways : Fields)
    → is_false (get_in "UseSubdomains" gateway) ≡ true
    → uses_paths gateways ≡ true
    → uses_paths (set hostname gateway gateways) ≡ true
unfolding set
set-uses_paths hostname gateway end o h = ground arith
set-uses_paths hostname gateway (field j w f) o h =
    ground (arith, set-uses_paths hostname gateway f o)

add_defaults-uses_paths :
    (hostnames : List String) (gateways : Fields)
    → uses_paths gateways ≡ true
    → uses_paths (add_defaults hostnames gateways) ≡ true
unfolding add_defaults
add_defaults-uses_paths [] gateways h = h
add_defaults-uses_paths (hostname ∷ hostnames) gateways h =
    let added = set hostname (default_gateway (fields_or_empty (get hostname gateways))) gateways in
    add_defaults-uses_paths hostnames (if str_eq hostname "" then gateways else added)
      (elim (Bool-cases (str_eq hostname "")) [
        | inl e ↦ rw e h
        | inr e ↦ rw e (
            set-uses_paths hostname (default_gateway (fields_or_empty (get hostname gateways)))
              gateways (default_gateway-off (fields_or_empty (get hostname gateways))) h)
      ])

with_sections-gateways :
    (api gateway : HostUrl) (addresses auto_tls gateway_config gateways config : Fields)
    → get_in "PublicGateways" (
        get "Gateway" (with_sections api gateway addresses auto_tls gateway_config gateways config))
      ≡ obj gateways
unfolding with_sections get_in
with_sections-gateways api gateway addresses auto_tls gateway_config gateways config =
    rw
      (
        get-set_self "Gateway" (obj (set "PublicGateways" (obj gateways) gateway_config)) (
            set "AutoTLS" (obj (set "Enabled" (bool true) auto_tls)) (
              set "Addresses"
                (obj (set "API" (tcp_address api) (set "Gateway" (tcp_address gateway) addresses)))
                config)),
        get-set_self "PublicGateways" (obj gateways) gateway_config,
      )
      refl

-- In a config that kubo has just made, no public gateway uses subdomains after the defaults are merged into it.
merge_cli_defaults-uses_paths :
    (api gateway : HostUrl) (config result : Fields)
    → merge_cli_defaults api gateway config ≡ some result
    → uses_paths (fields_or_empty (get_in "PublicGateways" (get "Gateway" result))) ≡ true
unfolding merge_cli_defaults fields_or_empty
merge_cli_defaults-uses_paths api gateway config result done =
    elim (Option-cases (spread (get "Gateway" config))) [
      | inl e ↦ ground arith
      | inr (gc, e) ↦ elim (Option-cases (spread (get "PublicGateways" gc))) [
        | inl f ↦ ground arith
        | inr (existing, f) ↦ elim (Option-cases (subdomains_off existing)) [
          | inl g ↦ ground arith
          | inr (gs, g) ↦ elim (Option-cases (spread (get "Addresses" config))) [
            | inl h ↦ ground arith
            | inr (a, h) ↦ elim (Option-cases (spread (get "AutoTLS" config))) [
              | inl i ↦ ground arith
              | inr (t, i) ↦
                  let merged = add_defaults (hostnames_for_defaults gateway) gs in
                  let sections = with_sections-gateways api gateway a t gc merged config in
                  let off_in =
                    add_defaults-uses_paths (hostnames_for_defaults gateway) gs
                      (subdomains_off-uses_paths existing gs g) in
                  ground (arith, sections, off_in)
            ]
          ]
        ]
      ]
    ]
