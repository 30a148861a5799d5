-- ===== src/Reachability/Caddyfile.antt =====
-- src/reachability/caddy.ts: the Caddyfile. Node's `net` is a parameter.
use Prim.Native.Char.{code}
use bitsocial_cli.Common.{
  ℕ, ◌+◌, String, ◌<>◌, Bool, true, false, not, ◌&&◌, ◌||◌, Option, none, some, List, [], ◌∷◌, ◌++◌,
  map, any, every, length, codes, decimal, str_eq, join_with, split_on, if◌then◌else◌, leb, ◌==◌,
  ◌>>=◌,
}
use bitsocial_cli.Reachability.Discovery.{Internet}
use bitsocial_cli.Reachability.Hostnames.{is_valid_domain}

pub record CaddyfileSpec : Type 0 where
  pub ips : List String
  pub domains : List String
  pub ws_port : ℕ
  pub admin_port : ℕ
  pub data_directory : String
  pub acme_directory : String
  pub https_port : Option ℕ
  pub http_port : Option ℕ
  pub acme_trusted_roots_path : Option String

-- `assertPort` does not throw.
unfoldable pub is_port : ℕ → Bool
is_port port = leb 1 port && leb port 65535

unfoldable pub is_optional_port : Option ℕ → Bool
is_optional_port none = true
is_optional_port (some port) = is_port port

unfoldable pub is_quotable : List ℕ → Bool
is_quotable cs = every (λ c. not ((c == 34) || (c == 13) || (c == 10))) cs

-- `replaceAll("\\", "/")`
unfoldable pub forward_slashes : String → String
forward_slashes String.[] = ""
forward_slashes (String.◌∷◌ c s) =
    let rest = forward_slashes s in if code c == 92 then String.◌∷◌ "/" rest else String.◌∷◌ c rest

-- `none` is the exception.
unfoldable pub quoted_path : String → Option String
quoted_path value =
    if is_quotable (codes value) then some ("\"" <> forward_slashes value <> "\"") else none

unfoldable pub is_valid_spec : Internet → CaddyfileSpec → Bool
is_valid_spec net spec =
    is_port spec.ws_port
    && is_port spec.admin_port
    && every (λ ip. net.is_ipv4 ip || net.is_ipv6 ip) spec.ips
    && every is_valid_domain spec.domains
    && is_optional_port spec.https_port
    && is_optional_port spec.http_port

unfoldable pub find_ip : (String → Bool) → List String → Option String
find_ip p [] = none
find_ip p (ip ∷ ips) = if p ip then some ip else find_ip p ips

unfoldable pub first_of : List String → Option String
first_of [] = none
first_of (ip ∷ ips) = some ip

unfoldable pub default_sni : Internet → List String → Option String
default_sni net ips = elim (find_ip net.is_ipv4 ips) [ some ip ↦ some ip | none ↦ first_of ips ]

-- A port of 0 has been refused.
unfoldable pub port_suffix : Option ℕ → String
port_suffix none = ""
port_suffix (some port) = if port == 443 then "" else ":" <> decimal port

unfoldable pub site_address : CaddyfileSpec → String → String
site_address spec host = "https://" <> host <> port_suffix spec.https_port

unfoldable pub ip_site : Internet → CaddyfileSpec → String → String
ip_site net spec ip = site_address spec (if net.is_ipv6 ip then "[" <> ip <> "]" else ip)

unfoldable pub line_if : String → Option String → List String
line_if lead none = []
line_if lead (some text) = (lead <> text) ∷ []

unfoldable pub port_text : Option ℕ → Option String
port_text none = none
port_text (some port) = some (decimal port)

-- `trusted` is the quoted path of the trusted roots, if there is one.
unfoldable pub issuer_lines : CaddyfileSpec → Option String → Option String → List String
issuer_lines spec trusted profile =
    "\ttls {"
    ∷ "\t\tissuer acme {"
    ∷ ("\t\t\tdir " <> spec.acme_directory)
    ∷ (line_if "\t\t\ttrusted_roots " trusted
        ++ (line_if "\t\t\tprofile " profile ++ ("\t\t}" ∷ "\t}" ∷ [])))

unfoldable pub site_text : CaddyfileSpec → Option String → List String → Option String → String
site_text spec trusted addresses profile =
    join_with ", " addresses
    <> " {\n"
    <> join_with "\n" (issuer_lines spec trusted profile)
    <> "\n\treverse_proxy 127.0.0.1:"
    <> decimal spec.ws_port
    <> "\n}"

unfoldable pub global_options : Internet → CaddyfileSpec → String → List String
global_options net spec storage =
    ("admin 127.0.0.1:" <> decimal spec.admin_port)
    ∷ "persist_config off"
    ∷ ("storage file_system " <> storage)
    ∷ "auto_https disable_redirects"
    ∷ "skip_install_trust"
    ∷ (line_if "default_sni " (default_sni net spec.ips)
        ++ (line_if "http_port " (port_text spec.http_port)
            ++ (line_if "https_port " (port_text spec.https_port)
                ++ ("servers {\n\t\tprotocols h1 h2\n\t}" ∷ []))))

unfoldable pub ip_sites : Internet → CaddyfileSpec → Option String → List String → List String
ip_sites net spec trusted [] = []
ip_sites net spec trusted (ip ∷ ips) =
    site_text spec trusted (map (ip_site net spec) (ip ∷ ips)) (some "shortlived") ∷ []

unfoldable pub caddyfile_text : Internet → CaddyfileSpec → String → Option String → String
caddyfile_text net spec storage trusted =
    join_with "\n\n" (
      ("{\n"
        <> join_with "\n" (map (λ line. "\t" <> line) (global_options net spec storage))
        <> "\n}")
      ∷ (ip_sites net spec trusted spec.ips
          ++ map (λ domain. site_text spec trusted (site_address spec domain ∷ []) none)
              spec.domains))
    <> "\n"

-- The roots are quoted only where a site stands.
unfoldable pub trusted_roots : CaddyfileSpec → Option (Option String)
trusted_roots spec = elim spec.acme_trusted_roots_path [
  | none ↦ some none
  | some path ↦
      if str_eq path "" then some none else quoted_path path >>= λ quoted. some (some quoted)
]

unfoldable pub has_sites : CaddyfileSpec → Bool
has_sites spec = not (leb (length spec.ips + length spec.domains) 0)

unfoldable pub generate_caddyfile : Internet → CaddyfileSpec → Option String
generate_caddyfile net spec =
    if is_valid_spec net spec
    then (quoted_path spec.data_directory >>= λ storage.
        (if has_sites spec then trusted_roots spec else some none) >>= λ trusted.
        some (caddyfile_text net spec storage trusted))
    else none

-- ` {` and the line's end
unfoldable pub is_opening : List ℕ → Bool
is_opening (c ∷ d ∷ []) = (c == 32) && (d == 123)
is_opening _ = false

-- The rest of a line that serves the name: `^(:\d+)? \{$`.
unfoldable pub is_port_rest : Bool → List ℕ → Bool
is_port_rest some_digit [] = false
is_port_rest some_digit (c ∷ cs) =
    let digits = is_port_rest true cs in
    if leb b'0' c && leb c b'9' then digits else some_digit && is_opening (c ∷ cs)

unfoldable pub is_site_rest : List ℕ → Bool
is_site_rest [] = false
is_site_rest (c ∷ cs) = if c == b':' then is_port_rest false cs else is_opening (c ∷ cs)

unfoldable pub after_prefix : List ℕ → List ℕ → Option (List ℕ)
after_prefix [] text = some text
after_prefix (p ∷ ps) [] = none
after_prefix (p ∷ ps) (c ∷ cs) = let rest = after_prefix ps cs in if p == c then rest else none

unfoldable pub serves_on : List ℕ → String → Bool
serves_on site line = elim (after_prefix site (codes line)) [
  | none ↦ false
  | some rest ↦ is_site_rest rest
]

unfoldable pub caddyfile_serves_domain : String → String → Bool
caddyfile_serves_domain caddyfile domain =
    any (serves_on (codes ("https://" <> domain))) (split_on "\n" "" caddyfile)
