-- ===== src/Reachability/Runtime/Moving.antt =====
-- src/reachability/runtime.ts: `handleIpChange`, and the part of `runChecksOnce` that decides on it. The files are the
-- state; that Caddy is watched after each write is left out.
pub mod Outcomes
pub mod Readings
use bitsocial_cli.Common.{
  ℕ, String, ◌<>◌, Bool, true, false, not, ◌&&◌, ◌||◌, Option, none, some, List, [], ◌∷◌, ◌++◌, map,
  keep, any, every, includes, length, ◌==◌, is_some, or_default, decimal, join_with, str_eq,
  if◌then◌else◌, ◌>>=◌,
}
use bitsocial_cli.Json.{Fields}
use bitsocial_cli.Reachability.Discovery.{Internet}
use bitsocial_cli.Reachability.Caddyfile.{
  CaddyfileSpec, generate_caddyfile, caddyfile_serves_domain,
}
use bitsocial_cli.Reachability.Store.{ReachabilityConfig, Store, save_and_apply}
use bitsocial_cli.Reachability.Runtime.{Net, is_same_certificate_name}
use bitsocial_cli.Reachability.Runtime.IpChange.{plan_ip_change}
use bitsocial_cli.Reachability.Runtime.Backoff.{
  Backoff, back_off_issuance, addresses_worth_trying, without_over,
}

-- The files that a change writes.
pub record MovingFiles : Type 0 where
  pub store : Store
  pub caddyfile : Option String

-- What happens during a change: the names that got certificates, and whether the daemon stops meanwhile.
pub record Issuance : Type 0 where
  pub issued : List String
  pub stopping : Bool

pub record Moved : Type 0 where
  pub files : MovingFiles
  pub config : ReachabilityConfig
  pub backoffs : ℕ → Option Backoff

unfoldable pub served_domain : ReachabilityConfig → Option String → List String
served_domain config none = []
served_domain config (some previous) = elim config.domain [
  | none ↦ []
  | some domain ↦
      if not (str_eq domain "") && caddyfile_serves_domain previous domain then domain ∷ [] else []
]

-- A port of 0 counts as none.
unfoldable pub given_port : Option ℕ → Option ℕ
given_port none = none
given_port (some port) = if port == 0 then none else some port

unfoldable pub given_path : Option String → Option String
given_path none = none
given_path (some path) = if str_eq path "" then none else some path

unfoldable pub spec_of : String → ReachabilityConfig → Option String → List String → CaddyfileSpec
spec_of data_directory config previous ips = record {
  ips = ips;
  domains = served_domain config previous;
  ws_port = config.ws_port;
  admin_port = config.caddy_admin_port;
  data_directory = data_directory;
  acme_directory = config.acme_directory;
  https_port = given_port config.https_port;
  http_port = given_port config.http_port;
  acme_trusted_roots_path = given_path config.acme_trusted_roots_path;
}

unfoldable pub ip_address : Internet → ℕ → String → String
ip_address internet port ip =
    "/"
    <> (if internet.is_ipv6 ip then "ip6" else "ip4")
    <> "/"
    <> ip
    <> "/tcp/"
    <> decimal port
    <> "/tls/ws"

unfoldable pub put_back : Option String → MovingFiles → MovingFiles
put_back none files = files
put_back (some previous) files = record files { caddyfile = some previous }

-- The issued addresses are the ones that the config holds.
unfoldable pub holds_issued : Net → ReachabilityConfig → List String → Bool
holds_issued net config issued =
    (length issued == length config.public_ips)
    && every (λ ip. any (λ held. is_same_certificate_name net ip held) config.public_ips) issued

unfoldable pub moved_config : Internet → ReachabilityConfig → List String → ReachabilityConfig
moved_config internet config issued =
    let port = or_default config.https_port 443 in
    let old = map (ip_address internet port) config.public_ips in
    record config {
      public_ips = issued;
      announce =
          map (ip_address internet port) issued
          ++ keep (λ address. not (includes address old)) config.announce;
    }

-- `backOffIssuance` of every address without a certificate.
unfoldable pub back_off_all :
    Net → ℕ → List String → List String → (ℕ → Option Backoff) → ℕ → Option Backoff
back_off_all net now held [] backoffs = backoffs
back_off_all net now held (ip ∷ ips) backoffs =
    back_off_all net now held ips (back_off_issuance net now ip held backoffs)

module _ (same : Fields → Fields → Bool) (net : Net) (internet : Internet) (data_directory : String)
    (now : ℕ) where
  -- The addresses are issued, all or some.
  unfoldable pub adopt :
      ReachabilityConfig → List String → MovingFiles → (ℕ → Option Backoff) → Option Moved
  adopt config issued files backoffs =
      if holds_issued net config issued
      then some (record { files = files; config = config; backoffs = backoffs })
      else (save_and_apply same (moved_config internet config issued) files.store >>= λ saved.
          some (record {
            files = record files { store = saved.0 };
            config = saved.1;
            backoffs = backoffs;
          }))

  unfoldable pub settle :
      ReachabilityConfig
      → List String
      → Option String
      → Issuance
      → MovingFiles
      → (ℕ → Option Backoff)
      → Option Moved
  settle config next_ips previous issuance files backoffs =
      let missing = keep (λ ip. not (includes ip issuance.issued)) next_ips in
      let backed_off = back_off_all net now config.public_ips missing backoffs in
      if length issuance.issued == 0
      then some (record { files = put_back previous files; config = config; backoffs = backed_off })
      else if length issuance.issued == length next_ips
      then adopt config issuance.issued files backed_off
      else (generate_caddyfile internet (spec_of data_directory config previous issuance.issued)
          >>= λ part.
              adopt config issuance.issued (record files { caddyfile = some part }) backed_off)

  unfoldable pub handle_ip_change :
      ReachabilityConfig
      → List String
      → Issuance
      → MovingFiles
      → (ℕ → Option Backoff)
      → Option Moved
  handle_ip_change config next_ips issuance files backoffs =
      let previous = files.caddyfile in
      generate_caddyfile internet (spec_of data_directory config previous next_ips) >>= λ candidate.
      (let tried = record files { caddyfile = some candidate } in
        if issuance.stopping
        then some (record { files = put_back previous tried; config = config; backoffs = backoffs })
        else settle config next_ips previous issuance tried backoffs)

-- What one check decides: the addresses to move to, and what the next check compares with.
pub record Decision : Type 0 where
  pub move_to : Option (List String)
  pub pending : Option String

-- The part of a check that ends in the decision, with the waits that it leaves.
pub record IpCheck : Type 0 where
  pub decision : Decision
  pub backoffs : ℕ → Option Backoff

unfoldable pub is_pending : Option String → String → Bool
is_pending none key = false
is_pending (some pending) key = str_eq key pending

unfoldable pub decide : Option (List String) → Option String → Decision
decide none pending = record { move_to = none; pending = none }
decide (some next_ips) pending =
    let key = join_with "," next_ips in
    if is_pending pending key
    then record { move_to = some next_ips; pending = none }
    else record { move_to = none; pending = some key }

unfoldable pub check_ips :
    Net → ℕ → (ℕ → Option Backoff) → ReachabilityConfig → List String → Option String → IpCheck
check_ips net now backoffs config derived pending =
    if length config.public_ips == 0
    then record { decision = record { move_to = none; pending = pending }; backoffs = backoffs }
    else record {
      decision =
          decide
            (plan_ip_change net config.public_ips
              (addresses_worth_trying net now config.public_ips backoffs derived))
            pending;
      backoffs = without_over net config.public_ips backoffs;
    }
