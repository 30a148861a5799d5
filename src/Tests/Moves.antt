-- ===== src/Tests/Moves.antt =====
-- A move to a new address, a fast update that fails half way, and the installation of a challenge.
use bitsocial_cli.Common.{
  arith, ◌≤◌, String, true, false, ◌||◌, ◌≡◌, ◌⊎◌, refl, Option, none, some, List, [], ◌∷◌, length,
  str_eq, join_with,
}
use bitsocial_cli.Json.{end}
use bitsocial_cli.Reachability.Discovery.{Internet}
use bitsocial_cli.Reachability.Caddyfile.{
  generate_caddyfile, is_valid_spec, is_port, is_optional_port, quoted_path, is_quotable, has_sites,
  trusted_roots,
}
use bitsocial_cli.Reachability.Store.{ReachabilityConfig}
use bitsocial_cli.Reachability.Runtime.{Net, is_same_certificate_name}
use bitsocial_cli.Reachability.Runtime.IpChange.{plan_ip_change, family_next}
use bitsocial_cli.Reachability.Runtime.Moving.{
  MovingFiles, Issuance, Moved, handle_ip_change, check_ips, back_off_all, decide, is_pending,
  settle, put_back, spec_of, served_domain, given_port, given_path,
}
use bitsocial_cli.Reachability.Runtime.Backoff.{addresses_worth_trying, without_over}
use bitsocial_cli.Reachability.Runtime.Moving.Outcomes.{handle_ip_change-public_ips}
use bitsocial_cli.Reachability.Runtime.Moving.Readings.{planned, check_ips-two_readings}
use bitsocial_cli.Update.Fast.{Installation, Directories, renamed, World, fast_install_global}
use bitsocial_cli.Update.Fast.Swap.{
  manifest_of, modules_of, fast_install_global-root, fast_install_global-modules_lost,
}
use bitsocial_cli.Packages.Names.{is_valid_package_name}
use bitsocial_cli.Packages.Installing.{
  PackageJson, PackageWorld, Installed, put_package, install_package, install_package-installed,
}

abbrev net : Net
net = record {
  is_ipv4 = λ s. str_eq s "8.8.4.4" || str_eq s "9.9.9.9";
  is_ipv6 = λ s. false;
  blocks = str_eq;
  to_lower = λ s. s;
}

abbrev internet : Internet
internet = record {
  is_ipv4 = λ s. str_eq s "8.8.4.4" || str_eq s "9.9.9.9";
  is_ipv6 = λ s. false;
  in_subnet = λ network prefix s. false;
  ip_of = λ s. none;
}

abbrev config : ReachabilityConfig
config = record {
  enabled = true;
  mode = "ip";
  ws_port = 4003;
  announce = [];
  serve_wss = none;
  public_ips = "9.9.9.9" ∷ [];
  domain = none;
  domain_forced = none;
  external_announce = none;
  dropped_announce = none;
  staging = false;
  acme_directory = "https://acme.example/directory";
  caddy_admin_port = 2019;
  https_port = none;
  http_port = none;
  acme_trusted_roots_path = none;
  kubo_edits = none;
}

abbrev files : MovingFiles
files = record { store = record { kubo = end; config = some config }; caddyfile = some "old" }

-- No certificate was issued.
abbrev issuance : Issuance
issuance = record { issued = []; stopping = false }

abbrev ips : List String
ips = "8.8.4.4" ∷ []

-- Two checks that find the new address.
check_ips-two_readings_example :
    ((check_ips net 0 (λ n. none) config ips none).decision.move_to ≡ none)
    × (planned net 0 (λ n. none) config ips ≡ some ips)
    × (planned net 300000 (λ n. none) config ips ≡ some ips)
unfolding check_ips plan_ip_change family_next addresses_worth_trying without_over
    is_same_certificate_name decide is_pending join_with
check_ips-two_readings_example =
    check_ips-two_readings net 0 300000 (λ n. none) (λ n. none) config config ips ips none ips
      (ground arith) refl refl refl

abbrev stayed : Moved
stayed = record {
  files = files;
  config = config;
  backoffs = back_off_all net 0 ("9.9.9.9" ∷ []) ips (λ n. none);
}

abbrev repo_name : String → Option String
repo_name url = some url

abbrev to_lower : String → String
to_lower s = s

abbrev old : Installation
old = record {
  manifest = record { dependencies = "{}"; webuis = [] };
  node_modules = some 1;
  webui_dirs = none;
}

abbrev new : Installation
new = record {
  manifest = record {
    dependencies = "{}";
    webuis = record { url = "https://ui.example"; sha256_of_html_zip = "00" } ∷ [];
  };
  node_modules = none;
  webui_dirs = none;
}

abbrev directories : Directories
directories = record { install_root = some old; staging_dir = none; backup_dir = none }

-- The second rename of the swap fails.
abbrev world : World
world = record {
  unpacked = new;
  cleans_up = true;
  unpacks = true;
  reads_manifests = true;
  moves_modules = renamed;
  moves_webuis = true;
  deletes_webuis = true;
  backs_up = true;
  lands = false;
  makes_webuis = true;
  downloads = λ entry. none;
  removes_backup = true;
  restores_modules = true;
  restores_root = true;
}

fast_install_global-root_example :
    (manifest_of
        (fast_install_global repo_name to_lower world old directories).directories.install_root
      ≡ some new.manifest)
    ⊎ ((manifest_of
            (fast_install_global repo_name to_lower world old directories).directories.install_root
          ≡ some old.manifest)
        × (¬ ((fast_install_global repo_name to_lower world old directories).updated ≡ some true)))
fast_install_global-root_example =
    fast_install_global-root repo_name to_lower world old directories refl

fast_install_global-modules_lost_example :
    (manifest_of
        (fast_install_global repo_name to_lower world old directories).directories.install_root
      ≡ some old.manifest)
    × (modules_of
          (fast_install_global repo_name to_lower world old directories).directories.install_root
        ≡ none)
    × ((fast_install_global repo_name to_lower world old directories).directories.staging_dir
        ≡ none)
    × ((fast_install_global repo_name to_lower world old directories).directories.backup_dir ≡ none)
fast_install_global-modules_lost_example =
    fast_install_global-modules_lost repo_name to_lower world old directories refl refl refl refl
      refl refl refl refl refl

abbrev challenge : PackageJson
challenge = record { name = "captcha"; version = some "1.0.0" }

abbrev package_world : PackageWorld
package_world = record {
  is_ready = true;
  packs = true;
  found = some challenge;
  npm_installs = true;
  verifies = true;
  makes_dir = true;
  sets_aside = true;
  makes_scope = true;
  lands = true;
  restores = true;
  removes_tmp = true;
  removes = true;
}

abbrev empty : Installed
empty n = none

install_package-installed_example :
    (((install_package package_world empty).result ≡ none)
      × ((install_package package_world empty).installed "captcha" ≡ none))
    ⊎ (((install_package package_world empty).result
          ≡ some (record { name = "captcha"; version = some "1.0.0"; replaced = false }))
        × (is_valid_package_name "captcha" ≡ true)
        × ((install_package package_world empty).installed "captcha"
            ≡ put_package "captcha" (some challenge) empty "captcha"))
install_package-installed_example =
    install_package-installed package_world empty challenge "captcha" refl refl refl refl

config-stayed :
    handle_ip_change (λ f g. false) net internet "/data" 0 config ips issuance files (λ n. none)
    ≡ some stayed
unfolding handle_ip_change settle put_back generate_caddyfile is_valid_spec is_port spec_of
    served_domain is_optional_port given_port quoted_path is_quotable has_sites trusted_roots
    given_path
config-stayed = refl

handle_ip_change-public_ips_example : 1 ≤ length stayed.config.public_ips
handle_ip_change-public_ips_example =
    handle_ip_change-public_ips (λ f g. false) net internet "/data" 0 config config ips issuance
      files (λ n. none) stayed refl refl (ground arith) config-stayed
