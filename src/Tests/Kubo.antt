-- ===== src/Tests/Kubo.antt =====
-- src/reachability/kubo-config.ts on a config with a swarm address, a loopback filter and no AutoTLS.
use bitsocial_cli.Common.{
  ◌≡◌, refl, inl, inr, true, false, none, some, [], ◌∷◌, decimal, Bool, List, arith,
}
use bitsocial_cli.Json.{
  undefined, bool, str, arr, obj, Items, nil, cons, Fields, end, field, find, get, nullish, set,
  get_in,
}
use bitsocial_cli.Reachability.KuboConfig.Defs.{
  absent, present, KuboEditRecord, ReachabilityKuboInput, loopback_addr_filter, plan_kubo_config,
  plan_enabled, plan_addresses, ensure, plan_auto_tls, plan_filters, missing, without_entries,
  shape_of, loopback_filters, auto_tls_edit, swarm_entries, items_include, local_ws_swarm_address,
}
use bitsocial_cli.Reachability.KuboConfig.Managed.{IsKuboConfig}
use bitsocial_cli.Reachability.KuboConfig.RoundTrip.{
  Applied, plan_kubo_config-disable, plan_kubo_config-enable,
}
use bitsocial_cli.Reachability.Store.{
  ReachabilityConfig, Store, Operation, setup, save, disable, operate_all,
}
use bitsocial_cli.Reachability.Store.Refinement.{
  StandsFor, fresh, expect_all, operate_all-StandsFor,
}

abbrev base : Fields
base =
    field "Addresses" (obj (field "Swarm" (arr (cons (str "/ip4/0.0.0.0/tcp/4001") nil)) end)) (
      field "Swarm" (obj (field "AddrFilters" (arr (cons (str loopback_addr_filter) nil)) end)) end)

abbrev input : ReachabilityKuboInput
input = record {
  ws_port = 4003;
  announce = "/dns4/node.example/tcp/443/tls/ws" ∷ [];
  serve_wss = none;
  kubo_edits = none;
}

abbrev swarm : Items
swarm = cons (str "/ip4/0.0.0.0/tcp/4001") (
    cons (str "/ip4/127.0.0.1/tcp/4003/ws") (
      cons (str "/ip4/0.0.0.0/udp/443/quic-v1") (
        cons (str "/ip4/0.0.0.0/udp/443/quic-v1/webtransport") (
          cons (str "/ip6/::/udp/443/quic-v1")
            (cons (str "/ip6/::/udp/443/quic-v1/webtransport") nil)))))

abbrev applied : Fields
applied =
    field "Addresses"
      (obj (
        field "Swarm" (arr swarm)
          (field "AppendAnnounce" (arr (cons (str "/dns4/node.example/tcp/443/tls/ws") nil)) end)))
      (field "Swarm" (obj (field "AddrFilters" (arr nil) end))
        (field "AutoTLS" (obj (field "Enabled" (bool false) end)) end))

abbrev edits : KuboEditRecord
edits = record {
  addresses_shape = present;
  swarm_list_shape = present;
  append_announce_list_shape = absent;
  added_swarm =
      "/ip4/127.0.0.1/tcp/4003/ws" ∷ "/ip4/0.0.0.0/udp/443/quic-v1"
      ∷ "/ip4/0.0.0.0/udp/443/quic-v1/webtransport" ∷ "/ip6/::/udp/443/quic-v1"
      ∷ "/ip6/::/udp/443/quic-v1/webtransport" ∷ [];
  added_append_announce = "/dns4/node.example/tcp/443/tls/ws" ∷ [];
  removed_addr_filters = record { entry = loopback_addr_filter; index = 0 } ∷ [];
  auto_tls = some (record { section_shape = absent; enabled_shape = absent; enabled = undefined });
}

base-IsKuboConfig : IsKuboConfig base
unfolding find get
base-IsKuboConfig = record {
  sections = record {
    addresses = inr (inr (field "Swarm" (arr (cons (str "/ip4/0.0.0.0/tcp/4001") nil)) end, refl));
    swarm_list = inr (inr (cons (str "/ip4/0.0.0.0/tcp/4001") nil, refl));
    announce_list = inl refl;
    swarm = inr (inr (field "AddrFilters" (arr (cons (str loopback_addr_filter) nil)) end, refl));
  };
  auto_tls = inl refl;
  enabled = inl refl;
}

applied-Applied : Applied base applied edits
unfolding plan_kubo_config plan_enabled plan_addresses ensure plan_auto_tls plan_filters missing
    without_entries shape_of loopback_filters auto_tls_edit swarm_entries items_include
    local_ws_swarm_address get nullish set get_in decimal
applied-Applied = Applied.first input applied edits refl refl

plan_kubo_config-disable_example :
    plan_kubo_config (obj applied) (record input { kubo_edits = some edits }) false
    ≡ some (base, none)
plan_kubo_config-disable_example =
    plan_kubo_config-disable base applied edits (record input { kubo_edits = some edits })
      base-IsKuboConfig applied-Applied refl

plan_kubo_config-enable_example :
    (g : Fields) × (e : KuboEditRecord) × (plan_kubo_config (obj base) input true
      ≡ some (g, some e))
    × Applied base g e
plan_kubo_config-enable_example =
    plan_kubo_config-enable base base edits input base-IsKuboConfig (inl (refl, refl))

abbrev node : ReachabilityConfig
node = record {
  enabled = true;
  mode = "domain";
  ws_port = 4003;
  announce = "/dns4/node.example/tcp/443/tls/ws" ∷ [];
  serve_wss = none;
  public_ips = [];
  domain = some "node.example";
  domain_forced = none;
  external_announce = none;
  dropped_announce = none;
  staging = false;
  acme_directory = "https://acme.example/directory";
  caddy_admin_port = 2019;
  https_port = none;
  http_port = none;
  acme_trusted_roots_path = none;
  kubo_edits = none;
}

-- A check of the daemon that began before the operator disabled reachability ends after it.
abbrev operations : List Operation
operations = setup node ∷ disable ∷ save node ∷ []

abbrev never_same : Fields → Fields → Bool
never_same f g = false

never_same-eq : (f g : Fields) → never_same f g ≡ true → f ≡ g
never_same-eq f g h = ground arith

operate_all-StandsFor_example :
    (t : Store) × (operate_all never_same operations (record { kubo = base; config = none })
      ≡ some t)
    × StandsFor base t (expect_all operations none)
operate_all-StandsFor_example =
    operate_all-StandsFor never_same never_same-eq base base-IsKuboConfig operations
      (record { kubo = base; config = none }) none fresh
