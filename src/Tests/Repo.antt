-- ===== src/Tests/Repo.antt =====
-- src/ipfs/startIpfs.ts on a config that was never prepared, with one router.
use bitsocial_cli.Common.{String, Bool, true, ◌≡◌, refl, some, [], ◌∷◌, false, List}
use bitsocial_cli.Json.{Json, bool, str, obj, Fields, end, field, find, get, get_in, set}
use bitsocial_cli.Daemon.KuboRepo.{
  Prepared, has_pubsub, ensure_ipns_pubsub_enabled, has_no_sweep, seed_routing,
  ensure_kubo_routing_config_matches_http_routers, build_kubo_routing_config_for_http_routers,
  prepare_config,
}
use bitsocial_cli.Daemon.KuboRepo.Settled.{prepare_config-again}

abbrev config : Fields
config = field "Ipns" (obj (field "RecordLifetime" (str "48h") end)) end

abbrev routers : List String
routers = "https://router.example" ∷ []

abbrev all_equal : Json → Json → Bool
all_equal v w = true

abbrev prepared : Prepared
prepared = record {
  config =
      field "Ipns" (obj (field "RecordLifetime" (str "48h") (field "UsePubsub" (bool true) end))) (
        field "Routing" (build_kubo_routing_config_for_http_routers routers) (
          field "Provide" (obj (field "DHT" (obj (field "SweepEnabled" (bool false) end)) end))
            end));
  written = true;
}

config-prepared : prepare_config all_equal routers config ≡ some prepared
unfolding prepare_config ensure_ipns_pubsub_enabled has_pubsub get get_in find set
    ensure_kubo_routing_config_matches_http_routers seed_routing has_no_sweep
config-prepared = refl

prepare_config-again_example :
    prepare_config all_equal routers prepared.config
    ≡ some (record { config = prepared.config; written = false })
prepare_config-again_example =
    prepare_config-again all_equal (λ v. refl) routers config prepared config-prepared
