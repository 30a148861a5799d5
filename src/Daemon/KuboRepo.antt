-- ===== src/Daemon/KuboRepo.antt =====
-- src/ipfs/startIpfs.ts: what is written to kubo's config before kubo is spawned. The value `none` stands for the spread
-- of a text or a list, which no config has at these places. remeda's `isDeepEqual` is a parameter.
pub mod Settled
pub mod Defaults
use bitsocial_cli.Common.{
  ℕ, ◌+◌, String, ◌<>◌, Bool, true, false, not, ◌&&◌, ◌||◌, Option, none, some, List, [], ◌∷◌,
  codes, decimal, length, ◌==◌, contains, distinct, str_eq, if◌then◌else◌, ◌>>=◌,
}
use bitsocial_cli.Json.{
  Json, undefined, bool, str, arr, obj, Items, nil, cons, Fields, end, field, get, get_in, set,
}
use bitsocial_cli.Reachability.KuboConfig.Defs.{spread, is_false}
use bitsocial_cli.Update.Semver.{codes_lt}

-- The config after a step, and whether the step wrote the file.
pub record Prepared : Type 0 where
  pub config : Fields
  pub written : Bool

abbrev pub is_true : Json → Bool
is_true (bool b) = b
is_true _ = false

unfoldable pub has_pubsub : Fields → Bool
has_pubsub config = is_true (get_in "UsePubsub" (get "Ipns" config))

unfoldable pub ensure_ipns_pubsub_enabled : Fields → Option Prepared
ensure_ipns_pubsub_enabled config =
    if has_pubsub config
    then some (record { config = config; written = false })
    else (spread (get "Ipns" config) >>= λ ipns. some (record {
      config = set "Ipns" (obj (set "UsePubsub" (bool true) ipns)) config;
      written = true;
    }))

-- `[...httpRoutersOptions].sort()`
unfoldable pub insert_sorted : String → List String → List String
insert_sorted s [] = s ∷ []
insert_sorted s (t ∷ ts) =
    let rest = insert_sorted s ts in if codes_lt (codes t) (codes s) then t ∷ rest else s ∷ t ∷ ts

unfoldable pub sort : List String → List String
sort [] = []
sort (s ∷ ss) = insert_sorted s (sort ss)

unfoldable pub http_router : String → Json
http_router endpoint =
    obj (
      field "Type" (str "http")
        (field "Parameters" (obj (field "Endpoint" (str endpoint) end)) end))

unfoldable pub router_name : ℕ → String
router_name i = "HttpRouter" <> decimal (i + 1)

unfoldable pub parallel_from : ℕ → List String → Items
parallel_from i [] = nil
parallel_from i (url ∷ urls) =
    cons
      (obj (
        field "RouterName" (str (router_name i))
          (field "IgnoreErrors" (bool true) (field "Timeout" (str "10s") end))))
      (parallel_from (i + 1) urls)

unfoldable pub routers_from : ℕ → List String → Fields
routers_from i [] = end
routers_from i (url ∷ urls) = field (router_name i) (http_router url) (routers_from (i + 1) urls)

unfoldable pub routed_by : String → Json
routed_by name = obj (field "RouterName" (str name) end)

unfoldable pub routing_methods : Fields
routing_methods = field "find-providers" (routed_by "HttpRoutersParallel") (
    field "provide" (routed_by "HttpRoutersParallel") (
      field "find-peers" (routed_by "HttpRouterNotSupported") (
        field "get-ipns" (routed_by "HttpRouterNotSupported")
          (field "put-ipns" (routed_by "HttpRouterNotSupported") end))))

unfoldable pub build_kubo_routing_config_for_http_routers : List String → Json
build_kubo_routing_config_for_http_routers options =
    let urls = sort options in
    let parallel = obj (
      field "Type" (str "parallel")
        (field "Parameters" (obj (field "Routers" (arr (parallel_from 0 urls)) end)) end)) in
    obj (
      field "Type" (str "custom") (
        field "Methods" (obj routing_methods) (
          field "Routers"
            (obj (
              field "HttpRoutersParallel" parallel (
                field "HttpRouterNotSupported" (http_router "http://kubohttprouternotsupported")
                  (routers_from 0 urls))))
            end)))

unfoldable pub has_no_sweep : Fields → Bool
has_no_sweep config = is_false (get_in "SweepEnabled" (get_in "DHT" (get "Provide" config)))

module _ (is_deep_equal : Json → Json → Bool) where
  unfoldable pub seed_routing : Json → Fields → Option Prepared
  seed_routing desired config =
      if is_deep_equal (get "Routing" config) desired && has_no_sweep config
      then some (record { config = config; written = false })
      else (spread (get "Provide" config) >>= λ provide.
          (spread (get_in "DHT" (get "Provide" config)) >>= λ dht. some (record {
            config =
                set "Provide" (obj (set "DHT" (obj (set "SweepEnabled" (bool false) dht)) provide))
                  (set "Routing" desired config);
            written = true;
          })))

  unfoldable pub ensure_kubo_routing_config_matches_http_routers :
      List String → Fields → Option Prepared
  ensure_kubo_routing_config_matches_http_routers [] config =
      some (record { config = config; written = false })
  ensure_kubo_routing_config_matches_http_routers (option ∷ options) config =
      seed_routing (build_kubo_routing_config_for_http_routers (option ∷ options)) config

  -- The preparation by `startKuboNode` of a config that there was.
  unfoldable pub prepare_config : List String → Fields → Option Prepared
  prepare_config options config = ensure_ipns_pubsub_enabled config >>= λ first.
      (ensure_kubo_routing_config_matches_http_routers options first.config >>= λ second.
      some (record { config = second.config; written = first.written || second.written }))
