-- ===== src/Daemon/KuboRepo/Settled.antt =====
-- src/ipfs/startIpfs.ts: a config that was prepared once is prepared.
use bitsocial_cli.Common.{
  String, Bool, true, false, ◌&&◌, ◌≡◌, refl, ◌∙◌, some, List, [], ◌∷◌, str_eq, arith, Option-cases,
  inl, inr,
}
use bitsocial_cli.Json.{Json, bool, obj, Fields, get, get_in, set}
use bitsocial_cli.Json.Laws.{find-set_self, find-set_ne, get_of_find}
use bitsocial_cli.Reachability.KuboConfig.Defs.{spread}
use bitsocial_cli.Daemon.KuboRepo.{
  Prepared, has_pubsub, ensure_ipns_pubsub_enabled, build_kubo_routing_config_for_http_routers,
  has_no_sweep, seed_routing, ensure_kubo_routing_config_matches_http_routers, prepare_config,
}

pub get-set_self : (k : String) (v : Json) (f : Fields) → get k (set k v f) ≡ v
get-set_self k v f = get_of_find k (set k v f) (find-set_self k v f)

pub get-set_ne :
    (j k : String) (v : Json) (f : Fields) → str_eq k j ≡ false → get j (set k v f) ≡ get j f
unfolding get
get-set_ne j k v f h = rw (find-set_ne j k v f h, get) refl

set-has_pubsub :
    (ipns config : Fields)
    → has_pubsub (set "Ipns" (obj (set "UsePubsub" (bool true) ipns)) config) ≡ true
unfolding has_pubsub get_in
set-has_pubsub ipns config =
    rw
      (
        get-set_self "Ipns" (obj (set "UsePubsub" (bool true) ipns)) config,
        get-set_self "UsePubsub" (bool true) ipns,
      )
      refl

ensure-has_pubsub :
    (config : Fields) (p : Prepared)
    → ensure_ipns_pubsub_enabled config ≡ some p
    → has_pubsub p.config ≡ true
unfolding ensure_ipns_pubsub_enabled
ensure-has_pubsub config p done = elim (Option-cases (spread (get "Ipns" config))) [
  | inl e ↦ ground arith
  | inr (ipns, e) ↦ ground (arith, set-has_pubsub ipns config)
]

-- What the routing is seeded with, for a config.
abbrev seeded : Json → Fields → Fields → Fields → Fields
seeded desired provide dht config =
    set "Provide" (obj (set "DHT" (obj (set "SweepEnabled" (bool false) dht)) provide))
      (set "Routing" desired config)

seeded-has_pubsub :
    (desired : Json) (provide dht config : Fields)
    → has_pubsub (seeded desired provide dht config) ≡ has_pubsub config
unfolding has_pubsub
seeded-has_pubsub desired provide dht config =
    rw
      (
        get-set_ne "Ipns" "Provide"
            (obj (set "DHT" (obj (set "SweepEnabled" (bool false) dht)) provide))
            (set "Routing" desired config) refl,
        get-set_ne "Ipns" "Routing" desired config refl,
      )
      refl

seeded-routing :
    (desired : Json) (provide dht config : Fields)
    → get "Routing" (seeded desired provide dht config) ≡ desired
seeded-routing desired provide dht config =
    get-set_ne "Routing" "Provide"
      (obj (set "DHT" (obj (set "SweepEnabled" (bool false) dht)) provide))
      (set "Routing" desired config) refl
    ∙ get-set_self "Routing" desired config

seeded-has_no_sweep :
    (desired : Json) (provide dht config : Fields)
    → has_no_sweep (seeded desired provide dht config) ≡ true
unfolding has_no_sweep get_in
seeded-has_no_sweep desired provide dht config =
    let sweep = set "SweepEnabled" (bool false) dht in
    rw
      (
        get-set_self "Provide" (obj (set "DHT" (obj sweep) provide)) (set "Routing" desired config),
        get-set_self "DHT" (obj sweep) provide,
        get-set_self "SweepEnabled" (bool false) dht,
      )
      refl

module _ (is_deep_equal : Json → Json → Bool)
    (reflexive : (v : Json) → is_deep_equal v v ≡ true) where
  -- A config in which nothing is left to seed.
  abbrev is_seeded : Json → Fields → Bool
  is_seeded desired config = is_deep_equal (get "Routing" config) desired && has_no_sweep config

  seeded-is_seeded :
      (desired : Json) (provide dht config : Fields)
      → is_seeded desired (seeded desired provide dht config) ≡ true
  seeded-is_seeded desired provide dht config =
      rw
        (
          seeded-routing desired provide dht config,
          reflexive desired,
          seeded-has_no_sweep desired provide dht config,
        )
        refl

  seed-settles :
      (desired : Json) (config : Fields) (p : Prepared)
      → seed_routing is_deep_equal desired config ≡ some p
      → (is_seeded desired p.config ≡ true) × (has_pubsub p.config ≡ has_pubsub config)
  unfolding seed_routing
  seed-settles desired config p done = elim (Option-cases (spread (get "Provide" config))) [
    | inl e ↦ ground arith
    | inr (provide, e) ↦ elim (Option-cases (spread (get_in "DHT" (get "Provide" config)))) [
      | inl f ↦ ground arith
      | inr (dht, f) ↦ ground (
        arith,
        seeded-is_seeded desired provide dht config,
        seeded-has_pubsub desired provide dht config,
      )
    ]
  ]

  routing-again :
      (options : List String) (config : Fields) (p : Prepared)
      → ensure_kubo_routing_config_matches_http_routers is_deep_equal options config ≡ some p
      → (ensure_kubo_routing_config_matches_http_routers is_deep_equal options p.config
          ≡ some (record { config = p.config; written = false }))
        × (has_pubsub p.config ≡ has_pubsub config)
  unfolding ensure_kubo_routing_config_matches_http_routers seed_routing
  routing-again [] config p done = ground arith
  routing-again (option ∷ options) config p done =
      let desired = build_kubo_routing_config_for_http_routers (option ∷ options) in
      let settled = seed-settles desired config p done in (rw settled.0 refl, settled.1)

  -- Where a value is deeply equal to itself, a config that a start prepared is left alone by the next start with the
  -- same routers.
  pub prepare_config-again :
      (options : List String) (config : Fields) (p : Prepared)
      → prepare_config is_deep_equal options config ≡ some p
      → prepare_config is_deep_equal options p.config
        ≡ some (record { config = p.config; written = false })
  unfolding prepare_config ensure_ipns_pubsub_enabled
  prepare_config-again options config p done =
      elim (Option-cases (ensure_ipns_pubsub_enabled config)) [
        | inl e ↦ ground arith
        | inr (a, e) ↦
            elim (Option-cases
              (ensure_kubo_routing_config_matches_http_routers is_deep_equal options a.config)) [
                | inl f ↦ ground arith
                | inr (b, f) ↦
                    ground (arith, ensure-has_pubsub config a e, routing-again options a.config b f)
              ]
      ]
