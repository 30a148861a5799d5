-- ===== src/Reachability/Store.antt =====
-- The two files that reachability keeps in step, its own config and kubo's: `applyKuboConfig` of
-- src/reachability/setup.ts, `saveAndApply` of src/reachability/runtime.ts, `disableReachability` of
-- src/reachability/lifecycle.ts. A file is the value that it holds; `none` is an exception.
pub mod Refinement
use bitsocial_cli.Common.{
  ℕ, String, Bool, true, false, Option, none, some, List, [], ◌∷◌, if◌then◌else◌, ◌>>=◌,
}
use bitsocial_cli.Json.{obj, Fields}
use bitsocial_cli.Reachability.KuboConfig.Defs.{
  KuboEditRecord, ReachabilityKuboInput, plan_kubo_config,
}

pub record ReachabilityConfig : Type 0 where
  pub enabled : Bool
  pub mode : String
  pub ws_port : ℕ
  pub announce : List String
  pub serve_wss : Option Bool
  pub public_ips : List String
  pub domain : Option String
  pub domain_forced : Option Bool
  pub external_announce : Option (List String)
  pub dropped_announce : Option (List String)
  pub staging : Bool
  pub acme_directory : String
  pub caddy_admin_port : ℕ
  pub https_port : Option ℕ
  pub http_port : Option ℕ
  pub acme_trusted_roots_path : Option String
  pub kubo_edits : Option KuboEditRecord

-- kubo's config, and reachability's, which is missing until setup writes it.
pub record Store : Type 0 where
  pub kubo : Fields
  pub config : Option ReachabilityConfig

pub record Applying : Type 0 where
  pub store : Store
  pub config : ReachabilityConfig
  pub kubo_config_changed : Bool

-- What `planKuboConfig` reads of the config.
unfoldable pub input_of : ReachabilityConfig → ReachabilityKuboInput
input_of config = record {
  ws_port = config.ws_port;
  announce = config.announce;
  serve_wss = config.serve_wss;
  kubo_edits = config.kubo_edits;
}

-- Setup (and with it enable), the daemon's checks with a config that may be older than the file, and disable.
pub data Operation : Type 0 where
  setup : ReachabilityConfig → Operation
  save : ReachabilityConfig → Operation
  disable : Operation

unfoldable pub edits_before : Option ReachabilityConfig → Option KuboEditRecord
edits_before none = none
edits_before (some previous) = previous.kubo_edits

-- `same` is whether `JSON.stringify` writes the two the same.
module _ (same : Fields → Fields → Bool) where
  unfoldable pub write_plan :
      ReachabilityConfig → Store → Bool → Fields × Option KuboEditRecord → Applying
  write_plan config store enabled (kubo, edits) =
      let next = record config { enabled = enabled; kubo_edits = edits } in
      record {
        store = record {
          kubo = if same kubo store.kubo then store.kubo else kubo;
          config = some next;
        };
        config = next;
        kubo_config_changed = if same kubo store.kubo then false else true;
      }

  unfoldable pub apply_kubo_config : ReachabilityConfig → Store → Bool → Option Applying
  apply_kubo_config config store enabled =
      plan_kubo_config (obj store.kubo) (input_of config) enabled >>= λ plan.
      some (write_plan config store enabled plan)

  -- With the record of the config on disk in place of what the caller holds, and the config after it.
  unfoldable pub save_latest :
      ReachabilityConfig → Store → ReachabilityConfig → Option (Store × ReachabilityConfig)
  save_latest config store latest =
      if latest.enabled
      then (apply_kubo_config (record config { kubo_edits = latest.kubo_edits }) store true
          >>= λ applied. some (applied.store, applied.config))
      else some (store, latest)

  unfoldable pub save_and_apply : ReachabilityConfig → Store → Option (Store × ReachabilityConfig)
  save_and_apply config store = elim store.config [
    | none ↦ some (store, config)
    | some latest ↦ save_latest config store latest
  ]

  -- What setup writes: the config that it built, with the record that was there. Setup reads that record when it begins;
  -- nothing else is taken to write the file until then.
  unfoldable pub set_up : ReachabilityConfig → Store → Option Store
  set_up config store =
      apply_kubo_config (record config { kubo_edits = edits_before store.config }) store true
      >>= λ applied. some applied.store

  unfoldable pub disable_config : ReachabilityConfig → Store → Option Store
  disable_config config store =
      if config.enabled
      then (apply_kubo_config config store false >>= λ applied. some applied.store)
      else some store

  unfoldable pub disable_reachability : Store → Option Store
  disable_reachability store = elim store.config [
    | none ↦ some store
    | some config ↦ disable_config config store
  ]

  unfoldable pub operate : Operation → Store → Option Store
  operate (setup config) store = set_up config store
  operate (save config) store = save_and_apply config store >>= λ saved. some saved.0
  operate disable store = disable_reachability store

  unfoldable pub operate_all : List Operation → Store → Option Store
  operate_all [] store = some store
  operate_all (operation ∷ operations) store = operate operation store >>= operate_all operations
