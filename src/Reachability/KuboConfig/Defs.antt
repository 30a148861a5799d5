-- ===== src/Reachability/KuboConfig/Defs.antt =====
-- src/reachability/kubo-config.ts, the definitions; those of the record and of undoing it are in Undoing.
pub mod Undoing
use bitsocial_cli.Common.{
  ℕ, zero, suc, String, ◌<>◌, Bool, true, false, ◌||◌, not, Option, none, some, List, [], ◌∷◌, ◌++◌,
  str_eq, includes, decimal, or_default, if◌then◌else◌, ◌>>=◌,
}
use bitsocial_cli.Json.{
  Json, undefined, bool, str, arr, obj, Items, nil, cons, Fields, end, get, set, remove, get_in,
  truthy, nullish,
}
use mathlib.Core.Option
pub use bitsocial_cli.Reachability.KuboConfig.Defs.Undoing.{
  OriginalShape, RemovedFilter, AutoTlsEdit, KuboEditRecord, ReachabilityKuboInput, absent, null,
  present,
}
unfoldable pub use bitsocial_cli.Reachability.KuboConfig.Defs.Undoing.{
  loopback_addr_filter, webtransport_swarm_addresses, local_ws_swarm_address, shape_of, is_text,
  is_listed, items_include, append_items, text_items, without_entries, is_empty, put_shape,
  restore_shape, remove_first, without_one_of_each, on_list, insert_at, insert_all, removed_entries,
  as_fields, as_items, undo_lists, undo_addresses, filters_without, undo_filters, undo_list_edits,
  is_false, enabled_back, section_back, restore_auto_tls,
}

-- What `appendMissing` adds, with `added` as it stands after a part of the entries.
unfoldable pub missing : Items → List String → List String → List String
missing existing [] added = added
missing existing (entry ∷ entries) added =
    missing existing entries (
      if items_include entry existing || includes entry added then added else added ++ (entry ∷ []))

-- `parent[key] ??= value`
unfoldable pub ensure : String → Json → Fields → Fields
ensure key value parent = if nullish (get key parent) then set key value parent else parent

-- `previousEdits?.shape ?? shapeOf(value)`
abbrev pub kept_shape :
    (KuboEditRecord → OriginalShape) → Option KuboEditRecord → Json → OriginalShape
kept_shape shape none value = shape_of value
kept_shape shape (some edits) value = shape edits

unfoldable pub plan_addresses :
    Option KuboEditRecord → List String → List String → Fields → Option (Fields × KuboEditRecord)
plan_addresses previous swarm announce config =
    let c = ensure "Addresses" (obj end) config in
    do
      a ← as_fields (get "Addresses" c)
      let b = ensure "AppendAnnounce" (arr nil) (ensure "Swarm" (arr nil) a)
      xs ← as_items (get "Swarm" b)
      ys ← as_items (get "AppendAnnounce" b)
      let added_swarm = missing xs swarm []
      let added_announce = missing ys announce []
      some (
        set "Addresses"
            (obj (
              set "AppendAnnounce" (arr (append_items ys (text_items added_announce)))
                (set "Swarm" (arr (append_items xs (text_items added_swarm))) b)))
            c,
        record {
          addresses_shape = kept_shape (λ e. e.addresses_shape) previous (get "Addresses" config);
          swarm_list_shape = kept_shape (λ e. e.swarm_list_shape) previous (get "Swarm" a);
          append_announce_list_shape =
              kept_shape (λ e. e.append_announce_list_shape) previous (get "AppendAnnounce" a);
          added_swarm = added_swarm;
          added_append_announce = added_announce;
          removed_addr_filters = [];
          auto_tls = none;
        },
      )

-- The positions of the loopback filter in a list that begins at this index.
unfoldable pub loopback_filters : ℕ → Items → List RemovedFilter
loopback_filters index nil = []
loopback_filters index (cons x xs) =
    if is_text loopback_addr_filter x
    then record { entry = loopback_addr_filter; index = index } ∷ loopback_filters (suc index) xs
    else loopback_filters (suc index) xs

abbrev pub without_loopback : Fields → Fields → Json → Fields × List RemovedFilter
without_loopback config section (arr xs) = (
  set "Swarm"
      (obj (set "AddrFilters" (arr (without_entries xs (loopback_addr_filter ∷ []))) section))
      config,
  loopback_filters 0 xs,
)
without_loopback config section _ = (config, [])

-- Only an object has a property `AddrFilters` that is a list.
abbrev pub plan_filters_in : Fields → Json → Fields × List RemovedFilter
plan_filters_in config (obj section) = without_loopback config section (get "AddrFilters" section)
plan_filters_in config _ = (config, [])

unfoldable pub plan_filters : Bool → Fields → Fields × List RemovedFilter
plan_filters serve_wss config =
    if serve_wss then plan_filters_in config (get "Swarm" config) else (config, [])

-- `{ ...(v ?? {}) }`
abbrev pub spread : Json → Option Fields
spread (obj f) = some f
spread (str s) = none
spread (arr xs) = none
spread _ = some end

unfoldable pub auto_tls_edit : Fields → AutoTlsEdit
auto_tls_edit config =
    let enabled = get_in "Enabled" (get "AutoTLS" config) in
    record {
      section_shape = shape_of (get "AutoTLS" config);
      enabled_shape = shape_of enabled;
      enabled = enabled;
    }

unfoldable pub plan_auto_tls :
    Bool → Option AutoTlsEdit → Fields → Option (Fields × Option AutoTlsEdit)
plan_auto_tls false none config = some (config, none)
plan_auto_tls false (some edit) config = some (restore_auto_tls edit config, none)
plan_auto_tls true (some edit) config = some (config, some edit)
plan_auto_tls true none config = spread (get "AutoTLS" config) >>= λ section.
    some
      (set "AutoTLS" (obj (set "Enabled" (bool false) section)) config, some (auto_tls_edit config))

-- `structuredClone(currentKuboConfig ?? {})`
abbrev pub clone : Json → Option Fields
clone undefined = some end
clone Json.null = some end
clone v = as_fields v

abbrev pub undo_previous : Option KuboEditRecord → Fields → Option Fields
undo_previous none config = some config
undo_previous (some edits) config = undo_list_edits edits config

abbrev pub previous_auto_tls : Option KuboEditRecord → Option AutoTlsEdit
previous_auto_tls none = none
previous_auto_tls (some edits) = edits.auto_tls

abbrev pub auto_tls_back : Option AutoTlsEdit → Fields → Fields
auto_tls_back none config = config
auto_tls_back (some edit) config = restore_auto_tls edit config

-- `reachabilityConfig.serveWss !== false`
abbrev pub serves_wss : ReachabilityKuboInput → Bool
serves_wss input = or_default input.serve_wss true

unfoldable pub swarm_entries : ReachabilityKuboInput → List String
swarm_entries input =
    if serves_wss input
    then local_ws_swarm_address input.ws_port ∷ webtransport_swarm_addresses
    else webtransport_swarm_addresses

-- The part of `planKuboConfig` behind `if (!enabled)`, on a config without the previous list edits.
unfoldable pub plan_enabled : ReachabilityKuboInput → Fields → Option (Fields × KuboEditRecord)
plan_enabled input config = do
  (c1, edits) ← plan_addresses input.kubo_edits (swarm_entries input) input.announce config
  let (c2, removed) = plan_filters (serves_wss input) c1
  (c3, auto_tls) ← plan_auto_tls (serves_wss input) (previous_auto_tls input.kubo_edits) c2
  some (c3, record edits { removed_addr_filters = removed; auto_tls = auto_tls })

unfoldable pub plan_kubo_config :
    Json → ReachabilityKuboInput → Bool → Option (Fields × Option KuboEditRecord)
plan_kubo_config current input enabled = do
  config ← clone current
  baseline ← undo_previous input.kubo_edits config
  if enabled
      then (plan_enabled input baseline >>= λ (c, edits). some (c, some edits))
      else some (auto_tls_back (previous_auto_tls input.kubo_edits) baseline, none)

unfoldable pub compute_kubo_config : Json → ReachabilityKuboInput → Bool → Option Fields
compute_kubo_config current input enabled =
    Option.map (λ (c, _). c) (plan_kubo_config current input enabled)
