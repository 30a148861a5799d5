-- ===== src/Reachability/KuboConfig/Defs/Undoing.antt =====
-- src/reachability/kubo-config.ts: the record of the edits, and how they are undone.
use bitsocial_cli.Common.{
  ℕ, zero, suc, String, ◌<>◌, Bool, true, false, ◌||◌, not, Option, none, some, List, [], ◌∷◌,
  str_eq, decimal, if◌then◌else◌, ◌>>=◌,
}
use bitsocial_cli.Json.{
  Json, undefined, bool, str, arr, obj, Items, nil, cons, Fields, end, get, set, remove, get_in,
  truthy,
}

abbrev pub loopback_addr_filter : String
loopback_addr_filter = "/ip4/127.0.0.0/ipcidr/8"

abbrev pub webtransport_swarm_addresses : List String
webtransport_swarm_addresses =
    "/ip4/0.0.0.0/udp/443/quic-v1" ∷ "/ip4/0.0.0.0/udp/443/quic-v1/webtransport"
    ∷ "/ip6/::/udp/443/quic-v1" ∷ "/ip6/::/udp/443/quic-v1/webtransport" ∷ []

unfoldable pub local_ws_swarm_address : ℕ → String
local_ws_swarm_address ws_port = "/ip4/127.0.0.1/tcp/" <> decimal ws_port <> "/ws"

pub data OriginalShape : Type 0 where
  absent null present : OriginalShape

pub record RemovedFilter : Type 0 where
  pub entry : String
  pub index : ℕ

-- `enabled` is `undefined` where the source leaves the property out.
pub record AutoTlsEdit : Type 0 where
  pub section_shape : OriginalShape
  pub enabled_shape : OriginalShape
  pub enabled : Json

pub record KuboEditRecord : Type 0 where
  pub addresses_shape : OriginalShape
  pub swarm_list_shape : OriginalShape
  pub append_announce_list_shape : OriginalShape
  pub added_swarm : List String
  pub added_append_announce : List String
  pub removed_addr_filters : List RemovedFilter
  pub auto_tls : Option AutoTlsEdit

pub record ReachabilityKuboInput : Type 0 where
  pub ws_port : ℕ
  pub announce : List String
  pub serve_wss : Option Bool
  pub kubo_edits : Option KuboEditRecord

unfoldable pub shape_of : Json → OriginalShape
shape_of undefined = absent
shape_of Json.null = OriginalShape.null
shape_of _ = present

-- `entry === s`
abbrev pub is_text : String → Json → Bool
is_text s (str t) = str_eq t s
is_text s _ = false

-- `entries.includes(entry)`
abbrev pub is_listed : Json → List String → Bool
is_listed entry [] = false
is_listed entry (s ∷ ss) = is_text s entry || is_listed entry ss

-- `list.includes(s)`
unfoldable pub items_include : String → Items → Bool
items_include s nil = false
items_include s (cons x xs) = is_text s x || items_include s xs

abbrev pub append_items : Items → Items → Items
append_items nil ys = ys
append_items (cons x xs) ys = cons x (append_items xs ys)

abbrev pub text_items : List String → Items
text_items [] = nil
text_items (s ∷ ss) = cons (str s) (text_items ss)

unfoldable pub without_entries : Items → List String → Items
without_entries nil entries = nil
without_entries (cons x xs) entries =
    if is_listed x entries then without_entries xs entries else cons x (without_entries xs entries)

-- Puts an emptied list or section back the way it was found.
abbrev pub is_empty : Json → Bool
is_empty undefined = true
is_empty Json.null = true
is_empty (arr nil) = true
is_empty (obj end) = true
is_empty _ = false

abbrev pub put_shape : String → OriginalShape → Fields → Fields
put_shape key absent parent = remove key parent
put_shape key OriginalShape.null parent = set key Json.null parent
put_shape key present parent = parent

unfoldable pub restore_shape : String → OriginalShape → Fields → Fields
restore_shape key shape parent =
    if is_empty (get key parent) then put_shape key shape parent else parent

-- `indexOf` and `splice(index, 1)`
unfoldable pub remove_first : String → Items → Items
remove_first s nil = nil
remove_first s (cons x xs) = if is_text s x then xs else cons x (remove_first s xs)

unfoldable pub without_one_of_each : Items → List String → Items
without_one_of_each remaining [] = remaining
without_one_of_each remaining (entry ∷ entries) =
    without_one_of_each (remove_first entry remaining) entries

abbrev pub on_list : (Items → Items) → Json → Json
on_list f (arr xs) = arr (f xs)
on_list f v = v

-- `filters.splice(Math.min(index, filters.length), 0, entry)`
unfoldable pub insert_at : ℕ → Json → Items → Items
insert_at index entry nil = cons entry nil
insert_at zero entry (cons x xs) = cons entry (cons x xs)
insert_at (suc index) entry (cons x xs) = cons x (insert_at index entry xs)

unfoldable pub insert_all : List RemovedFilter → Items → Items
insert_all [] filters = filters
insert_all (r ∷ rs) filters = insert_all rs (insert_at r.index (str r.entry) filters)

unfoldable pub removed_entries : List RemovedFilter → List String
removed_entries [] = []
removed_entries (r ∷ rs) = r.entry ∷ removed_entries rs

abbrev pub as_fields : Json → Option Fields
as_fields (obj f) = some f
as_fields _ = none

abbrev pub as_items : Json → Option Items
as_items (arr xs) = some xs
as_items _ = none

-- The edits of `config.Addresses` taken back.
unfoldable pub undo_lists : KuboEditRecord → Fields → Fields
undo_lists edits a =
    let swarm = on_list (λ xs. without_one_of_each xs edits.added_swarm) (get "Swarm" a) in
    let a1 = set "Swarm" swarm a in
    let announce =
      on_list (λ xs. without_one_of_each xs edits.added_append_announce)
        (get "AppendAnnounce" a1) in
    let a2 = set "AppendAnnounce" announce a1 in
    restore_shape "AppendAnnounce" edits.append_announce_list_shape
      (restore_shape "Swarm" edits.swarm_list_shape a2)

unfoldable pub undo_addresses : KuboEditRecord → Fields → Option Fields
undo_addresses edits config =
    if truthy (get "Addresses" config)
    then (as_fields (get "Addresses" config) >>= λ a. some (
        restore_shape "Addresses" edits.addresses_shape
          (set "Addresses" (obj (undo_lists edits a)) config)))
    else some config

abbrev pub filters_without : Json → List String → Items
filters_without (arr xs) entries = without_entries xs entries
filters_without _ entries = nil

unfoldable pub undo_filters : List RemovedFilter → Fields → Option Fields
undo_filters [] config = some config
undo_filters (r ∷ rs) config =
    if truthy (get "Swarm" config)
    then (as_fields (get "Swarm" config) >>= λ s.
        let kept = filters_without (get "AddrFilters" s) (removed_entries (r ∷ rs)) in
        some (set "Swarm" (obj (set "AddrFilters" (arr (insert_all (r ∷ rs) kept)) s)) config))
    else some config

unfoldable pub undo_list_edits : KuboEditRecord → Fields → Option Fields
undo_list_edits edits config =
    undo_addresses edits config >>= undo_filters edits.removed_addr_filters

abbrev pub is_false : Json → Bool
is_false (bool b) = not b
is_false _ = false

abbrev pub enabled_back : AutoTlsEdit → Fields → Fields
enabled_back edit section = elim edit.enabled_shape [
  | absent ↦ remove "Enabled" section
  | _ ↦ set "Enabled" edit.enabled section
]

-- Only an object has a property `Enabled` that is false.
abbrev pub section_back : AutoTlsEdit → Json → Fields → Fields
section_back edit (obj section) config =
    restore_shape "AutoTLS" edit.section_shape
      (set "AutoTLS" (obj (enabled_back edit section)) config)
section_back edit _ config = config

unfoldable pub restore_auto_tls : AutoTlsEdit → Fields → Fields
restore_auto_tls edit config =
    if is_false (get_in "Enabled" (get "AutoTLS" config))
    then section_back edit (get "AutoTLS" config) config
    else config
