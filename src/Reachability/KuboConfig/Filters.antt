-- ===== src/Reachability/KuboConfig/Filters.antt =====
-- src/reachability/kubo-config.ts: the loopback filters that an enable takes out of `Swarm.AddrFilters`
-- come back in their places, whatever else was written in between.
use bitsocial_cli.Common.{
  ◌≡◌, refl, sym, ap, inl, inr, String, Bool, true, false, some, List, [], ◌∷◌, str_eq,
}
use bitsocial_cli.Json.{Json, arr, obj, Items, Fields, find, get, set, truthy}
use bitsocial_cli.Json.Laws.{
  find-set_self, find-set_ne, set-find, set-set, set_comm, get_of_find, get_of_absent, get-set_self,
  get-set_ne, find_of_get_list,
}
use bitsocial_cli.Reachability.KuboConfig.Defs.{
  RemovedFilter, undo_filters, plan_filters, without_loopback, loopback_filters,
  loopback_addr_filter, without_entries, insert_all, removed_entries,
}
use bitsocial_cli.Reachability.KuboConfig.Lists.{insert_all-loopback_filters, without_entries_twice}
use bitsocial_cli.Reachability.KuboConfig.Baseline.{IsSection}

undo_filters-set :
    (config g : Fields) (rs : List RemovedFilter) (xs w : Items)
    → find "Swarm" config ≡ some (obj g)
    → find "AddrFilters" g ≡ some (arr xs)
    → insert_all rs w ≡ xs
    → without_entries w (removed_entries rs) ≡ w
    → undo_filters rs (set "Swarm" (obj (set "AddrFilters" (arr w) g)) config) ≡ some config
unfolding undo_filters insert_all truthy
undo_filters-set config g [] xs w hs hf ins out =
    rw (ins, set-find "AddrFilters" (arr xs) g hf, set-find "Swarm" (obj g) config hs)
undo_filters-set config g (r ∷ rs) xs w hs hf ins out = rw (
  get-set_self "Swarm" (obj (set "AddrFilters" (arr w) g)) config,
  get-set_self "AddrFilters" (arr w) g,
  out,
  ins,
  set-set "Swarm" (obj (set "AddrFilters" (arr xs) (set "AddrFilters" (arr w) g)))
      (obj (set "AddrFilters" (arr w) g)) config,
  set-set "AddrFilters" (arr xs) (arr w) g,
  set-find "AddrFilters" (arr xs) g hf,
  set-find "Swarm" (obj g) config hs,
)

-- What `plan_filters` does to a section.
plan_filters_in-cases :
    (config g : Fields) (v : Json)
    → get "AddrFilters" g ≡ v
    → find "Swarm" config ≡ some (obj g)
    → undo_filters (without_loopback config g v).1 (without_loopback config g v).0 ≡ some config
plan_filters_in-cases config g (arr xs) e hs =
    undo_filters-set config g (loopback_filters 0 xs) xs
      (without_entries xs (loopback_addr_filter ∷ [])) hs (find_of_get_list "AddrFilters" g xs e)
      (insert_all-loopback_filters xs) (without_entries_twice xs xs 0)
plan_filters_in-cases config g _ e hs = unfold undo_filters in refl

without_loopback-set :
    (config g : Fields) (v w : Json)
    → find "Swarm" config ≡ some (obj g)
    → without_loopback (set "Addresses" v config) g w
      ≡ (set "Addresses" v (without_loopback config g w).0, (without_loopback config g w).1)
without_loopback-set config g v (arr xs) hs =
    ap (λ c. (c, loopback_filters 0 xs))
      (sym (set_comm "Swarm" "Addresses" v _ (obj g) config refl hs))
without_loopback-set config g v _ hs = refl

find-without_loopback :
    (config g : Fields) (k : String) (w : Json)
    → str_eq "Swarm" k ≡ false
    → find k (without_loopback config g w).0 ≡ find k config
find-without_loopback config g k (arr xs) ne = find-set_ne k "Swarm" _ config ne
find-without_loopback config g k _ ne = refl

-- What is taken out comes back in its place.
pub undo_filters-plan_filters :
    (serve_wss : Bool) (config : Fields)
    → IsSection "Swarm" config
    → undo_filters (plan_filters serve_wss config).1 (plan_filters serve_wss config).0 ≡ some config
unfolding plan_filters undo_filters
undo_filters-plan_filters false config sound = refl
undo_filters-plan_filters true config (inl e) = rw (get_of_absent "Swarm" config e)
undo_filters-plan_filters true config (inr (inl e)) = rw (get_of_find "Swarm" config e)
undo_filters-plan_filters true config (inr (inr (g, e))) =
    rw (get_of_find "Swarm" config e) (plan_filters_in-cases config g (get "AddrFilters" g) refl e)

-- They are planned behind a write to another section as before it.
pub plan_filters-set_addresses :
    (serve_wss : Bool) (config : Fields) (v : Json)
    → IsSection "Swarm" config
    → plan_filters serve_wss (set "Addresses" v config)
      ≡ (set "Addresses" v (plan_filters serve_wss config).0, (plan_filters serve_wss config).1)
unfolding plan_filters
plan_filters-set_addresses false config v sound = refl
plan_filters-set_addresses true config v (inl e) =
    rw (get-set_ne "Swarm" "Addresses" v config refl, get_of_absent "Swarm" config e)
plan_filters-set_addresses true config v (inr (inl e)) =
    rw (get-set_ne "Swarm" "Addresses" v config refl, get_of_find "Swarm" config e)
plan_filters-set_addresses true config v (inr (inr (g, e))) =
    rw (get-set_ne "Swarm" "Addresses" v config refl, get_of_find "Swarm" config e)
      (without_loopback-set config g v (get "AddrFilters" g) e)

pub find-plan_filters :
    (serve_wss : Bool) (config : Fields) (k : String)
    → IsSection "Swarm" config
    → str_eq "Swarm" k ≡ false
    → find k (plan_filters serve_wss config).0 ≡ find k config
unfolding plan_filters
find-plan_filters false config k sound ne = refl
find-plan_filters true config k (inl e) ne = rw (get_of_absent "Swarm" config e)
find-plan_filters true config k (inr (inl e)) ne = rw (get_of_find "Swarm" config e)
find-plan_filters true config k (inr (inr (g, e))) ne =
    rw (get_of_find "Swarm" config e) (find-without_loopback config g k (get "AddrFilters" g) ne)

without_loopback-IsSection :
    (config g : Fields) (w : Json)
    → find "Swarm" config ≡ some (obj g)
    → IsSection "Swarm" (without_loopback config g w).0
without_loopback-IsSection config g (arr xs) e = inr (inr (_, find-set_self "Swarm" _ config))
without_loopback-IsSection config g _ e = inr (inr (g, e))

pub plan_filters-IsSection :
    (serve_wss : Bool) (config : Fields)
    → IsSection "Swarm" config
    → IsSection "Swarm" (plan_filters serve_wss config).0
unfolding plan_filters
plan_filters-IsSection false config sound = sound
plan_filters-IsSection true config (inl e) = rw (get_of_absent "Swarm" config e) (inl e)
plan_filters-IsSection true config (inr (inl e)) = rw (get_of_find "Swarm" config e) (inr (inl e))
plan_filters-IsSection true config (inr (inr (g, e))) =
    rw (get_of_find "Swarm" config e) (without_loopback-IsSection config g (get "AddrFilters" g) e)
