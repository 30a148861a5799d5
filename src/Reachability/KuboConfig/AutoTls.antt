-- ===== src/Reachability/KuboConfig/AutoTls.antt =====
-- src/reachability/kubo-config.ts: AutoTLS is turned off and put back independently of the list edits.
use bitsocial_cli.Common.{
  ◌≡◌, refl, sym, ap, ◌∙◌, inl, inr, String, false, some, List, [], ◌∷◌, str_eq, arith,
}
use bitsocial_cli.Json.{Json, bool, arr, obj, end, Fields, find, get, set, get_in, truthy}
use bitsocial_cli.Json.Laws.{
  find-set_self, find-set_ne, set-find, set-set, set_comm, remove-set_absent, get_of_find,
  get_of_absent, get-set_self, get-set_ne,
}
use bitsocial_cli.Reachability.KuboConfig.Defs.{
  present, RemovedFilter, AutoTlsEdit, KuboEditRecord, shape_of, restore_shape, restore_auto_tls,
  enabled_back, section_back, auto_tls_edit, undo_addresses, undo_filters, undo_list_edits,
  undo_lists, insert_all, filters_without, removed_entries,
}
use bitsocial_cli.Reachability.KuboConfig.Undo.{
  IsShaped, restore_shape-ensure, restore_shape-set, find-restore_shape,
}
use bitsocial_cli.Reachability.KuboConfig.Baseline.{
  IsSection, IsSection-IsShaped, section, ensure-section,
}

-- The config with AutoTLS turned off.
abbrev pub without_auto_tls : Fields → Fields
without_auto_tls f = set "AutoTLS" (obj (set "Enabled" (bool false) (section "AutoTLS" f))) f

enabled_back-set :
    (edit : AutoTlsEdit) (s : Fields)
    → IsShaped "Enabled" s
    → edit.enabled_shape ≡ shape_of (get "Enabled" s)
    → edit.enabled ≡ get "Enabled" s
    → enabled_back edit (set "Enabled" (bool false) s) ≡ s
unfolding shape_of
enabled_back-set edit s (inl e) shape value =
    rw (shape, get_of_absent "Enabled" s e) (remove-set_absent "Enabled" (bool false) s e)
enabled_back-set edit s (inr (inl e)) shape value =
    rw (shape, value, get_of_find "Enabled" s e)
      (set-set "Enabled" Json.null (bool false) s ∙ set-find "Enabled" Json.null s e)
enabled_back-set edit s (inr (inr (v, e, sh, n))) shape value =
    let is_present : edit.enabled_shape ≡ present =
      shape ∙ (ap shape_of (get_of_find "Enabled" s e) ∙ sh) in
    rw (is_present, value, get_of_find "Enabled" s e)
      (set-set "Enabled" v (bool false) s ∙ set-find "Enabled" v s e)

get_in-section :
    (k : String) (f : Fields)
    → IsSection k f
    → get_in "Enabled" (get k f) ≡ get "Enabled" (section k f)
unfolding get_in get find
get_in-section k f (inl e) = rw (get_of_absent k f e)
get_in-section k f (inr (inl e)) = rw (get_of_find k f e)
get_in-section k f (inr (inr (g, e))) = rw (get_of_find k f e)

-- AutoTLS has the value that it had.
pub restore_auto_tls-without_auto_tls :
    (f : Fields)
    → IsSection "AutoTLS" f
    → IsShaped "Enabled" (section "AutoTLS" f)
    → restore_auto_tls (auto_tls_edit f) (without_auto_tls f) ≡ f
unfolding restore_auto_tls auto_tls_edit get_in
restore_auto_tls-without_auto_tls f sound shaped =
    rw
      (
        get-set_self "AutoTLS" (obj (set "Enabled" (bool false) (section "AutoTLS" f))) f,
        get-set_self "Enabled" (bool false) (section "AutoTLS" f),
        enabled_back-set (auto_tls_edit f) (section "AutoTLS" f) shaped
            (ap shape_of (get_in-section "AutoTLS" f sound)) (get_in-section "AutoTLS" f sound),
        set-set "AutoTLS" (obj (section "AutoTLS" f))
            (obj (set "Enabled" (bool false) (section "AutoTLS" f))) f,
        ← ensure-section "AutoTLS" f sound,
      )
      (restore_shape-ensure "AutoTLS" (obj end) f (IsSection-IsShaped "AutoTLS" f sound) refl)

section_back-set :
    (edit : AutoTlsEdit) (k : String) (v w u : Json) (f : Fields)
    → str_eq k "AutoTLS" ≡ false
    → str_eq "AutoTLS" k ≡ false
    → find "AutoTLS" f ≡ some w
    → section_back edit u (set k v f) ≡ set k v (section_back edit u f)
section_back-set edit k v w (obj s) f ne nf found =
    ap (restore_shape "AutoTLS" edit.section_shape)
      (sym (set_comm "AutoTLS" k v (obj (enabled_back edit s)) w f ne found))
    ∙ restore_shape-set k "AutoTLS" edit.section_shape (set "AutoTLS" (obj (enabled_back edit s)) f)
        nf v (obj (enabled_back edit s)) ne (find-set_self "AutoTLS" (obj (enabled_back edit s)) f)
section_back-set edit k v w _ f ne nf found = refl

-- It is put back behind a write to another section as before it.
pub restore_auto_tls-set :
    (edit : AutoTlsEdit) (k : String) (v w : Json) (f : Fields)
    → str_eq k "AutoTLS" ≡ false
    → str_eq "AutoTLS" k ≡ false
    → find "AutoTLS" f ≡ some w
    → restore_auto_tls edit (set k v f) ≡ set k v (restore_auto_tls edit f)
unfolding restore_auto_tls
restore_auto_tls-set edit k v w f ne nf found =
    rw (get-set_ne "AutoTLS" k v f ne)
      (ground (arith, section_back-set edit k v w (get "AutoTLS" f) f ne nf found))

abbrev filters_back : List RemovedFilter → Fields → Json
filters_back rs s = obj (
    set "AddrFilters"
      (arr (insert_all rs (filters_without (get "AddrFilters" s) (removed_entries rs)))) s)

module _ (v : Json) (f : Fields) where
  undo_addresses-set_auto_tls :
      (edits : KuboEditRecord) (a : Fields)
      → find "Addresses" f ≡ some (obj a)
      → (g : Fields) × (undo_addresses edits f ≡ some g)
        × (undo_addresses edits (set "AutoTLS" v f) ≡ some (set "AutoTLS" v g))
        × (find "Swarm" g ≡ find "Swarm" f)
  unfolding undo_addresses truthy
  undo_addresses-set_auto_tls edits a fa =
      let b = obj (undo_lists edits a) in
      (
        restore_shape "Addresses" edits.addresses_shape (set "Addresses" b f),
        rw (get_of_find "Addresses" f fa),
        rw (get-set_ne "Addresses" "AutoTLS" v f refl, get_of_find "Addresses" f fa)
            (ap some (
              ap (restore_shape "Addresses" edits.addresses_shape)
                (sym (set_comm "Addresses" "AutoTLS" v b (obj a) f refl fa))
              ∙ restore_shape-set "AutoTLS" "Addresses" edits.addresses_shape (set "Addresses" b f)
                  refl v b refl (find-set_self "Addresses" b f))),
        find-restore_shape "Swarm" "Addresses" edits.addresses_shape (set "Addresses" b f) refl
            ∙ find-set_ne "Swarm" "Addresses" b f refl,
      )

  undo_filters-set_auto_tls :
      (rs : List RemovedFilter) (g : Fields)
      → IsSection "Swarm" f
      → undo_filters rs f ≡ some g
      → undo_filters rs (set "AutoTLS" v f) ≡ some (set "AutoTLS" v g)
  unfolding undo_filters truthy
  undo_filters-set_auto_tls [] g sw e = ground arith
  undo_filters-set_auto_tls (r ∷ rs) g (inl x) e =
      rw (get-set_ne "Swarm" "AutoTLS" v f refl, get_of_absent "Swarm" f x)
        (let e' = rw (get_of_absent "Swarm" f x) at e in cc)
  undo_filters-set_auto_tls (r ∷ rs) g (inr (inl x)) e =
      rw (get-set_ne "Swarm" "AutoTLS" v f refl, get_of_find "Swarm" f x)
        (let e' = rw (get_of_find "Swarm" f x) at e in cc)
  undo_filters-set_auto_tls (r ∷ rs) g (inr (inr (s, x))) e =
      rw (get-set_ne "Swarm" "AutoTLS" v f refl, get_of_find "Swarm" f x)
        (let e' = rw (get_of_find "Swarm" f x) at e in
          cc (set_comm "Swarm" "AutoTLS" v (filters_back (r ∷ rs) s) (obj s) f refl x))

-- The list edits are taken back behind a write to AutoTLS as before it.
pub undo_list_edits-set_auto_tls :
    (edits : KuboEditRecord) (v : Json) (f a g : Fields)
    → find "Addresses" f ≡ some (obj a)
    → IsSection "Swarm" f
    → undo_list_edits edits f ≡ some g
    → undo_list_edits edits (set "AutoTLS" v f) ≡ some (set "AutoTLS" v g)
unfolding undo_list_edits
undo_list_edits-set_auto_tls edits v f a g fa sw e =
    let (c, undone, behind, same) = undo_addresses-set_auto_tls v f edits a fa in
    rw behind
      (undo_filters-set_auto_tls v c edits.removed_addr_filters g (rw same sw) (rw undone at e))
