-- ===== src/Reachability/KuboConfig/Managed.antt =====
-- src/reachability/kubo-config.ts: the state between two applies. The record of an applied config leads
-- back to the config before, but for AutoTLS, which it remembers.
use bitsocial_cli.Common.{
  ◌≡◌, refl, sym, ap, ◌∙◌, ◌⊎◌, inl, inr, String, Bool, true, false, Option, none, some, List, [],
  arith, ◌>>=◌,
}
use bitsocial_cli.Json.{Json, bool, obj, Fields, get, set}
use bitsocial_cli.Json.Laws.{
  find-set_self, find-set_ne, set-set, get_of_find, get_of_absent, get-set_self, get-set_ne,
  get-same,
}
use bitsocial_cli.Reachability.KuboConfig.Defs.{
  AutoTlsEdit, KuboEditRecord, RemovedFilter, shape_of, kept_shape, missing, restore_auto_tls,
  auto_tls_edit, undo_list_edits, undo_lists, plan_addresses, plan_filters, plan_auto_tls, spread,
}
use bitsocial_cli.Reachability.KuboConfig.Lists.{missing-IsFresh}
use bitsocial_cli.Reachability.KuboConfig.Undo.{IsShaped}
use bitsocial_cli.Reachability.KuboConfig.Baseline.{
  IsSection, IsListField, section, list_of, ensure-section, find_swarm, find_announce, with_entries,
  undo_lists-with_entries, undo_addresses-set,
}
use bitsocial_cli.Reachability.KuboConfig.Filters.{
  undo_filters-plan_filters, find-plan_filters, plan_filters-IsSection,
}
use bitsocial_cli.Reachability.KuboConfig.AutoTls.{
  without_auto_tls, restore_auto_tls-without_auto_tls, restore_auto_tls-set,
  undo_list_edits-set_auto_tls,
}

-- What the list edits rely on: each section is missing, null or an object, each list missing, null or
-- a list.
pub record HasSections (f : Fields) : Type 0 where
  pub addresses : IsSection "Addresses" f
  pub swarm_list : IsListField "Swarm" (section "Addresses" f)
  pub announce_list : IsListField "AppendAnnounce" (section "Addresses" f)
  pub swarm : IsSection "Swarm" f

-- A kubo config as JSON.parse returns it.
pub record IsKuboConfig (f : Fields) : Type 0 where
  pub sections : HasSections f
  pub auto_tls : IsSection "AutoTLS" f
  pub enabled : IsShaped "Enabled" (section "AutoTLS" f)

-- The shapes that a record keeps are those of this config.
pub record KeepsShapes (f : Fields) (e : KuboEditRecord) : Type 0 where
  pub addresses : e.addresses_shape ≡ shape_of (get "Addresses" f)
  pub swarm_list : e.swarm_list_shape ≡ shape_of (get "Swarm" (section "Addresses" f))
  pub announce_list :
      e.append_announce_list_shape ≡ shape_of (get "AppendAnnounce" (section "Addresses" f))

-- The lists of `config.Addresses` after an apply.
abbrev pub new_addresses : List String → List String → Fields → Fields
new_addresses swarm announce f =
    let a = section "Addresses" f in
    with_entries (missing (list_of "Swarm" a) swarm [])
      (missing (list_of "AppendAnnounce" a) announce []) a

abbrev pub new_edits : Option KuboEditRecord → List String → List String → Fields → KuboEditRecord
new_edits previous swarm announce f =
    let a = section "Addresses" f in
    record {
      addresses_shape = kept_shape (λ e. e.addresses_shape) previous (get "Addresses" f);
      swarm_list_shape = kept_shape (λ e. e.swarm_list_shape) previous (get "Swarm" a);
      append_announce_list_shape =
          kept_shape (λ e. e.append_announce_list_shape) previous (get "AppendAnnounce" a);
      added_swarm = missing (list_of "Swarm" a) swarm [];
      added_append_announce = missing (list_of "AppendAnnounce" a) announce [];
      removed_addr_filters = [];
      auto_tls = none;
    }

pub plan_addresses-eq :
    (previous : Option KuboEditRecord) (swarm announce : List String) (f : Fields)
    → HasSections f
    → plan_addresses previous swarm announce f
      ≡ some (
        set "Addresses" (obj (new_addresses swarm announce f)) f,
        new_edits previous swarm announce f,
      )
unfolding plan_addresses
plan_addresses-eq previous swarm announce f h =
    let a = section "Addresses" f in
    rw (
      ensure-section "Addresses" f h.addresses,
      get-set_self "Addresses" (obj a) f,
      get_of_find "Swarm" _ (find_swarm a h.swarm_list h.announce_list),
      get_of_find "AppendAnnounce" _ (find_announce a h.swarm_list h.announce_list),
      set-set "Addresses" (obj (new_addresses swarm announce f)) (obj a) f,
    )

-- An undo of the record of an apply leads back, also where filters were taken out behind it.
undo_list_edits-apply :
    (serve_wss : Bool) (e : KuboEditRecord) (swarm announce : List String) (f : Fields)
    → HasSections f
    → KeepsShapes f e
    → e.added_swarm ≡ missing (list_of "Swarm" (section "Addresses" f)) swarm []
    → e.added_append_announce
      ≡ missing (list_of "AppendAnnounce" (section "Addresses" f)) announce []
    → e.removed_addr_filters ≡ (plan_filters serve_wss f).1
    → undo_list_edits e
        (set "Addresses" (obj (new_addresses swarm announce f)) (plan_filters serve_wss f).0)
      ≡ some f
unfolding undo_list_edits
undo_list_edits-apply serve_wss e swarm announce f h k es ea er =
    let c = (plan_filters serve_wss f).0 in
    let same = find-plan_filters serve_wss f "Addresses" h.swarm refl in
    let same_value = get-same "Addresses" c f same in
    rw
      (
        undo_addresses-set e c (new_addresses swarm announce f) (rw same h.addresses)
            (k.addresses ∙ ap shape_of (sym same_value)) (rw same_value undone),
        er,
      )
      (undo_filters-plan_filters serve_wss f h.swarm)
  where
    a : Fields
    a = section "Addresses" f

    undone : undo_lists e (new_addresses swarm announce f) ≡ a
    undone =
        rw (← es, ← ea)
          (undo_lists-with_entries a h.swarm_list h.announce_list e
            (rw es (missing-IsFresh (list_of "Swarm" a) swarm [] tt))
            (rw ea (missing-IsFresh (list_of "AppendAnnounce" a) announce [] tt)) k.swarm_list
            k.announce_list)

-- What AutoTLS makes of the config in between: nothing, or `Enabled: false`.
abbrev pub tls_base : Option AutoTlsEdit → Fields → Fields
tls_base none f = f
tls_base (some edit) f = without_auto_tls f

-- An applied config: its record leads back to the config before, but for AutoTLS, which the record
-- holds as it was.
pub record IsManaged (base f : Fields) (e : KuboEditRecord) : Type 0 where
  pub undone : undo_list_edits e f ≡ some (tls_base e.auto_tls base)
  pub shapes : KeepsShapes base e
  pub tls : (e.auto_tls ≡ none) ⊎ (e.auto_tls ≡ some (auto_tls_edit base))

pub section_addresses :
    (f : Fields) (v : Json) → get "Addresses" (set "AutoTLS" v f) ≡ get "Addresses" f
section_addresses f v = get-set_ne "Addresses" "AutoTLS" v f refl

module _ (f : Fields) (v : Json) where
  pub HasSections-set_auto_tls : HasSections f → HasSections (set "AutoTLS" v f)
  HasSections-set_auto_tls h = record {
    addresses = rw (find-set_ne "Addresses" "AutoTLS" v f refl) h.addresses;
    swarm_list = rw (section_addresses f v) h.swarm_list;
    announce_list = rw (section_addresses f v) h.announce_list;
    swarm = rw (find-set_ne "Swarm" "AutoTLS" v f refl) h.swarm;
  }

  KeepsShapes-set_auto_tls :
      (e : KuboEditRecord) → KeepsShapes f e → KeepsShapes (set "AutoTLS" v f) e
  KeepsShapes-set_auto_tls e k = record {
    addresses = rw (section_addresses f v) k.addresses;
    swarm_list = rw (section_addresses f v) k.swarm_list;
    announce_list = rw (section_addresses f v) k.announce_list;
  }

spread-section : (k : String) (f : Fields) → IsSection k f → spread (get k f) ≡ some (section k f)
spread-section k f (inl e) = rw (get_of_absent k f e)
spread-section k f (inr (inl e)) = rw (get_of_find k f e)
spread-section k f (inr (inr (g, e))) = rw (get_of_find k f e)

auto_tls_edit-same :
    (f g : Fields) → get "AutoTLS" f ≡ get "AutoTLS" g → auto_tls_edit f ≡ auto_tls_edit g
unfolding auto_tls_edit
auto_tls_edit-same f g h = rw h

module _ (base : Fields) (sound : IsKuboConfig base) (swarm announce : List String)
    (e : KuboEditRecord) (k : KeepsShapes base e)
    (es : e.added_swarm ≡ missing (list_of "Swarm" (section "Addresses" base)) swarm [])
    (ea : e.added_append_announce
      ≡ missing (list_of "AppendAnnounce" (section "Addresses" base)) announce []) where
  same_shapes :
      (rs : List RemovedFilter) (auto : Option AutoTlsEdit)
      → KeepsShapes base (record e { removed_addr_filters = rs; auto_tls = auto })
  same_shapes rs auto = record {
    addresses = k.addresses;
    swarm_list = k.swarm_list;
    announce_list = k.announce_list;
  }

  -- The undo of a record whose list edits are those of `e`, from the config with these lists.
  undone_at :
      (serve_wss : Bool) (auto : Option AutoTlsEdit) (t : Option AutoTlsEdit)
      → undo_list_edits
          (record e {
            removed_addr_filters = (plan_filters serve_wss (tls_base t base)).1;
            auto_tls = auto;
          })
          (set "Addresses"
            (obj (new_addresses swarm announce base))
            (plan_filters serve_wss (tls_base t base)).0)
        ≡ some (tls_base t base)
  undone_at serve_wss auto none =
      undo_list_edits-apply serve_wss _ swarm announce base sound.sections (same_shapes _ auto) es
        ea refl
  undone_at serve_wss auto (some t) =
      let v = obj (set "Enabled" (bool false) (section "AutoTLS" base)) in
      rw (section_addresses base v) at (
        undo_list_edits-apply serve_wss _ swarm announce (without_auto_tls base)
          (HasSections-set_auto_tls base v sound.sections)
          (KeepsShapes-set_auto_tls base v _ (same_shapes _ auto))
          (rw (section_addresses base v) es) (rw (section_addresses base v) ea) refl)

  restored :
      (t : AutoTlsEdit) (v : Json)
      → t ≡ auto_tls_edit base
      → restore_auto_tls t (set "Addresses" v (without_auto_tls base)) ≡ set "Addresses" v base
  restored t v same = rw (
    restore_auto_tls-set t "Addresses" v _ (without_auto_tls base) refl refl
        (find-set_self "AutoTLS" _ base),
    same,
    restore_auto_tls-without_auto_tls base sound.auto_tls sound.enabled,
  )

  -- The end of `planKuboConfig`, behind the edits of `Addresses`.
  abbrev pub finish : Bool → Option AutoTlsEdit → Option (Fields × KuboEditRecord)
  finish serve_wss t =
      let c = tls_base t base in
      let c2 =
        set "Addresses" (obj (new_addresses swarm announce base)) (plan_filters serve_wss c).0 in
      plan_auto_tls serve_wss t c2 >>= λ (c3, auto).
      some (c3, record e { removed_addr_filters = (plan_filters serve_wss c).1; auto_tls = auto })

  -- AutoTLS is turned off for the first time.
  finish_off :
      (f : Fields) × (e' : KuboEditRecord) × (finish true none ≡ some (f, e')) × IsManaged base f e'
  unfolding plan_auto_tls
  finish_off =
      let v = obj (new_addresses swarm announce base) in
      let c2 = set "Addresses" v (plan_filters true base).0 in
      let off = obj (set "Enabled" (bool false) (section "AutoTLS" base)) in
      let same : get "AutoTLS" c2 ≡ get "AutoTLS" base =
        get-set_ne "AutoTLS" "Addresses" v (plan_filters true base).0 refl
        ∙ get-same "AutoTLS" _ base
            (find-plan_filters true base "AutoTLS" sound.sections.swarm refl) in
      (
        set "AutoTLS" off c2,
        record e {
          removed_addr_filters = (plan_filters true base).1;
          auto_tls = some (auto_tls_edit base);
        },
        rw (same, spread-section "AutoTLS" base sound.auto_tls, auto_tls_edit-same c2 base same),
        record {
          undone =
              undo_list_edits-set_auto_tls _ off c2 (new_addresses swarm announce base) base
                (find-set_self "Addresses" v _)
                (rw (find-set_ne "Swarm" "Addresses" v (plan_filters true base).0 refl)
                  (plan_filters-IsSection true base sound.sections.swarm))
                (undone_at true (some (auto_tls_edit base)) none);
          shapes = same_shapes _ _;
          tls = inr refl;
        },
      )

  pub finish-IsManaged :
      (serve_wss : Bool) (t : Option AutoTlsEdit)
      → (t ≡ none) ⊎ (t ≡ some (auto_tls_edit base))
      → (f : Fields) × (e' : KuboEditRecord) × (finish serve_wss t ≡ some (f, e'))
        × IsManaged base f e'
  unfolding plan_auto_tls plan_filters
  finish-IsManaged false none ok = (
    _,
    _,
    refl,
    record { undone = undone_at false none none; shapes = same_shapes _ none; tls = inl refl },
  )
  finish-IsManaged false (some t) ok = (
    set "Addresses" (obj (new_addresses swarm announce base)) base,
    record e { removed_addr_filters = []; auto_tls = none },
    rw (restored t (obj (new_addresses swarm announce base)) (ground arith)),
    record { undone = undone_at false none none; shapes = same_shapes _ none; tls = inl refl },
  )
  finish-IsManaged true (some t) ok = (
    _,
    _,
    refl,
    record { undone = undone_at true (some t) (some t); shapes = same_shapes _ (some t); tls = ok },
  )
  finish-IsManaged true none ok = finish_off
