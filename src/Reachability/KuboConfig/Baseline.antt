-- ===== src/Reachability/KuboConfig/Baseline.antt =====
-- src/reachability/kubo-config.ts: the list edits of an enable as one write to each section, and that
-- `undoListEdits` leads from there back to the config before.
use bitsocial_cli.Common.{◌≡◌, refl, sym, ap, ◌∙◌, ◌⊎◌, inl, inr, String, none, some, List}
use bitsocial_cli.Json.{Json, arr, obj, nil, Items, end, Fields, find, get, set, nullish, truthy}
use bitsocial_cli.Json.Laws.{
  find-set_self, set-find, set-set, set_comm, get_of_find, get_of_absent, get-set_self, get-set_ne,
}
use bitsocial_cli.Reachability.KuboConfig.Defs.{
  KuboEditRecord, shape_of, restore_shape, ensure, undo_lists, undo_addresses, without_one_of_each,
  text_items, append_items,
}
use bitsocial_cli.Reachability.KuboConfig.Lists.{IsFresh, without_one_of_each-append}
use bitsocial_cli.Reachability.KuboConfig.Undo.{
  IsShaped, restore_shape-ensure, restore_shape-ensure_ne, find-ensure_ne, get-ensure_ne,
}

-- A section is missing, null or an object; a list is missing, null or a list.
abbrev pub IsSection : String → Fields → Type 0
IsSection k f =
    (find k f ≡ none) ⊎ ((find k f ≡ some Json.null) ⊎ ((g : Fields) × (find k f ≡ some (obj g))))

abbrev pub IsListField : String → Fields → Type 0
IsListField k f =
    (find k f ≡ none) ⊎ ((find k f ≡ some Json.null) ⊎ ((xs : Items) × (find k f ≡ some (arr xs))))

abbrev pub fields_or_end : Json → Fields
fields_or_end (obj g) = g
fields_or_end _ = end

abbrev pub items_or_nil : Json → Items
items_or_nil (arr xs) = xs
items_or_nil _ = nil

abbrev pub section : String → Fields → Fields
section k f = fields_or_end (get k f)

abbrev pub list_of : String → Fields → Items
list_of k f = items_or_nil (get k f)

pub IsSection-IsShaped : (k : String) (f : Fields) → IsSection k f → IsShaped k f
unfolding shape_of nullish
IsSection-IsShaped k f (inl e) = inl e
IsSection-IsShaped k f (inr (inl e)) = inr (inl e)
IsSection-IsShaped k f (inr (inr (g, e))) = inr (inr (obj g, e, refl, refl))

pub IsListField-IsShaped : (k : String) (f : Fields) → IsListField k f → IsShaped k f
unfolding shape_of nullish
IsListField-IsShaped k f (inl e) = inl e
IsListField-IsShaped k f (inr (inl e)) = inr (inl e)
IsListField-IsShaped k f (inr (inr (xs, e))) = inr (inr (arr xs, e, refl, refl))

-- `f[k] ??= {}` writes the section that is there, or an empty one.
pub ensure-section :
    (k : String) (f : Fields) → IsSection k f → ensure k (obj end) f ≡ set k (obj (section k f)) f
unfolding ensure nullish
ensure-section k f (inl e) = rw (get_of_absent k f e)
ensure-section k f (inr (inl e)) = rw (get_of_find k f e)
ensure-section k f (inr (inr (g, e))) = rw (get_of_find k f e) (sym (set-find k (obj g) f e))

pub find-ensure_list :
    (k : String) (f : Fields)
    → IsListField k f
    → find k (ensure k (arr nil) f) ≡ some (arr (list_of k f))
unfolding ensure nullish
find-ensure_list k f (inl e) = rw (get_of_absent k f e) (find-set_self k (arr nil) f)
find-ensure_list k f (inr (inl e)) = rw (get_of_find k f e) (find-set_self k (arr nil) f)
find-ensure_list k f (inr (inr (xs, e))) = rw (get_of_find k f e) e

-- `config.Addresses` after an enable that adds these entries.
abbrev pub with_entries : List String → List String → Fields → Fields
with_entries swarm announce a =
    set "AppendAnnounce" (arr (append_items (list_of "AppendAnnounce" a) (text_items announce))) (
      set "Swarm" (arr (append_items (list_of "Swarm" a) (text_items swarm)))
        (ensure "AppendAnnounce" (arr nil) (ensure "Swarm" (arr nil) a)))

-- A second write of each list replaces the first.
writes_back :
    (e : Fields) (s p s' p' : Json)
    → find "Swarm" e ≡ some s
    → find "AppendAnnounce" e ≡ some p
    → set "AppendAnnounce" p (set "Swarm" s (set "AppendAnnounce" p' (set "Swarm" s' e))) ≡ e
writes_back e s p s' p' hs hp =
    ap (set "AppendAnnounce" p) (
      sym (
        set_comm "Swarm" "AppendAnnounce" p' s s' (set "Swarm" s' e) refl
          (find-set_self "Swarm" s' e)))
    ∙ rw (
      set-set "AppendAnnounce" p p' (set "Swarm" s (set "Swarm" s' e)),
      set-set "Swarm" s s' e,
      set-find "Swarm" s e hs,
      set-find "AppendAnnounce" p e hp,
    )

undo_lists-writes :
    (edits : KuboEditRecord) (xs ys : Items) (e : Fields)
    → let w = set "AppendAnnounce" (arr ys) (set "Swarm" (arr xs) e) in
      undo_lists edits w
      ≡ restore_shape "AppendAnnounce" edits.append_announce_list_shape (
          restore_shape "Swarm" edits.swarm_list_shape (
            set "AppendAnnounce"
              (arr (without_one_of_each ys edits.added_append_announce))
              (set "Swarm" (arr (without_one_of_each xs edits.added_swarm)) w)))
unfolding undo_lists
undo_lists-writes edits xs ys e =
    let w = set "AppendAnnounce" (arr ys) (set "Swarm" (arr xs) e) in
    rw (
      get-set_ne "Swarm" "AppendAnnounce" (arr ys) (set "Swarm" (arr xs) e) refl,
      get-set_self "Swarm" (arr xs) e,
      get-set_ne "AppendAnnounce" "Swarm" (arr (without_one_of_each xs edits.added_swarm)) w refl,
      get-set_self "AppendAnnounce" (arr ys) (set "Swarm" (arr xs) e),
    )

module _ (a : Fields) (swarm : IsListField "Swarm" a)
    (announce : IsListField "AppendAnnounce" a) where
  abbrev pub ensured : Fields
  ensured = ensure "AppendAnnounce" (arr nil) (ensure "Swarm" (arr nil) a)

  pub find_swarm : find "Swarm" ensured ≡ some (arr (list_of "Swarm" a))
  find_swarm =
      find-ensure_ne "Swarm" "AppendAnnounce" (arr nil) (ensure "Swarm" (arr nil) a) refl
      ∙ find-ensure_list "Swarm" a swarm

  pub find_announce : find "AppendAnnounce" ensured ≡ some (arr (list_of "AppendAnnounce" a))
  find_announce =
      find-ensure_list "AppendAnnounce" (ensure "Swarm" (arr nil) a) announce_later
      ∙ ap (λ v. some (arr (items_or_nil v)))
          (get-ensure_ne "AppendAnnounce" "Swarm" (arr nil) a refl)
    where
      announce_later : IsListField "AppendAnnounce" (ensure "Swarm" (arr nil) a)
      announce_later = rw (find-ensure_ne "AppendAnnounce" "Swarm" (arr nil) a refl) announce

  -- Without the entries the two lists are as `??= []` left them.
  lists_back :
      (edits : KuboEditRecord)
      → IsFresh (list_of "Swarm" a) edits.added_swarm
      → IsFresh (list_of "AppendAnnounce" a) edits.added_append_announce
      → undo_lists edits (with_entries edits.added_swarm edits.added_append_announce a)
        ≡ restore_shape "AppendAnnounce" edits.append_announce_list_shape
            (restore_shape "Swarm" edits.swarm_list_shape ensured)
  unfolding undo_lists
  lists_back edits fresh_s fresh_a = rw (
    undo_lists-writes edits (append_items (list_of "Swarm" a) (text_items edits.added_swarm))
        (append_items (list_of "AppendAnnounce" a) (text_items edits.added_append_announce))
        ensured,
    without_one_of_each-append (list_of "Swarm" a) edits.added_swarm fresh_s,
    without_one_of_each-append (list_of "AppendAnnounce" a) edits.added_append_announce fresh_a,
    writes_back ensured _ _ _ _ find_swarm find_announce,
  )

  -- The shapes of the record take away the lists that `??=` made.
  shapes_back :
      restore_shape "AppendAnnounce"
        (shape_of (get "AppendAnnounce" a))
        (restore_shape "Swarm" (shape_of (get "Swarm" a)) ensured)
      ≡ a
  shapes_back = rw (
    restore_shape-ensure_ne "AppendAnnounce" "Swarm" (shape_of (get "Swarm" a))
        (ensure "Swarm" (arr nil) a) refl (arr nil) (arr (list_of "Swarm" a)) refl
        (find-ensure_list "Swarm" a swarm),
    restore_shape-ensure "Swarm" (arr nil) a (IsListField-IsShaped "Swarm" a swarm) refl,
    restore_shape-ensure "AppendAnnounce" (arr nil) a
        (IsListField-IsShaped "AppendAnnounce" a announce) refl,
  )

  pub undo_lists-with_entries :
      (edits : KuboEditRecord)
      → IsFresh (list_of "Swarm" a) edits.added_swarm
      → IsFresh (list_of "AppendAnnounce" a) edits.added_append_announce
      → edits.swarm_list_shape ≡ shape_of (get "Swarm" a)
      → edits.append_announce_list_shape ≡ shape_of (get "AppendAnnounce" a)
      → undo_lists edits (with_entries edits.added_swarm edits.added_append_announce a) ≡ a
  undo_lists-with_entries edits fresh_s fresh_a shape_s shape_a =
      lists_back edits fresh_s fresh_a ∙ rw (shape_s, shape_a) shapes_back

-- The section `Addresses` is put back with its shape.
pub undo_addresses-set :
    (edits : KuboEditRecord) (config a : Fields)
    → IsSection "Addresses" config
    → edits.addresses_shape ≡ shape_of (get "Addresses" config)
    → undo_lists edits a ≡ section "Addresses" config
    → undo_addresses edits (set "Addresses" (obj a) config) ≡ some config
unfolding undo_addresses truthy
undo_addresses-set edits config a sound shape undone =
    rw (get-set_self "Addresses" (obj a) config, undone, shape, set-set)
      (ap some (
        ap (restore_shape "Addresses" (shape_of (get "Addresses" config)))
          (sym (ensure-section "Addresses" config sound))
        ∙ restore_shape-ensure "Addresses" (obj end) config
            (IsSection-IsShaped "Addresses" config sound) refl))
