-- ===== src/Reachability/KuboConfig/Undo.antt =====
-- src/reachability/kubo-config.ts: each edit of an enable is taken back by the undo of its record.
use bitsocial_cli.Common.{◌≡◌, ◌∙◌, ◌⊎◌, inl, inr, String, true, false, none, some, str_eq, arith}
use bitsocial_cli.Json.{Json, Fields, find, get, set, nullish}
use bitsocial_cli.Json.Laws.{
  find-set_self, find-set_ne, set-find, set-set, set_comm, remove-set_ne, remove-set_absent,
  get_of_find, get_of_absent, get-set_self, get-set_ne, get-remove_ne, find-remove_ne,
}
use bitsocial_cli.Reachability.KuboConfig.Defs.{
  OriginalShape, present, shape_of, is_empty, restore_shape, put_shape, ensure,
}

-- A property that is missing, null, or something else than undefined: one that JSON can hold.
abbrev pub IsShaped : String → Fields → Type 0
IsShaped k f =
    (find k f ≡ none)
    ⊎ ((find k f ≡ some Json.null)
        ⊎ ((v : Json) × (find k f ≡ some v) × (shape_of v ≡ present) × (nullish v ≡ false)))

module _ (k : String) (d : Json) (f : Fields) where
  ensure_absent : find k f ≡ none → ensure k d f ≡ set k d f
  unfolding ensure nullish
  ensure_absent h = rw (get_of_absent k f h)

  ensure_null : find k f ≡ some Json.null → ensure k d f ≡ set k d f
  unfolding ensure nullish
  ensure_null h = rw (get_of_find k f h)

  ensure_present : {v : Json} → find k f ≡ some v → nullish v ≡ false → ensure k d f ≡ f
  unfolding ensure
  ensure_present h n = rw (get_of_find k f h, n)

  -- A default that is still empty is taken away again, and the property has the value that it had.
  pub restore_shape-ensure :
      IsShaped k f → is_empty d ≡ true → restore_shape k (shape_of (get k f)) (ensure k d f) ≡ f
  unfolding restore_shape shape_of
  restore_shape-ensure (inl none_f) e =
      rw (ensure_absent none_f, get_of_absent k f none_f, get-set_self k d f, e)
        (remove-set_absent k d f none_f)
  restore_shape-ensure (inr (inl null_f)) e =
      rw (ensure_null null_f, get_of_find k f null_f, get-set_self k d f, e)
        (set-set k Json.null d f ∙ set-find k Json.null f null_f)
  restore_shape-ensure (inr (inr (v, found, shape, n))) e =
      rw (ensure_present found n, get_of_find k f found) (ground arith)

  ensure_found :
      IsShaped k f
      → shape_of d ≡ present
      → (v : Json) × (find k (ensure k d f) ≡ some v) × (nullish v ≡ false)
  unfolding nullish shape_of
  ensure_found (inl none_f) e = (d, rw (ensure_absent none_f) (find-set_self k d f), ground arith)
  ensure_found (inr (inl null_f)) e =
      (d, rw (ensure_null null_f) (find-set_self k d f), ground arith)
  ensure_found (inr (inr (v, found, shape, n))) e = (v, rw (ensure_present found n) found, n)

module _ (j k : String) (s : OriginalShape) (f : Fields) (ne : str_eq k j ≡ false) where
  put_shape-set :
      (v w : Json)
      → str_eq j k ≡ false
      → find k f ≡ some w
      → put_shape k s (set j v f) ≡ set j v (put_shape k s f)
  put_shape-set v w nf found =
      ground (arith, remove-set_ne k j v f nf, set_comm k j v Json.null w f nf found)

  pub restore_shape-set :
      (v w : Json)
      → str_eq j k ≡ false
      → find k f ≡ some w
      → restore_shape k s (set j v f) ≡ set j v (restore_shape k s f)
  unfolding restore_shape
  restore_shape-set v w nf found =
      rw (get-set_ne k j v f nf) (ground (arith, put_shape-set v w nf found))

  pub get-restore_shape : get j (restore_shape k s f) ≡ get j f
  unfolding restore_shape
  get-restore_shape = ground (arith, get-remove_ne j k f ne, get-set_ne j k Json.null f ne)

  pub find-restore_shape : find j (restore_shape k s f) ≡ find j f
  unfolding restore_shape
  find-restore_shape = ground (arith, find-remove_ne j k f ne, find-set_ne j k Json.null f ne)

  pub restore_shape-ensure_ne :
      (d w : Json)
      → str_eq j k ≡ false
      → find k f ≡ some w
      → restore_shape k s (ensure j d f) ≡ ensure j d (restore_shape k s f)
  unfolding ensure
  restore_shape-ensure_ne d w nf found =
      rw get-restore_shape (ground (arith, restore_shape-set d w nf found))

pub find-ensure_ne :
    (j k : String) (d : Json) (f : Fields) → str_eq k j ≡ false → find j (ensure k d f) ≡ find j f
unfolding ensure
find-ensure_ne j k d f ne = ground (arith, find-set_ne j k d f ne)

pub get-ensure_ne :
    (j k : String) (d : Json) (f : Fields) → str_eq k j ≡ false → get j (ensure k d f) ≡ get j f
unfolding ensure
get-ensure_ne j k d f ne = ground (arith, get-set_ne j k d f ne)
