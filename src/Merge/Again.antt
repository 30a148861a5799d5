-- ===== src/Merge/Again.antt =====
-- src/util.ts: with replaced arrays, merging the same source again changes nothing.
use bitsocial_cli.Common.{
  String, ◌≡◌, refl, sym, ap, ◌∙◌, inl, inr, ◌⊎◌, none, some, str_eq, eq_iff, eq_refl, arith,
  Bool-cases,
}
use mathlib.Core.Path.{subst}
use bitsocial_cli.Json.{
  Json, undefined, null, bool, num, str, arr, obj, Fields, end, field, find, get, set,
}
use bitsocial_cli.Json.Laws.{set-find, get_of_find}
use bitsocial_cli.Merge.{replace, merge_arrays, merge_deep, merge_fields}
use bitsocial_cli.Merge.Lookup.{IsUnique, merged, merge_fields-find}

-- Every object within the value, but for those in its arrays, has each name once.
abbrev mutual
  pub IsSound : Json → Type 0
  IsSound (obj f) = IsUnique f × AreSound f
  IsSound _ = Unit

  pub AreSound : Fields → Type 0
  AreSound end = Unit
  AreSound (field k v f) = IsSound v × AreSound f

-- What a merge has put under each name of the source.
abbrev pub Holds : Fields → Fields → Type 0
Holds r end = Unit
Holds r (field k v g) = ((u : Json) × (find k r ≡ some (merge_deep replace u v))) × Holds r g

differs : {v : Json} → some v ≡ none → ⊥
differs e = ground (arith, e)

Holds-find :
    (r g : Fields)
    → IsUnique g
    → ((k : String) (v : Json)
        → find k g ≡ some v
        → (u : Json) × (find k r ≡ some (merge_deep replace u v)))
    → Holds r g
unfolding find
Holds-find r end n h = tt
Holds-find r (field k v g) (n, m) h = (
  h k v (ground (arith, eq_refl k)),
  Holds-find r g m (λ j w e. elim (Bool-cases (str_eq k j)) [
    | inl same ↦ absurd (differs (sym e ∙ subst (λ x. find x g ≡ none) ((eq_iff k j).0 same) n))
    | inr other ↦ h j w (ground (arith, other, e))
  ]),
)

abbrev pub IsObject : Json → Type 0
IsObject (obj f) = Unit
IsObject _ = ⊥

-- What is no object replaces the target.
merge_deep_flat : (t s : Json) → ¬ IsObject s → merge_deep replace t s ≡ s
unfolding merge_deep merge_arrays
merge_deep_flat undefined s h = refl
merge_deep_flat null s h = refl
merge_deep_flat (bool a) s h = refl
merge_deep_flat (num a) s h = refl
merge_deep_flat (str a) s h = refl
merge_deep_flat (arr xs) undefined h = refl
merge_deep_flat (arr xs) null h = refl
merge_deep_flat (arr xs) (bool b) h = refl
merge_deep_flat (arr xs) (num n) h = refl
merge_deep_flat (arr xs) (str x) h = refl
merge_deep_flat (arr xs) (arr ys) h = refl
merge_deep_flat (arr xs) (obj g) h = absurd (h tt)
merge_deep_flat (obj f) undefined h = refl
merge_deep_flat (obj f) null h = refl
merge_deep_flat (obj f) (bool b) h = refl
merge_deep_flat (obj f) (num n) h = refl
merge_deep_flat (obj f) (str x) h = refl
merge_deep_flat (obj f) (arr ys) h = refl
merge_deep_flat (obj f) (obj g) h = absurd (h tt)

merge_deep_obj :
    (t : Json) (g : Fields) → ((f : Fields) × (t ≡ obj f)) ⊎ (merge_deep replace t (obj g) ≡ obj g)
unfolding merge_deep
merge_deep_obj (obj f) g = inl (f, refl)
merge_deep_obj undefined g = inr refl
merge_deep_obj null g = inr refl
merge_deep_obj (bool b) g = inr refl
merge_deep_obj (num n) g = inr refl
merge_deep_obj (str s) g = inr refl
merge_deep_obj (arr xs) g = inr refl

merge_deep-obj_obj :
    (f g : Fields) → merge_deep replace (obj f) (obj g) ≡ obj (merge_fields replace f f g)
unfolding merge_deep
merge_deep-obj_obj f g = refl

merge_deep-undefined : (s : Json) → merge_deep replace undefined s ≡ s
unfolding merge_deep
merge_deep-undefined s = refl

flat_again :
    (s t : Json)
    → ¬ IsObject s
    → merge_deep replace (merge_deep replace t s) s ≡ merge_deep replace t s
flat_again s t h = merge_deep_flat (merge_deep replace t s) s h ∙ sym (merge_deep_flat t s h)

fields_end : (r : Fields) → merge_fields replace r r end ≡ r
unfolding merge_fields
fields_end r = refl

-- A property that holds already is written back as it is.
fields_step :
    (r : Fields) (j : String) (v : Json) (g : Fields) (u : Json)
    → find j r ≡ some (merge_deep replace u v)
    → merge_deep replace (merge_deep replace u v) v ≡ merge_deep replace u v
    → merge_fields replace r r (field j v g) ≡ merge_fields replace r r g
unfolding merge_fields
fields_step r j v g u e a =
    ap (λ w. merge_fields replace r (set j (merge_deep replace w v) r) g) (get_of_find j r e)
    ∙ ap (λ w. merge_fields replace r (set j w r) g) a
    ∙ ap (λ x. merge_fields replace r x g) (set-find j (merge_deep replace u v) r e)

-- What the merge of two objects has.
Holds-merge : (f g : Fields) → IsUnique g → Holds (merge_fields replace f f g) g
Holds-merge f g m =
    Holds-find (merge_fields replace f f g) g m (λ k v e.
      (get k f, merge_fields-find replace f f g k m ∙ ap (merged replace f (find k f) k) e))

mutual
  again :
      (s : Json)
      → IsSound s
      → (t : Json) → merge_deep replace (merge_deep replace t s) s ≡ merge_deep replace t s
  again (obj g) (m, h) t =
      let self : merge_deep replace (obj g) (obj g) ≡ obj g =
        merge_deep-obj_obj g g
        ∙ ap obj (
            again_fields g h g (
              Holds-find g g m
                (λ k v e. (undefined, e ∙ ap some (sym (merge_deep-undefined v)))))) in
      elim (merge_deep_obj t g) [
        | inr e ↦ rw (e, self) refl
        | inl (f, e) ↦
            rw (e, merge_deep-obj_obj f g, merge_deep-obj_obj (merge_fields replace f f g) g)
              (ap obj (again_fields g h (merge_fields replace f f g) (Holds-merge f g m)))
      ]
  again undefined h t = flat_again undefined t (λ e. e)
  again null h t = flat_again null t (λ e. e)
  again (bool b) h t = flat_again (bool b) t (λ e. e)
  again (num n) h t = flat_again (num n) t (λ e. e)
  again (str x) h t = flat_again (str x) t (λ e. e)
  again (arr xs) h t = flat_again (arr xs) t (λ e. e)

  again_fields :
      (g : Fields) → AreSound g → (r : Fields) → Holds r g → merge_fields replace r r g ≡ r
  again_fields end h r k = fields_end r
  again_fields (field j v g) (p, h) r ((u, e), k) =
      fields_step r j v g u e (again v p u) ∙ again_fields g h r k

-- Merging a source a second time changes nothing, with arrays replaced: where no object of the source, but
-- for those in its arrays, has a name twice.
pub merge_deep_idempotent :
    (t s : Json)
    → IsSound s
    → merge_deep replace (merge_deep replace t s) s ≡ merge_deep replace t s
merge_deep_idempotent t s h = again s h t
