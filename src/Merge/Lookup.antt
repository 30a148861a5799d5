-- ===== src/Merge/Lookup.antt =====
-- src/util.ts: what a merged object has, and that merging the same source again changes nothing.
use bitsocial_cli.Common.{
  String, ◌≡◌, refl, ap, ◌∙◌, inl, inr, Option, none, some, str_eq, eq_iff, Bool-cases,
}
use mathlib.Core.Path.{subst}
use bitsocial_cli.Json.{Json, obj, Fields, end, field, find, get, set}
use bitsocial_cli.Json.Laws.{find-set_self, find-set_ne}
use bitsocial_cli.Merge.{ArrayStrategy, merge_deep, merge_fields}

-- No name stands in an object twice.
abbrev pub IsUnique : Fields → Type 0
IsUnique end = Unit
IsUnique (field k v f) = (find k f ≡ none) × IsUnique f

-- What the merged object has under a name: the source's value merged into the target's, or the target's own.
abbrev pub merged : ArrayStrategy → Fields → Option Json → String → Option Json → Option Json
merged s target old k none = old
merged s target old k (some v) = some (merge_deep s (get k target) v)

pub merge_fields-find :
    (s : ArrayStrategy) (target result g : Fields) (k : String)
    → IsUnique g
    → find k (merge_fields s target result g) ≡ merged s target (find k result) k (find k g)
unfolding merge_fields find
merge_fields-find s target result end k h = refl
merge_fields-find s target result (field j v g) k (n, h) =
    let w = merge_deep s (get j target) v in
    elim (Bool-cases (str_eq j k)) [
      | inl e ↦ rw e (
          subst
            (λ x.
              find x (merge_fields s target (set j w result) g)
              ≡ merged s target (find x result) x (some v))
            ((eq_iff j k).0 e)
            (merge_fields-find s target (set j w result) g j h
              ∙ ap (merged s target (find j (set j w result)) j) n
              ∙ find-set_self j w result))
      | inr e ↦ rw e (
          merge_fields-find s target (set j w result) g k h
          ∙ ap (λ o. merged s target o k (find k g)) (find-set_ne k j w result e))
    ]

-- Whatever the target has, the merge of two objects has under each name the source's value merged into the
-- target's, and under a name that the source lacks what the target has, provided that the source has no
-- name twice.
merge_deep-find :
    (s : ArrayStrategy) (f g : Fields) (k : String)
    → IsUnique g
    → (h : Fields) × (merge_deep s (obj f) (obj g) ≡ obj h)
      × (find k h ≡ merged s f (find k f) k (find k g))
unfolding merge_deep
merge_deep-find s f g k u = (merge_fields s f f g, refl, merge_fields-find s f f g k u)
