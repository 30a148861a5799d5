-- ===== src/Merge.antt =====
-- src/util.ts: `mergeDeep` and `replaceNullWithUndefined`, on values as JSON.parse builds them, whose arrays
-- have no holes. An object with a property `constructor`, which `isPlainObject` does not take for a plain one, is merged
-- here like any other.
pub mod Lookup
pub mod Again
pub mod Arrays
use bitsocial_cli.Common.{ℕ, zero, suc, ◌+◌, Bool, true, false, if◌then◌else◌, ltb}
use bitsocial_cli.Json.{
  Json, undefined, null, bool, num, str, arr, obj, Items, nil, cons, Fields, end, field, get, set,
}

pub data ArrayStrategy : Type 0 where
  concat replace : ArrayStrategy

abbrev pub items_length : Items → ℕ
items_length nil = 0
items_length (cons x xs) = suc (items_length xs)

-- `i < xs.length ? xs[i] : undefined`
abbrev pub item_at : Items → ℕ → Json
item_at nil i = undefined
item_at (cons x xs) zero = x
item_at (cons x xs) (suc i) = item_at xs i

-- The second loop of a dense merge: what stands from index i on, as many entries as are left.
unfoldable pub place_target : Items → ℕ → ℕ → Items
place_target target i zero = nil
place_target target i (suc left) = cons (item_at target i) (place_target target (suc i) left)

abbrev pub append_items : Items → Items → Items
append_items nil ys = ys
append_items (cons x xs) ys = cons x (append_items xs ys)

-- The source's entries, then the target's at the indices behind them, up to both lengths together.
unfoldable pub merge_items : Items → Items → Items
merge_items target source =
    append_items source (place_target target (items_length source) (items_length target))

unfoldable pub merge_arrays : ArrayStrategy → Items → Items → Items
merge_arrays replace target source = source
merge_arrays concat target source = merge_items target source

unfoldable mutual
  pub merge_deep : ArrayStrategy → Json → Json → Json
  merge_deep s (arr xs) (arr ys) = arr (merge_arrays s xs ys)
  merge_deep s (obj f) (obj g) = obj (merge_fields s f f g)
  merge_deep s target source = source

  -- The loop over the source's properties. Where not both values are arrays or both objects, merging them
  -- gives the source's.
  pub merge_fields : ArrayStrategy → Fields → Fields → Fields → Fields
  merge_fields s target result end = result
  merge_fields s target result (field k v g) =
      merge_fields s target (set k (merge_deep s (get k target) v) result) g

unfoldable mutual
  pub replace_null_with_undefined : Json → Json
  replace_null_with_undefined null = undefined
  replace_null_with_undefined (arr xs) = arr (replace_in_items xs)
  replace_null_with_undefined (obj f) = obj (replace_in_fields f)
  replace_null_with_undefined v = v

  pub replace_in_items : Items → Items
  replace_in_items nil = nil
  replace_in_items (cons x xs) = cons (replace_null_with_undefined x) (replace_in_items xs)

  pub replace_in_fields : Fields → Fields
  replace_in_fields end = end
  replace_in_fields (field k v f) = field k (replace_null_with_undefined v) (replace_in_fields f)
