-- ===== src/Tests/Merging.antt =====
-- src/util.ts on the settings of a community that are edited.
use bitsocial_cli.Common.{◌+◌, ◌≡◌, refl, if◌then◌else◌, ltb}
use bitsocial_cli.Json.{str, arr, obj, nil, cons, Fields, end, field, find}
use bitsocial_cli.Merge.{replace, items_length, item_at, merge_items, merge_deep}
use bitsocial_cli.Merge.Again.{IsSound, merge_deep_idempotent}
use bitsocial_cli.Merge.Arrays.{merge_items-item_at}

abbrev old : Fields
old =
    field "title" (str "old")
      (field "settings" (obj (field "rules" (arr (cons (str "a") (cons (str "b") nil))) end)) end)

abbrev edit : Fields
edit = field "settings" (obj (field "rules" (arr (cons (str "c") nil)) end)) end

edit-IsSound : IsSound (obj edit)
unfolding find
edit-IsSound = ((refl, tt), (((refl, tt), (tt, tt)), tt))

merge_deep_idempotent_example :
    merge_deep replace (merge_deep replace (obj old) (obj edit)) (obj edit)
    ≡ merge_deep replace (obj old) (obj edit)
merge_deep_idempotent_example = merge_deep_idempotent (obj old) (obj edit) edit-IsSound

-- One rule that takes another's place leaves an undefined one behind it.
merge_items-item_at_example :
    (items_length (merge_items (cons (str "a") nil) (cons (str "c") nil))
      ≡ items_length (cons (str "c") nil) + items_length (cons (str "a") nil))
    × (item_at (merge_items (cons (str "a") nil) (cons (str "c") nil)) 1 ≡ (
        if ltb 1 (items_length (cons (str "c") nil))
        then item_at (cons (str "c") nil) 1
        else item_at (cons (str "a") nil) 1))
merge_items-item_at_example = merge_items-item_at (cons (str "a") nil) (cons (str "c") nil) 1
