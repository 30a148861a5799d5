-- ===== src/Merge/Arrays.antt =====
-- src/util.ts: the entries of two dense arrays that are merged.
use bitsocial_cli.Common.{
  ℕ, zero, suc, ◌+◌, ◌-◌, ◌≤◌, ◌≡◌, refl, ap, ◌∙◌, false, if◌then◌else◌, ltb, arith, Bool-cases,
  inl, inr,
}
use bitsocial_cli.Json.{undefined, Items, nil, cons}
use bitsocial_cli.Merge.{items_length, item_at, place_target, append_items, merge_items}

length-place_target :
    (target : Items) (i left : ℕ) → items_length (place_target target i left) ≡ left
unfolding place_target
length-place_target target i zero = refl
length-place_target target i (suc left) = omega (arith, length-place_target target (suc i) left)

length-append_items :
    (xs ys : Items) → items_length (append_items xs ys) ≡ items_length xs + items_length ys
length-append_items nil ys = omega arith
length-append_items (cons x xs) ys = omega (arith, length-append_items xs ys)

item_at-append_items :
    (xs ys : Items) (i : ℕ)
    → item_at (append_items xs ys) i
      ≡ (if ltb i (items_length xs) then item_at xs i else item_at ys (i - items_length xs))
item_at-append_items nil ys i = ground arith
item_at-append_items (cons x xs) ys zero = ground arith
item_at-append_items (cons x xs) ys (suc i) =
    let shift : suc i - suc (items_length xs) ≡ i - items_length xs = omega arith in
    ground (arith, item_at-append_items xs ys i, ap (item_at ys) shift)

item_at-place_target :
    (target : Items) (from left i : ℕ)
    → item_at (place_target target from left) i
      ≡ (if ltb i left then item_at target (from + i) else undefined)
unfolding place_target
item_at-place_target target from zero i = ground arith
item_at-place_target target from (suc left) zero =
    let at_start : from + 0 ≡ from = omega arith in ground (arith, ap (item_at target) at_start)
item_at-place_target target from (suc left) (suc i) =
    let shift : from + suc i ≡ suc from + i = omega arith in
    ground (arith, item_at-place_target target (suc from) left i, ap (item_at target) shift)

-- Nothing stands at or behind the end.
item_at_end : (xs : Items) (i : ℕ) → items_length xs ≤ i → item_at xs i ≡ undefined
item_at_end nil i h = refl
item_at_end (cons x xs) zero h = absurd (ground (arith, h))
item_at_end (cons x xs) (suc i) h = item_at_end xs i (omega (arith, h))

-- A merge of two dense arrays has as many entries as both together; an entry is the source's where the source
-- reaches, otherwise the target's at the same index, and undefined where neither reaches.
pub merge_items-item_at :
    (target source : Items) (i : ℕ)
    → (items_length (merge_items target source) ≡ items_length source + items_length target)
      × (item_at (merge_items target source) i
          ≡ (if ltb i (items_length source) then item_at source i else item_at target i))
unfolding merge_items
merge_items-item_at target source i =
    let m = items_length source in
    let placed = place_target target m (items_length target) in
    let back : ltb i m ≡ false → m + (i - m) ≡ i = λ h. ground (arith, h) in
    let far : ltb i m ≡ false
        → ltb (i - m) (items_length target) ≡ false
        → item_at target i ≡ undefined =
      λ h k. item_at_end target i (ground (arith, h, k)) in
    (
      length-append_items source placed
          ∙ ap (λ n. m + n) (length-place_target target m (items_length target)),
      item_at-append_items source placed i ∙ elim (Bool-cases (ltb i m)) [
        | inl h ↦ ground (arith, h)
        | inr h ↦ ground (
          arith,
          h,
          item_at-place_target target m (items_length target) (i - m),
          ap (item_at target) (back h),
          far h,
        )
      ],
    )
