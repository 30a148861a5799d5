-- ===== src/Reachability/KuboConfig/Lists.antt =====
-- The list edits of src/reachability/kubo-config.ts: what was appended is what is taken out again, and
-- the filters go back to where they were.
use bitsocial_cli.Common.{
  ℕ, suc, ◌≡◌, refl, sym, ap, ◌∙◌, inl, inr, String, true, false, List, [], ◌∷◌, ◌++◌, All,
  All-append, includes, arith, eq_iff, eq_refl, Bool-cases,
}
use bitsocial_cli.Json.{Json, str, Items, nil, cons}
use bitsocial_cli.Reachability.KuboConfig.Defs.{
  loopback_addr_filter, RemovedFilter, is_text, is_listed, items_include, append_items, text_items,
  without_entries, remove_first, without_one_of_each, insert_at, insert_all, removed_entries,
  missing, loopback_filters,
}

abbrev pub IsFresh : Items → List String → Type 0
IsFresh existing added = All (λ s. items_include s existing ≡ false) added

append_items-nil : (xs : Items) → append_items xs nil ≡ xs
append_items-nil nil = refl
append_items-nil (cons x xs) = ap (cons x) (append_items-nil xs)

append_items_assoc :
    (xs ys zs : Items) → append_items (append_items xs ys) zs ≡ append_items xs (append_items ys zs)
append_items_assoc nil ys zs = refl
append_items_assoc (cons x xs) ys zs = ap (cons x) (append_items_assoc xs ys zs)

remove_first-append :
    (s : String) (xs rest : Items)
    → items_include s xs ≡ false
    → remove_first s (append_items xs (cons (str s) rest)) ≡ append_items xs rest
unfolding remove_first items_include
remove_first-append s nil rest h = ground (arith, eq_refl s)
remove_first-append s (cons x xs) rest h = ground (arith, remove_first-append s xs rest)

-- Entries that the list did not have are found behind it, and taken out one by one.
pub without_one_of_each-append :
    (xs : Items) (added : List String)
    → IsFresh xs added
    → without_one_of_each (append_items xs (text_items added)) added ≡ xs
unfolding without_one_of_each
without_one_of_each-append xs [] h = append_items-nil xs
without_one_of_each-append xs (s ∷ ss) (fresh, h) =
    rw (remove_first-append s xs (text_items ss) fresh) (without_one_of_each-append xs ss h)

-- What `appendMissing` adds was not in the list.
pub missing-IsFresh :
    (xs : Items) (entries added : List String)
    → IsFresh xs added
    → IsFresh xs (missing xs entries added)
unfolding missing
missing-IsFresh xs [] added h = h
missing-IsFresh xs (entry ∷ entries) added h = elim (Bool-cases (items_include entry xs)) [
  | inl old ↦ rw old (missing-IsFresh xs entries added h)
  | inr new ↦ elim (Bool-cases (includes entry added)) [
    | inl twice ↦ rw (new, twice) (missing-IsFresh xs entries added h)
    | inr once ↦
        rw (new, once)
          (missing-IsFresh xs entries (added ++ (entry ∷ []))
            (All-append (λ s. items_include s xs ≡ false) added (entry ∷ []) h (new, tt)))
  ]
]

items_length : Items → ℕ
items_length nil = 0
items_length (cons x xs) = suc (items_length xs)

insert_at-append :
    (pre xs : Items) (e : Json)
    → insert_at (items_length pre) e (append_items pre xs) ≡ append_items pre (cons e xs)
unfolding insert_at items_length
insert_at-append nil nil e = refl
insert_at-append nil (cons x xs) e = refl
insert_at-append (cons y ys) xs e = ap (cons y) (insert_at-append ys xs e)

length-snoc :
    (pre : Items) (x : Json) → items_length (append_items pre (cons x nil)) ≡ suc (items_length pre)
unfolding items_length
length-snoc nil x = refl
length-snoc (cons y ys) x = ap (λ n. suc n) (length-snoc ys x)

is_text-eq : (s : String) (x : Json) → is_text s x ≡ true → x ≡ str s
is_text-eq s (str t) h = ap str ((eq_iff t s).0 h)
is_text-eq s Json.undefined h = cc
is_text-eq s Json.null h = cc
is_text-eq s (Json.bool b) h = cc
is_text-eq s (Json.num n) h = cc
is_text-eq s (Json.arr xs) h = cc
is_text-eq s (Json.obj f) h = cc

abbrev without_loopback : Items → Items
without_loopback xs = without_entries xs (loopback_addr_filter ∷ [])

-- An item may be counted to the part before it.
insert_all-snoc :
    (pre xs ys : Items) (x : Json) (rs : List RemovedFilter)
    → insert_all rs (append_items (append_items pre (cons x nil)) ys)
      ≡ append_items (append_items pre (cons x nil)) xs
    → insert_all rs (append_items pre (cons x ys)) ≡ append_items pre (cons x xs)
insert_all-snoc pre xs ys x rs h =
    rw (append_items_assoc pre (cons x nil) ys, append_items_assoc pre (cons x nil) xs) at h

insert_all-behind :
    (pre xs : Items) (n : ℕ)
    → n ≡ items_length pre
    → insert_all (loopback_filters n xs) (append_items pre (without_loopback xs))
      ≡ append_items pre xs
unfolding insert_all loopback_filters without_entries
insert_all-behind pre nil n e = refl
insert_all-behind pre (cons x xs) n e =
    let ih =
      insert_all-behind (append_items pre (cons x nil)) xs (suc n)
        (ap (λ k. suc k) e ∙ sym (length-snoc pre x)) in
    let shifted = insert_all-snoc pre xs (without_loopback xs) x (loopback_filters (suc n) xs) ih in
    elim (Bool-cases (is_text loopback_addr_filter x)) [
      | inl hit ↦
          rw (hit, e, insert_at-append pre (without_loopback xs) (str loopback_addr_filter))
            (rw (← is_text-eq loopback_addr_filter x hit, ← e) shifted)
      | inr miss ↦ rw miss shifted
    ]

-- The removed filters return to their places.
pub insert_all-loopback_filters :
    (xs : Items) → insert_all (loopback_filters 0 xs) (without_loopback xs) ≡ xs
unfolding items_length
insert_all-loopback_filters xs = insert_all-behind nil xs 0 refl

is_listed-removed_entries :
    (x : Json) (n : ℕ) (xs : Items)
    → is_text loopback_addr_filter x ≡ false
    → is_listed x (removed_entries (loopback_filters n xs)) ≡ false
unfolding loopback_filters removed_entries
is_listed-removed_entries x n nil h = refl
is_listed-removed_entries x n (cons y ys) h =
    ground (arith, is_listed-removed_entries x (suc n) ys h)

-- Taking the same filters out once more changes nothing.
pub without_entries_twice :
    (xs ys : Items) (n : ℕ)
    → without_entries (without_loopback xs) (removed_entries (loopback_filters n ys))
      ≡ without_loopback xs
unfolding without_entries
without_entries_twice nil ys n = refl
without_entries_twice (cons x xs) ys n = elim (Bool-cases (is_text loopback_addr_filter x)) [
  | inl hit ↦ rw hit (without_entries_twice xs ys n)
  | inr miss ↦
      rw (miss, without_entries, is_listed-removed_entries x n ys miss)
        (ap (cons x) (without_entries_twice xs ys n))
]
