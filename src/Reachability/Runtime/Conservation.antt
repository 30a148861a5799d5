-- ===== src/Reachability/Runtime/Conservation.antt =====
-- src/reachability/runtime.ts: the checks lose no address and invent none.
use bitsocial_cli.Common.{
  ℕ, String, ◌≡◌, refl, sym, ◌∙◌, inl, inr, Bool, true, false, not, ◌&&◌, ◌||◌, Option, none, List,
  [], ◌∷◌, ◌++◌, All, includes, str_eq, eq_iff, eq_refl, arith, Bool-cases, Option-cases, All-map,
  without, distinct,
}
use bitsocial_cli.Reachability.Runtime.{Net}
use bitsocial_cli.Reachability.Runtime.Names.{
  NameConfig, AnnouncedName, ResolvedDomain, NameVerdict, announced_names, names_of, dropped_of,
  dns_name,
}
use bitsocial_cli.Reachability.Runtime.Check.{
  NameStatus, CheckState, drop_address, restore_address, apply_verdict, check_entry, check_entries,
  check_names, verdict_of,
}

-- The address is announced or waits among the dropped ones.
abbrev pub is_held : String → NameConfig → Bool
is_held a c = includes a c.announce || includes a (dropped_of c)

includes-append :
    (a : String) (xs ys : List String) → includes a (xs ++ ys) ≡ (includes a xs || includes a ys)
includes-append a [] ys = refl
includes-append a (x ∷ xs) ys = ground (arith, includes-append a xs ys)

includes-without :
    (a b : String) (xs : List String)
    → includes a (without b xs) ≡ (includes a xs && not (str_eq a b))
unfolding without
includes-without a b [] = refl
includes-without a b (x ∷ xs) =
    ground (arith, includes-without a b xs, eq_iff a x, eq_iff x b, eq_iff a b)

includes-distinct : (a : String) (xs : List String) → includes a (distinct xs) ≡ includes a xs
unfolding distinct
includes-distinct a [] = refl
includes-distinct a (x ∷ xs) =
    ground (arith, includes-distinct a xs, includes-without a x (distinct xs))

drop_address-is_held :
    (a b : String) (c : NameConfig)
    → is_held b c ≡ true
    → is_held a (drop_address b c) ≡ is_held a c
unfolding drop_address
drop_address-is_held a b c h = ground (
  arith,
  h,
  eq_iff a b,
  includes-without a b c.announce,
  includes-distinct a (dropped_of c ++ (b ∷ [])),
  includes-append a (dropped_of c) (b ∷ []),
)

restore_address-is_held :
    (a b : String) (c : NameConfig)
    → is_held b c ≡ true
    → is_held a (restore_address b c) ≡ is_held a c
unfolding restore_address
restore_address-is_held a b c h = ground (
  arith,
  h,
  eq_iff a b,
  includes-without a b (dropped_of c),
  includes-distinct a (c.announce ++ (b ∷ [])),
  includes-append a c.announce (b ∷ []),
)

apply_verdict-is_held :
    (a b : String) (verdict : NameVerdict) (c : NameConfig)
    → is_held b c ≡ true
    → is_held a (apply_verdict b verdict c) ≡ is_held a c
unfolding apply_verdict
apply_verdict-is_held a b verdict c h =
    let dropped = drop_address-is_held a b c h in
    let still : is_held b (drop_address b c) ≡ true = drop_address-is_held b b c h ∙ h in
    ground (
      arith,
      dropped,
      restore_address-is_held a b c h,
      restore_address-is_held a b (drop_address b c) still,
      Bool-cases verdict.drop,
      Bool-cases verdict.restore,
    )

-- Every name comes from an address of the list.
names_of-addresses :
    (config : NameConfig) (P : String → Type 0) (as' : List String)
    → All P as'
    → All (λ entry. P entry.address) (names_of config as')
unfolding names_of
names_of-addresses config P [] h = tt
names_of-addresses config P (a ∷ as') (p, h) = elim (Option-cases (dns_name a)) [
  | inl e ↦ rw (e, names_of) (names_of-addresses config P as' h)
  | inr (n, e) ↦ rw (e, names_of) (p, names_of-addresses config P as' h)
]

All-includes : (xs : List String) → All (λ a. includes a xs ≡ true) xs
All-includes [] = tt
All-includes (x ∷ xs) = (
  ground (arith, eq_refl x),
  All-map (λ a. includes a xs ≡ true) (λ a. includes a (x ∷ xs) ≡ true) (λ a e. ground (arith, e))
      xs (All-includes xs),
)

announced_names-is_held :
    (config : NameConfig)
    → All (λ entry. is_held entry.address config ≡ true) (announced_names config)
announced_names-is_held config =
    let addresses = config.announce ++ dropped_of config in
    names_of-addresses config (λ a. is_held a config ≡ true) addresses
      (All-map (λ a. includes a addresses ≡ true) (λ a. is_held a config ≡ true)
        (λ a e. sym (includes-append a config.announce (dropped_of config)) ∙ e) addresses
        (All-includes addresses))

module _ (net : Net) (resolve_domain : String → ResolvedDomain) (public_ips : List String) (now : ℕ)
    (config : NameConfig) (stored : String → Option NameStatus) where
  check_entry-is_held :
      (a : String) (entry : AnnouncedName) (s : CheckState)
      → is_held entry.address s.next ≡ true
      → is_held a (check_entry net resolve_domain public_ips now config stored entry s).next
        ≡ is_held a s.next
  unfolding check_entry
  check_entry-is_held a entry s p =
      apply_verdict-is_held a entry.address
        (verdict_of net resolve_domain public_ips now config stored entry s.last_warned) s.next p

  check_entries-is_held :
      (a : String) (entries : List AnnouncedName) (s : CheckState)
      → All (λ entry. is_held entry.address s.next ≡ true) entries
      → is_held a (check_entries net resolve_domain public_ips now config stored entries s).next
        ≡ is_held a s.next
  unfolding check_entries
  check_entries-is_held a [] s h = refl
  check_entries-is_held a (entry ∷ entries) s (p, h) =
      let after = check_entry net resolve_domain public_ips now config stored entry s in
      check_entries-is_held a entries after (
        All-map (λ e. is_held e.address s.next ≡ true) (λ e. is_held e.address after.next ≡ true)
          (λ e k. check_entry-is_held e.address entry s p ∙ k) entries h)
      ∙ check_entry-is_held a entry s p

-- However the names resolve, a check loses no address and invents none: what is announced or waits among
-- the dropped addresses after it is what was before.
pub check_names-is_held :
    (net : Net) (resolve_domain : String → ResolvedDomain) (public_ips : List String) (now : ℕ)
    (config : NameConfig) (stored : String → Option NameStatus) (last_warned : String → Option ℕ)
    (a : String)
    → is_held a (check_names net resolve_domain public_ips now config stored last_warned).next
      ≡ is_held a config
unfolding check_names
check_names-is_held net resolve_domain public_ips now config stored last_warned a =
    check_entries-is_held net resolve_domain public_ips now config stored a (announced_names config)
      (record { next = config; changed = false; domains = λ _. none; last_warned = last_warned })
      (announced_names-is_held config)
