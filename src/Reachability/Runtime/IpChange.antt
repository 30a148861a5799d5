-- ===== src/Reachability/Runtime/IpChange.antt =====
-- src/reachability/runtime.ts: `planIpChange`.
use bitsocial_cli.Common.{
  String, ◌≡◌, refl, sym, inl, inr, Bool, true, false, ◌&&◌, Option, none, some, List, [], ◌∷◌,
  ◌++◌, length, keep, any, every, All, In, ◌==◌, ==_self, arith, if◌then◌else◌, Bool-cases,
  keep-same_list, keep-none, keep-All, keep-append, All-keep, All-map, append_nil, every-In,
}
use bitsocial_cli.Reachability.Runtime.{Net, IsNet, is_same_certificate_name, same_name_refl}

abbrev take_one : List String → List String
take_one [] = []
take_one (x ∷ xs) = x ∷ []

abbrev is_empty : List String → Bool
is_empty [] = true
is_empty (x ∷ xs) = false

module _ (net : Net) where
  abbrev pub listed : List String → String → Bool
  listed seen ip = any (λ other. is_same_certificate_name net ip other) seen

  -- The addresses of one family: those held, those found.
  unfoldable pub family_next : List String → List String → List String
  family_next held seen =
      let still_held = keep (listed seen) held in
      if is_empty seen then held else if is_empty still_held then take_one seen else still_held

  abbrev pub next_ips : List String → List String → List String
  next_ips current derived =
      family_next (keep net.is_ipv4 current) (keep net.is_ipv4 derived)
      ++ family_next (keep net.is_ipv6 current) (keep net.is_ipv6 derived)

  unfoldable pub plan_ip_change : List String → List String → Option (List String)
  plan_ip_change current derived =
      let next = next_ips current derived in
      if (length next == length current) && every (listed current) next then none else some next

  family_next-All :
      (P : String → Type 0) (held seen : List String)
      → All P held
      → All P seen
      → All P (family_next held seen)
  unfolding family_next
  family_next-All P held [] h k = h
  family_next-All P held (s ∷ ss) h (p, k) = ground (arith, p, All-keep P (listed (s ∷ ss)) held h)

  -- A found address is listed among the found ones, so the choice stands.
  family_next-idempotent :
      IsNet net
      → (held seen : List String) → family_next (family_next held seen) seen ≡ family_next held seen
  unfolding family_next
  family_next-idempotent h held [] = refl
  family_next-idempotent h held (s ∷ ss) =
      let still = keep (listed (s ∷ ss)) held in
      let again = keep-same_list (listed (s ∷ ss)) still (keep-All (listed (s ∷ ss)) held) in
      let self = same_name_refl net h s in
      elim (Bool-cases (is_empty still)) [
        | inl e ↦ rw (e, self) refl
        | inr e ↦ rw (e, again, e) refl
      ]

  pub listed-In :
      IsNet net → (ip : String) (seen : List String) → In ip seen → listed seen ip ≡ true
  listed-In h ip [] i = absurd i
  listed-In h ip (s ∷ ss) (inl e) = ground (arith, e, same_name_refl net h ip)
  listed-In h ip (s ∷ ss) (inr i) = ground (arith, listed-In h ip ss i)

  not_ipv4 : IsNet net → (s : String) → net.is_ipv6 s ≡ true → net.is_ipv4 s ≡ false
  not_ipv4 h s e = ground (arith, h.apart s, e)

  -- The addresses of each family among the next ones are those that were chosen for it.
  next_ips-ipv4 :
      IsNet net
      → (current derived : List String)
      → keep net.is_ipv4 (next_ips current derived)
        ≡ family_next (keep net.is_ipv4 current) (keep net.is_ipv4 derived)
  next_ips-ipv4 h current derived =
      let v4 = family_next (keep net.is_ipv4 current) (keep net.is_ipv4 derived) in
      let v6 = family_next (keep net.is_ipv6 current) (keep net.is_ipv6 derived) in
      let own =
        family_next-All (λ x. net.is_ipv4 x ≡ true) (keep net.is_ipv4 current)
          (keep net.is_ipv4 derived) (keep-All net.is_ipv4 current)
          (keep-All net.is_ipv4 derived) in
      let other =
        family_next-All (λ x. net.is_ipv6 x ≡ true) (keep net.is_ipv6 current)
          (keep net.is_ipv6 derived) (keep-All net.is_ipv6 current)
          (keep-All net.is_ipv6 derived) in
      rw
        (
          keep-append net.is_ipv4 v4 v6,
          keep-same_list net.is_ipv4 v4 own,
          keep-none net.is_ipv4 v6 (
              All-map (λ x. net.is_ipv6 x ≡ true) (λ x. net.is_ipv4 x ≡ false) (not_ipv4 h) v6
                other),
        )
        (append_nil v4)

  next_ips-ipv6 :
      IsNet net
      → (current derived : List String)
      → keep net.is_ipv6 (next_ips current derived)
        ≡ family_next (keep net.is_ipv6 current) (keep net.is_ipv6 derived)
  next_ips-ipv6 h current derived =
      let v4 = family_next (keep net.is_ipv4 current) (keep net.is_ipv4 derived) in
      let v6 = family_next (keep net.is_ipv6 current) (keep net.is_ipv6 derived) in
      let own =
        family_next-All (λ x. net.is_ipv6 x ≡ true) (keep net.is_ipv6 current)
          (keep net.is_ipv6 derived) (keep-All net.is_ipv6 current)
          (keep-All net.is_ipv6 derived) in
      let other =
        family_next-All (λ x. net.is_ipv4 x ≡ true) (keep net.is_ipv4 current)
          (keep net.is_ipv4 derived) (keep-All net.is_ipv4 current)
          (keep-All net.is_ipv4 derived) in
      rw
        (
          keep-append net.is_ipv6 v4 v6,
          keep-same_list net.is_ipv6 v6 own,
          keep-none net.is_ipv6 v4
              (All-map (λ x. net.is_ipv4 x ≡ true) (λ x. net.is_ipv6 x ≡ false) h.apart v4 other),
        )
        refl

  next_ips-idempotent :
      IsNet net
      → (current derived : List String)
      → next_ips (next_ips current derived) derived ≡ next_ips current derived
  next_ips-idempotent h current derived =
      rw
        (
          next_ips-ipv4 h current derived,
          next_ips-ipv6 h current derived,
          family_next-idempotent h (keep net.is_ipv4 current) (keep net.is_ipv4 derived),
          family_next-idempotent h (keep net.is_ipv6 current) (keep net.is_ipv6 derived),
        )
        refl

-- Where an address change has been adopted and the same addresses are found again, no change is planned:
-- the daemon does not swing between addresses.
pub plan_ip_change-settles :
    (net : Net)
    → IsNet net
    → (current derived next : List String) → plan_ip_change net current derived ≡ some next
    → plan_ip_change net next derived ≡ none
unfolding plan_ip_change
plan_ip_change-settles net h current derived next e =
    let stable = next_ips-idempotent net h current derived in
    let all =
      every-In (listed net (next_ips net current derived)) (next_ips net current derived)
        (λ x i. listed-In net h x (next_ips net current derived) i) in
    let f : next_ips net current derived ≡ next = ground (arith, e) in
    rw (sym f, stable, ==_self (length (next_ips net current derived)), all) refl

family_kept :
    (net : Net) (held seen : List String)
    → (seen ≡ [] → family_next net held seen ≡ held)
      × (family_next net held seen ≡ [] → (seen ≡ []) × (held ≡ []))
unfolding family_next
family_kept net held [] = (λ _. refl, λ e. (refl, e))
family_kept net held (s ∷ ss) =
    ground (arith, Bool-cases (is_empty (keep (listed net (s ∷ ss)) held)))

-- Whatever an address change plans: of each family, IPv4 and IPv6, the planned addresses are those held
-- if none was found, and there are none only if none was found and none held.
pub plan_ip_change-families :
    (net : Net)
    → IsNet net
    → (current derived next : List String) → plan_ip_change net current derived ≡ some next
    → ((keep net.is_ipv4 derived ≡ [] → keep net.is_ipv4 next ≡ keep net.is_ipv4 current)
        × (keep net.is_ipv4 next ≡ []
            → (keep net.is_ipv4 derived ≡ []) × (keep net.is_ipv4 current ≡ [])))
      × ((keep net.is_ipv6 derived ≡ [] → keep net.is_ipv6 next ≡ keep net.is_ipv6 current)
          × (keep net.is_ipv6 next ≡ []
              → (keep net.is_ipv6 derived ≡ []) × (keep net.is_ipv6 current ≡ [])))
unfolding plan_ip_change
plan_ip_change-families net h current derived next e =
    let f : next_ips net current derived ≡ next = ground (arith, e) in
    rw (sym f, next_ips-ipv4 net h current derived, next_ips-ipv6 net h current derived)
      (
        family_kept net (keep net.is_ipv4 current) (keep net.is_ipv4 derived),
        family_kept net (keep net.is_ipv6 current) (keep net.is_ipv6 derived),
      )
