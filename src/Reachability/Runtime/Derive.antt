-- ===== src/Reachability/Runtime/Derive.antt =====
-- src/reachability/runtime.ts: `derivePublicIps`, without what replaces it in tests.
use bitsocial_cli.Common.{
  String, ◌<>◌, Bool, true, false, not, ◌&&◌, ◌≡◌, refl, Option, none, some, List, [], ◌∷◌, ◌++◌,
  keep, any, includes, str_eq, if◌then◌else◌, arith, All, All-append, All-keep, Bool-cases, inl,
  inr, distinct, without, map, keep-append, append_nil, ◌∙◌, All-map, keep-All,
}
use bitsocial_cli.Reachability.Discovery.{
  Internet, NetworkInterface, is_public_ip, is_public_interface, public_ips_from_interfaces,
  add_public_ip, collect_public_ips, public_ips_from_multiaddrs,
}

-- `for (const ip of more) ips.add(ip)`
unfoldable pub add_ips : List String → List String → List String
add_ips ips [] = ips
add_ips ips (ip ∷ more) = add_ips (if includes ip ips then ips else ips ++ (ip ∷ [])) more

module _ (net : Internet) (without_peer_id : String → String) where
  -- Peers' reports fill in a family that is missing.
  unfoldable pub fill_in : (String → Bool) → List String → List String → List String
  fill_in is_family observed ips =
      if any is_family ips then ips else add_ips ips (keep is_family observed)

  -- `external` is what the router answers.
  unfoldable pub from_router : Option String → List String
  from_router none = []
  from_router (some external) =
      if str_eq external ""
      then []
      else public_ips_from_multiaddrs net without_peer_id (("/ip4/" <> external) ∷ []) []

  -- `identity` are the addresses that kubo reports.
  unfoldable pub observed_ips : Option (List String) → List String → List String
  observed_ips none announce = []
  observed_ips (some addresses) announce =
      public_ips_from_multiaddrs net without_peer_id addresses announce

  unfoldable pub derive_public_ips :
      List NetworkInterface → Option String → Option (List String) → List String → List String
  derive_public_ips interfaces external identity announce =
      let found = public_ips_from_interfaces net interfaces in
      let ips = if any net.is_ipv4 found then found else add_ips found (from_router external) in
      let observed = observed_ips identity announce in
      fill_in net.is_ipv6 observed (fill_in net.is_ipv4 observed ips)

  abbrev pub ArePublic : List String → Type 0
  ArePublic = All (λ ip. is_public_ip net ip ≡ true)

  All-without : (a : String) (xs : List String) → ArePublic xs → ArePublic (without a xs)
  unfolding without
  All-without a [] h = h
  All-without a (x ∷ xs) (p, h) = ground (arith, p, All-without a xs h)

  All-distinct : (xs : List String) → ArePublic xs → ArePublic (distinct xs)
  unfolding distinct
  All-distinct [] h = h
  All-distinct (x ∷ xs) (p, h) = (p, All-without x (distinct xs) (All-distinct xs h))

  interfaces-ArePublic :
      (infos : List NetworkInterface)
      → ArePublic
          (map (λ (info : NetworkInterface). info.address) (keep (is_public_interface net) infos))
  unfolding is_public_interface
  interfaces-ArePublic [] = tt
  interfaces-ArePublic (info ∷ infos) = elim (Bool-cases (is_public_interface net info)) [
    | inl e ↦ rw e (ground (arith, e), interfaces-ArePublic infos)
    | inr e ↦ rw e (interfaces-ArePublic infos)
  ]

  add_ips-ArePublic :
      (ips more : List String) → ArePublic ips → ArePublic more → ArePublic (add_ips ips more)
  unfolding add_ips
  add_ips-ArePublic ips [] h k = h
  add_ips-ArePublic ips (ip ∷ more) h (p, k) = elim (Bool-cases (includes ip ips)) [
    | inl e ↦ rw e (add_ips-ArePublic ips more h k)
    | inr e ↦ rw e (
        add_ips-ArePublic (ips ++ (ip ∷ [])) more
          (All-append (λ ip. is_public_ip net ip ≡ true) ips (ip ∷ []) h (p, tt)) k)
  ]

  add_public_ip-ArePublic :
      (ips : List String) (host : Option String)
      → ArePublic ips
      → ArePublic (add_public_ip net ips host)
  unfolding add_public_ip
  add_public_ip-ArePublic ips none h = h
  add_public_ip-ArePublic ips (some host) h =
      elim (Bool-cases (is_public_ip net host && not (includes host ips))) [
        | inl e ↦ rw e (
            All-append (λ ip. is_public_ip net ip ≡ true) ips (host ∷ []) h (ground (arith, e), tt))
        | inr e ↦ rw e h
      ]

  collect_public_ips-ArePublic :
      (own ips addresses : List String)
      → ArePublic ips
      → ArePublic (collect_public_ips net without_peer_id own ips addresses)
  unfolding collect_public_ips
  collect_public_ips-ArePublic own ips [] h = h
  collect_public_ips-ArePublic own ips (a ∷ as') h =
      elim (Bool-cases (includes (without_peer_id a) own)) [
        | inl e ↦ rw e (collect_public_ips-ArePublic own ips as' h)
        | inr e ↦ rw e (
            collect_public_ips-ArePublic own (add_public_ip net ips (net.ip_of a)) as'
              (add_public_ip-ArePublic ips (net.ip_of a) h))
      ]

  fill_in-ArePublic :
      (is_family : String → Bool) (observed ips : List String)
      → ArePublic observed
      → ArePublic ips
      → ArePublic (fill_in is_family observed ips)
  unfolding fill_in
  fill_in-ArePublic is_family observed ips k h = elim (Bool-cases (any is_family ips)) [
    | inl e ↦ rw e h
    | inr e ↦ rw e (
        add_ips-ArePublic ips (keep is_family observed) h
          (All-keep (λ ip. is_public_ip net ip ≡ true) is_family observed k))
  ]

  if-All :
      (b : Bool) (xs ys : List String)
      → ArePublic xs
      → ArePublic ys
      → ArePublic (if b then xs else ys)
  if-All true xs ys h k = h
  if-All false xs ys h k = k

  from_router-ArePublic : (external : Option String) → ArePublic (from_router external)
  unfolding from_router public_ips_from_multiaddrs
  from_router-ArePublic none = tt
  from_router-ArePublic (some external) =
      if-All (str_eq external "") []
        (collect_public_ips net without_peer_id [] [] (("/ip4/" <> external) ∷ [])) tt
        (collect_public_ips-ArePublic [] [] (("/ip4/" <> external) ∷ []) tt)

  observed_ips-ArePublic :
      (identity : Option (List String)) (announce : List String)
      → ArePublic (observed_ips identity announce)
  unfolding observed_ips public_ips_from_multiaddrs
  observed_ips-ArePublic none announce = tt
  observed_ips-ArePublic (some addresses) announce =
      collect_public_ips-ArePublic announce [] addresses tt

  -- Every derived address is public, whatever the router and the peers say.
  pub derive_public_ips-ArePublic :
      (interfaces : List NetworkInterface) (external : Option String)
      (identity : Option (List String)) (announce : List String)
      → ArePublic (derive_public_ips interfaces external identity announce)
  unfolding derive_public_ips public_ips_from_interfaces
  derive_public_ips-ArePublic interfaces external identity announce =
      let found = public_ips_from_interfaces net interfaces in
      let found_public : ArePublic found = All-distinct _ (interfaces-ArePublic interfaces) in
      let observed = observed_ips-ArePublic identity announce in
      fill_in-ArePublic net.is_ipv6 (observed_ips identity announce) _ observed (
        fill_in-ArePublic net.is_ipv4 (observed_ips identity announce) _ observed (
          if-All (any net.is_ipv4 found) found (add_ips found (from_router external)) found_public (
            add_ips-ArePublic found (from_router external) found_public
              (from_router-ArePublic external))))

keep-add_ips :
    (p : String → Bool) (ips more : List String)
    → All (λ ip. p ip ≡ false) more
    → keep p (add_ips ips more) ≡ keep p ips
unfolding add_ips
keep-add_ips p ips [] h = refl
keep-add_ips p ips (ip ∷ more) (e, h) = elim (Bool-cases (includes ip ips)) [
  | inl d ↦ rw d (keep-add_ips p ips more h)
  | inr d ↦ rw d (
      keep-add_ips p (ips ++ (ip ∷ [])) more h
      ∙ (keep-append p ips (ip ∷ []) ∙ rw e (append_nil (keep p ips))))
]

-- Where an interface has a public IPv4 address of its own, neither the router nor a peer adds one.
pub derive_public_ips-own_ipv4 :
    (net : Internet) (without_peer_id : String → String) (interfaces : List NetworkInterface)
    (external : Option String) (identity : Option (List String)) (announce : List String)
    → ((ip : String) → net.is_ipv6 ip ≡ true → net.is_ipv4 ip ≡ false)
    → any net.is_ipv4 (public_ips_from_interfaces net interfaces) ≡ true
    → keep net.is_ipv4 (derive_public_ips net without_peer_id interfaces external identity announce)
      ≡ keep net.is_ipv4 (public_ips_from_interfaces net interfaces)
unfolding derive_public_ips fill_in
derive_public_ips-own_ipv4 net without_peer_id interfaces external identity announce apart own =
    let found = public_ips_from_interfaces net interfaces in
    let observed = observed_ips net without_peer_id identity announce in
    rw (own, own)
      (elim (Bool-cases (any net.is_ipv6 found)) [
        | inl e ↦ rw e refl
        | inr e ↦ rw e (
            keep-add_ips net.is_ipv4 found (keep net.is_ipv6 observed) (
              All-map (λ ip. net.is_ipv6 ip ≡ true) (λ ip. net.is_ipv4 ip ≡ false) apart
                (keep net.is_ipv6 observed) (keep-All net.is_ipv6 observed)))
      ])
