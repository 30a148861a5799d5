-- ===== src/Reachability/Runtime/Backoff.antt =====
-- src/reachability/runtime.ts: `backOffIssuance` and `addressesWorthTrying`, with the map of the families'
-- backoffs as their state.
use bitsocial_cli.Common.{
  ℕ, zero, suc, ◌+◌, ◌-◌, ◌*◌, ◌^◌, ◌≤◌, ◌<◌, min, String, ◌≡◌, ◌≢◌, refl, sym, inl, inr, Bool,
  true, false, not, ◌&&◌, Option, none, some, List, [], ◌∷◌, All, In, keep, any, leb, ◌==◌, ==_self,
  arith, if◌then◌else◌, Bool-cases, keep-All, All-map,
}
use mathlib.Core.Path.{subst}
use bitsocial_cli.Reachability.Runtime.{Net, IsNet}
use bitsocial_cli.Reachability.Runtime.Names.{hour_ms}
use bitsocial_cli.Reachability.Runtime.IpChange.{listed, listed-In}

pub record Backoff : Type 0 where
  pub failures : ℕ
  pub retry_at : ℕ
  pub held_at_failure : List String

-- `net.isIP`
unfoldable pub ip_family : Net → String → ℕ
ip_family net ip = if net.is_ipv4 ip then 4 else if net.is_ipv6 ip then 6 else 0

abbrev pub failures_of : Option Backoff → ℕ
failures_of none = 0
failures_of (some b) = b.failures

-- The wait after this many failures, of which there is at least one.
unfoldable pub wait_ms : ℕ → ℕ
wait_ms failures = min (hour_ms * 2 ^ (failures - 1)) (24 * hour_ms)

abbrev pub of_family : Net → ℕ → List String → List String
of_family net family ips = keep (λ ip. ip_family net ip == family) ips

unfoldable pub back_off_issuance :
    Net → ℕ → String → List String → (ℕ → Option Backoff) → ℕ → Option Backoff
back_off_issuance net now ip public_ips backoffs family =
    let failures = failures_of (backoffs family) + 1 in
    if family == ip_family net ip
    then some (record {
      failures = failures;
      retry_at = now + wait_ms failures;
      held_at_failure = of_family net family public_ips;
    })
    else backoffs family

-- An address of the family that it did not hold when it failed ends its wait.
unfoldable pub is_over : Net → List String → ℕ → Backoff → Bool
is_over net public_ips family b =
    any (λ ip. (ip_family net ip == family) && not (listed net b.held_at_failure ip)) public_ips

unfoldable pub without_over : Net → List String → (ℕ → Option Backoff) → ℕ → Option Backoff
without_over net public_ips backoffs family = elim (backoffs family) [
  | none ↦ none
  | some b ↦ if is_over net public_ips family b then none else some b
]

abbrev pub is_due : ℕ → Option Backoff → Bool
is_due now none = true
is_due now (some b) = leb b.retry_at now

unfoldable pub addresses_worth_trying :
    Net → ℕ → List String → (ℕ → Option Backoff) → List String → List String
addresses_worth_trying net now public_ips backoffs derived =
    keep (λ ip. is_due now (without_over net public_ips backoffs (ip_family net ip))) derived

one_le_pow : (k : ℕ) → 1 ≤ 2 ^ k
one_le_pow zero = omega arith
one_le_pow (suc k) = omega (arith, one_le_pow k)

less_one : (k : ℕ) → suc k - 1 ≡ k
less_one k = omega arith

-- However often a family has failed, it waits at least an hour and at most a day, and never less than after
-- one failure fewer.
pub wait_ms-bounds :
    (failures : ℕ)
    → (hour_ms ≤ wait_ms failures)
      × (wait_ms failures ≤ 24 * hour_ms)
      × (wait_ms failures ≤ wait_ms (suc failures))
unfolding wait_ms
wait_ms-bounds zero = (omega arith, omega arith, omega arith)
wait_ms-bounds (suc k) =
    rw (less_one k, less_one (suc k))
      (omega (arith, one_le_pow k), omega arith, omega (arith, one_le_pow k))

none_new :
    (net : Net) (h : IsNet net) (family : ℕ) (held ips : List String)
    → ((ip : String) → In ip ips → (ip_family net ip == family) ≡ true → In ip held)
    → any (λ ip. (ip_family net ip == family) && not (listed net held ip)) ips ≡ false
none_new net h family held [] k = refl
none_new net h family held (ip ∷ ips) k = elim (Bool-cases (ip_family net ip == family)) [
  | inl e ↦ ground (
    arith,
    e,
    listed-In net h ip held (k ip (inl refl) e),
    none_new net h family held ips (λ x i. k x (inr i)),
  )
  | inr e ↦ ground (arith, e, none_new net h family held ips (λ x i. k x (inr i)))
]

In-of_family :
    (net : Net) (family : ℕ) (ips : List String) (ip : String)
    → In ip ips
    → (ip_family net ip == family) ≡ true
    → In ip (of_family net family ips)
In-of_family net family [] ip i h = absurd i
In-of_family net family (x ∷ ips) ip (inl e) h =
    subst (λ y. In y (of_family net family (x ∷ ips))) (sym e)
      (rw (subst (λ y. (ip_family net y == family) ≡ true) e h) (inl refl))
In-of_family net family (x ∷ ips) ip (inr i) h = ground (arith, In-of_family net family ips ip i h)

backed_off :
    (net : Net) (now : ℕ) (ip : String) (public_ips : List String) (backoffs : ℕ → Option Backoff)
    → back_off_issuance net now ip public_ips backoffs (ip_family net ip)
      ≡ some (record {
        failures = failures_of (backoffs (ip_family net ip)) + 1;
        retry_at = now + wait_ms (failures_of (backoffs (ip_family net ip)) + 1);
        held_at_failure = of_family net (ip_family net ip) public_ips;
      })
unfolding back_off_issuance
backed_off net now ip public_ips backoffs = rw (==_self (ip_family net ip)) refl

not_over :
    (net : Net) (h : IsNet net) (family : ℕ) (public_ips : List String) (failures retry_at : ℕ)
    → is_over net public_ips family (record {
      failures = failures;
      retry_at = retry_at;
      held_at_failure = of_family net family public_ips;
    })
      ≡ false
unfolding is_over
not_over net h family public_ips failures retry_at =
    none_new net h family (of_family net family public_ips) public_ips
      (In-of_family net family public_ips)

waiting :
    (net : Net) (h : IsNet net) (now later : ℕ) (ip : String) (public_ips : List String)
    (backoffs : ℕ → Option Backoff)
    → later < now + wait_ms (failures_of (backoffs (ip_family net ip)) + 1)
    → is_due later (
        without_over net public_ips
          (back_off_issuance net now ip public_ips backoffs)
          (ip_family net ip))
      ≡ false
unfolding without_over
waiting net h now later ip public_ips backoffs soon =
    rw
      (
        backed_off net now ip public_ips backoffs,
        without_over,
        not_over net h (ip_family net ip) public_ips (failures_of (backoffs (ip_family net ip)) + 1)
            (now + wait_ms (failures_of (backoffs (ip_family net ip)) + 1)),
      )
      (ground (arith, soon))

-- While a family waits after a failure, none of its addresses is worth trying, as long as the addresses that
-- the node holds are those it held at the failure.
pub addresses_worth_trying-waits :
    (net : Net)
    → IsNet net
    → (now later : ℕ) (ip : String) (public_ips derived : List String)
      (backoffs : ℕ → Option Backoff)
    → later < now + wait_ms (failures_of (backoffs (ip_family net ip)) + 1)
    → All
        (λ x. ip_family net x ≢ ip_family net ip)
        (addresses_worth_trying net later public_ips
          (back_off_issuance net now ip public_ips backoffs)
          derived)
unfolding addresses_worth_trying
addresses_worth_trying-waits net h now later ip public_ips derived backoffs soon =
    All-map
      (λ x.
        is_due later (
          without_over net public_ips (back_off_issuance net now ip public_ips backoffs)
            (ip_family net x))
        ≡ true)
      (λ x. ip_family net x ≢ ip_family net ip)
      (λ x due e. ground (
        arith,
        due,
        subst
            (λ f.
              is_due later
                (without_over net public_ips (back_off_issuance net now ip public_ips backoffs) f)
              ≡ false)
            (sym e) (waiting net h now later ip public_ips backoffs soon),
      ))
      (addresses_worth_trying net later public_ips
        (back_off_issuance net now ip public_ips backoffs) derived)
      (keep-All
        (λ x. is_due later (
          without_over net public_ips (back_off_issuance net now ip public_ips backoffs)
            (ip_family net x)))
        derived)
