-- ===== src/Reachability/Runtime.antt =====
-- src/reachability/runtime.ts: what the daemon decides at its checks. Node's `net` and `toLowerCase` are
-- parameters.
pub mod IpChange
pub mod Names
pub mod Backoff
pub mod Check
pub mod Derive
pub mod CaddyWatch
pub mod Moving
pub mod Conservation
pub mod Dropping
use bitsocial_cli.Common.{
  String, Bool, ◌&&◌, ◌≡◌, true, false, str_eq, if◌then◌else◌, eq_refl, Bool-cases, arith,
}

-- What the code uses of Node: `blocks a b` is whether a `BlockList` of the IPv6 address a holds b.
pub record Net : Type 0 where
  pub is_ipv4 : String → Bool
  pub is_ipv6 : String → Bool
  pub blocks : String → String → Bool
  pub to_lower : String → String

-- No address is of both families, and a block list holds the address it was made of.
pub record IsNet (net : Net) : Type 0 where
  pub apart : (s : String) → net.is_ipv4 s ≡ true → net.is_ipv6 s ≡ false
  pub holds : (s : String) → net.is_ipv6 s ≡ true → net.blocks s s ≡ true

-- `isSameCertificateName` of src/reachability/state.ts
unfoldable pub is_same_certificate_name : Net → String → String → Bool
is_same_certificate_name net a b =
    if net.is_ipv6 a && net.is_ipv6 b
    then net.blocks a b
    else str_eq (net.to_lower a) (net.to_lower b)

pub same_name_refl :
    (net : Net) → IsNet net → (s : String) → is_same_certificate_name net s s ≡ true
unfolding is_same_certificate_name
same_name_refl net h s = ground (arith, h.holds s, eq_refl (net.to_lower s))
