-- ===== src/Reachability/Unmanaged.antt =====
-- src/reachability/unmanaged.ts: browser addresses that setup did not put there. The regular expressions on a
-- multiaddr, the dial and the resolution of a name are parameters.
use bitsocial_cli.Common.{
  String, ◌<>◌, Bool, true, false, not, ◌&&◌, ◌||◌, ◌≡◌, ◌↔◌, ◌⊎◌, refl, Option, none, some, List,
  [], ◌∷◌, ◌++◌, map, keep, any, every, contains, includes, str_eq, if◌then◌else◌, join_with,
  or_default, arith, inl, inr,
}
use bitsocial_cli.Reachability.Discovery.{Internet, is_public_ip}
use bitsocial_cli.Reachability.Checks.{CheckStatus, ok, warn, fail, unknown, ReachabilityCheck}

pub data AddressStatus : Type 0 where
  dialed : AddressStatus
  failed : AddressStatus
  unconfirmed : AddressStatus
  unverified : AddressStatus

pub record UnmanagedAddress : Type 0 where
  pub address : String
  pub status : AddressStatus
  pub error : Option String

-- What the regular expressions find: the address without its peer id, whether browsers can dial its kind, and
-- its IP address or DNS name.
pub record Multiaddrs : Type 0 where
  pub without_peer_id : String → String
  pub is_browser_dialable : String → Bool
  pub ip_of_address : String → Option String
  pub name_of_address : String → Option String

-- `resolve` answers the addresses or the error's message, `dial` the message of its error, if it fails.
pub record Network : Type 0 where
  pub resolve : String → List String ⊎ String
  pub dial : String → Option String

unfoldable pub same_status : AddressStatus → AddressStatus → Bool
same_status dialed dialed = true
same_status failed failed = true
same_status unconfirmed unconfirmed = true
same_status unverified unverified = true
same_status _ _ = false

unfoldable pub is_of : AddressStatus → UnmanagedAddress → Bool
is_of status a = same_status a.status status

unfoldable pub unmanaged : String → AddressStatus → Option String → UnmanagedAddress
unmanaged address status error = record { address = address; status = status; error = error }

module _ (net : Internet) (texts : Multiaddrs) (treat_as_public : List String) where
  unfoldable pub counts_as_public : String → Bool
  counts_as_public ip = is_public_ip net ip || includes ip treat_as_public

  unfoldable pub is_browser_address : String → Bool
  is_browser_address address =
      let bare = texts.without_peer_id address in
      if contains address "/p2p-circuit"
        || contains bare "*"
        || not (texts.is_browser_dialable bare)
      then false
      else elim (texts.ip_of_address bare) [ none ↦ true | some ip ↦ counts_as_public ip ]

  -- The map's entries, in the order that they were put: the address without its peer id, and as it came.
  unfoldable pub unique_from : List (String × String) → List String → List (String × String)
  unique_from seen [] = seen
  unique_from seen (address ∷ addresses) =
      let bare = texts.without_peer_id address in
      let known = any (λ (entry : String × String). str_eq entry.0 bare) seen in
      let more = if is_browser_address address && not known then (bare, address) ∷ [] else [] in
      unique_from (seen ++ more) addresses

  unfoldable pub unique_browser_addresses : List String → List (String × String)
  unique_browser_addresses addresses = unique_from [] addresses

  module _ (network : Network) (local_ips : List String) (shorten : String → String) where
    -- The `catch`: a failure counts as real only at addresses of this machine.
    unfoldable pub caught : String → List String → String → UnmanagedAddress
    caught address targets error =
        let status = if every (λ ip. includes ip local_ips) targets then failed else unconfirmed in
        unmanaged address status (some (shorten error))

    unfoldable pub dial_at : String → String → List String → UnmanagedAddress
    dial_at address dialable targets = elim (network.dial dialable) [
      | none ↦ unmanaged address dialed none
      | some error ↦ caught address targets error
    ]

    unfoldable pub is_private_only : List String → Bool
    is_private_only [] = false
    is_private_only (ip ∷ ips) = not (any counts_as_public (ip ∷ ips))

    unfoldable pub ip_targets : String → List String
    ip_targets address = elim (texts.ip_of_address address) [ none ↦ [] | some ip ↦ ip ∷ [] ]

    unfoldable pub verify_resolved :
        String → String → String → List String ⊎ String → UnmanagedAddress
    verify_resolved address dialable name (inl targets) =
        if is_private_only targets
        then unmanaged address failed (some (name <> " resolves only to private addresses"))
        else dial_at address dialable targets
    verify_resolved address dialable name (inr error) = caught address (ip_targets address) error

    unfoldable pub verify_address : String × String → UnmanagedAddress
    verify_address entry = elim (texts.name_of_address entry.0) [
      | none ↦ dial_at entry.0 entry.1 (ip_targets entry.0)
      | some name ↦ verify_resolved entry.0 entry.1 name (network.resolve name)
    ]

    unfoldable pub verify_unmanaged_addresses :
        Option (List String) → Option (List String) → List UnmanagedAddress
    verify_unmanaged_addresses none config =
        map (λ (entry : String × String). unmanaged entry.0 unverified none)
          (unique_browser_addresses (or_default config []))
    verify_unmanaged_addresses (some running) config =
        map verify_address (unique_browser_addresses running)

-- `join(", ")` of the addresses, with their errors.
unfoldable pub addresses_text : List UnmanagedAddress → String
addresses_text addresses = join_with ", " (map (λ (a : UnmanagedAddress). a.address) addresses)

unfoldable pub errors_text : List UnmanagedAddress → String
errors_text addresses = join_with ", " (
    map (λ (a : UnmanagedAddress). a.address <> " (" <> or_default a.error "undefined" <> ")")
      addresses)

unfoldable pub handshake_succeeded_message : String → String
handshake_succeeded_message address =
    "kubo announces " <> address
    <> " and a handshake from this machine succeeded. `bitsocial reachability` does not manage it."

unfoldable pub handshake_failed_message : List UnmanagedAddress → String
handshake_failed_message failed_ones =
    "Announced addresses that failed a handshake: " <> errors_text failed_ones

unfoldable pub unconfirmed_message : List UnmanagedAddress → String
unconfirmed_message addresses =
    "Could not connect from this machine to "
    <> errors_text addresses
    <> ". Browsers may still be able to, as a router often will not connect a machine to its own public address"

unfoldable pub unverified_message : List UnmanagedAddress → String
unverified_message addresses =
    "kubo's config announces "
    <> addresses_text addresses
    <> ", which cannot be verified while the daemon is not running."

unfoldable pub of_status : List UnmanagedAddress → AddressStatus → List UnmanagedAddress
of_status addresses status = keep (is_of status) addresses

unfoldable pub is_none : List UnmanagedAddress → Bool
is_none [] = true
is_none (a ∷ as') = false

unfoldable pub browser_check : CheckStatus → String → Option String → ReachabilityCheck
browser_check status detail fix = record {
  id = "browser-address";
  status = status;
  detail = detail;
  fix = fix;
}

abbrev message_if_any : (List UnmanagedAddress → String) → List UnmanagedAddress → List String
message_if_any message addresses = if is_none addresses then [] else message addresses ∷ []

unfoldable pub problems_of : List UnmanagedAddress → List String
problems_of addresses =
    message_if_any handshake_failed_message (of_status addresses failed)
    ++ message_if_any unconfirmed_message (of_status addresses unconfirmed)

unfoldable pub succeeded_of : List UnmanagedAddress → List String
succeeded_of addresses =
    message_if_any (λ oks. "A handshake from this machine succeeded through " <> addresses_text oks)
      (of_status addresses dialed)

unfoldable pub browser_address_check : List UnmanagedAddress → Option ReachabilityCheck
browser_address_check addresses =
    let oks = of_status addresses dialed in
    let unconfirmed_ones = of_status addresses unconfirmed in
    let unverified_ones = of_status addresses unverified in
    let fix = some "Check the server in front of kubo, or run: bitsocial reachability setup" in
    let failed_text = handshake_failed_message (of_status addresses failed) in
    let texts = join_with ". " (succeeded_of addresses ++ problems_of addresses) in
    let quiet = is_none (of_status addresses failed) && is_none unconfirmed_ones in
    if is_none addresses
    then none
    else if not (is_none unverified_ones)
    then some (browser_check unknown (unverified_message unverified_ones) none)
    else if is_none oks && is_none unconfirmed_ones
    then some (browser_check fail failed_text fix)
    else if not quiet
    then some (browser_check warn texts fix)
    else some (browser_check ok (join_with "" (succeeded_of addresses)) none)

unfoldable pub not_configured_summary : List UnmanagedAddress → List String
not_configured_summary addresses =
    let oks = of_status addresses dialed in
    let unconfirmed_ones = of_status addresses unconfirmed in
    let unverified_ones = of_status addresses unverified in
    let failures = message_if_any handshake_failed_message (of_status addresses failed) in
    if is_none oks && is_none unconfirmed_ones && is_none unverified_ones
    then "Reachability is not configured. Browsers cannot reach this node. Run: bitsocial reachability setup"
      ∷ failures
    else "`bitsocial reachability setup` has not been run on this node."
      ∷ (map (λ (a : UnmanagedAddress). handshake_succeeded_message a.address) oks
          ++ (failures
              ++ (message_if_any unconfirmed_message unconfirmed_ones
                  ++ message_if_any unverified_message unverified_ones)))

-- No address has one of the other three states.
abbrev has_no_other : List UnmanagedAddress → Bool
has_no_other addresses =
    is_none (of_status addresses failed)
    && is_none (of_status addresses unconfirmed)
    && is_none (of_status addresses unverified)

has_no_other-every :
    (addresses : List UnmanagedAddress) → has_no_other addresses ≡ every (is_of dialed) addresses
unfolding of_status is_of same_status is_none
has_no_other-every [] = refl
has_no_other-every (a ∷ as') = ground (arith, has_no_other-every as')

of_status-dialed :
    (addresses : List UnmanagedAddress)
    → every (is_of dialed) addresses ≡ true
    → is_none (of_status addresses dialed) ≡ is_none addresses
unfolding of_status is_of same_status is_none
of_status-dialed [] h = refl
of_status-dialed (a ∷ as') h = ground arith

abbrev pub status_of : Option ReachabilityCheck → Option CheckStatus
status_of none = none
status_of (some c) = some c.status

-- The report says that browser addresses are fine just when there is one and every one of them passed a
-- handshake.
pub browser_address_check-ok_iff :
    (addresses : List UnmanagedAddress)
    → status_of (browser_address_check addresses) ≡ some ok
      ↔ (is_none addresses ≡ false) × (every (is_of dialed) addresses ≡ true)
unfolding browser_address_check browser_check
browser_address_check-ok_iff addresses =
    ground (arith, has_no_other-every addresses, of_status-dialed addresses)
