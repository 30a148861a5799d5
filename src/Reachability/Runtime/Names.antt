-- ===== src/Reachability/Runtime/Names.antt =====
-- src/reachability/runtime.ts: `announcedNames`, `isNameHealthy`, `judgeName`, `checkNames`. A time is its
-- milliseconds, also where the code keeps its ISO text; one check has one `now`.
use Prim.Native.Char.{code}
use bitsocial_cli.Common.{
  ℕ, ◌*◌, ◌-◌, String, ◌<>◌, Bool, true, false, not, ◌&&◌, ◌||◌, Option, none, some, List, [], ◌∷◌,
  ◌++◌, any, includes, str_eq, ◌==◌, leb, or_default, ◌>>=◌, if◌then◌else◌,
}
use bitsocial_cli.Reachability.Runtime.{Net, is_same_certificate_name}

abbrev pub hour_ms : ℕ
hour_ms = 60 * 60 * 1000

abbrev pub stale_name_drop_after_ms : ℕ
stale_name_drop_after_ms = 24 * hour_ms

-- What the checks read and write of `ReachabilityConfig`; `domain_forced` is whether the field is true.
pub record NameConfig : Type 0 where
  pub announce : List String
  pub dropped_announce : Option (List String)
  pub external_announce : Option (List String)
  pub domain : Option String
  pub domain_forced : Bool

pub record AnnouncedName : Type 0 where
  pub name : String
  pub address : String
  pub only_require_resolution : Bool

-- The rest of a text after a prefix.
abbrev after_prefix : String → String → Option String
after_prefix String.[] s = some s
after_prefix (String.◌∷◌ c p) String.[] = none
after_prefix (String.◌∷◌ c p) (String.◌∷◌ d s) = if code c == code d then after_prefix p s else none

abbrev skip_version : String → String
skip_version String.[] = String.[]
skip_version (String.◌∷◌ c s) = if (code c == b'4') || (code c == b'6') then s else String.◌∷◌ c s

abbrev until_slash : String → String → Option String
until_slash cur String.[] = none
until_slash cur (String.◌∷◌ c s) =
    let longer = until_slash (cur <> String.◌∷◌ c String.[]) s in
    if code c == b'/' then some cur else longer

-- The group of `/^\/dns[46]?\/([^/]+)\//`
unfoldable pub dns_name : String → Option String
dns_name address =
    after_prefix "/dns" address
    >>= (λ s. after_prefix "/" (skip_version s))
    >>= until_slash ""
    >>= (λ name. if str_eq name "" then none else some name)

abbrev is_text : Option String → String → Bool
is_text none s = false
is_text (some t) s = str_eq s t

abbrev pub dropped_of : NameConfig → List String
dropped_of config = or_default config.dropped_announce []

unfoldable pub is_proxied : NameConfig → String → String → Bool
is_proxied config name address =
    includes address (or_default config.external_announce [])
    || (is_text config.domain name && config.domain_forced)

unfoldable pub names_of : NameConfig → List String → List AnnouncedName
names_of config [] = []
names_of config (a ∷ as') =
    let rest = names_of config as' in
    elim (dns_name a) [
      | none ↦ rest
      | some n ↦
          record { name = n; address = a; only_require_resolution = is_proxied config n a } ∷ rest
    ]

abbrev pub announced_names : NameConfig → List AnnouncedName
announced_names config = names_of config (config.announce ++ dropped_of config)

pub record ResolvedDomain : Type 0 where
  pub v4 : List String
  pub v6 : List String

abbrev is_empty : List String → Bool
is_empty [] = true
is_empty (x ∷ xs) = false

unfoldable pub is_name_healthy : Net → AnnouncedName → ResolvedDomain → List String → Bool
is_name_healthy net entry records public_ips =
    let resolved = records.v4 ++ records.v6 in
    if is_empty resolved
    then false
    else if entry.only_require_resolution
    then true
    else any (λ ip. any (λ own. is_same_certificate_name net ip own) public_ips) resolved

pub record NameVerdict : Type 0 where
  pub warn : Bool
  pub drop : Bool
  pub restore : Bool
  pub failing_since : Option ℕ

pub record Previous : Type 0 where
  pub failing_since : Option ℕ
  pub dropped_from_announce : Bool

abbrev was_dropped : Option Previous → Bool
was_dropped none = false
was_dropped (some p) = p.dropped_from_announce

abbrev was_failing : Option Previous → Option ℕ
was_failing none = none
was_failing (some p) = p.failing_since

-- `last === undefined || now - last >= HOUR_MS`
abbrev an_hour_since : Option ℕ → ℕ → Bool
an_hour_since none now = true
an_hour_since (some last) now = leb hour_ms (now - last)

unfoldable pub judge_name : Bool → Option Previous → Option ℕ → ℕ → NameVerdict
judge_name true previous last_warned now = record {
  warn = false;
  drop = false;
  restore = was_dropped previous;
  failing_since = none;
}
judge_name false previous last_warned now =
    let since = or_default (was_failing previous) now in
    record {
      warn = an_hour_since last_warned now;
      drop = not (was_dropped previous) && leb stale_name_drop_after_ms (now - since);
      restore = false;
      failing_since = some since;
    }
