-- ===== src/Reachability/Runtime/Check.antt =====
-- src/reachability/runtime.ts: the loop of `checkNames`, `warnThrottled`. What follows the loop, saving and applying a
-- config that changed, is in the store.
use bitsocial_cli.Common.{
  ℕ, ◌-◌, String, Bool, true, false, not, ◌&&◌, ◌||◌, Option, none, some, List, [], ◌∷◌, ◌++◌,
  includes, str_eq, if◌then◌else◌, ltb, without, distinct,
}
use bitsocial_cli.Reachability.Runtime.{Net}
use bitsocial_cli.Reachability.Runtime.Names.{
  NameConfig, AnnouncedName, ResolvedDomain, NameVerdict, Previous, hour_ms, announced_names,
  is_name_healthy, judge_name, dropped_of,
}

pub record NameStatus : Type 0 where
  pub last_check_at : ℕ
  pub ok : Bool
  pub failing_since : Option ℕ
  pub dropped_from_announce : Bool

-- `domains` and `last_warned` by name.
pub record CheckState : Type 0 where
  pub next : NameConfig
  pub changed : Bool
  pub domains : String → Option NameStatus
  pub last_warned : String → Option ℕ

abbrev pub put {ℓ} : {A : Type ℓ} → (String → A) → String → A → String → A
put m k v j = if str_eq j k then v else m j

abbrev is_due : Option ℕ → ℕ → Bool
is_due none now = true
is_due (some last) now = not (ltb (now - last) hour_ms)

unfoldable pub warn_throttled : (String → Option ℕ) → String → ℕ → String → Option ℕ
warn_throttled last_warned name now =
    if is_due (last_warned name) now then put last_warned name (some now) else last_warned

unfoldable pub drop_address : String → NameConfig → NameConfig
drop_address a c = record c {
  announce = without a c.announce;
  dropped_announce = some (distinct (dropped_of c ++ (a ∷ [])));
}

abbrev some_if_any : List String → Option (List String)
some_if_any [] = none
some_if_any (x ∷ xs) = some (x ∷ xs)

unfoldable pub restore_address : String → NameConfig → NameConfig
restore_address a c = record c {
  announce = distinct (c.announce ++ (a ∷ []));
  dropped_announce = some_if_any (without a (dropped_of c));
}

-- An address that setup announced again starts anew.
unfoldable pub previous_of : Option NameStatus → Bool → Option Previous
previous_of none is_dropped =
    some (record { failing_since = none; dropped_from_announce = is_dropped })
previous_of (some stored) is_dropped =
    if stored.dropped_from_announce && not is_dropped
    then none
    else some (record { failing_since = stored.failing_since; dropped_from_announce = is_dropped })

unfoldable pub apply_verdict : String → NameVerdict → NameConfig → NameConfig
apply_verdict a verdict c =
    let dropped = if verdict.drop then drop_address a c else c in
    if verdict.restore then restore_address a dropped else dropped

module _ (net : Net) (resolve_domain : String → ResolvedDomain) (public_ips : List String) (now : ℕ)
    (config : NameConfig) (stored : String → Option NameStatus) where
  abbrev healthy_of : AnnouncedName → Bool
  healthy_of entry = is_name_healthy net entry (resolve_domain entry.name) public_ips

  abbrev pub is_dropped_of : AnnouncedName → Bool
  is_dropped_of entry = includes entry.address (dropped_of config)

  unfoldable pub verdict_of : AnnouncedName → (String → Option ℕ) → NameVerdict
  verdict_of entry last_warned =
      judge_name (healthy_of entry) (previous_of (stored entry.name) (is_dropped_of entry))
        (last_warned entry.name) now

  unfoldable pub warned_of : AnnouncedName → NameVerdict → (String → Option ℕ) → String → Option ℕ
  warned_of entry verdict last_warned =
      let warned =
        if verdict.warn then warn_throttled last_warned entry.name now else last_warned in
      if healthy_of entry then put warned entry.name none else warned

  -- One round of the loop.
  unfoldable pub check_entry : AnnouncedName → CheckState → CheckState
  check_entry entry s =
      let verdict = verdict_of entry s.last_warned in
      let dropped =
        if verdict.restore then false else if verdict.drop then true else is_dropped_of entry in
      record {
        next = apply_verdict entry.address verdict s.next;
        changed = s.changed || verdict.drop || verdict.restore;
        domains = put s.domains entry.name (
            some (record {
              last_check_at = now;
              ok = healthy_of entry;
              failing_since = verdict.failing_since;
              dropped_from_announce = dropped;
            }));
        last_warned = warned_of entry verdict s.last_warned;
      }

  unfoldable pub check_entries : List AnnouncedName → CheckState → CheckState
  check_entries [] s = s
  check_entries (entry ∷ entries) s = check_entries entries (check_entry entry s)

  unfoldable pub check_names : (String → Option ℕ) → CheckState
  check_names last_warned =
      check_entries (announced_names config)
        (record { next = config; changed = false; domains = λ _. none; last_warned = last_warned })
