-- ===== src/Reachability/Runtime/Dropping.antt =====
-- src/reachability/runtime.ts: what the checks make of one name over time.
use bitsocial_cli.Common.{
  String, includes, eq_refl, ℕ, ◌+◌, Bool, true, false, ◌||◌, ◌≡◌, Option, none, some, List, [],
  ◌∷◌, leb, if◌then◌else◌, arith,
}
use bitsocial_cli.Reachability.Runtime.{Net}
use bitsocial_cli.Reachability.Runtime.Names.{
  Previous, judge_name, NameConfig, AnnouncedName, ResolvedDomain, is_name_healthy, dropped_of,
}
use bitsocial_cli.Reachability.Runtime.Check.{
  NameStatus, CheckState, check_entry, verdict_of, previous_of,
}

-- What a check keeps of a name for the next one, where nobody changes the config between them.
unfoldable pub judged : Previous → Bool → ℕ → Previous
judged previous healthy now =
    let verdict = judge_name healthy (some previous) none now in
    record {
      failing_since = verdict.failing_since;
      dropped_from_announce =
          if verdict.restore
          then false
          else if verdict.drop
          then true
          else previous.dropped_from_announce;
    }

-- Checks at these times, all of which find the name failing.
abbrev pub fail_all : List ℕ → Previous → Previous
fail_all [] previous = previous
fail_all (now ∷ times) previous = fail_all times (judged previous false now)

-- A name that is announced and does not fail.
abbrev pub announced : Previous
announced = record { failing_since = none; dropped_from_announce = false }

-- One of the times is 24 hours after the first, or later.
abbrev pub is_day_after : ℕ → List ℕ → Bool
is_day_after first [] = false
is_day_after first (now ∷ times) = leb (first + 86400000) now || is_day_after first times

fail_all-since :
    (first : ℕ) (times : List ℕ) (dropped : Bool)
    → fail_all times (record { failing_since = some first; dropped_from_announce = dropped })
      ≡ record {
        failing_since = some first;
        dropped_from_announce = dropped || is_day_after first times;
      }
unfolding judged judge_name
fail_all-since first [] dropped = ground arith
fail_all-since first (now ∷ times) dropped =
    ground (arith, fail_all-since first times true, fail_all-since first times dropped)

-- An announced name that fails at every check from a first one on is dropped exactly if one of the later checks is 24
-- hours after the first or more, and fails since that first check. The first healthy check after them has the name
-- announced again, just if it was dropped, and forgets that it failed.
pub fail_all-dropped :
    (first : ℕ) (times : List ℕ) (later : ℕ) (last_warned : Option ℕ)
    → let after = fail_all (first ∷ times) announced in
      (after.failing_since ≡ some first)
      × (after.dropped_from_announce ≡ is_day_after first times)
      × ((judge_name true (some after) last_warned later).restore ≡ is_day_after first times)
      × (judged after true later ≡ announced)
unfolding judged judge_name
fail_all-dropped first times later last_warned = ground (arith, fail_all-since first times false)

-- The status that a check writes for a name is `judged`, from the one before where that agrees with the config on
-- whether the address is dropped.
check_entry-judged :
    (net : Net) (resolve_domain : String → ResolvedDomain) (public_ips : List String) (now : ℕ)
    (config : NameConfig) (stored : String → Option NameStatus) (entry : AnnouncedName)
    (status : NameStatus) (s : CheckState)
    → stored entry.name ≡ some status
    → includes entry.address (dropped_of config) ≡ status.dropped_from_announce
    → let after =
        judged
          (record {
            failing_since = status.failing_since;
            dropped_from_announce = status.dropped_from_announce;
          })
          (is_name_healthy net entry (resolve_domain entry.name) public_ips)
          now in
      (check_entry net resolve_domain public_ips now config stored entry s).domains entry.name
      ≡ some (record {
        last_check_at = now;
        ok = is_name_healthy net entry (resolve_domain entry.name) public_ips;
        failing_since = after.failing_since;
        dropped_from_announce = after.dropped_from_announce;
      })
unfolding check_entry verdict_of previous_of judged judge_name
check_entry-judged net resolve_domain public_ips now config stored entry status s e d =
    ground (arith, eq_refl entry.name)
