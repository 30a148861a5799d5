-- ===== src/Reachability/Runtime/Moving/Readings.antt =====
-- src/reachability/runtime.ts: when a check moves to other addresses.
use bitsocial_cli.Common.{
  ℕ, ◌≤◌, String, ◌<>◌, Bool, true, ◌≡◌, refl, ap, sym, ◌∙◌, Option, none, some, List, [], ◌∷◌,
  length, arith, join_with, join, are_plain, join-injective, eq_iff,
}
use bitsocial_cli.Reachability.Store.{ReachabilityConfig}
use bitsocial_cli.Reachability.Runtime.{Net}
use bitsocial_cli.Reachability.Runtime.IpChange.{plan_ip_change}
use bitsocial_cli.Reachability.Runtime.Backoff.{Backoff, addresses_worth_trying}
use bitsocial_cli.Reachability.Runtime.Moving.{is_pending, decide, check_ips}

join_with-join : (xs : List String) → join_with "," xs ≡ join "," xs
unfolding join_with join
join_with-join [] = refl
join_with-join (x ∷ []) = refl
join_with-join (x ∷ y ∷ xs) = ap (λ t. x <> ("," <> t)) (join_with-join (y ∷ xs))

-- No address that is planned is empty or has a comma.
abbrev pub is_plain : Option (List String) → Bool
is_plain none = true
is_plain (some ips) = are_plain "," ips

join_with-injective :
    (xs ys : List String)
    → are_plain "," xs ≡ true
    → are_plain "," ys ≡ true
    → join_with "," xs ≡ join_with "," ys
    → xs ≡ ys
join_with-injective xs ys h k e =
    join-injective "," xs ys h k (sym (join_with-join xs) ∙ e ∙ join_with-join ys)

decide-two_readings :
    (first second : Option (List String)) (pending : Option String) (ips : List String)
    → is_plain first ≡ true
    → is_plain second ≡ true
    → (decide second (decide first pending).pending).move_to ≡ some ips
    → ((decide first pending).move_to ≡ none) × (first ≡ some ips) × (second ≡ some ips)
unfolding decide is_pending
decide-two_readings none second pending ips p q h = ground arith
decide-two_readings (some a) none pending ips p q h = ground arith
decide-two_readings (some a) (some b) pending ips p q h =
    ground (arith, eq_iff (join_with "," b) (join_with "," a), join_with-injective a b p q)

-- What a check plans with the addresses that it finds.
abbrev pub planned :
    Net → ℕ → (ℕ → Option Backoff) → ReachabilityConfig → List String → Option (List String)
planned net now backoffs config derived =
    plan_ip_change net config.public_ips
      (addresses_worth_trying net now config.public_ips backoffs derived)

-- Of two checks in a row, of a node that holds addresses at the first, the second moves to addresses only if both
-- planned exactly these and the first did not move, provided that no planned address is empty or has a comma.
pub check_ips-two_readings :
    (net : Net) (now later : ℕ) (backoffs after : ℕ → Option Backoff)
    (config next : ReachabilityConfig) (derived found : List String) (pending : Option String)
    (ips : List String)
    → 1 ≤ length config.public_ips
    → is_plain (planned net now backoffs config derived) ≡ true
    → is_plain (planned net later after next found) ≡ true
    → (check_ips net later after next found
        (check_ips net now backoffs config derived pending).decision.pending).decision.move_to
      ≡ some ips
    → ((check_ips net now backoffs config derived pending).decision.move_to ≡ none)
      × (planned net now backoffs config derived ≡ some ips)
      × (planned net later after next found ≡ some ips)
unfolding check_ips
check_ips-two_readings net now later backoffs after config next derived found pending ips held p q
      h =
    ground (
      arith,
      decide-two_readings (planned net now backoffs config derived)
          (planned net later after next found) pending ips p q,
    )
