-- ===== src/Daemon/RepoGc.antt =====
-- src/ipfs/repoGc.ts: the periodic `repo gc`. `fetch` and `JSON.parse` are parameters: `none` is a rejection
-- or an exception.
use bitsocial_cli.Common.{
  ℕ, ◌+◌, ◌*◌, String, Bool, true, false, ◌||◌, ◌-◌, ◌≡◌, Option, none, some, List, [], ◌∷◌,
  if◌then◌else◌, arith, split_on, str_eq,
}

-- Matches kubo's own period.
unfoldable default_repo_gc_interval_ms : ℕ
default_repo_gc_interval_ms = 60 * 60 * 1000

-- The host name part of `toConnectableApiBase`.
unfoldable pub connectable_hostname : String → String
connectable_hostname hostname =
    if str_eq hostname "0.0.0.0"
    then "127.0.0.1"
    else if str_eq hostname "::" || str_eq hostname "[::]"
    then "[::1]"
    else hostname

-- What one object of the stream says: `Error` and `Key` by their truth.
pub record GcLine : Type 0 where
  pub has_error : Bool
  pub has_key : Bool

pub record Response : Type 0 where
  pub ok : Bool
  pub text : Option String

pub record GcResult : Type 0 where
  pub ran : Bool
  pub reclaimed_cids : Option ℕ

module _ (trim : String → String) (parse : String → Option GcLine) where
  unfoldable pub counts : String → Bool
  counts line = if str_eq (trim line) "" then false else elim (parse (trim line)) [
    | none ↦ false
    | some parsed ↦ if parsed.has_error then false else parsed.has_key
  ]

  -- The loop over the lines.
  unfoldable pub count_reclaimed : ℕ → List String → ℕ
  count_reclaimed n [] = n
  count_reclaimed n (line ∷ lines) = count_reclaimed (if counts line then n + 1 else n) lines

  unfoldable pub run_repo_gc : Option Response → GcResult
  run_repo_gc none = record { ran = false; reclaimed_cids = none }
  run_repo_gc (some response) =
      if response.ok
      then elim response.text [
        | none ↦ record { ran = false; reclaimed_cids = none }
        | some text ↦ record {
          ran = true;
          reclaimed_cids = some (count_reclaimed 0 (split_on "\n" "" text));
        }
      ]
      else record { ran = false; reclaimed_cids = none }

-- The scheduler: `running` counts the collections that run at once.
pub record Scheduler : Type 0 where
  pub in_flight : Bool
  pub running : ℕ
  pub stopped : Bool

pub data GcEvent : Type 0 where
  tick : GcEvent
  settled : GcEvent
  stop : GcEvent

-- A stopped timer does not fire; the collection that runs is aborted, and settles.
unfoldable pub gc_step : GcEvent → Scheduler → Scheduler
gc_step tick s =
    if s.stopped
    then s
    else if s.in_flight
    then s
    else record s { in_flight = true; running = s.running + 1 }
gc_step settled s =
    if s.in_flight then record s { in_flight = false; running = s.running - 1 } else s
gc_step stop s = record s { stopped = true }

unfoldable pub run_scheduler : Scheduler → List GcEvent → Scheduler
run_scheduler s [] = s
run_scheduler s (event ∷ events) = run_scheduler (gc_step event s) events

unfoldable pub bit : Bool → ℕ
bit true = 1
bit false = 0

gc_step-running :
    (event : GcEvent) (s : Scheduler)
    → s.running ≡ bit s.in_flight
    → (gc_step event s).running ≡ bit (gc_step event s).in_flight
unfolding gc_step bit
gc_step-running event s h = ground arith

-- However long collections take, the scheduler runs one at a time and counts it as in flight.
pub run_scheduler-running :
    (s : Scheduler) (events : List GcEvent)
    → s.running ≡ bit s.in_flight
    → (run_scheduler s events).running ≡ bit (run_scheduler s events).in_flight
unfolding run_scheduler
run_scheduler-running s [] h = h
run_scheduler-running s (event ∷ events) h =
    run_scheduler-running (gc_step event s) events (gc_step-running event s h)
