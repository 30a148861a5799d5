-- ===== src/Daemon/Watchdog.antt =====
-- src/cli/commands/daemon.ts `runKeepKuboUpTick` and src/ipfs/repoGc.ts. What a promise settles to is a
-- result: `none` if it rejects.
use bitsocial_cli.Common.{
  Bool, true, false, not, ◌&&◌, ◌||◌, ◌≡◌, ◌↔◌, ◌⊎◌, Option, none, some, List, [], ◌∷◌, ◌++◌,
  if◌then◌else◌, arith,
}

-- What a tick does, in order. The text of an error is the dependency's.
pub data Action : Type 0 where
  kept_up : Action
  rpc_tried : Action
  kubo_error : Action
  rpc_error : Action

-- `port_taken` is what the check of the RPC port answers; `kept` and `connected` whether the two calls
-- succeed.
pub record Tick : Type 0 where
  pub port_taken : Option Bool
  pub kubo_options : Bool
  pub has_kubo_process : Bool
  pub has_pending_kubo_start : Bool
  pub kept : Bool
  pub connected : Bool

unfoldable pub wants_kubo : Bool → Tick → Bool
wants_kubo taken t =
    if not t.kubo_options && not taken
    then true
    else if t.kubo_options
    then true
    else not t.has_kubo_process && not t.has_pending_kubo_start

unfoldable pub kubo_part : Tick → List Action
kubo_part t = elim t.port_taken [
  | none ↦ kubo_error ∷ []
  | some taken ↦
      if wants_kubo taken t
      then (if t.kept then kept_up ∷ [] else kept_up ∷ kubo_error ∷ [])
      else []
]

unfoldable pub rpc_part : Tick → List Action
rpc_part t = if t.connected then rpc_tried ∷ [] else rpc_tried ∷ rpc_error ∷ []

unfoldable pub run_keep_kubo_up_tick : Tick → List Action
run_keep_kubo_up_tick t = kubo_part t ++ rpc_part t

unfoldable pub same : Action → Action → Bool
same kept_up kept_up = true
same rpc_tried rpc_tried = true
same kubo_error kubo_error = true
same rpc_error rpc_error = true
same _ _ = false

unfoldable pub did : Action → List Action → Bool
did a [] = false
did a (b ∷ bs) = same a b || did a bs

-- Whatever fails, a tick always goes on to the RPC server. It asks for kubo just when the port check
-- answers and either the operator names a kubo, or the RPC port is free, or no kubo runs or starts.
pub run_keep_kubo_up_tick-rpc_tried :
    (t : Tick)
    → (did rpc_tried (run_keep_kubo_up_tick t) ≡ true)
      × (did kept_up (run_keep_kubo_up_tick t) ≡ true
          ↔ (t.port_taken ≡ some false)
            ⊎ ((t.port_taken ≡ some true)
                × ((t.kubo_options ≡ true)
                    ⊎ ((t.has_kubo_process ≡ false) × (t.has_pending_kubo_start ≡ false)))))
unfolding run_keep_kubo_up_tick kubo_part rpc_part wants_kubo did same
run_keep_kubo_up_tick-rpc_tried t = ground arith
