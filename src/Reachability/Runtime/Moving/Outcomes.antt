-- ===== src/Reachability/Runtime/Moving/Outcomes.antt =====
-- src/reachability/runtime.ts: what an address change can leave behind, and when there is one.
use bitsocial_cli.Common.{
  ℕ, ◌≤◌, String, Bool, true, false, not, ◌≡◌, ◌⊎◌, inl, inr, Option, some, List, [], keep,
  includes, length, ◌==◌, arith, Option-cases,
}
use bitsocial_cli.Json.{Fields}
use bitsocial_cli.Reachability.Discovery.{Internet}
use bitsocial_cli.Reachability.Caddyfile.{generate_caddyfile}
use bitsocial_cli.Reachability.Store.{
  ReachabilityConfig, Store, Applying, write_plan, apply_kubo_config, save_latest, save_and_apply,
}
use bitsocial_cli.Reachability.Runtime.{Net}
use bitsocial_cli.Reachability.Runtime.Backoff.{Backoff}
use bitsocial_cli.Reachability.Runtime.Moving.{
  MovingFiles, Issuance, Moved, spec_of, put_back, moved_config, back_off_all, adopt, settle,
  handle_ip_change,
}

module _ (same : Fields → Fields → Bool) (net : Net) (internet : Internet) (data_directory : String)
    (now : ℕ) where
  -- If the daemon stops meanwhile or no certificate is issued, a change leaves the files and the config as they were,
  -- where there was a Caddyfile.
  handle_ip_change-unchanged :
      (config : ReachabilityConfig) (next_ips : List String) (issuance : Issuance) (store : Store)
      (backoffs : ℕ → Option Backoff) (p : String) (m : Moved)
      → (issuance.stopping ≡ true) ⊎ (issuance.issued ≡ [])
      → handle_ip_change same net internet data_directory now config next_ips issuance
          (record { store = store; caddyfile = some p })
          backoffs
        ≡ some m
      → (m.files ≡ record { store = store; caddyfile = some p }) × (m.config ≡ config)
  unfolding handle_ip_change settle put_back
  handle_ip_change-unchanged config next_ips issuance store backoffs p m h done = ground arith

  apply-public_ips :
      (c : ReachabilityConfig) (store : Store) (enabled : Bool) (a : Applying)
      → apply_kubo_config same c store enabled ≡ some a
      → a.config.public_ips ≡ c.public_ips
  unfolding apply_kubo_config write_plan
  apply-public_ips c store enabled a done = ground arith

  save-public_ips :
      (c latest : ReachabilityConfig) (store : Store) (r : Store × ReachabilityConfig)
      → store.config ≡ some latest
      → latest.enabled ≡ true
      → save_and_apply same c store ≡ some r
      → r.1.public_ips ≡ c.public_ips
  unfolding save_and_apply save_latest
  save-public_ips c latest store r e on done =
      elim (Option-cases
        (apply_kubo_config same (record c { kubo_edits = latest.kubo_edits }) store true)) [
          | inl none_applied ↦ ground arith
          | inr (a, applied) ↦
              let kept =
                apply-public_ips (record c { kubo_edits = latest.kubo_edits }) store true a
                  applied in
              ground arith
        ]

  adopt-public_ips :
      (config latest : ReachabilityConfig) (issued : List String) (files : MovingFiles)
      (backoffs : ℕ → Option Backoff) (m : Moved)
      → files.store.config ≡ some latest
      → latest.enabled ≡ true
      → adopt same net internet data_directory now config issued files backoffs ≡ some m
      → (m.config ≡ config) ⊎ (m.config.public_ips ≡ issued)
  unfolding adopt moved_config
  adopt-public_ips config latest issued files backoffs m e on done =
      elim (Option-cases (save_and_apply same (moved_config internet config issued) files.store)) [
        | inl none_saved ↦ ground arith
        | inr (r, saved) ↦
            let kept =
              save-public_ips (moved_config internet config issued) latest files.store r e on
                saved in
            ground arith
      ]

  -- What is adopted is not empty where something was issued.
  adopt-held :
      (config latest : ReachabilityConfig) (issued : List String) (files : MovingFiles)
      (backoffs : ℕ → Option Backoff) (m : Moved)
      → files.store.config ≡ some latest
      → latest.enabled ≡ true
      → 1 ≤ length config.public_ips
      → (length issued == 0) ≡ false
      → adopt same net internet data_directory now config issued files backoffs ≡ some m
      → 1 ≤ length m.config.public_ips
  adopt-held config latest issued files backoffs m e on held some_issued done =
      ground (arith, adopt-public_ips config latest issued files backoffs m e on done)

  settle-public_ips :
      (config latest : ReachabilityConfig) (next_ips : List String) (previous : Option String)
      (issuance : Issuance) (files : MovingFiles) (backoffs : ℕ → Option Backoff) (m : Moved)
      → files.store.config ≡ some latest
      → latest.enabled ≡ true
      → 1 ≤ length config.public_ips
      → settle same net internet data_directory now config next_ips previous issuance files backoffs
        ≡ some m
      → 1 ≤ length m.config.public_ips
  unfolding settle
  settle-public_ips config latest next_ips previous issuance files backoffs m e on held done =
      let issued = issuance.issued in
      let missing = keep (λ ip. not (includes ip issued)) next_ips in
      let backed_off = back_off_all net now config.public_ips missing backoffs in
      let whole = adopt-held config latest issued files backed_off m e on held in
      let part_spec = spec_of data_directory config previous issued in
      elim (Option-cases (generate_caddyfile internet part_spec)) [
        | inl none_generated ↦ ground (arith, whole)
        | inr (text, generated) ↦
            let part =
              adopt-held config latest issued (record files { caddyfile = some text }) backed_off m
                e on held in
            ground (arith, whole, part)
      ]

  -- While reachability stays enabled, a node that holds addresses holds some after every change, whatever was issued:
  -- without any it would never look for its addresses again.
  pub handle_ip_change-public_ips :
      (config latest : ReachabilityConfig) (next_ips : List String) (issuance : Issuance)
      (files : MovingFiles) (backoffs : ℕ → Option Backoff) (m : Moved)
      → files.store.config ≡ some latest
      → latest.enabled ≡ true
      → 1 ≤ length config.public_ips
      → handle_ip_change same net internet data_directory now config next_ips issuance files
          backoffs
        ≡ some m
      → 1 ≤ length m.config.public_ips
  unfolding handle_ip_change
  handle_ip_change-public_ips config latest next_ips issuance files backoffs m e on held done =
      let try_spec = spec_of data_directory config files.caddyfile next_ips in
      elim (Option-cases (generate_caddyfile internet try_spec)) [
        | inl none_generated ↦ ground arith
        | inr (text, generated) ↦
            let after =
              settle-public_ips config latest next_ips files.caddyfile issuance
                (record files { caddyfile = some text }) backoffs m e on held in
            ground (arith, after)
      ]
