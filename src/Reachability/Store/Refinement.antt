-- ===== src/Reachability/Store/Refinement.antt =====
-- What setup, the daemon's checks and disable promise together: whenever reachability is not enabled, kubo's config
-- is the operator's own.
use bitsocial_cli.Common.{
  ◌≡◌, refl, sym, ◌⊎◌, inl, inr, Bool, true, false, Option, none, some, List, [], ◌∷◌,
  if◌then◌else◌, Bool-cases,
}
use mathlib.Core.Path.{subst}
use bitsocial_cli.Json.{Fields}
use bitsocial_cli.Reachability.KuboConfig.Defs.{KuboEditRecord, absent}
use bitsocial_cli.Reachability.KuboConfig.Managed.{IsKuboConfig}
use bitsocial_cli.Reachability.KuboConfig.RoundTrip.{
  Applied, plan_kubo_config-enable, plan_kubo_config-disable,
}
use bitsocial_cli.Reachability.Store.{
  ReachabilityConfig, Store, Applying, Operation, setup, save, disable, input_of, edits_before,
  write_plan, apply_kubo_config, save_latest, save_and_apply, set_up, disable_config,
  disable_reachability, operate, operate_all,
}

-- The abstract view: not set up, or whether it is enabled.
unfoldable pub expect : Operation → Option Bool → Option Bool
expect (setup config) m = some true
expect (save config) m = m
expect disable none = none
expect disable (some b) = some false

unfoldable pub expect_all : List Operation → Option Bool → Option Bool
expect_all [] m = m
expect_all (operation ∷ operations) m = expect_all operations (expect operation m)

-- The store stands for the abstract state: without reachability kubo's config is `base`, with it one that was
-- applied on `base`, by the record that the config holds.
pub data StandsFor (base : Fields) : Store → Option Bool → Type 0 where
  fresh : StandsFor base (record { kubo = base; config = none }) none
  off :
      (c : ReachabilityConfig)
      → c.enabled ≡ false
      → c.kubo_edits ≡ none
      → StandsFor base (record { kubo = base; config = some c }) (some false)
  on :
      (c : ReachabilityConfig) (f : Fields) (e : KuboEditRecord)
      → c.enabled ≡ true
      → c.kubo_edits ≡ some e
      → Applied base f e
      → StandsFor base (record { kubo = f; config = some c }) (some true)

-- A record of no edits, where there is none to name.
abbrev no_edits : KuboEditRecord
no_edits = record {
  addresses_shape = absent;
  swarm_list_shape = absent;
  append_announce_list_shape = absent;
  added_swarm = [];
  added_append_announce = [];
  removed_addr_filters = [];
  auto_tls = none;
}

module _ (same : Fields → Fields → Bool) (same_only : (f g : Fields) → same f g ≡ true → f ≡ g)
    (base : Fields) (sound : IsKuboConfig base) where
  written : (f g : Fields) → (if same g f then f else g) ≡ g
  written f g = elim (Bool-cases (same g f)) [
    | inl e ↦ rw e (sym (same_only g f e))
    | inr e ↦ rw e refl
  ]

  -- Enabling succeeds, whatever the addresses.
  apply-on :
      (c : ReachabilityConfig) (f : Fields) (m : Option ReachabilityConfig) (e : KuboEditRecord)
      → ((c.kubo_edits ≡ none) × (f ≡ base)) ⊎ ((c.kubo_edits ≡ some e) × Applied base f e)
      → (a : Applying) × (apply_kubo_config same c (record { kubo = f; config = m }) true ≡ some a)
        × StandsFor base a.store (some true)
  unfolding apply_kubo_config write_plan input_of
  apply-on c f m e h =
      let (g, e', done, applied) = plan_kubo_config-enable base f e (input_of c) sound h in
      let next = record c { enabled = true; kubo_edits = some e' } in
      (
        write_plan same c (record { kubo = f; config = m }) true (g, some e'),
        rw done refl,
        subst (λ k. StandsFor base (record { kubo = k; config = some next }) (some true))
            (sym (written f g)) (on next g e' refl refl applied),
      )

  -- So does disabling, and it leads back to `base`.
  apply-off :
      (c : ReachabilityConfig) (f : Fields) (m : Option ReachabilityConfig) (e : KuboEditRecord)
      → c.kubo_edits ≡ some e
      → Applied base f e
      → (a : Applying) × (apply_kubo_config same c (record { kubo = f; config = m }) false ≡ some a)
        × StandsFor base a.store (some false)
  unfolding apply_kubo_config write_plan input_of
  apply-off c f m e k applied =
      let next = record c { enabled = false; kubo_edits = none } in
      (
        write_plan same c (record { kubo = f; config = m }) false (base, none),
        rw (plan_kubo_config-disable base f e (input_of c) sound applied k) refl,
        subst (λ k. StandsFor base (record { kubo = k; config = some next }) (some false))
            (sym (written f base)) (off next refl refl),
      )

  abbrev Keeps : Operation → Store → Option Bool → Type 0
  Keeps operation s m =
      (t : Store) × (operate same operation s ≡ some t) × StandsFor base t (expect operation m)

  setup-Keeps :
      (c : ReachabilityConfig) (s : Store) (m : Option Bool)
      → StandsFor base s m
      → Keeps (setup c) s m
  unfolding operate set_up edits_before expect
  setup-Keeps c s m fresh =
      let (a, done, h) =
        apply-on (record c { kubo_edits = none }) base none no_edits (inl (refl, refl)) in
      (a.store, rw done refl, h)
  setup-Keeps c s m (off d disabled none_left) =
      let (a, done, h) =
        apply-on (record c { kubo_edits = d.kubo_edits }) base (some d) no_edits
          (inl (none_left, refl)) in
      (a.store, rw done refl, h)
  setup-Keeps c s m (on d f e enabled known applied) =
      let (a, done, h) =
        apply-on (record c { kubo_edits = d.kubo_edits }) f (some d) e (inr (known, applied)) in
      (a.store, rw done refl, h)

  save-Keeps :
      (c : ReachabilityConfig) (s : Store) (m : Option Bool)
      → StandsFor base s m
      → Keeps (save c) s m
  unfolding operate save_and_apply save_latest expect apply_kubo_config apply-on
  save-Keeps c s m fresh = (s, refl, fresh)
  save-Keeps c s m (off d disabled none_left) = (s, rw disabled refl, off d disabled none_left)
  save-Keeps c s m (on d f e enabled known applied) =
      let (a, done, h) =
        apply-on (record c { kubo_edits = d.kubo_edits }) f (some d) e (inr (known, applied)) in
      (a.store, rw (enabled, done) refl, h)

  disable-Keeps : (s : Store) (m : Option Bool) → StandsFor base s m → Keeps disable s m
  unfolding operate disable_reachability disable_config expect apply_kubo_config apply-off
  disable-Keeps s m fresh = (s, refl, fresh)
  disable-Keeps s m (off d disabled none_left) = (s, rw disabled refl, off d disabled none_left)
  disable-Keeps s m (on d f e enabled known applied) =
      let (a, done, h) = apply-off d f (some d) e known applied in
      (a.store, rw (enabled, done) refl, h)

  operate-Keeps :
      (operation : Operation) (s : Store) (m : Option Bool)
      → StandsFor base s m
      → Keeps operation s m
  operate-Keeps (setup c) s m h = setup-Keeps c s m h
  operate-Keeps (save c) s m h = save-Keeps c s m h
  operate-Keeps disable s m h = disable-Keeps s m h

  -- From any store that stands for an abstract state, no sequence of setups, checks of the daemon and disables fails,
  -- and the store that it leads to stands for what the abstract operations lead to: kubo's config is exactly the
  -- operator's own whenever reachability is not enabled.
  pub operate_all-StandsFor :
      (operations : List Operation) (s : Store) (m : Option Bool)
      → StandsFor base s m
      → (t : Store) × (operate_all same operations s ≡ some t)
        × StandsFor base t (expect_all operations m)
  unfolding operate_all expect_all
  operate_all-StandsFor [] s m h = (s, refl, h)
  operate_all-StandsFor (operation ∷ operations) s m h =
      let (t, done, k) = operate-Keeps operation s m h in
      let (u, rest, l) = operate_all-StandsFor operations t (expect operation m) k in
      (u, rw (done, rest) refl, l)
