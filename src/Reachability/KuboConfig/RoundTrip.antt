-- ===== src/Reachability/KuboConfig/RoundTrip.antt =====
-- src/reachability/kubo-config.ts: however often reachability is enabled, repaired or given other
-- addresses, disabling it leads back to the config before.
use bitsocial_cli.Common.{
  ◌≡◌, refl, sym, ap, ◌∙◌, ◌⊎◌, inl, inr, true, false, Option, none, some, arith,
}
use mathlib.Core.Path.{subst₂}
use bitsocial_cli.Json.{obj, Fields, get}
use bitsocial_cli.Reachability.KuboConfig.Defs.{
  AutoTlsEdit, KuboEditRecord, ReachabilityKuboInput, auto_tls_edit, plan_enabled, plan_kubo_config,
  previous_auto_tls, auto_tls_back, serves_wss, swarm_entries, undo_previous,
}
use bitsocial_cli.Reachability.KuboConfig.Filters.{plan_filters-set_addresses}
use bitsocial_cli.Reachability.KuboConfig.AutoTls.{restore_auto_tls-without_auto_tls}
use bitsocial_cli.Reachability.KuboConfig.Managed.{
  IsKuboConfig, HasSections, KeepsShapes, HasSections-set_auto_tls, section_addresses, new_edits,
  new_addresses, plan_addresses-eq, tls_base, IsManaged, finish-IsManaged,
}

HasSections-tls_base :
    (t : Option AutoTlsEdit) (f : Fields) → HasSections f → HasSections (tls_base t f)
HasSections-tls_base none f h = h
HasSections-tls_base (some t) f h = HasSections-set_auto_tls f _ h

get-tls_base :
    (t : Option AutoTlsEdit) (f : Fields) → get "Addresses" (tls_base t f) ≡ get "Addresses" f
get-tls_base none f = refl
get-tls_base (some t) f = section_addresses f _

module _ (base : Fields) (sound : IsKuboConfig base) where
  abbrev edits_of : ReachabilityKuboInput → KuboEditRecord
  edits_of input = new_edits input.kubo_edits (swarm_entries input) input.announce base

  -- One apply, on a config without list edits.
  plan_enabled-IsManaged :
      (input : ReachabilityKuboInput)
      → let t = previous_auto_tls input.kubo_edits in
        (t ≡ none) ⊎ (t ≡ some (auto_tls_edit base))
        → KeepsShapes base (edits_of input)
        → (f : Fields) × (e : KuboEditRecord) × (plan_enabled input (tls_base t base) ≡ some (f, e))
          × IsManaged base f e
  unfolding plan_enabled
  plan_enabled-IsManaged input ok k =
      let t = previous_auto_tls input.kubo_edits in
      let c = tls_base t base in
      let h = HasSections-tls_base t base sound.sections in
      let (f, e, done, managed) =
        finish-IsManaged base sound (swarm_entries input) input.announce (edits_of input) k refl
          refl (serves_wss input) t ok in
      let v = obj (new_addresses (swarm_entries input) input.announce base) in
      (
        f,
        e,
        rw
            (
              plan_addresses-eq input.kubo_edits (swarm_entries input) input.announce c h,
              get-tls_base t base,
              plan_filters-set_addresses (serves_wss input) c v h.swarm,
            )
            done,
        managed,
      )

  plan_apply :
      (f : Fields) (input : ReachabilityKuboInput)
      → let t = previous_auto_tls input.kubo_edits in
        undo_previous input.kubo_edits f ≡ some (tls_base t base)
        → (t ≡ none) ⊎ (t ≡ some (auto_tls_edit base))
        → KeepsShapes base (edits_of input)
        → (g : Fields) × (e : KuboEditRecord) × (plan_kubo_config (obj f) input true
            ≡ some (g, some e))
          × IsManaged base g e
  unfolding plan_kubo_config
  plan_apply f input undone ok k =
      let (g, e, done, managed) = plan_enabled-IsManaged input ok k in
      (g, e, rw (undone, done), managed)

  -- The first apply.
  plan-first :
      (input : ReachabilityKuboInput)
      → input.kubo_edits ≡ none
      → (f : Fields) × (e : KuboEditRecord) × (plan_kubo_config (obj base) input true
          ≡ some (f, some e))
        × IsManaged base f e
  plan-first input fresh =
      plan_apply base input (rw fresh) (rw fresh (inl refl))
        (record { addresses = rw fresh; swarm_list = rw fresh; announce_list = rw fresh })

  -- An apply of an applied config: a repair, or other addresses.
  plan-again :
      (f : Fields) (e : KuboEditRecord) (input : ReachabilityKuboInput)
      → IsManaged base f e
      → input.kubo_edits ≡ some e
      → (g : Fields) × (e' : KuboEditRecord) × (plan_kubo_config (obj f) input true
          ≡ some (g, some e'))
        × IsManaged base g e'
  plan-again f e input m known = plan_apply f input (rw known m.undone) (rw known m.tls) (record {
    addresses = rw known m.shapes.addresses;
    swarm_list = rw known m.shapes.swarm_list;
    announce_list = rw known m.shapes.announce_list;
  })

  auto_tls_back-tls_base :
      (t : Option AutoTlsEdit)
      → (t ≡ none) ⊎ (t ≡ some (auto_tls_edit base))
      → auto_tls_back t (tls_base t base) ≡ base
  auto_tls_back-tls_base none ok = refl
  auto_tls_back-tls_base (some t) ok =
      let same : t ≡ auto_tls_edit base = ground arith in
      rw same (restore_auto_tls-without_auto_tls base sound.auto_tls sound.enabled)

  plan-disable :
      (f : Fields) (e : KuboEditRecord) (input : ReachabilityKuboInput)
      → IsManaged base f e
      → input.kubo_edits ≡ some e
      → plan_kubo_config (obj f) input false ≡ some (base, none)
  unfolding plan_kubo_config
  plan-disable f e input m known =
      rw (known, m.undone) (ap (λ c. some (c, none)) (auto_tls_back-tls_base e.auto_tls m.tls))

-- A kubo config that came from another one by a first apply and any number of further ones, each with
-- the record of the one before and with addresses, port and choice of WSS of its own.
pub data Applied (base : Fields) : Fields → KuboEditRecord → Type 0 where
  first :
      (input : ReachabilityKuboInput) (f : Fields) (e : KuboEditRecord)
      → input.kubo_edits ≡ none
      → plan_kubo_config (obj base) input true ≡ some (f, some e)
      → Applied base f e
  again :
      (input : ReachabilityKuboInput) (f g : Fields) (e e' : KuboEditRecord)
      → Applied base f e
      → input.kubo_edits ≡ some e
      → plan_kubo_config (obj f) input true ≡ some (g, some e')
      → Applied base g e'

IsManaged-same :
    (base f g : Fields) (e e' : KuboEditRecord)
    → ◌≡◌ {A = Option (Fields × Option KuboEditRecord)} (some (g, some e')) (some (f, some e))
    → IsManaged base g e'
    → IsManaged base f e
IsManaged-same base f g e e' p m =
    let q : g ≡ f = cc in let r : e' ≡ e = cc in subst₂ (IsManaged base) q r m

-- Every applied config is managed: its record tells the way back.
Applied-IsManaged :
    {base : Fields} {f : Fields} {e : KuboEditRecord}
    → IsKuboConfig base
    → Applied base f e
    → IsManaged base f e
Applied-IsManaged {base} sound (first input f e fresh done) =
    let (g, e', done', m) = plan-first base sound input fresh in
    IsManaged-same base f g e e' (sym done' ∙ done) m
Applied-IsManaged {base} sound (again input f g e e' before known done) =
    let (g', e'', done', m) =
      plan-again base sound f e input (Applied-IsManaged sound before) known in
    IsManaged-same base g g' e' e'' (sym done' ∙ done) m

-- Disabling reachability after any number of applies (the first one on `base`, the later ones with the
-- record of the one before, each with addresses, port and choice of WSS of its own) succeeds and gives
-- back exactly `base`, the order of its properties included, where `base` is a config in which the
-- sections that are edited are missing, null or objects and their two lists missing, null or lists.
pub plan_kubo_config-disable :
    (base f : Fields) (e : KuboEditRecord) (input : ReachabilityKuboInput)
    → IsKuboConfig base
    → Applied base f e
    → input.kubo_edits ≡ some e
    → plan_kubo_config (obj f) input false ≡ some (base, none)
plan_kubo_config-disable base f e input sound applied known =
    plan-disable base sound f e input (Applied-IsManaged sound applied) known

-- An apply never fails: on a config of that form without a record, and on each applied config with the
-- record of its last apply, enabling gives a config and a record, and what it gives is applied again.
pub plan_kubo_config-enable :
    (base f : Fields) (e : KuboEditRecord) (input : ReachabilityKuboInput)
    → IsKuboConfig base
    → (input.kubo_edits ≡ none) × (f ≡ base) ⊎ (input.kubo_edits ≡ some e) × Applied base f e
    → (g : Fields) × (e' : KuboEditRecord) × (plan_kubo_config (obj f) input true
        ≡ some (g, some e'))
      × Applied base g e'
plan_kubo_config-enable base f e input sound (inl (fresh, same)) =
    let (g, e', done, _) = plan-first base sound input fresh in
    (g, e', rw same done, Applied.first input g e' fresh done)
plan_kubo_config-enable base f e input sound (inr (known, applied)) =
    let (g, e', done, _) =
      plan-again base sound f e input (Applied-IsManaged sound applied) known in
    (g, e', done, Applied.again input f g e e' applied known done)
