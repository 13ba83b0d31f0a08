-- ===== src/Engine/Bootstrap/Unready.antt =====
-- internal/mirror/engine.go: the stores that bootstrapOffsetSyncs does not read.
use mathlib.Core.Path.{subst}
use gomm.Prelude.{
  ℕ, ◌≡◌, ◌≢◌, sym, ap, ◌∙◌, inl, inr, true, false, [], ◌∷◌, some, Bool-cases, get_or-set_ne, Bytes,
  bytes_eq, lookup,
}
use gomm.Config.{ReplicationConfig}
use gomm.Offset.Store.{new_sync_store, is_ready}
use gomm.Engine.{Engine, flow_key}
use gomm.Engine.Bootstrap.{
  BootClients, boot_goes_on, store_at, emits_syncs, boot_flow, bootstrap_offset_syncs,
}
use gomm.Engine.Bootstrap.Serving.{boot_flow-BootedFor, boot_flow-passes}
use gomm.Engine.Bootstrap.Writers.{Mapped, BootedFor-at}
use gomm.Engine.Bootstrap.Loop.{BootFlows, OtherKeys, boot_rest-goes_on, boot_flow-Mapped}

-- A store of another key that is not ready stays so, and its entry in the map too.
abbrev pub Unready : Engine → Bytes → Type 0
Unready e key =
    (i : ℕ) × (lookup key e.sources_by_flow ≡ some i)
    × (lookup key e.sync_stores ≡ some i)
    × (is_ready (store_at e i) ≡ false)

boot_flow-Unready :
    (e out : Engine) (r : ReplicationConfig) (clients : BootClients) (key : Bytes)
    → Mapped e
    → boot_flow e r clients ≡ (out, boot_goes_on)
    → (emits_syncs r ≡ true → flow_key r ≢ key)
    → Unready e key
    → Unready out key
boot_flow-Unready e out r clients key m h ne (j, found', entry, unready) =
    elim (Bool-cases (emits_syncs r)) [
      | inl on ↦
          let (policy, i, s, named, found, ready, made) =
            BootedFor-at e r out m (boot_flow-BootedFor e r clients out on h) in
          let differ : i ≢ j =
            λ same. ne on (m.apart (flow_key r) key i found (found' ∙ ap some (sym same))) in
          subst (λ o. Unready o key) (sym made)
            (
              j,
              found',
              entry,
              ap is_ready (get_or-set_ne e.stores i j s new_sync_store differ) ∙ unready,
            )
      | inr off ↦
          let same : e ≡ out = ap (λ p. p.0) (sym (boot_flow-passes e r clients off) ∙ h) in
          subst (λ o. Unready o key) same (j, found', entry, unready)
    ]

pub bootstrap-Unready :
    (e out : Engine) (r : ReplicationConfig) (flows : BootFlows)
    → Mapped e
    → OtherKeys r flows
    → bootstrap_offset_syncs e flows ≡ (out, boot_goes_on)
    → Unready e (flow_key r)
    → Unready out (flow_key r)
unfolding bootstrap_offset_syncs
bootstrap-Unready e out r [] m ne h un = subst (λ o. Unready o (flow_key r)) (ap (λ p. p.0) h) un
bootstrap-Unready e out r ((r', clients) ∷ more) m (ne, nes) h un =
    let (next, e₁, h₁) =
      boot_rest-goes_on (λ f. bootstrap_offset_syncs f more) (boot_flow e r' clients) out h in
    let (m₁, served) = boot_flow-Mapped e next r' clients m e₁ in
    bootstrap-Unready next out r more m₁ nes h₁
      (boot_flow-Unready e next r' clients (flow_key r) m e₁ ne un)
