-- ===== src/Engine/Bootstrap/Loop.antt =====
-- internal/mirror/engine.go: bootstrapOffsetSyncs over the flows.
use mathlib.Core.Path.{subst}
use gomm.Prelude.{
  ◌≡◌, ◌≢◌, refl, sym, ap, ◌∙◌, inl, inr, true, List, [], ◌∷◌, Bool-cases, bytes_eq, All,
}
use gomm.Config.{ReplicationConfig}
use gomm.Engine.{Engine, flow_key}
use gomm.Engine.Bootstrap.{
  BootClients, BootStatus, boot_goes_on, boot_crashed, boot_reading, boot_policy_failed,
  boot_admin_failed, boot_reader_failed, boot_read_failed, boot_writer_failed, boot_rest,
  emits_syncs, boot_flow, bootstrap_offset_syncs,
}
use gomm.Engine.Bootstrap.Serving.{boot_flow-BootedFor, boot_flow-passes}
use gomm.Engine.Bootstrap.Writers.{
  Mapped, Served, BootedFor-at, BootedAt-Mapped, BootedAt-Served, boot_flow-keeps,
}

abbrev pub BootFlows : Type 0
BootFlows = List (ReplicationConfig × BootClients)

-- What a loop that returns nil has done first.
pub boot_rest-goes_on :
    (rest : Engine → Engine × BootStatus) (p : Engine × BootStatus) (out : Engine)
    → boot_rest rest p ≡ (out, boot_goes_on)
    → (next : Engine) × (p ≡ (next, boot_goes_on)) × (rest next ≡ (out, boot_goes_on))
boot_rest-goes_on rest (e, boot_goes_on) out h = (e, refl, h)
boot_rest-goes_on rest (e, boot_crashed) out h = cc h
boot_rest-goes_on rest (e, boot_reading) out h = cc h
boot_rest-goes_on rest (e, boot_policy_failed) out h = cc h
boot_rest-goes_on rest (e, boot_admin_failed) out h = cc h
boot_rest-goes_on rest (e, boot_reader_failed) out h = cc h
boot_rest-goes_on rest (e, boot_read_failed) out h = cc h
boot_rest-goes_on rest (e, boot_writer_failed) out h = cc h

-- The other flows of a list have other keys.
abbrev pub OtherKeys : ReplicationConfig → BootFlows → Type 0
OtherKeys r flows =
    All
      (λ (f : ReplicationConfig × BootClients). emits_syncs f.0 ≡ true → flow_key f.0 ≢ flow_key r)
      flows

abbrev pub DistinctKeys : BootFlows → Type 0
DistinctKeys [] = Unit {0}
DistinctKeys ((r, clients) ∷ more) = OtherKeys r more × DistinctKeys more

pub boot_flow-Mapped :
    (e out : Engine) (r : ReplicationConfig) (clients : BootClients)
    → Mapped e
    → boot_flow e r clients ≡ (out, boot_goes_on)
    → Mapped out × (emits_syncs r ≡ true → Served out r)
boot_flow-Mapped e out r clients m h = elim (Bool-cases (emits_syncs r)) [
  | inl on ↦
      let at = BootedFor-at e r out m (boot_flow-BootedFor e r clients out on h) in
      (BootedAt-Mapped e r out m at, λ _. BootedAt-Served e r out m at)
  | inr off ↦ (
    subst Mapped (ap (λ p. p.0) (sym (boot_flow-passes e r clients off) ∙ h)) m,
    λ on. absurd (cc (on, off)),
  )
]

bootstrap-keeps :
    (e out : Engine) (other : ReplicationConfig) (flows : BootFlows)
    → Mapped e
    → bootstrap_offset_syncs e flows ≡ (out, boot_goes_on)
    → OtherKeys other flows
    → Served e other
    → Served out other
unfolding bootstrap_offset_syncs
bootstrap-keeps e out other [] m h ne served = subst (λ o. Served o other) (ap (λ p. p.0) h) served
bootstrap-keeps e out other ((r, clients) ∷ more) m h (ne, nes) served =
    let (next, e₁, h₁) =
      boot_rest-goes_on (λ f. bootstrap_offset_syncs f more) (boot_flow e r clients) out h in
    let (m₁, keeps) = boot_flow-keeps e next r other clients m e₁ ne in
    bootstrap-keeps next out other more m₁ h₁ nes (keeps served)

pub bootstrap-Served_from :
    (e out : Engine) (flows : BootFlows)
    → Mapped e
    → DistinctKeys flows
    → bootstrap_offset_syncs e flows ≡ (out, boot_goes_on)
    → All (λ (f : ReplicationConfig × BootClients). emits_syncs f.0 ≡ true → Served out f.0) flows
unfolding bootstrap_offset_syncs
bootstrap-Served_from e out [] m distinct h = tt
bootstrap-Served_from e out ((r, clients) ∷ more) m (ne, distinct) h =
    let (next, e₁, h₁) =
      boot_rest-goes_on (λ f. bootstrap_offset_syncs f more) (boot_flow e r clients) out h in
    let (m₁, served) = boot_flow-Mapped e next r clients m e₁ in
    (
      λ on. bootstrap-keeps next out r more m₁ h₁ ne (served on),
      bootstrap-Served_from next out more m₁ distinct h₁,
    )
