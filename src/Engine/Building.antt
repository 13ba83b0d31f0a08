-- ===== src/Engine/Building.antt =====
-- internal/mirror/engine.go: NewEngine on a configuration that Validate accepts.
use mathlib.Core.Path.{subst}
use mathlib.Core.List.{map}
use gomm.Prelude.{
  ℕ, ◌≡◌, refl, ap, Bool, false, if◌then◌else◌, not, ◌↔◌, ◌⊎◌, inl, inr, true, List, [], ◌∷◌,
  Option, none, arith, Bool-cases, length, Bytes, bytes_eq, All,
}
use gomm.Filter.{RegexpEngine, compile_patterns, new_topic_filter, new_group_filter}
use gomm.Policy.{new_policy}
use gomm.Config.{ReplicationConfig, Config, validate, is_defined}
use gomm.Config.Validation.{IsValidFlow, validate-none_iff}
use gomm.Mirror.Lifecycle.{Clients, Dialing, Dlq, dlq_disabled, dlq_made, new_dlq}
use gomm.Engine.Wiring.{bind-built}
use gomm.Engine.{
  Built, ◌>>=◌, Engine, empty_engine, built, own_queue, set_queue, FlowDialing, add_components,
  add_store, before_queues, make_queues, after_queues, add_flow, add_flows, new_engine,
}

new_dlq-made :
    (r : ReplicationConfig) (target : Dialing) (w : Clients)
    → (r.dlq_enabled ≡ true → (target.builds_opts ≡ true) × (target.connects ≡ true))
    → ((d : Dlq) × (after : Clients) × (new_dlq r target w ≡ (dlq_made d, after)))
      ⊎ (new_dlq r target w ≡ (dlq_disabled, w))
unfolding new_dlq
new_dlq-made r target w dials = elim (Bool-cases r.dlq_enabled) [
  | inl on ↦ let (opts, client) = dials on in rw (on, opts, client) (inl (_, _, refl))
  | inr off ↦ rw off (inr refl)
]

make_queues-built :
    (e : Engine) (r : ReplicationConfig) (dialing : FlowDialing)
    → (r.dlq_enabled ≡ true → (dialing.queue.builds_opts ≡ true) × (dialing.queue.connects ≡ true))
    → (out : Engine × Option ℕ) × (make_queues e r dialing ≡ built out)
unfolding make_queues
make_queues-built e r dialing dials =
    let (owning, own) = own_queue e (new_dlq r dialing.own_queue e.clients) in
    elim (new_dlq-made r dialing.queue owning.clients dials) [
      | inl (d, w, made) ↦ (_, ap (set_queue owning own) made)
      | inr off ↦ (_, ap (set_queue owning own) off)
    ]

set_queue-dials :
    (e : Engine) (own : Option ℕ) (r : ReplicationConfig) (target : Dialing) (w : Clients)
    (out : Engine × Option ℕ)
    → r.dlq_enabled ≡ true
    → set_queue e own (new_dlq r target w) ≡ built out
    → (target.builds_opts ≡ true) × (target.connects ≡ true)
unfolding new_dlq
set_queue-dials e own r target w out on h = ground arith

make_queues-dials :
    (e : Engine) (r : ReplicationConfig) (dialing : FlowDialing) (out : Engine × Option ℕ)
    → make_queues e r dialing ≡ built out
    → r.dlq_enabled ≡ true
    → (dialing.queue.builds_opts ≡ true) × (dialing.queue.connects ≡ true)
unfolding make_queues
make_queues-dials e r dialing out h on =
    let (owning, own) = own_queue e (new_dlq r dialing.own_queue e.clients) in
    set_queue-dials owning own r dialing.queue owning.clients out on h

module _ (regexp : RegexpEngine) where
  -- What NewEngine asks of an enabled flow beyond Validate: its policy is known, the patterns of its
  -- group filter compile, and the producer of its dead-letter queue, if it has one, can be set up.
  abbrev pub IsBuildable : ReplicationConfig × FlowDialing → Type 0
  IsBuildable (r, dialing) =
      (is_defined (new_policy r.replication_policy r.separator) ≡ true)
      × (is_defined (compile_patterns regexp r.group_filter.whitelist) ≡ true)
      × (is_defined (compile_patterns regexp r.group_filter.blacklist) ≡ true)
      × (r.dlq_enabled ≡ true
          → (dialing.queue.builds_opts ≡ true) × (dialing.queue.connects ≡ true))

  before_queues-built :
      (clusters : List (Bytes × List Bytes)) (r : ReplicationConfig)
      → IsValidFlow regexp clusters r
      → is_defined (new_policy r.replication_policy r.separator) ≡ true
      → before_queues regexp clusters r ≡ built tt
  unfolding before_queues new_topic_filter
  before_queues-built clusters r valid known = ground arith

  after_queues-built :
      (clusters : List (Bytes × List Bytes)) (r : ReplicationConfig) (dialing : FlowDialing)
      → IsValidFlow regexp clusters r
      → IsBuildable (r, dialing)
      → after_queues regexp r ≡ built tt
  unfolding after_queues new_topic_filter new_group_filter
  after_queues-built clusters r dialing valid (known, white, black, dials) = ground (arith, valid)

  after_queues-known :
      (r : ReplicationConfig) (out : Unit)
      → after_queues regexp r ≡ built out
      → (is_defined (new_policy r.replication_policy r.separator) ≡ true)
        × (is_defined (compile_patterns regexp r.group_filter.whitelist) ≡ true)
        × (is_defined (compile_patterns regexp r.group_filter.blacklist) ≡ true)
  unfolding after_queues new_topic_filter new_group_filter
  after_queues-known r out h = ground arith

  add_flow-built :
      (clusters : List (Bytes × List Bytes)) (e : Engine) (r : ReplicationConfig)
      (dialing : FlowDialing)
      → IsValidFlow regexp clusters r
      → IsBuildable (r, dialing)
      → (out : Engine) × (add_flow regexp clusters e r dialing ≡ built out)
  unfolding add_flow
  add_flow-built clusters e r dialing valid can =
      let (out, made) = make_queues-built (add_store e r) r dialing can.3 in
      (
        add_components out.0 r (length e.stores) out.1,
        ground (
          arith,
          before_queues-built clusters r valid can.0,
          made,
          after_queues-built clusters r dialing valid can,
        ),
      )

  add_flows-built :
      (clusters : List (Bytes × List Bytes)) (e : Engine)
      (flows : List (ReplicationConfig × FlowDialing))
      → All
          (λ r. r.enabled ≡ true → IsValidFlow regexp clusters r)
          (map (λ (f : ReplicationConfig × FlowDialing). f.0) flows)
      → All (λ (f : ReplicationConfig × FlowDialing). f.0.enabled ≡ true → IsBuildable f) flows
      → (out : Engine) × (add_flows regexp clusters e flows ≡ built out)
  unfolding add_flows
  add_flows-built clusters e [] valid can = (e, refl)
  add_flows-built clusters e ((r, dialing) ∷ more) (valid, valids) (can, cans) =
      elim (Bool-cases r.enabled) [
        | inl on ↦
            let (next, e₁) = add_flow-built clusters e r dialing (valid on) (can on) in
            let (out, e₂) = add_flows-built clusters next more valids cans in
            (out, ground (arith, on, e₁, e₂))
        | inr off ↦
            let (out, e₂) = add_flows-built clusters e more valids cans in
            (out, ground (arith, off, e₂))
      ]

  add_flow-IsBuildable :
      (clusters : List (Bytes × List Bytes)) (e out : Engine) (r : ReplicationConfig)
      (dialing : FlowDialing)
      → add_flow regexp clusters e r dialing ≡ built out
      → IsBuildable (r, dialing)
  unfolding add_flow
  add_flow-IsBuildable clusters e out r dialing h =
      let (checked, e₁, h₁) =
        bind-built (before_queues regexp clusters r)
          (λ _. make_queues (add_store e r) r dialing >>= queued) out h in
      let (made, e₂, h₂) = bind-built (make_queues (add_store e r) r dialing) queued out h₁ in
      let (rest, e₃, h₃) =
        bind-built (after_queues regexp r)
          (λ _. built (add_components made.0 r (length e.stores) made.1)) out h₂ in
      let (known, white, black) = after_queues-known r rest e₃ in
      (known, white, black, make_queues-dials (add_store e r) r dialing made e₂)
    where
      queued : Engine × Option ℕ → Built Engine
      queued (q, queue) =
          after_queues regexp r >>= λ _. built (add_components q r (length e.stores) queue)

  add_flows-IsBuildable :
      (clusters : List (Bytes × List Bytes)) (e out : Engine)
      (flows : List (ReplicationConfig × FlowDialing))
      → add_flows regexp clusters e flows ≡ built out
      → All (λ (f : ReplicationConfig × FlowDialing). f.0.enabled ≡ true → IsBuildable f) flows
  unfolding add_flows
  add_flows-IsBuildable clusters e out [] h = tt
  add_flows-IsBuildable clusters e out ((r, dialing) ∷ more) h =
      by_enabled r.enabled refl h (λ f. add_flows-IsBuildable clusters f out more)
    where
      by_enabled :
          (b : Bool)
          → r.enabled ≡ b
          → (if not b
              then add_flows regexp clusters e more
              else (add_flow regexp clusters e r dialing >>= λ next.
                  add_flows regexp clusters next more))
            ≡ built out
          → ((f : Engine)
              → add_flows regexp clusters f more ≡ built out
              → All
                  (λ (f : ReplicationConfig × FlowDialing). f.0.enabled ≡ true → IsBuildable f)
                  more)
          → (r.enabled ≡ true → IsBuildable (r, dialing))
            × All (λ (f : ReplicationConfig × FlowDialing). f.0.enabled ≡ true → IsBuildable f) more
      by_enabled false off h rest = ((λ on. absurd (cc (on, off))), rest e h)
      by_enabled true on h rest =
          let (next, e₁, h₁) =
            bind-built (add_flow regexp clusters e r dialing)
              (λ next. add_flows regexp clusters next more) out h in
          ((λ _. add_flow-IsBuildable clusters e next r dialing e₁), rest next h₁)

  -- For a configuration that Validate accepts, NewEngine returns an engine exactly if each enabled flow
  -- has a policy that is known and a group filter whose patterns compile, neither of which Validate
  -- checks, and if the producer of its dead-letter queue can be set up where it has one.
  pub new_engine-built_iff :
      (cfg : Config) (flows : List (ReplicationConfig × FlowDialing))
      → validate regexp cfg ≡ none
      → cfg.replications ≡ map (λ (f : ReplicationConfig × FlowDialing). f.0) flows
      → ((e : Engine) × (new_engine regexp cfg.clusters flows ≡ built e))
        ↔ All (λ (f : ReplicationConfig × FlowDialing). f.0.enabled ≡ true → IsBuildable f) flows
  unfolding new_engine
  new_engine-built_iff cfg flows accepted same =
      let (_, _, _, valid) = (validate-none_iff regexp cfg).0 accepted in
      (
        (λ (e, made). add_flows-IsBuildable cfg.clusters empty_engine e flows made),
        add_flows-built cfg.clusters empty_engine flows
            (subst (All (λ r. r.enabled ≡ true → IsValidFlow regexp cfg.clusters r)) same valid),
      )
