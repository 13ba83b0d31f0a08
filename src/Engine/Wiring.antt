-- ===== src/Engine/Wiring.antt =====
-- internal/mirror/engine.go: what NewEngine connects.
pub mod Numbers
use mathlib.Core.Path.{subst}
use mathlib.Core.List.{map}
use gomm.Prelude.{
  ℕ, zero, suc, ◌+◌, ◌≡◌, refl, sym, ap, ◌∙◌, Bool, true, false, not, List, [], ◌∷◌, ◌++◌, Option,
  none, some, append-nil, append_assoc, arith, if◌then◌else◌, length, length-append, Bytes, ◌==◌,
  bytes_eq, nat_eq, lookup, lookup-insert, get_or,
}
use gomm.Filter.{RegexpEngine}
use gomm.Config.{ReplicationConfig}
use gomm.Offset.Store.{new_sync_store}
use gomm.Mirror.Lifecycle.{
  Clients, NewDlq, dlq_disabled, dlq_opts_failed, dlq_client_failed, dlq_made, new_dlq,
}
use gomm.Engine.{
  Source, CheckpointEmitter, TopicDiscovery, Engine, empty_engine, Built, built, build_failed,
  ◌>>=◌, flow_key, own_queue, set_queue, FlowDialing, add_components, add_store, before_queues,
  make_queues, after_queues, add_flow, add_flows, new_engine,
}
use gomm.Engine.Wiring.Numbers.{
  count_up, count_up-snoc, map-snoc, length-map, length-count_up, last_index, last_index-snoc,
  get_or-append_default,
}

-- An engine made for the flows with these keys: one store that is not read, source, checkpoint emitter,
-- discovery and heartbeat emitter each, connected by their numbers, and maps that have for a key its last flow.
pub record Wired (keys : List Bytes) (e : Engine) : Type 0 where
  pub stores : length e.stores ≡ length keys
  pub unread : (i : ℕ) → get_or e.stores i new_sync_store ≡ new_sync_store
  pub sources : map (λ (s : Source). s.store) e.sources ≡ count_up 0 (length keys)
  pub checkpoints :
      map (λ (c : CheckpointEmitter). c.store) e.checkpoints ≡ count_up 0 (length keys)
  pub discoveries :
      map (λ (td : TopicDiscovery). td.source) e.topic_discoveries ≡ count_up 0 (length keys)
  pub heartbeats : length e.heartbeats ≡ length keys
  pub by_flow : (key : Bytes) → lookup key e.sources_by_flow ≡ last_index key 0 keys none
  pub store_by_flow : (key : Bytes) → lookup key e.sync_stores ≡ last_index key 0 keys none

-- Only the queues, and the clients, differ.
abbrev SameButQueues : Engine → Engine → Type 0
SameButQueues e q = q ≡ record e { queues = q.queues; dlqs = q.dlqs; clients = q.clients }

own_queue-Same : (e : Engine) (made : NewDlq × Clients) → SameButQueues e (own_queue e made).0
own_queue-Same e (dlq_made d, w) = refl
own_queue-Same e (dlq_disabled, w) = refl
own_queue-Same e (dlq_opts_failed, w) = refl
own_queue-Same e (dlq_client_failed, w) = refl

built-injective : {A : Type 0} {a b : A} → built a ≡ built b → a ≡ b
built-injective h = cc h

set_queue-Same :
    (e : Engine) (own : Option ℕ) (made : NewDlq × Clients) (out : Engine × Option ℕ)
    → set_queue e own made ≡ built out
    → SameButQueues e out.0
set_queue-Same e own (dlq_made d, w) out h =
    subst (λ o. SameButQueues e o.0) (built-injective h) refl
set_queue-Same e own (dlq_disabled, w) out h =
    subst (λ o. SameButQueues e o.0) (built-injective h) refl
set_queue-Same e own (dlq_opts_failed, w) out h = cc h
set_queue-Same e own (dlq_client_failed, w) out h = cc h

pub bind-built :
    {A B : Type 0} (m : Built A) (f : A → Built B) (b : B)
    → (m >>= f) ≡ built b
    → (a : A) × (m ≡ built a) × (f a ≡ built b)
bind-built (built a) f b h = (a, refl, h)
bind-built (build_failed err) f b h = cc h

make_queues-Same :
    (e : Engine) (r : ReplicationConfig) (dialing : FlowDialing) (out : Engine × Option ℕ)
    → make_queues e r dialing ≡ built out
    → SameButQueues e out.0
unfolding make_queues
make_queues-Same e r dialing out h =
    let (owning, own) = own_queue e (new_dlq r dialing.own_queue e.clients) in
    let first = own_queue-Same e (new_dlq r dialing.own_queue e.clients) in
    let second = set_queue-Same owning own (new_dlq r dialing.queue owning.clients) out h in
    second
    ∙ ap {A = Engine}
        (λ q. record q { queues = out.0.queues; dlqs = out.0.dlqs; clients = out.0.clients }) first

-- The components of a flow keep the wiring.
Wired-add :
    (keys : List Bytes) (e q : Engine) (r : ReplicationConfig) (queue : Option ℕ)
    → Wired keys e
    → SameButQueues (add_store e r) q
    → Wired (keys ++ (flow_key r ∷ [])) (add_components q r (length e.stores) queue)
Wired-add keys e q r queue w same =
    subst (λ p. Wired (keys ++ (flow_key r ∷ [])) (add_components p r (length e.stores) queue))
      (sym same)
      (record {
        stores = omega (arith, more, length-append e.stores (new_sync_store ∷ []), w.stores);
        unread = λ i. get_or-append_default e.stores i new_sync_store ∙ w.unread i;
        sources = numbered (λ (s : Source). s.store) e.sources _ w.sources w.stores;
        checkpoints =
            numbered (λ (c : CheckpointEmitter). c.store) e.checkpoints _ w.checkpoints w.stores;
        discoveries =
            numbered (λ (td : TopicDiscovery). td.source) e.topic_discoveries _ w.discoveries
              as_many;
        heartbeats = omega (
          arith,
          more,
          length-append e.heartbeats (
              record { cfg = r; emitter = record { running = false; producer = none; loops = 0 } }
              ∷ []),
          w.heartbeats,
        );
        by_flow = λ key.
            lookup-insert (flow_key r) key (length e.sources) e.sources_by_flow
            ∙ latest key (length e.sources) (lookup key e.sources_by_flow) as_many (w.by_flow key);
        store_by_flow = λ key.
            lookup-insert (flow_key r) key (length e.stores) e.sync_stores
            ∙ latest key (length e.stores) (lookup key e.sync_stores) w.stores
                (w.store_by_flow key);
      })
  where
    more : length (keys ++ (flow_key r ∷ [])) ≡ length keys + 1
    more = length-append keys (flow_key r ∷ [])

    as_many : length e.sources ≡ length keys
    as_many =
        sym (length-map (λ (s : Source). s.store) e.sources)
        ∙ ap length w.sources
        ∙ length-count_up 0 (length keys)

    numbered :
        {A : Type 0} (f : A → ℕ) (xs : List A) (x : A)
        → map f xs ≡ count_up 0 (length keys)
        → f x ≡ length keys
        → map f (xs ++ (x ∷ [])) ≡ count_up 0 (length (keys ++ (flow_key r ∷ [])))
    numbered f xs x h here =
        map-snoc f xs x
        ∙ ap (λ l. l ++ (f x ∷ [])) h
        ∙ ap (λ n. count_up 0 (length keys) ++ (n ∷ [])) (omega (arith, here))
        ∙ count_up-snoc 0 (length keys)
        ∙ ap (count_up 0) {x = suc (length keys)} (omega (arith, more))

    latest :
        (key : Bytes) (n : ℕ) (found : Option ℕ)
        → n ≡ length keys
        → found ≡ last_index key 0 keys none
        → (if flow_key r == key then some n else found)
          ≡ last_index key 0 (keys ++ (flow_key r ∷ [])) none
    latest key n found here h =
        ap (λ f. if flow_key r == key then some n else f) h
        ∙ ap (λ m. if flow_key r == key then some m else last_index key 0 keys none)
            (omega (arith, here))
        ∙ sym (last_index-snoc key 0 keys (flow_key r) none)

module _ (regexp : RegexpEngine) where
  -- A flow that is added adds its components to an engine in which only queues have been added.
  add_flow-shape :
      (clusters : List (Bytes × List Bytes)) (e : Engine) (r : ReplicationConfig)
      (dialing : FlowDialing) (out : Engine)
      → add_flow regexp clusters e r dialing ≡ built out
      → (q : Engine) × (queue : Option ℕ) × SameButQueues (add_store e r) q
        × (out ≡ add_components q r (length e.stores) queue)
  unfolding add_flow
  add_flow-shape clusters e r dialing out h =
      let (checked, _, h₁) =
        bind-built (before_queues regexp clusters r)
          (λ _. make_queues (add_store e r) r dialing >>= queued) out h in
      let (made, e₂, h₂) = bind-built (make_queues (add_store e r) r dialing) queued out h₁ in
      let (rest, _, h₃) =
        bind-built (after_queues regexp r)
          (λ _. built (add_components made.0 r (length e.stores) made.1)) out h₂ in
      (made.0, made.1, make_queues-Same (add_store e r) r dialing made e₂, sym (built-injective h₃))
    where
      queued : Engine × Option ℕ → Built Engine
      queued (q, queue) =
          after_queues regexp r >>= λ _. built (add_components q r (length e.stores) queue)

  -- The keys of the flows that are enabled, in order.
  abbrev pub enabled_keys : List (ReplicationConfig × FlowDialing) → List Bytes
  enabled_keys [] = []
  enabled_keys ((r, dialing) ∷ more) =
      let rest = enabled_keys more in if r.enabled then flow_key r ∷ rest else rest

  add_flows-Wired :
      (clusters : List (Bytes × List Bytes)) (flows : List (ReplicationConfig × FlowDialing))
      (keys : List Bytes) (e out : Engine)
      → Wired keys e
      → add_flows regexp clusters e flows ≡ built out
      → Wired (keys ++ enabled_keys flows) out
  unfolding add_flows
  add_flows-Wired clusters [] keys e out w h =
      rw (append-nil keys) (subst (Wired keys) (built-injective h) w)
  add_flows-Wired clusters ((r, dialing) ∷ more) keys e out w h =
      by_enabled r.enabled h (add_flows-Wired clusters more)
    where
      by_enabled :
          (b : Bool)
          → (if not b
              then add_flows regexp clusters e more
              else (add_flow regexp clusters e r dialing >>= λ next.
                  add_flows regexp clusters next more))
            ≡ built out
          → ((ks : List Bytes) (f o : Engine)
              → Wired ks f
              → add_flows regexp clusters f more ≡ built o
              → Wired (ks ++ enabled_keys more) o)
          → Wired (keys ++ (if b then flow_key r ∷ enabled_keys more else enabled_keys more)) out
      by_enabled false h rest = rest keys e out w h
      by_enabled true h rest =
          let (next, e₁, h₁) =
            bind-built (add_flow regexp clusters e r dialing)
              (λ next. add_flows regexp clusters next more) out h in
          let (q, queue, same, shape) = add_flow-shape clusters e r dialing next e₁ in
          let w₁ = Wired-add keys e q r queue w same in
          subst (λ ks. Wired ks out) (append_assoc keys (flow_key r ∷ []) (enabled_keys more))
            (rest (keys ++ (flow_key r ∷ [])) next out
              (subst (Wired (keys ++ (flow_key r ∷ []))) (sym shape) w₁) h₁)

  -- An engine that NewEngine returns has, for each enabled flow in order, one new store, source, checkpoint
  -- emitter, heartbeat emitter and topic discovery. The i-th source and the i-th checkpoint emitter share
  -- the i-th store, the i-th discovery has the i-th source, and the maps by flow have for every key the
  -- same number: that of the last enabled flow with this key, and none where no flow has it.
  pub new_engine-Wired :
      (clusters : List (Bytes × List Bytes)) (flows : List (ReplicationConfig × FlowDialing))
      (e : Engine)
      → new_engine regexp clusters flows ≡ built e
      → Wired (enabled_keys flows) e
  unfolding new_engine lookup
  new_engine-Wired clusters flows e h =
      add_flows-Wired clusters flows [] empty_engine e
        (record {
          stores = refl;
          unread = λ i. refl;
          sources = refl;
          checkpoints = refl;
          discoveries = refl;
          heartbeats = refl;
          by_flow = λ key. refl;
          store_by_flow = λ key. refl;
        })
        h
