-- ===== src/Engine/Bootstrap/Readiness.antt =====
-- internal/mirror/engine.go: NewEngine and bootstrapOffsetSyncs in a row, and /readyz.
use gomm.Prelude.{
  ℕ, suc, ◌<◌, ◌+◌, ◌≡◌, refl, sym, ap, ◌∙◌, ◌⊎◌, inl, inr, Bool, true, false, not, List, [], ◌∷◌,
  Option, none, some, arith, if◌then◌else◌, length, get_or, Bytes, ◌==◌, bytes_eq, lookup, All,
}
use gomm.Filter.{RegexpEngine}
use gomm.Offset.Store.{is_ready, new_sync_store}
use gomm.Config.{ReplicationConfig}
use gomm.Engine.{Source, Engine, built, FlowDialing, flow_key, new_engine}
use gomm.Engine.Wiring.{Wired, enabled_keys, new_engine-Wired}
use gomm.Engine.Wiring.Numbers.{last_index, length-map, length-count_up}
use gomm.Engine.Bootstrap.{
  BootClients, boot_goes_on, emits_syncs, bootstrap_offset_syncs, store_at, stores_ready, readyz,
}
use gomm.Engine.Bootstrap.Writers.{Mapped, Served}
use gomm.Engine.Bootstrap.Loop.{DistinctKeys, OtherKeys, bootstrap-Served_from}
use gomm.Engine.Bootstrap.Unready.{Unready, bootstrap-Unready}

some-injective : {a b : ℕ} → some a ≡ some b → a ≡ b
some-injective h = cc h

last_index-found :
    (key : Bytes) (i : ℕ) (ks : List Bytes) (found : Option ℕ) (n : ℕ)
    → last_index key i ks found ≡ some n
    → (found ≡ some n) ⊎ ((m : ℕ) × (n ≡ i + m) × (m < length ks) × (get_or ks m [] ≡ key))
last_index-found key i [] found n h = inl h
last_index-found key i (k ∷ ks) found n h =
    elim (last_index-found key (suc i) ks (if k == key then some i else found) n h) [
      | inl here ↦ first (k == key) refl here
      | inr (m, at, below, same) ↦ inr (suc m, omega arith, omega arith, same)
    ]
  where
    first :
        (b : Bool)
        → (k == key) ≡ b
        → (if b then some i else found) ≡ some n
        → (found ≡ some n)
          ⊎ ((m : ℕ) × (n ≡ i + m) × (m < length (k ∷ ks)) × (get_or (k ∷ ks) m [] ≡ key))
    first true e here =
        inr (0, omega (arith, some-injective here), omega arith, (bytes_eq.same_iff k key).0 e)
    first false e here = inl here

Wired-Mapped : (keys : List Bytes) (e : Engine) → Wired keys e → Mapped e
Wired-Mapped keys e w = record {
  agree = λ key. w.store_by_flow key ∙ sym (w.by_flow key);
  in_range = λ key i h. elim (last_index-found key 0 keys none i (sym (w.by_flow key) ∙ h)) [
    | inl nothing ↦ cc nothing
    | inr (m, at, below, same) ↦ (omega (arith, as_many), omega (arith, w.stores))
  ];
  apart = λ k j i h h'. elim (last_index-found k 0 keys none i (sym (w.by_flow k) ∙ h)) [
    | inl nothing ↦ cc nothing
    | inr (m, at, below, same) ↦ elim (last_index-found j 0 keys none i (sym (w.by_flow j) ∙ h')) [
      | inl nothing ↦ cc nothing
      | inr (m', at', below', same') ↦
          let e : m ≡ m' = omega arith in sym same ∙ ap (λ n. get_or keys n []) e ∙ same'
    ]
  ];
}
  where
    as_many : length e.sources ≡ length keys
    as_many =
        sym (length-map (λ (s : Source). s.store) e.sources)
        ∙ ap length w.sources
        ∙ length-count_up 0 (length keys)

-- On an engine that NewEngine returns, where bootstrapOffsetSyncs returns nil and the flows that emit
-- offset syncs have different keys: each of these flows has a store that is marked as ready, which it
-- is both after its topic is read to the end and after the time limit of the read, and its own source,
-- the one under its key, has a writer of the topic that the flow's policy names for its source cluster.
pub bootstrap-Served :
    (regexp : RegexpEngine) (clusters : List (Bytes × List Bytes))
    (flows : List (ReplicationConfig × FlowDialing)) (e out : Engine)
    (boots : List (ReplicationConfig × BootClients))
    → new_engine regexp clusters flows ≡ built e
    → DistinctKeys boots
    → bootstrap_offset_syncs e boots ≡ (out, boot_goes_on)
    → All (λ (f : ReplicationConfig × BootClients). emits_syncs f.0 ≡ true → Served out f.0) boots
bootstrap-Served regexp clusters flows e out boots made distinct h =
    bootstrap-Served_from e out boots
      (Wired-Mapped (enabled_keys regexp flows) e (new_engine-Wired regexp clusters flows e made))
      distinct h

stores_ready-false :
    (e : Engine) (key : Bytes) (i : ℕ) (entries : List (Bytes × ℕ))
    → lookup key entries ≡ some i
    → is_ready (store_at e i) ≡ false
    → stores_ready e entries ≡ false
unfolding stores_ready lookup
stores_ready-false e key i [] found unready = cc found
stores_ready-false e key i ((k, j) ∷ more) found unready =
    here (k == key) found (stores_ready-false e key i more)
  where
    here :
        (b : Bool)
        → (if b then some j else lookup key more) ≡ some i
        → (lookup key more ≡ some i → is_ready (store_at e i) ≡ false → stores_ready e more ≡ false)
        → (if not (is_ready (store_at e j)) then false else stores_ready e more) ≡ false
    here true found rest =
        ap (λ n. if not (is_ready (store_at e n)) then false else stores_ready e more)
          (some-injective found)
        ∙ ap (λ b. if not b then false else stores_ready e more) unready
    here false found rest = ground (arith, rest found unready)

-- On an engine that NewEngine returns, where bootstrapOffsetSyncs returns nil: if the engine has a store
-- under the key of a flow, and no flow that emits offset syncs has the same key, then /readyz answers
-- 503.
pub readyz-unserved :
    (regexp : RegexpEngine) (clusters : List (Bytes × List Bytes))
    (flows : List (ReplicationConfig × FlowDialing)) (e out : Engine)
    (boots : List (ReplicationConfig × BootClients)) (r : ReplicationConfig) (i : ℕ)
    → new_engine regexp clusters flows ≡ built e
    → bootstrap_offset_syncs e boots ≡ (out, boot_goes_on)
    → lookup (flow_key r) e.sync_stores ≡ some i
    → OtherKeys r boots
    → readyz out ≡ 503
unfolding readyz is_ready new_sync_store
readyz-unserved regexp clusters flows e out boots r i made h found ne =
    let w = new_engine-Wired regexp clusters flows e made in
    let m = Wired-Mapped (enabled_keys regexp flows) e w in
    let start : Unready e (flow_key r) =
      (i, sym (m.agree (flow_key r)) ∙ found, found, ap is_ready (w.unread i)) in
    let (j, _, entry, unready) = bootstrap-Unready e out r boots m ne h start in
    ground (arith, stores_ready-false out (flow_key r) j out.sync_stores entry unready)
