-- ===== src/Engine/Bootstrap/Writers.antt =====
-- internal/mirror/engine.go: after bootstrapOffsetSyncs each flow has its own writer.
use mathlib.Core.Path.{subst}
use gomm.Prelude.{
  ℕ, zero, suc, ◌<◌, ◌≡◌, ◌≢◌, refl, sym, ap, ◌∙◌, inl, inr, true, false, List, [], ◌∷◌, ◌++◌, some,
  arith, Bool-cases, length, length-append, length-set, get_or, set, get_or-set_self, get_or-set_ne,
  Bytes, bytes_eq, lookup,
}
use gomm.Policy.{ReplicationPolicy, new_policy, offset_syncs_topic}
use gomm.Config.{ReplicationConfig}
use gomm.Offset.Store.{SyncStore, new_sync_store, is_ready}
use gomm.Offset.Writer.{SyncWriter}
use gomm.Engine.{Source, Engine, flow_key}
use gomm.Engine.Bootstrap.{
  BootClients, boot_goes_on, no_source, source_at, store_at, emits_syncs, boot_flow,
}
use gomm.Engine.Bootstrap.Serving.{
  new_writer, booted_with, BootedFor, boot_flow-BootedFor, boot_flow-passes,
}

abbrev pub writer_at : Engine → ℕ → SyncWriter
writer_at e w = get_or e.sync_writers w (new_writer [])

-- The maps of the engine agree, stay in range, and have different numbers for different keys.
pub record Mapped (e : Engine) : Type 0 where
  pub agree : (key : Bytes) → lookup key e.sync_stores ≡ lookup key e.sources_by_flow
  pub in_range :
      (key : Bytes) (i : ℕ)
      → lookup key e.sources_by_flow ≡ some i
      → (i < length e.sources) × (i < length e.stores)
  pub apart :
      (k j : Bytes) (i : ℕ)
      → lookup k e.sources_by_flow ≡ some i
      → lookup j e.sources_by_flow ≡ some i
      → k ≡ j

-- A flow is served: its source, the one under its key, has a writer of the topic that its policy
-- names for its source cluster, and its store is ready.
abbrev pub Served : Engine → ReplicationConfig → Type 0
Served e r =
    (policy : ReplicationPolicy) × (i : ℕ) × (w : ℕ) × (new_policy r.replication_policy r.separator
      ≡ some policy)
    × (lookup (flow_key r) e.sources_by_flow ≡ some i)
    × ((source_at e i).sync_writer ≡ some w)
    × (w < length e.sync_writers)
    × ((writer_at e w).sync_topic ≡ offset_syncs_topic policy r.source)
    × (is_ready (store_at e i) ≡ true)

-- The engine after a flow under a key that the map has.
abbrev pub booted_at : Engine → Bytes → ℕ → SyncStore → Engine
booted_at e topic i s = record e {
  stores = set e.stores i s;
  sync_readers = e.sync_readers ++ (record { sync_topic = topic; store = i; closed = false } ∷ []);
  sync_writers = e.sync_writers ++ (new_writer topic ∷ []);
  sources = set e.sources i (record (source_at e i) { sync_writer = some (length e.sync_writers) });
}

abbrev pub BootedAt : Engine → ReplicationConfig → Engine → Type 0
BootedAt e r out =
    (policy : ReplicationPolicy) × (i : ℕ) × (s : SyncStore) × (new_policy r.replication_policy
        r.separator
      ≡ some policy)
    × (lookup (flow_key r) e.sources_by_flow ≡ some i)
    × (is_ready s ≡ true)
    × (out ≡ booted_at e (offset_syncs_topic policy r.source) i s)

pub BootedFor-at :
    (e : Engine) (r : ReplicationConfig) (out : Engine)
    → Mapped e
    → BootedFor e r out
    → BootedAt e r out
BootedFor-at e r out m (policy, i, s, named, found, ready, made) =
    let at : lookup (flow_key r) e.sources_by_flow ≡ some i = sym (m.agree (flow_key r)) ∙ found in
    (
      policy,
      i,
      s,
      named,
      at,
      ready,
      made ∙ ap (booted_with e (offset_syncs_topic policy r.source) i s) at,
    )

last-writer :
    (ws : List SyncWriter) (w : SyncWriter)
    → get_or (ws ++ (w ∷ [])) (length ws) (new_writer []) ≡ w
last-writer [] w = refl
last-writer (x ∷ ws) w = last-writer ws w

older-writer :
    (ws : List SyncWriter) (w : SyncWriter) (i : ℕ)
    → i < length ws
    → get_or (ws ++ (w ∷ [])) i (new_writer []) ≡ get_or ws i (new_writer [])
older-writer [] w i h = absurd (omega arith)
older-writer (x ∷ ws) w zero h = refl
older-writer (x ∷ ws) w (suc i) h = older-writer ws w i (omega arith)

pub BootedAt-Mapped :
    (e : Engine) (r : ReplicationConfig) (out : Engine) → Mapped e → BootedAt e r out → Mapped out
BootedAt-Mapped e r out m (policy, i, s, named, found, ready, made) =
    subst Mapped (sym made) (record {
      agree = m.agree;
      in_range = λ key j h.
          let (a, b) = m.in_range key j h in
          (
            omega (
              arith,
              a,
              length-set e.sources i
                  (record (source_at e i) { sync_writer = some (length e.sync_writers) }),
            ),
            omega (arith, b, length-set e.stores i s),
          );
      apart = m.apart;
    })

-- The flow itself is served afterwards.
pub BootedAt-Served :
    (e : Engine) (r : ReplicationConfig) (out : Engine) → Mapped e → BootedAt e r out → Served out r
BootedAt-Served e r out m (policy, i, s, named, found, ready, made) =
    let (in_sources, in_stores) = m.in_range (flow_key r) i found in
    subst (λ o. Served o r) (sym made)
      (
        policy,
        i,
        length e.sync_writers,
        named,
        found,
        ap (λ (x : Source). x.sync_writer) (get_or-set_self e.sources i _ no_source in_sources),
        omega (
          arith,
          length-append e.sync_writers (new_writer (offset_syncs_topic policy r.source) ∷ []),
        ),
        ap (λ (x : SyncWriter). x.sync_topic)
            (last-writer e.sync_writers (new_writer (offset_syncs_topic policy r.source))),
        ap is_ready (get_or-set_self e.stores i s new_sync_store in_stores) ∙ ready,
      )

-- Another flow, that is served before, is served afterwards.
pub BootedAt-keeps :
    (e : Engine) (r other : ReplicationConfig) (out : Engine)
    → Mapped e
    → flow_key r ≢ flow_key other
    → BootedAt e r out
    → Served e other
    → Served out other
BootedAt-keeps e r other out m ne (policy, i, s, named, found, ready, made)
      (p, j, w, named', found', wired, below, topic, ready') =
    let differ : i ≢ j =
      λ same. ne (m.apart (flow_key r) (flow_key other) i found (found' ∙ ap some (sym same))) in
    subst (λ o. Served o other) (sym made)
      (
        p,
        j,
        w,
        named',
        found',
        ap (λ (x : Source). x.sync_writer) (get_or-set_ne e.sources i j _ no_source differ) ∙ wired,
        omega (
          arith,
          below,
          length-append e.sync_writers (new_writer (offset_syncs_topic policy r.source) ∷ []),
        ),
        ap (λ (x : SyncWriter). x.sync_topic) (older-writer e.sync_writers _ w below) ∙ topic,
        ap is_ready (get_or-set_ne e.stores i j s new_sync_store differ) ∙ ready',
      )

pub boot_flow-keeps :
    (e out : Engine) (r other : ReplicationConfig) (clients : BootClients)
    → Mapped e
    → boot_flow e r clients ≡ (out, boot_goes_on)
    → (emits_syncs r ≡ true → flow_key r ≢ flow_key other)
    → Mapped out × (Served e other → Served out other)
boot_flow-keeps e out r other clients m h ne = elim (Bool-cases (emits_syncs r)) [
  | inl on ↦
      let at = BootedFor-at e r out m (boot_flow-BootedFor e r clients out on h) in
      (BootedAt-Mapped e r out m at, BootedAt-keeps e r other out m (ne on) at)
  | inr off ↦
      let same : e ≡ out = ap (λ p. p.0) (sym (boot_flow-passes e r clients off) ∙ h) in
      (subst Mapped same m, subst (λ o. Served o other) same)
]
