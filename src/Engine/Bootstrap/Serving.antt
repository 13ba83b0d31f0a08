-- ===== src/Engine/Bootstrap/Serving.antt =====
-- internal/mirror/engine.go: what bootstrapOffsetSyncs does for a flow, when it returns nil.
use gomm.Prelude.{
  ℕ, ◌≡◌, refl, sym, ap, ◌∙◌, ◌⊎◌, inl, inr, Bool, true, false, not, ◌&&◌, List, [], ◌∷◌, ◌++◌,
  Option, none, some, if◌then◌else◌, length, set, Bytes, bytes_eq, lookup, nat_beq,
}
use gomm.Policy.{ReplicationPolicy, new_policy, offset_syncs_topic}
use gomm.Config.{ReplicationConfig}
use gomm.Offset.Store.{SyncStore, is_ready, mark_read_to_end}
use gomm.Offset.Reader.{
  Poll, ContextState, ReadEnd, caught_up, timed_out, stopped, crashed, pending, read_to_end,
  apply_records, live, deadline_exceeded, cancelled,
}
use gomm.Offset.Writer.{SyncWriter}
use gomm.Engine.{Engine, flow_key}
use gomm.Engine.Bootstrap.{
  BootClients, boot_goes_on, store_at, wire_writer, add_writer, add_reader, after_read, read_syncs,
  boot_with, emits_syncs, boot_admin_failed, boot_reader_failed, boot_flow,
}

abbrev pub new_writer : Bytes → SyncWriter
new_writer topic = record { sync_topic = topic; closed = false; produced = []; producer_closes = 0 }

-- The engine after a flow whose reader and writer are there.
abbrev pub booted_with : Engine → Bytes → ℕ → SyncStore → Option ℕ → Engine
booted_with e topic i s source =
    let read = add_reader (record e { stores = set e.stores i s }) topic i in
    wire_writer (record read { sync_writers = e.sync_writers ++ (new_writer topic ∷ []) }) source
      (length e.sync_writers)

abbrev pub booted : Engine → ReplicationConfig → Bytes → ℕ → SyncStore → Engine
booted e r topic i s = booted_with e topic i s (lookup (flow_key r) e.sources_by_flow)

-- A store that is read to the end is ready.
abbrev ReadyAtEnd : SyncStore × ReadEnd → Type 0
ReadyAtEnd (s, end) = (end ≡ caught_up) ⊎ (end ≡ timed_out) → is_ready s ≡ true

read_to_end-ReadyAtEnd : (s : SyncStore) (polls : List Poll) → ReadyAtEnd (read_to_end s polls)
unfolding read_to_end is_ready mark_read_to_end
read_to_end-ReadyAtEnd s [] = λ h. elim h [ inl e ↦ cc e | inr e ↦ cc e ]
read_to_end-ReadyAtEnd s (p ∷ polls) =
    by_context p.context (apply_records s p.records)
      (nat_beq (length p.records) 0 && nat_beq p.errors 0) (λ t. read_to_end-ReadyAtEnd t polls)
  where
    by_context :
        (context : ContextState) (applied : Option SyncStore) (done : Bool)
        → ((t : SyncStore) → ReadyAtEnd (read_to_end t polls))
        → ReadyAtEnd (elim context [
          | deadline_exceeded ↦ (mark_read_to_end s, timed_out)
          | cancelled ↦ (s, stopped)
          | live ↦ elim applied [
            | none ↦ (s, crashed)
            | some t ↦ if done then (mark_read_to_end t, caught_up) else read_to_end t polls
          ]
        ])
    by_context deadline_exceeded applied done rest = λ h. refl
    by_context cancelled applied done rest = λ h. elim h [ inl e ↦ cc e | inr e ↦ cc e ]
    by_context live none done rest = λ h. elim h [ inl e ↦ cc e | inr e ↦ cc e ]
    by_context live (some t) true rest = λ h. refl
    by_context live (some t) false rest = rest t

-- What a flow has had done for it.
abbrev pub BootedFor : Engine → ReplicationConfig → Engine → Type 0
BootedFor e r out =
    (policy : ReplicationPolicy) × (i : ℕ) × (s : SyncStore) × (new_policy r.replication_policy
        r.separator
      ≡ some policy)
    × (lookup (flow_key r) e.sync_stores ≡ some i)
    × (is_ready s ≡ true)
    × (out ≡ booted e r (offset_syncs_topic policy r.source) i s)

add_writer-booted :
    (e : Engine) (r : ReplicationConfig) (topic : Bytes) (i : ℕ) (connects : Bool) (s : SyncStore)
    (out : Engine)
    → add_writer (add_reader (record e { stores = set e.stores i s }) topic i) r topic connects
      ≡ (out, boot_goes_on)
    → out ≡ booted e r topic i s
add_writer-booted e r topic i true s out h = sym (ap (λ p. p.0) h)
add_writer-booted e r topic i false s out h = cc h

after_read-booted :
    (e : Engine) (r : ReplicationConfig) (topic : Bytes) (i : ℕ) (connects : Bool) (s : SyncStore)
    (end : ReadEnd) (out : Engine)
    → ((end ≡ caught_up) ⊎ (end ≡ timed_out) → is_ready s ≡ true)
    → after_read e r topic i connects (s, end) ≡ (out, boot_goes_on)
    → (is_ready s ≡ true) × (out ≡ booted e r topic i s)
after_read-booted e r topic i connects s caught_up out ready h =
    (ready (inl refl), add_writer-booted e r topic i connects s out h)
after_read-booted e r topic i connects s timed_out out ready h =
    (ready (inr refl), add_writer-booted e r topic i connects s out h)
after_read-booted e r topic i connects s stopped out ready h = cc h
after_read-booted e r topic i connects s crashed out ready h = cc h
after_read-booted e r topic i connects s pending out ready h = cc h

pub boot_flow-BootedFor :
    (e : Engine) (r : ReplicationConfig) (clients : BootClients) (out : Engine)
    → emits_syncs r ≡ true
    → boot_flow e r clients ≡ (out, boot_goes_on)
    → BootedFor e r out
unfolding boot_flow
boot_flow-BootedFor e r clients out emits h =
    by_policy (new_policy r.replication_policy r.separator) refl (
      ap
        (λ b.
          if not b
          then (e, boot_goes_on)
          else boot_with e r clients (new_policy r.replication_policy r.separator))
        (sym emits)
      ∙ h)
  where
    by_store :
        (policy : ReplicationPolicy) (found : Option ℕ)
        → new_policy r.replication_policy r.separator ≡ some policy
        → lookup (flow_key r) e.sync_stores ≡ found
        → read_syncs e r clients (offset_syncs_topic policy r.source) found ≡ (out, boot_goes_on)
        → BootedFor e r out
    by_store policy none named found h = cc h
    by_store policy (some i) named found h =
        let (s, end) = read_to_end (store_at e i) clients.polls in
        let (ready, made) =
          after_read-booted e r (offset_syncs_topic policy r.source) i clients.writer_connects s end
            out (read_to_end-ReadyAtEnd (store_at e i) clients.polls) h in
        (policy, i, s, named, found, ready, made)

    by_clients :
        (policy : ReplicationPolicy) (admin reader : Bool)
        → new_policy r.replication_policy r.separator ≡ some policy
        → (if not admin
            then (e, boot_admin_failed)
            else if not reader
            then (e, boot_reader_failed)
            else read_syncs e r clients
                (offset_syncs_topic policy r.source)
                (lookup (flow_key r) e.sync_stores))
          ≡ (out, boot_goes_on)
        → BootedFor e r out
    by_clients policy false reader named h = cc h
    by_clients policy true false named h = cc h
    by_clients policy true true named h =
        by_store policy (lookup (flow_key r) e.sync_stores) named refl h

    by_policy :
        (made : Option ReplicationPolicy)
        → new_policy r.replication_policy r.separator ≡ made
        → boot_with e r clients made ≡ (out, boot_goes_on)
        → BootedFor e r out
    by_policy none named h = cc h
    by_policy (some policy) named h =
        by_clients policy clients.admin_connects clients.reader_connects named h

-- A flow that does not take part changes nothing.
pub boot_flow-passes :
    (e : Engine) (r : ReplicationConfig) (clients : BootClients)
    → emits_syncs r ≡ false
    → boot_flow e r clients ≡ (e, boot_goes_on)
unfolding boot_flow
boot_flow-passes e r clients off =
    ap
      (λ b.
        if not b
        then (e, boot_goes_on)
        else boot_with e r clients (new_policy r.replication_policy r.separator))
      off
