-- ===== src/Mirror/Emitter/Safety.antt =====
-- internal/mirror/checkpoint.go: what an emitted checkpoint promises.
use mathlib.Core.List.{Memᴰ}
use gomm.Prelude.{
  All-append, All-member, ℕ, ◌^◌, ◌≤◌, ◌<◌, ◌≡◌, ◌≢◌, inl, inr, refl, sym, ap, ◌∙◌, Bool, true,
  false, not, List, [], ◌∷◌, ◌++◌, Option, none, some, arith, All, Bool-cases, if◌then◌else◌, Int64,
  lt64, minus_one, Bytes,
}
use gomm.Types.{TopicPartition, OffsetSync, Checkpoint}
use gomm.Filter.{RegexpEngine, topic_passes, group_passes}
use gomm.Offset.Store.{is_ready, translate_downstream}
use gomm.Offset.Store.Contents.{Reached}
use gomm.Offset.Store.Translation.{IsTrue, translate_safe}
use gomm.Mirror.Emitter.{
  GroupOffset, CheckpointEmitter, checkpoint_of, offset_checkpoints, group_checkpoints,
  groups_checkpoints, emit_checkpoints,
}

module _ (engine : RegexpEngine) (c : CheckpointEmitter engine) where
  -- A checkpoint for a group and a topic that pass the filters, with a translation of its offset
  -- that is not negative.
  abbrev pub IsAllowed : Checkpoint → Type 0
  IsAllowed cp =
      (group_passes engine c.group_filter cp.consumer_group_id ≡ true)
      × (topic_passes engine c.topic_filter cp.checkpoint_partition.topic ≡ true)
      × (translate_downstream c.sync_store cp.checkpoint_partition cp.checkpoint_upstream
          ≡ (cp.checkpoint_downstream, true))
      × (lt64 cp.checkpoint_downstream 0 ≡ false)

  offset_checkpoints-AllAllowed :
      (group : Bytes) (o : GroupOffset)
      → group_passes engine c.group_filter group ≡ true
      → All IsAllowed (offset_checkpoints engine c group o)
  unfolding offset_checkpoints
  offset_checkpoints-AllAllowed group (tp, at) passes =
      decide (topic_passes engine c.topic_filter tp.topic) refl
        (translate_downstream c.sync_store tp at) refl
    where
      decide :
          (topic_ok : Bool)
          → topic_passes engine c.topic_filter tp.topic ≡ topic_ok
          → (answer : Int64 × Bool) → translate_downstream c.sync_store tp at ≡ answer
          → All IsAllowed (
              if not topic_ok
              then []
              else if not answer.1
              then []
              else if lt64 answer.0 0
              then []
              else checkpoint_of engine group tp at answer.0 ∷ [])
      decide false t answer e = tt
      decide true t (d, false) e = tt
      decide true t (d, true) e = elim (Bool-cases (lt64 d 0)) [
        | inl negative ↦ rw negative tt
        | inr good ↦ rw good ((passes, t, e, good), tt)
      ]

  group_checkpoints-AllAllowed :
      (group : Bytes) (offsets : List GroupOffset)
      → group_passes engine c.group_filter group ≡ true
      → All IsAllowed (group_checkpoints engine c group offsets)
  unfolding group_checkpoints
  group_checkpoints-AllAllowed group [] passes = tt
  group_checkpoints-AllAllowed group (o ∷ more) passes =
      All-append IsAllowed (offset_checkpoints engine c group o)
        (group_checkpoints engine c group more) (offset_checkpoints-AllAllowed group o passes)
        (group_checkpoints-AllAllowed group more passes)

  groups_checkpoints-AllAllowed :
      (groups : List (Bytes × Option (List GroupOffset)))
      → All IsAllowed (groups_checkpoints engine c groups)
  unfolding groups_checkpoints
  groups_checkpoints-AllAllowed [] = tt
  groups_checkpoints-AllAllowed ((group, none) ∷ more) = groups_checkpoints-AllAllowed more
  groups_checkpoints-AllAllowed ((group, some offsets) ∷ more) =
      decide (group_passes engine c.group_filter group) refl (groups_checkpoints-AllAllowed more)
    where
      decide :
          (passes : Bool)
          → group_passes engine c.group_filter group ≡ passes
          → All IsAllowed (groups_checkpoints engine c more)
          → All IsAllowed (
              if passes
              then group_checkpoints engine c group offsets ++ groups_checkpoints engine c more
              else groups_checkpoints engine c more)
      decide true e rest =
          All-append IsAllowed (group_checkpoints engine c group offsets)
            (groups_checkpoints engine c more) (group_checkpoints-AllAllowed group offsets e) rest
      decide false e rest = rest

  -- Whatever groups and committed offsets there are, each checkpoint that a round emits is for a
  -- group and a topic that the filters pass, and carries a translation of the committed offset that is
  -- not negative.
  pub emit_checkpoints-AllAllowed :
      (listed : Option (List (Bytes × Option (List GroupOffset))))
      → All IsAllowed (emit_checkpoints engine c listed).0
  unfolding emit_checkpoints
  emit_checkpoints-AllAllowed none = elim (Bool-cases (is_ready c.sync_store)) [
    | inl ready ↦ rw ready tt
    | inr early ↦ rw early tt
  ]
  emit_checkpoints-AllAllowed (some groups) = decide (is_ready c.sync_store)
    where
      decide :
          (ready : Bool)
          → All IsAllowed (
              let out : List Checkpoint × Bool =
                (if ready then (groups_checkpoints engine c groups, true) else ([], true)) in
              out.0)
      decide true = groups_checkpoints-AllAllowed groups
      decide false = tt

  -- Where the target keeps the order of each partition's records and a run has brought the store only
  -- true syncs of a checkpoint's partition, the emitted checkpoint's downstream offset is at most the
  -- place on the target of the upstream offset that the group had committed, if both are below 2^63:
  -- a consumer that resumes from it misses no record.
  pub emit_checkpoints_safe :
      (place : TopicPartition → ℕ → ℕ)
      (order : (tp : TopicPartition) (i j : ℕ) → i < j → place tp i < place tp j)
      (l : List OffsetSync) (listed : Option (List (Bytes × Option (List GroupOffset))))
      (cp : Checkpoint)
      → Reached l c.sync_store
      → All
          (λ sync.
            (sync.topic_partition ≡ cp.checkpoint_partition)
            → IsTrue (place cp.checkpoint_partition) (order cp.checkpoint_partition) sync)
          l
      → Memᴰ cp (emit_checkpoints engine c listed).0
      → cp.checkpoint_upstream < 2 ^ 63
      → place cp.checkpoint_partition cp.checkpoint_upstream < 2 ^ 63
      → cp.checkpoint_downstream ≤ place cp.checkpoint_partition cp.checkpoint_upstream
  emit_checkpoints_safe place order l listed cp reached true_syncs emitted small placed =
      let (_, _, translation, good) =
        All-member IsAllowed (emit_checkpoints engine c listed).0 cp
          (emit_checkpoints-AllAllowed listed) emitted in
      elim (translate_safe (place cp.checkpoint_partition) (order cp.checkpoint_partition)
        cp.checkpoint_partition cp.checkpoint_upstream reached true_syncs small placed
        (ap (λ (p : Int64 × Bool). p.1) translation)) [
          | inl unknown ↦
              absurd (negative (sym (ap (λ (p : Int64 × Bool). p.0) translation) ∙ unknown) good)
          | inr reached_place ↦ rw (ap (λ (p : Int64 × Bool). p.0) translation) at reached_place
        ]
    where
      negative : cp.checkpoint_downstream ≡ minus_one → lt64 cp.checkpoint_downstream 0 ≢ false
      negative e h = ground arith
