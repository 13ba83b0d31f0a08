-- ===== src/Policy/Naming.antt =====
-- internal/policy/replication.go: names that are built are recognised again.
use mathlib.Core.Option
use gomm.Prelude.{
  ℕ, zero, suc, ◌+◌, ◌-◌, ◌≤◌, ◌≡◌, ◌≢◌, refl, inl, inr, true, false, [], ◌∷◌, ◌++◌, append_assoc,
  Option, none, some, arith, Option-cases, length, take, drop, take-append, drop-append,
  drop-append_eq, length-append, Bytes, bytes_beq_iff, codes, has_prefix, has_suffix,
  has_prefix-append, index,
}
use mathlib.Core.Path.{subst}
use gomm.Policy.{
  internal_with, ReplicationPolicy, default, identity, format_remote_topic, topic_source,
  upstream_topic, is_internal_topic, offset_syncs_topic, checkpoints_topic,
}

-- A prefix is decided by the first bytes, as many as it has.
has_prefix-longer : (p s r : Bytes) → length p ≤ length s → has_prefix p (s ++ r) ≡ has_prefix p s
unfolding has_prefix
has_prefix-longer [] s r h = refl
has_prefix-longer (c ∷ p) [] r h = absurd (omega arith)
has_prefix-longer (c ∷ p) (d ∷ s) r h = rw (has_prefix-longer p s r (omega arith))

has_prefix-fits : (p s : Bytes) → has_prefix p s ≡ true → length p ≤ length s
unfolding has_prefix
has_prefix-fits [] s h = omega arith
has_prefix-fits (c ∷ p) [] h = cc
has_prefix-fits (c ∷ p) (d ∷ s) h = ground (arith, has_prefix-fits p s)

index-fits : (p s : Bytes) {k : ℕ} → index p s ≡ some k → k + length p ≤ length s
unfolding index
index-fits p [] h = ground (arith, has_prefix-fits p [])
index-fits p (c ∷ s) h = elim (Option-cases (index p s)) [
  | inl e ↦ ground (arith, has_prefix-fits p (c ∷ s))
  | inr (k, e) ↦ ground (arith, has_prefix-fits p (c ∷ s), index-fits p s e)
]

-- The first occurrence stays where it is when the text grows.
index-append : (p s r : Bytes) {k : ℕ} → index p s ≡ some k → index p (s ++ r) ≡ some k
unfolding index
index-append p [] [] h = h
index-append p [] (c ∷ r) h = ground (arith, has_prefix-fits p [], has_prefix-longer p [] (c ∷ r))
index-append p (c ∷ s) r {k} h = elim (Option-cases (index p s)) [
  | inl e ↦ ground (arith, has_prefix-fits p (c ∷ s), has_prefix-longer p (c ∷ s) r)
  | inr (j, e) ↦ ground (
    arith,
    has_prefix-fits p (c ∷ s),
    index-fits p s e,
    has_prefix-longer p (c ∷ s) r,
    index-append p s r e,
  )
]

-- A topic name that DefaultPolicy built from a cluster alias is taken apart into that alias and the
-- topic, if the separator first occurs right behind the alias and the alias is not empty.
pub remote_topic_roundtrip :
    (separator source topic : Bytes)
    → source ≢ []
    → index separator (source ++ separator) ≡ some (length source)
    → (topic_source (default separator) (format_remote_topic (default separator) source topic)
        ≡ source)
      × (upstream_topic (default separator) (format_remote_topic (default separator) source topic)
          ≡ topic)
unfolding format_remote_topic upstream_topic
remote_topic_roundtrip separator source topic ne first =
    rw (found, take-append source (separator ++ topic))
      (refl, ground (arith, bytes_beq_iff source [], stripped))
  where
    stripped : drop (length source + length separator) (source ++ (separator ++ topic)) ≡ topic
    stripped = rw (← append_assoc source separator topic) (
        drop-append_eq _ (source ++ separator) topic
          (omega (arith, length-append source separator)))

    found : index separator (source ++ (separator ++ topic)) ≡ some (length source)
    found =
        rw (← append_assoc source separator topic)
          (index-append separator (source ++ separator) topic first)

index-of_prefix : (p s : Bytes) → has_prefix p s ≡ true → index p s ≡ some 0
unfolding index
index-of_prefix p [] h = rw h
index-of_prefix p (c ∷ s) h = rw h

index-occurs : (p s r : Bytes) → index p (s ++ (p ++ r)) ≢ none
unfolding index
index-occurs p [] r h = cc (index-of_prefix p (p ++ r) (has_prefix-append p r), h)
index-occurs p (c ∷ s) r h = elim (Option-cases (index p (s ++ (p ++ r)))) [
  | inl e ↦ index-occurs p s r e
  | inr (k, e) ↦ ground arith
]

empty_source : (p s : Bytes) (k : ℕ) → index p s ≡ some k → take k s ≡ [] → has_prefix p s ≡ true
unfolding index
empty_source p [] k h e = ground arith
empty_source p (c ∷ s) zero h e = ground (arith, index-shifted (index p s))
  where
    index-shifted : (o : Option ℕ) → Option.map suc o ≢ some 0
    index-shifted none q = cc
    index-shifted (some k) q = ground arith
empty_source p (c ∷ s) (suc k) h e = cc

-- A name in which the separator occurs, and not at its beginning, has a source cluster for
-- DefaultPolicy: whatever stands before the first separator.
pub topic_source-prefixed :
    (separator prefix rest : Bytes)
    → has_prefix separator (prefix ++ (separator ++ rest)) ≡ false
    → topic_source (default separator) (prefix ++ (separator ++ rest)) ≢ []
unfolding topic_source
topic_source-prefixed separator prefix rest h e =
    let name = prefix ++ (separator ++ rest) in
    elim (Option-cases (index separator name)) [
      | inl missing ↦ index-occurs separator prefix rest missing
      | inr (k, found) ↦ cc (h, empty_source separator name k found (rw (found, topic_source) at e))
    ]

has_suffix-append : (p s : Bytes) → has_suffix p (s ++ p) ≡ true
unfolding has_suffix
has_suffix-append p s =
    let e : length (s ++ p) - length p ≡ length s = omega (arith, length-append s p) in
    rw (e, drop-append s p) (ground (arith, length-append s p, bytes_beq_iff p p))

syncs_are_internal :
    (separator front : Bytes)
    → has_prefix (codes "mm2") (front ++ (separator ++ codes "internal")) ≡ true
    → internal_with separator (front ++ (separator ++ codes "internal")) ≡ true
syncs_are_internal separator front h =
    ground (arith, has_suffix-append (separator ++ codes "internal") front)

checkpoints_are_internal :
    (separator front : Bytes)
    → internal_with separator
        (front ++ (separator ++ (codes "checkpoints" ++ (separator ++ codes "internal"))))
      ≡ true
checkpoints_are_internal separator front = ground (
  arith,
  has_suffix-append (separator ++ (codes "checkpoints" ++ (separator ++ codes "internal"))) front,
)

-- The offset-syncs topic and the checkpoints topic of every cluster are internal topics, for both
-- policies and every separator.
pub internal_topics :
    (policy : ReplicationPolicy) (cluster : Bytes)
    → (is_internal_topic policy (offset_syncs_topic policy cluster) ≡ true)
      × (is_internal_topic policy (checkpoints_topic policy cluster) ≡ true)
unfolding is_internal_topic offset_syncs_topic checkpoints_topic has_prefix
internal_topics (default separator) cluster = (
  subst (λ t. internal_with separator t ≡ true) regroup
      (syncs_are_internal separator (codes "mm2-offset-syncs" ++ (separator ++ cluster)) refl),
  checkpoints_are_internal separator cluster,
)
  where
    regroup :
        (codes "mm2-offset-syncs" ++ (separator ++ cluster)) ++ (separator ++ codes "internal")
        ≡ codes "mm2-offset-syncs" ++ (separator ++ (cluster ++ (separator ++ codes "internal")))
    regroup = simp append_assoc
internal_topics identity cluster = (
  subst (λ t. internal_with (codes ".") t ≡ true)
      (append_assoc (codes "mm2-offset-syncs.") cluster (codes ".internal"))
      (syncs_are_internal (codes ".") (codes "mm2-offset-syncs." ++ cluster) refl),
  checkpoints_are_internal (codes ".") cluster,
)
