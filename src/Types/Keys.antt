-- ===== src/Types/Keys.antt =====
-- pkg/types/types.go: the keys of heartbeats and checkpoints, by which the internal topics are
-- compacted, tell two records apart.
use gomm.Prelude.{
  ℕ, ◌%◌, ◌^◌, ◌<◌, ◌≡◌, sym, ap, ◌∙◌, [], ◌++◌, append_assoc, arith, length, take, drop,
  take-append_eq, drop-append_eq, Bytes,
}
use gomm.Types.{Heartbeat, Checkpoint}
use gomm.Types.Codec.{put_uint, uint_from, put_string, heartbeat_key, checkpoint_key}
use gomm.Types.RoundTrip.{length-put_uint, uint_from-put_uint}

-- What a reader of the format sees first: the string behind its length, and the rest.
abbrev get_string : Bytes → Bytes × Bytes
get_string xs = let n = uint_from 0 (take 2 xs) in (take n (drop 2 xs), drop n (drop 2 xs))

get_string-put_string :
    (s rest : Bytes) → length s < 65536 → get_string (put_string s ++ rest) ≡ (s, rest)
unfolding put_string
get_string-put_string s rest h =
    let p = put_uint 2 (length s % 2 ^ 16) in
    rw
      (
        append_assoc p s rest,
        take-append_eq 2 p (s ++ rest) (omega (arith, length-put_uint 2 (length s % 2 ^ 16))),
        drop-append_eq 2 p (s ++ rest) (omega (arith, length-put_uint 2 (length s % 2 ^ 16))),
      )
      (split (uint_from 0 p)
        (omega (arith, uint_from-put_uint 2 (length s % 2 ^ 16) (omega arith))))
  where
    split :
        (n : ℕ)
        → n ≡ length s
        → ◌≡◌ {A = Bytes × Bytes} (take n (s ++ rest), drop n (s ++ rest)) (s, rest)
    split n e = rw (take-append_eq n s rest e, drop-append_eq n s rest e)

put_string-injective :
    (s t r q : Bytes)
    → length s < 65536
    → length t < 65536
    → put_string s ++ r ≡ put_string t ++ q
    → (s ≡ t) × (r ≡ q)
put_string-injective s t r q hs ht e =
    let same =
      sym (get_string-put_string s r hs) ∙ ap get_string e ∙ get_string-put_string t q ht in
    (ap (λ p. p.0) same, ap (λ p. p.1) same)

-- Two heartbeats with names of fewer than 65536 bytes have the same key only if they name the same
-- two clusters in the same order.
pub heartbeat_key-injective :
    (h k : Heartbeat)
    → length h.source_cluster < 65536
    → length h.target_cluster < 65536
    → length k.source_cluster < 65536
    → length k.target_cluster < 65536
    → heartbeat_key h ≡ heartbeat_key k
    → (h.source_cluster ≡ k.source_cluster) × (h.target_cluster ≡ k.target_cluster)
unfolding heartbeat_key
heartbeat_key-injective h k a b c d e =
    let outer = put_string-injective h.source_cluster k.source_cluster _ _ a c e in
    let inner =
      put_string-injective h.target_cluster k.target_cluster [] [] b d
        (ap (λ x. x ++ []) outer.1) in
    (outer.0, inner.0)

-- Two checkpoints with group and topic names of fewer than 65536 bytes and int32 partitions have
-- the same key only if they are about the same group and the same partition of the same topic.
pub checkpoint_key-injective :
    (c d : Checkpoint)
    → length c.consumer_group_id < 65536
    → length d.consumer_group_id < 65536
    → length c.checkpoint_partition.topic < 65536
    → length d.checkpoint_partition.topic < 65536
    → c.checkpoint_partition.partition < 2 ^ 32
    → d.checkpoint_partition.partition < 2 ^ 32
    → checkpoint_key c ≡ checkpoint_key d
    → (c.consumer_group_id ≡ d.consumer_group_id)
      × (c.checkpoint_partition ≡ d.checkpoint_partition)
unfolding checkpoint_key
checkpoint_key-injective c d gc gd tc td pc pd e =
    let outer = put_string-injective c.consumer_group_id d.consumer_group_id _ _ gc gd e in
    let inner =
      put_string-injective c.checkpoint_partition.topic d.checkpoint_partition.topic _ _ tc td
        outer.1 in
    (
      outer.0,
      ground (
        arith,
        inner.0,
        ap (uint_from 0) inner.1,
        uint_from-put_uint 4 c.checkpoint_partition.partition pc,
        uint_from-put_uint 4 d.checkpoint_partition.partition pd,
      ),
    )
