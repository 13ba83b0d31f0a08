-- ===== src/Mirror/Discovery/Subscriptions.antt =====
-- internal/mirror/source.go, UpdateTopics: each topic is added to the consumer once.
use gomm.Prelude.{
  ◌≡◌, refl, Bool, true, false, ◌||◌, List, [], ◌∷◌, ◌++◌, arith, Bool-cases, inl, inr,
  if◌then◌else◌, Bytes, bytes_beq_iff, All,
}
use gomm.Mirror.Discovery.{Subscription, has_name, new_topics, update_topics}

-- No name stands twice in a list.
abbrev pub Once : List Bytes → Type 0
Once [] = Unit {0}
Once (t ∷ ts) = (has_name t ts ≡ false) × Once ts

-- What was given to the consumer is what the map has, each name once.
pub record InStep (s : Subscription) : Type 0 where
  pub agree : (t : Bytes) → has_name t s.subscribed ≡ has_name t s.consumed
  pub once : Once s.consumed

has_name-append :
    (t : Bytes) (xs ys : List Bytes) → has_name t (xs ++ ys) ≡ (has_name t xs || has_name t ys)
has_name-append t [] ys = refl
has_name-append t (x ∷ xs) ys = ground (arith, has_name-append t xs ys)

-- The loop: its map has the old names and the new ones, the new ones are new and stand once, and
-- every topic that was asked for is in the map.
record Updated (subscribed topics : List Bytes) (out : List Bytes × List Bytes) : Type 0 where
  union : (t : Bytes) → has_name t out.0 ≡ (has_name t subscribed || has_name t out.1)
  fresh : (t : Bytes) → has_name t out.1 ≡ true → has_name t subscribed ≡ false
  single : Once out.1
  all_in : All (λ t. has_name t out.0 ≡ true) topics

new_topics-Updated :
    (subscribed topics : List Bytes) → Updated subscribed topics (new_topics subscribed topics)
unfolding new_topics
new_topics-Updated subscribed [] = record {
  union = λ t. ground arith;
  fresh = λ t h. cc h;
  single = tt;
  all_in = tt;
}
new_topics-Updated subscribed (t ∷ ts) = elim (Bool-cases (has_name t subscribed)) [
  | inl known ↦
      let old = new_topics-Updated subscribed ts in
      rw known (record {
        union = old.union;
        fresh = old.fresh;
        single = old.single;
        all_in = (ground (arith, old.union t), old.all_in);
      })
  | inr added ↦
      let new = new_topics-Updated (t ∷ subscribed) ts in
      rw added (record {
        union = λ s. ground (arith, new.union s, bytes_beq_iff s t);
        fresh = λ s h. ground (arith, new.fresh s, bytes_beq_iff s t);
        single = (ground (arith, new.fresh t, bytes_beq_iff t t), new.single);
        all_in = (ground (arith, new.union t, bytes_beq_iff t t), new.all_in);
      })
]

Once-append :
    (xs ys : List Bytes)
    → Once xs
    → Once ys
    → ((t : Bytes) → has_name t xs ≡ true → has_name t ys ≡ false)
    → Once (xs ++ ys)
Once-append [] ys h k apart = k
Once-append (x ∷ xs) ys (first, h) k apart = (
  ground (arith, has_name-append x xs ys, apart x, bytes_beq_iff x x),
  Once-append xs ys h k (λ t e. apart t (ground arith)),
)

-- Whatever topics are offered, and however often, UpdateTopics keeps the consumer's topics in step
-- with the map: the same names, each added once. With a consumer, every topic that was offered is
-- subscribed to afterwards.
pub update_topics-InStep :
    (s : Subscription) (topics : List Bytes)
    → InStep s
    → InStep (update_topics s topics)
      × (s.has_consumer ≡ true
          → All (λ t. has_name t (update_topics s topics).subscribed ≡ true) topics)
unfolding update_topics
update_topics-InStep s topics h = settled s.has_consumer
  where
    u : Updated s.subscribed topics (new_topics s.subscribed topics)
    u = new_topics-Updated s.subscribed topics

    settled :
        (there : Bool)
        → (let s' =
              if there
              then record s {
                subscribed = (new_topics s.subscribed topics).0;
                consumed = s.consumed ++ (new_topics s.subscribed topics).1;
              }
              else s in
            InStep s' × (there ≡ true → All (λ t. has_name t s'.subscribed ≡ true) topics))
    settled true = (
      record {
        agree = λ t. ground (
          arith,
          u.union t,
          h.agree t,
          has_name-append t s.consumed (new_topics s.subscribed topics).1,
        );
        once =
            Once-append s.consumed (new_topics s.subscribed topics).1 h.once u.single
              (λ t e. ground (arith, u.fresh t, h.agree t));
      },
      λ e. u.all_in,
    )
    settled false = (h, λ e. absurd (cc e))
