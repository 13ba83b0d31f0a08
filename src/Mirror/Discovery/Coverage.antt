-- ===== src/Mirror/Discovery/Coverage.antt =====
-- internal/mirror/topic_discovery.go: which calls a round makes.
use mathlib.Core.List.{Memᴰ}
use gomm.Prelude.{
  All-append, ℕ, ◌≡◌, ◌≤◌, ◌<◌, ◌⊎◌, inl, inr, refl, Bool, true, false, List, [], ◌∷◌, ◌++◌, Option,
  none, some, arith, Bool-cases, ltb, if◌then◌else◌, Bytes, All, lookup, bytes_eq,
}
use gomm.Filter.{RegexpEngine}
use gomm.Mirror.Discovery.{
  Topics, AdminCall, create_topic, ensure_partitions, sync_configs, TopicDiscovery,
  should_replicate, remote, configs_call, topic_calls, refresh_loop, refresh,
}

mem_right : {A : Type 0} {x : A} {ys : List A} (xs : List A) → Memᴰ x ys → Memᴰ x (xs ++ ys)
mem_right [] m = m
mem_right (x ∷ xs) m = Memᴰ.tail (mem_right xs m)

module _ (engine : RegexpEngine) (td : TopicDiscovery engine) (creates : Bytes → Bool)
    (target : Topics) where
  -- A call is due: a topic is created only where the target has none of that name, partitions are
  -- added only to a topic that has fewer, and all calls are about the copies of replicated topics.
  abbrev pub IsDue : Topics → AdminCall → Type 0
  IsDue source (create_topic name n) =
      (lookup name target ≡ none)
      × ((topic : Bytes) × Memᴰ (topic, n) source
          × (should_replicate engine td topic ≡ true)
          × (name ≡ remote engine td topic))
  IsDue source (ensure_partitions name n) =
      ((held : ℕ) × (lookup name target ≡ some held) × (held < n))
      × ((topic : Bytes) × Memᴰ (topic, n) source
          × (should_replicate engine td topic ≡ true)
          × (name ≡ remote engine td topic))
  IsDue source (sync_configs topic name) =
      (should_replicate engine td topic ≡ true) × (name ≡ remote engine td topic)

  configs_call-IsDue :
      (source : Topics) (topic : Bytes)
      → should_replicate engine td topic ≡ true
      → All (IsDue source) (configs_call engine td topic)
  configs_call-IsDue source topic wanted = of_flag (td.configs_synced)
    where
      of_flag :
          (on : Bool)
          → All (IsDue source) (if on then sync_configs topic (remote engine td topic) ∷ [] else [])
      of_flag true = ((wanted, refl), tt)
      of_flag false = tt

  topic_calls-IsDue :
      (source : Topics) (topic : Bytes) (n : ℕ) (found : Option ℕ)
      → Memᴰ (topic, n) source
      → should_replicate engine td topic ≡ true
      → lookup (remote engine td topic) target ≡ found
      → All (IsDue source) (topic_calls engine td creates topic n found)
  unfolding topic_calls
  topic_calls-IsDue source topic n none listed wanted e = (
    (e, (topic, listed, wanted, refl)),
    elim (Bool-cases (creates (remote engine td topic))) [
      | inl created ↦ rw created (configs_call-IsDue source topic wanted)
      | inr failed ↦ rw failed tt
    ],
  )
  topic_calls-IsDue source topic n (some held) listed wanted e =
      All-append (IsDue source)
        (if ltb held n then ensure_partitions (remote engine td topic) n ∷ [] else [])
        (configs_call engine td topic)
        (elim (Bool-cases (ltb held n)) [
          | inl fewer ↦ rw fewer (((held, e, ground arith), (topic, listed, wanted, refl)), tt)
          | inr enough ↦ rw enough tt
        ])
        (configs_call-IsDue source topic wanted)

  refresh_loop-IsDue :
      (source more : Topics)
      → ((x : Bytes × ℕ) → Memᴰ x more → Memᴰ x source)
      → All (IsDue source) (refresh_loop engine td creates target more).0
  unfolding refresh_loop
  refresh_loop-IsDue source [] inside = tt
  refresh_loop-IsDue source ((topic, n) ∷ more) inside =
      let rest = refresh_loop-IsDue source more (λ x m. inside x (Memᴰ.tail m)) in
      elim (Bool-cases (should_replicate engine td topic)) [
        | inl wanted ↦ rw wanted (
            All-append (IsDue source)
              (topic_calls engine td creates topic n (lookup (remote engine td topic) target))
              (refresh_loop engine td creates target more).0
              (topic_calls-IsDue source topic n (lookup (remote engine td topic) target)
                (inside (topic, n) (Memᴰ.head refl)) wanted refl)
              rest)
        | inr skipped ↦ rw skipped rest
      ]

  -- Every call that a round makes on the target is due: it creates only topics that the target has
  -- not, adds partitions only to topics that have fewer than their source, and touches nothing but
  -- the copies of topics that are to be replicated.
  pub refresh-AllDue :
      (source : Topics)
      → All (IsDue source) (refresh engine td creates (some source) (some target)).0
  unfolding refresh
  refresh-AllDue source = refresh_loop-IsDue source source (λ x m. m)

  -- The target has enough partitions of a topic's copy, or a call that asks for them is made. Whether
  -- the call succeeds is another matter.
  abbrev pub IsServed : List AdminCall → Bytes × ℕ → Type 0
  IsServed calls (topic, n) =
      should_replicate engine td topic ≡ true
      → ((held : ℕ) × (lookup (remote engine td topic) target ≡ some held) × (n ≤ held))
        ⊎ Memᴰ (create_topic (remote engine td topic) n) calls
        ⊎ Memᴰ (ensure_partitions (remote engine td topic) n) calls

  IsServed-append :
      (front calls : List AdminCall) (x : Bytes × ℕ)
      → IsServed calls x
      → IsServed (front ++ calls) x
  IsServed-append front calls (topic, n) h wanted = elim (h wanted) [
    | inl enough ↦ inl enough
    | inr (inl made) ↦ inr (inl (mem_right front made))
    | inr (inr added) ↦ inr (inr (mem_right front added))
  ]

  topic_calls-IsServed :
      (topic : Bytes) (n : ℕ) (calls : List AdminCall) (found : Option ℕ)
      → lookup (remote engine td topic) target ≡ found
      → IsServed (topic_calls engine td creates topic n found ++ calls) (topic, n)
  unfolding topic_calls
  topic_calls-IsServed topic n calls none e wanted = inr (inl (Memᴰ.head refl))
  topic_calls-IsServed topic n calls (some held) e wanted = elim (Bool-cases (ltb held n)) [
    | inl fewer ↦ inr (inr (rw fewer (Memᴰ.head refl)))
    | inr enough ↦ inl (held, e, ground arith)
  ]

  All-IsServed :
      (front calls : List AdminCall) (xs : Topics)
      → All (IsServed calls) xs
      → All (IsServed (front ++ calls)) xs
  All-IsServed front calls [] h = tt
  All-IsServed front calls (x ∷ xs) (h, k) =
      (IsServed-append front calls x h, All-IsServed front calls xs k)

  -- In a round for which both lists could be had, for every source topic that is to be replicated, the
  -- target's list has its copy with at least as many partitions, or the round calls CreateTopic for
  -- the copy with as many partitions as the topic has, or calls EnsurePartitions for the copy with
  -- that number. Which of these calls succeed is not stated; one that fails stops no other topic.
  pub refresh-AllServed :
      (source : Topics)
      → All (IsServed (refresh engine td creates (some source) (some target)).0) source
  unfolding refresh refresh_loop
  refresh-AllServed source = go source
    where
      round :
          (topic : Bytes) (n : ℕ) (more : Topics) (wanted : Bool)
          → should_replicate engine td topic ≡ wanted
          → All (IsServed (refresh_loop engine td creates target more).0) more
          → (let (calls, names) = refresh_loop engine td creates target more in
              All
                (λ x.
                  let out : List AdminCall × List Bytes =
                    (if wanted
                      then (
                        topic_calls engine td creates topic n
                              (lookup (remote engine td topic) target)
                            ++ calls,
                        topic ∷ names,
                      )
                      else (calls, names)) in
                  IsServed out.0 x)
                ((topic, n) ∷ more))
      round topic n more true e h = (
        topic_calls-IsServed topic n (refresh_loop engine td creates target more).0
            (lookup (remote engine td topic) target) refl,
        All-IsServed
            (topic_calls engine td creates topic n (lookup (remote engine td topic) target))
            (refresh_loop engine td creates target more).0 more h,
      )
      round topic n more false e h = ((λ wanted. absurd (cc (e, wanted))), h)

      go : (more : Topics) → All (IsServed (refresh_loop engine td creates target more).0) more
      go [] = tt
      go ((topic, n) ∷ more) = round topic n more (should_replicate engine td topic) refl (go more)
