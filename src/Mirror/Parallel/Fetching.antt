-- ===== src/Mirror/Parallel/Fetching.antt =====
-- internal/mirror/parallel_source.go: what a fetch worker puts into the ring buffer.
use mathlib.Core.Path.{subst}
use gomm.Prelude.{
  ℕ, suc, ◌+◌, ◌≤◌, ◌<◌, ◌≡◌, ◌⊎◌, inl, inr, refl, Bool, true, false, List, [], ◌∷◌, ◌++◌, arith,
  Bool-cases, length, length-append, leb,
}
use gomm.Mirror.Parallel.{
  FetchPoll, FetchEnd, fetch_done, fetching, put_records, last_offset, after_records, count_error,
  fetch_round, fetch_worker,
}

-- The offsets from `a` on, one after the other.
abbrev pub Consecutive : ℕ → List ℕ → Type 0
Consecutive a [] = Unit {0}
Consecutive a (o ∷ more) = (o ≡ a) × Consecutive (suc a) more

-- Polls that go well and bring the offsets from `a` on.
abbrev pub Flows : ℕ → List FetchPoll → Type 0
Flows a [] = Unit {0}
Flows a (p ∷ polls) =
    (p.ctx_done ≡ false)
    × (p.has_errors ≡ false)
    × Consecutive a p.offsets
    × Flows (a + length p.offsets) polls

abbrev pub accept_all : ℕ → Bool
accept_all o = true

-- The records of one poll: all are put, or those before the boundary, and then the worker returns.
abbrev PutSo : ℕ → ℕ → List ℕ → List ℕ × Bool → Type 0
PutSo a to offsets (put, stop) =
    Consecutive a put
    × (((stop ≡ true) × (a + length put ≡ to))
        ⊎ ((stop ≡ false) × (length put ≡ length offsets) × (a + length offsets ≤ to)))

put_records-PutSo :
    (a to : ℕ) (offsets : List ℕ)
    → a ≤ to
    → Consecutive a offsets
    → PutSo a to offsets (put_records accept_all to offsets)
unfolding put_records
put_records-PutSo a to [] h k = (tt, inr (refl, refl, omega arith))
put_records-PutSo a to (o ∷ more) h (e, k) = elim (Bool-cases (leb to o)) [
  | inl over ↦ rw over (tt, inl (refl, ground arith))
  | inr below ↦
      rw below
        (step (put_records accept_all to more) (put_records-PutSo (suc a) to more (ground arith) k))
]
  where
    step :
        (out : List ℕ × Bool) → PutSo (suc a) to more out → PutSo a to (o ∷ more) (o ∷ out.0, out.1)
    step (put, stop) (c, inl (s, n)) = ((e, c), inl (s, omega arith))
    step (put, stop) (c, inr (s, l, n)) = ((e, c), inr (s, omega arith, omega arith))

last_offset_lem :
    (a o : ℕ) (more : List ℕ)
    → Consecutive a (o ∷ more)
    → suc (last_offset o more) ≡ a + length (o ∷ more)
last_offset_lem a o [] (e, k) = omega arith
last_offset_lem a o (p ∷ more) (e, k) = omega (arith, last_offset_lem (suc a) p more k)

Consecutive-append :
    (a : ℕ) (xs ys : List ℕ)
    → Consecutive a xs
    → Consecutive (a + length xs) ys
    → Consecutive a (xs ++ ys)
Consecutive-append a [] ys h k = subst (λ n. Consecutive n ys) (omega arith) k
Consecutive-append a (x ∷ xs) ys (e, h) k =
    (e, Consecutive-append (suc a) xs ys h (subst (λ n. Consecutive n ys) (omega arith) k))

-- What a worker has done with polls from offset `a` on: it has put the offsets from there on, each
-- once and in order, and it is done exactly when they reach the boundary.
abbrev pub FetchedSo : ℕ → ℕ → List ℕ × FetchEnd → Type 0
FetchedSo a to (put, end) =
    Consecutive a put
    × (((end ≡ fetch_done) × (a + length put ≡ to)) ⊎ ((end ≡ fetching) × (a + length put < to)))

after_records-FetchedSo :
    (a to o : ℕ) (more : List ℕ) (puts : List ℕ × Bool) (rest : List ℕ × FetchEnd)
    → Consecutive a (o ∷ more)
    → PutSo a to (o ∷ more) puts
    → (a + length (o ∷ more) < to → FetchedSo (a + length (o ∷ more)) to rest)
    → FetchedSo a to (after_records to o more puts rest)
after_records-FetchedSo a to o more (put, stop) (rest, end) k (c, inl (s, n)) later =
    rw s (c, inl (refl, n))
after_records-FetchedSo a to o more (put, stop) (rest, end) k (c, inr (s, l, n)) later =
    elim (Bool-cases (leb to (suc (last_offset o more)))) [
      | inl boundary ↦ rw (s, boundary) (c, inl (refl, ground (arith, last_offset_lem a o more k)))
      | inr before ↦
          let (d, end_so) = later (ground (arith, last_offset_lem a o more k)) in
          rw (s, before)
            (
              Consecutive-append a put rest c (subst (λ j. Consecutive j rest) (omega arith) d),
              elim end_so [
                | inl (e, m) ↦ inl (e, omega (arith, length-append put rest))
                | inr (e, m) ↦ inr (e, omega (arith, length-append put rest))
              ],
            )
    ]

fetch_round-FetchedSo :
    (a to errors : ℕ) (done has_errors : Bool) (offsets : List ℕ) (next : ℕ → List ℕ × FetchEnd)
    → done ≡ false
    → has_errors ≡ false
    → Consecutive a offsets
    → ((n : ℕ) → a + length offsets < to → FetchedSo (a + length offsets) to (next n))
    → a < to
    → FetchedSo a to (
        fetch_round accept_all to done has_errors
          (count_error has_errors errors)
          offsets
          (next (count_error has_errors errors))
          (next 0))
fetch_round-FetchedSo a to errors true has_errors offsets next live sound k later h =
    absurd (cc live)
fetch_round-FetchedSo a to errors false true offsets next live sound k later h = absurd (cc sound)
fetch_round-FetchedSo a to errors false false [] next live sound k later h =
    subst (λ j. FetchedSo j to (next errors)) (omega arith) (later errors (omega arith))
fetch_round-FetchedSo a to errors false false (o ∷ more) next live sound k later h =
    after_records-FetchedSo a to o more (put_records accept_all to (o ∷ more)) (next 0) k
      (put_records-PutSo a to (o ∷ more) (omega arith) k) (later 0)

-- A fetch worker whose polls go well and bring the offsets from `from` on, and whose records are all
-- taken, puts the offsets from there up to its boundary `to`, each once, in order and none beyond,
-- and returns nil exactly when they are complete; until then it goes on polling.
pub fetch_worker-FetchedSo :
    (from to errors : ℕ) (polls : List FetchPoll)
    → from < to
    → Flows from polls
    → FetchedSo from to (fetch_worker accept_all to errors polls)
unfolding fetch_worker
fetch_worker-FetchedSo from to errors [] h flows = (tt, inr (refl, omega arith))
fetch_worker-FetchedSo from to errors (p ∷ polls) h (live, sound, k, flows) =
    fetch_round-FetchedSo from to errors p.ctx_done p.has_errors p.offsets
      (λ n. fetch_worker accept_all to n polls) live sound k
      (λ n below. fetch_worker-FetchedSo (from + length p.offsets) to n polls below flows) h
