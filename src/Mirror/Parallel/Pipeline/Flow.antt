-- ===== src/Mirror/Parallel/Pipeline/Flow.antt =====
-- internal/mirror/parallel_source.go: how the worker, the ring buffer and the drainer stand.
use gomm.Prelude.{
  ℕ, zero, suc, ◌+◌, ◌<◌, ◌≡◌, refl, ap, ◌⊎◌, inl, inr, true, false, List, [], ◌∷◌, arith, length,
  Int64, Bytes,
}
use gomm.Mirror.Ring.{new_ring_buffer, close}
use gomm.Mirror.Ring.Exact.{Holds, new_ring_buffer-Holds, records}
use gomm.Mirror.Parallel.Draining.{Fetched, DrainConfig, drain_done, drain_panicked}
use gomm.Mirror.Parallel.Draining.Tally.{Tally, counted, new_drain_state-Tally}
use gomm.Mirror.Parallel.Pipeline.{Pipeline, new_pipeline, close_when_fetched, fail_worker}

-- The offsets of a range, with their records of the log.
abbrev pub to_fetch : {A : Type 0} → (ℕ → A) → ℕ → ℕ → List (Int64 × A)
to_fetch log off zero = []
to_fetch log off (suc n) = (off, log off) ∷ to_fetch log (suc off) n

pub to_fetch-nil : {A : Type 0} (log : ℕ → A) (n off : ℕ) → to_fetch log off n ≡ [] → n ≡ 0
to_fetch-nil log zero off h = refl
to_fetch-nil log (suc n) off h = cc h

pub length-to_fetch : {A : Type 0} (log : ℕ → A) (off n : ℕ) → length (to_fetch log off n) ≡ n
length-to_fetch log off zero = refl
length-to_fetch log off (suc n) = ap suc (length-to_fetch log (suc off) n)

-- The context has ended, or the worker has failed.
abbrev pub CutShort : Pipeline → Type 0
CutShort p = (p.cancelled ≡ true) ⊎ (p.failed ≡ true)

module _ (format_int : ℕ → Bytes) (cfg : DrainConfig) (log : ℕ → Fetched) (start end : ℕ) where
  -- The worker has put the records up to `next` and has `left` to go, unless it is cut short;
  -- the buffer holds those from `start + count` on; and the drainer has dealt with the `count` before.
  pub record Flowing (p : Pipeline) : Type 0 where
    pub next : ℕ
    pub left : ℕ
    pub count : ℕ
    pub positive : 0 < p.ring.capacity
    pub holds : Holds log p.ring.capacity p.ring.drain_offset next p.ring.slots
    pub moved : p.ring.drain_offset ≡ start + count
    pub bound : next + left ≡ end
    pub pending : (p.to_put ≡ to_fetch log next left) ⊎ ((p.to_put ≡ []) × CutShort p)
    pub closed_late : p.ring.closed ≡ true → p.to_put ≡ []
    pub tally : Tally format_int cfg (records log start count) p.drain
    pub sound : p.status ≡ drain_panicked → cfg.takes_partition ≡ false
    -- The drainer is done only when all is done, and then the metric has all; or it is cut short.
    pub complete :
        p.status ≡ drain_done
        → (((start + count ≡ end) ⊎ CutShort p) × (counted p.drain.flushed ≡ count))

  pub new_pipeline-Flowing :
      (capacity size : ℕ)
      → 0 < capacity
      → start + size ≡ end
      → Flowing (new_pipeline capacity start (to_fetch log start size))
  unfolding new_ring_buffer
  new_pipeline-Flowing capacity size pos e = record {
    next = start;
    left = size;
    count = 0;
    positive = pos;
    holds = new_ring_buffer-Holds log capacity start pos;
    moved = omega arith;
    bound = e;
    pending = inl refl;
    closed_late = λ c. cc c;
    tally = new_drain_state-Tally format_int cfg;
    sound = λ h. cc h;
    complete = λ h. cc h;
  }

  pub close_when_fetched-Flowing :
      (p : Pipeline) → Flowing p → Flowing (close_when_fetched p p.to_put)
  unfolding close_when_fetched close
  close_when_fetched-Flowing p f = shut p.to_put refl
    where
      shut : (l : List (Int64 × Fetched)) → p.to_put ≡ l → Flowing (close_when_fetched p l)
      shut (x ∷ l) e = f
      shut [] e = record {
        next = f.next;
        left = f.left;
        count = f.count;
        positive = f.positive;
        holds = f.holds;
        moved = f.moved;
        bound = f.bound;
        pending = f.pending;
        closed_late = λ c. e;
        tally = f.tally;
        sound = f.sound;
        complete = f.complete;
      }

  pub cancel-Flowing : (p : Pipeline) → Flowing p → Flowing (record p { cancelled = true })
  cancel-Flowing p f = record {
    next = f.next;
    left = f.left;
    count = f.count;
    positive = f.positive;
    holds = f.holds;
    moved = f.moved;
    bound = f.bound;
    pending = elim f.pending [ inl e ↦ inl e | inr (e, over) ↦ inr (e, inl refl) ];
    closed_late = f.closed_late;
    tally = f.tally;
    sound = f.sound;
    complete = λ h. (inr (inl refl), (f.complete h).1);
  }

  pub fail_worker-Flowing : (p : Pipeline) → Flowing p → Flowing (fail_worker p p.to_put)
  unfolding fail_worker close
  fail_worker-Flowing p f = fails p.to_put
    where
      fails : (l : List (Int64 × Fetched)) → Flowing (fail_worker p l)
      fails [] = f
      fails (x ∷ l) = record {
        next = f.next;
        left = f.left;
        count = f.count;
        positive = f.positive;
        holds = f.holds;
        moved = f.moved;
        bound = f.bound;
        pending = inr (refl, inr refl);
        closed_late = λ c. refl;
        tally = f.tally;
        sound = f.sound;
        complete = λ h. (inr (inr refl), (f.complete h).1);
      }
