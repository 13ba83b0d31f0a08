-- ===== src/Mirror/Parallel/Pipeline/Worker.antt =====
-- internal/mirror/parallel_source.go: the worker never gets more than one capacity ahead.
use mathlib.Core.Path.{subst}
use gomm.Prelude.{
  ℕ, zero, suc, ◌^◌, ◌<◌, ◌≡◌, ◌||◌, if◌then◌else◌, refl, sym, ap, ◌∙◌, inl, inr, Bool, true, false,
  arith, Bytes, Bool-cases,
}
use gomm.Mirror.Ring.{refused, blocked, put}
use gomm.Mirror.Ring.Exact.{Holds-fill}
use gomm.Mirror.Ring.Exact.Calls.{put-Holds}
use gomm.Mirror.Ring.Order.{slot_index-nonneg}
use gomm.Mirror.Parallel.Draining.{Fetched, DrainConfig}
use gomm.Mirror.Parallel.Pipeline.{Pipeline, after_put, worker_puts}
use gomm.Mirror.Parallel.Pipeline.Flow.{Flowing, to_fetch}

module _ (format_int : ℕ → Bytes) (cfg : DrainConfig) (log : ℕ → Fetched) (start end : ℕ) where
  abbrev Flows : Pipeline → Type 0
  Flows p = Flowing format_int cfg log start end p

  -- What the worker's turn does, from what Put answers.
  put_one-Flowing :
      (p : Pipeline) (f : Flows p) (n : ℕ)
      → end < 2 ^ 63
      → f.left ≡ suc n
      → p.to_put ≡ to_fetch log f.next (suc n)
      → p.ring.closed ≡ false
      → Flows
          (after_put p (to_fetch log (suc f.next) n) (put p.cancelled p.ring f.next (log f.next)))
  put_one-Flowing p f n small e h opened =
      elim (put-Holds log p.cancelled p.ring f.next f.holds f.positive (omega (arith, f.bound))) [
        | inl (room, answer) ↦
            subst (λ out. Flows (after_put p (to_fetch log (suc f.next) n) out)) (sym answer)
              (record {
                next = suc f.next;
                left = n;
                count = f.count;
                positive = f.positive;
                holds = rw (slot_index-nonneg p.ring.capacity f.next (omega (arith, f.bound))) (
                    Holds-fill log p.ring.capacity p.ring.drain_offset f.next p.ring.slots f.holds
                      room);
                moved = f.moved;
                bound = omega (arith, f.bound);
                pending = inl refl;
                closed_late = λ c. cc (c, opened);
                tally = f.tally;
                sound = f.sound;
                complete = f.complete;
              })
        | inr (full, answer) ↦
            subst (λ out. Flows (after_put p (to_fetch log (suc f.next) n) out)) (sym answer)
              (waits_or_ends p.cancelled p.ring.closed refl opened)
      ]
    where
      waits_or_ends :
          (over shut : Bool)
          → p.cancelled ≡ over
          → shut ≡ false
          → Flows (
              after_put p
                (to_fetch log (suc f.next) n)
                (p.ring, if shut || over then refused else blocked))
      waits_or_ends over true ends open_still = absurd (cc open_still)
      waits_or_ends true false ends open_still = record {
        next = f.next;
        left = f.left;
        count = f.count;
        positive = f.positive;
        holds = f.holds;
        moved = f.moved;
        bound = f.bound;
        pending = inr (refl, inl ends);
        closed_late = λ c. refl;
        tally = f.tally;
        sound = f.sound;
        complete = f.complete;
      }
      waits_or_ends false false live open_still = f

  pub worker_puts-Flowing : (p : Pipeline) → end < 2 ^ 63 → Flows p → Flows (worker_puts p p.to_put)
  unfolding worker_puts
  worker_puts-Flowing p small f = elim f.pending [
    | inl e ↦ subst (λ l. Flows (worker_puts p l)) (sym e) (next_put f.left refl e)
    | inr (e, over) ↦ subst (λ l. Flows (worker_puts p l)) (sym e) f
  ]
    where
      next_put :
          (n : ℕ)
          → f.left ≡ n
          → p.to_put ≡ to_fetch log f.next f.left
          → Flows (worker_puts p (to_fetch log f.next n))
      next_put zero e h = f
      next_put (suc n) e h =
          let now : p.to_put ≡ to_fetch log f.next (suc n) = h ∙ ap (to_fetch log f.next) e in
          put_one-Flowing p f n small e now (elim (Bool-cases p.ring.closed) [
            | inl c ↦ absurd (cc (now, f.closed_late c))
            | inr c ↦ c
          ])
