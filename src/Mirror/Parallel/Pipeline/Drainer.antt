-- ===== src/Mirror/Parallel/Pipeline/Drainer.antt =====
-- internal/mirror/parallel_source.go: a round of the drainer beside one worker.
use mathlib.Core.Path.{subst}
use mathlib.Core.List.{map}
use gomm.Prelude.{
  ℕ, zero, suc, ◌+◌, ◌^◌, ◌<◌, ◌≡◌, ◌||◌, if◌then◌else◌, refl, sym, ap, ◌∙◌, ◌⊎◌, inl, inr, Bool,
  true, false, not, ◌&&◌, lt64, List, [], ◌++◌, some, arith, length, Bytes, Bool-cases,
}
use gomm.Mirror.Ring.{RingSlot, waiting, ended, batch, drain_batch}
use gomm.Mirror.Ring.Exact.{Holds, records, records-append, length-records}
use gomm.Mirror.Ring.Exact.Calls.{drain_batch-DrainsSo, stays, takes}
use gomm.Mirror.Parallel.Draining.{Fetched, DrainConfig, drain_round, finish_drain}
use gomm.Mirror.Parallel.Draining.Tally.{
  Tally, counted, produce_batch-Tally, report_progress-Tally, finish_drain-Tally,
}
use gomm.Mirror.Parallel.Pipeline.{Pipeline, drainer_takes}
use gomm.Mirror.Parallel.Pipeline.Flow.{CutShort, Flowing, to_fetch, to_fetch-nil}

module _ (format_int : ℕ → Bytes) (cfg : DrainConfig) (log : ℕ → Fetched) (start end : ℕ) where
  abbrev Flows : Pipeline → Type 0
  Flows p = Flowing format_int cfg log start end p

  drainer_idle-Flowing :
      (due ends : Bool) (p : Pipeline)
      → (p.ring.closed || p.cancelled) ≡ ends
      → end < 2 ^ 63
      → (f : Flows p) → (f.next ≡ p.ring.drain_offset) ⊎ (p.cancelled ≡ true)
      → Flows (drainer_takes format_int cfg due p (p.ring, if ends then ended else waiting))
  unfolding drain_round
  drainer_idle-Flowing due false p e small f why = record {
    next = f.next;
    left = f.left;
    count = f.count;
    positive = f.positive;
    holds = f.holds;
    moved = f.moved;
    bound = f.bound;
    pending = f.pending;
    closed_late = f.closed_late;
    tally = f.tally;
    sound = λ h. cc h;
    complete = λ h. cc h;
  }
  drainer_idle-Flowing due true p e small f why = elim (Bool-cases panics) [
    | inl c ↦ rw c (record {
      next = f.next;
      left = f.left;
      count = f.count;
      positive = f.positive;
      holds = f.holds;
      moved = f.moved;
      bound = f.bound;
      pending = f.pending;
      closed_late = f.closed_late;
      tally = f.tally;
      sound = λ h. ground (arith, c);
      complete = λ h. cc h;
    })
    | inr c ↦ rw c (record {
      next = f.next;
      left = f.left;
      count = f.count;
      positive = f.positive;
      holds = f.holds;
      moved = f.moved;
      bound = f.bound;
      pending = f.pending;
      closed_late = f.closed_late;
      tally = (finished c).0;
      sound = λ h. cc h;
      complete = λ h. (all_or_cut_short, (finished c).1 ∙ length-records log start f.count);
    })
  ]
    where
      panics : Bool
      panics = lt64 0 p.drain.period_records && not cfg.takes_partition

      finished :
          (lt64 0 p.drain.period_records && not cfg.takes_partition) ≡ false
          → Tally format_int cfg (records log start f.count) (finish_drain p.drain)
            × (counted (finish_drain p.drain).flushed ≡ length (records log start f.count))
      finished fits =
          finish_drain-Tally format_int cfg (records log start f.count) p.drain
            (omega (arith, length-records log start f.count, f.moved, f.holds.low, f.bound)) fits
            f.tally

      all_or_cut_short : (start + f.count ≡ end) ⊎ CutShort p
      all_or_cut_short = elim (Bool-cases p.cancelled) [
        | inl over ↦ inr (inl over)
        | inr live ↦ elim f.pending [
          | inr (nil, over) ↦ inr over
          | inl todo ↦
              let shut : p.ring.closed ≡ true = ground (arith, e, live) in
              let none_left : to_fetch log f.next f.left ≡ [] = sym todo ∙ f.closed_late shut in
              let at : f.next ≡ p.ring.drain_offset = ground (arith, why, live) in
              inl (omega (arith, f.moved, f.bound, at, to_fetch-nil log f.left f.next none_left))
        ]
      ]

  drainer_batch-Flowing :
      (due : Bool) (p : Pipeline) (n : ℕ) (slots : List (RingSlot Fetched))
      → end < 2 ^ 63
      → (f : Flows p) → Holds log p.ring.capacity (p.ring.drain_offset + n) f.next slots
      → 0 < n
      → Flows (
          drainer_takes format_int cfg due p (
            record (p.ring) { slots = slots; drain_offset = p.ring.drain_offset + n },
            batch (map some (records log p.ring.drain_offset n)),
          ))
  unfolding drain_round
  drainer_batch-Flowing due p zero slots small f held pos = absurd (omega arith)
  drainer_batch-Flowing due p (suc n) slots small f held pos =
      let (next, e, done) =
        produce_batch-Tally format_int cfg (records log start f.count)
          (records log p.ring.drain_offset (suc n)) p.drain
          (omega (
            arith,
            length-records log start f.count,
            length-records log p.ring.drain_offset (suc n),
            f.moved,
            f.bound,
            held.low,
          ))
          f.tally in
      let all : records log start f.count ++ records log p.ring.drain_offset (suc n)
          ≡ records log start (f.count + suc n) =
        ap (λ o. records log start f.count ++ records log o (suc n)) f.moved
        ∙ records-append log start f.count (suc n) in
      let now = subst (λ xs. Tally format_int cfg xs next) all done in
      elim (Bool-cases (due && not cfg.takes_partition)) [
        | inl c ↦
            rw (e, c)
              (record {
                next = f.next;
                left = f.left;
                count = f.count + suc n;
                positive = f.positive;
                holds = held;
                moved = omega (arith, f.moved);
                bound = f.bound;
                pending = f.pending;
                closed_late = f.closed_late;
                tally = now;
                sound = λ h. ground (arith, c);
                complete = λ h. cc h;
              })
        | inr c ↦
            rw (e, c)
              (record {
                next = f.next;
                left = f.left;
                count = f.count + suc n;
                positive = f.positive;
                holds = held;
                moved = omega (arith, f.moved);
                bound = f.bound;
                pending = f.pending;
                closed_late = f.closed_late;
                tally =
                    report_progress-Tally format_int cfg due (records log start (f.count + suc n))
                      next c now;
                sound = λ h. cc h;
                complete = λ h. cc h;
              })
      ]

  pub drainer_takes-Flowing :
      (due : Bool) (p : Pipeline)
      → end < 2 ^ 63
      → Flows p
      → Flows (drainer_takes format_int cfg due p (drain_batch p.cancelled p.ring 512))
  drainer_takes-Flowing due p small f =
      elim (drain_batch-DrainsSo log p.cancelled p.ring f.next 512 f.holds f.positive
        (omega (arith, f.bound)) (omega arith)) [
          | stays answer why ↦
              subst (λ out. Flows (drainer_takes format_int cfg due p out)) (sym answer)
                (drainer_idle-Flowing due _ p refl small f why)
          | takes n slots answer held pos ↦
              subst (λ out. Flows (drainer_takes format_int cfg due p out)) (sym answer)
                (drainer_batch-Flowing due p n slots small f held pos)
        ]
