-- ===== src/Mirror/Parallel/Pipeline/Delivery.antt =====
-- internal/mirror/parallel_source.go: what arrives is a prefix of the worker's records.
use mathlib.Core.List.{flat_map}
use gomm.Prelude.{
  ℕ, ◌+◌, ◌^◌, ◌≤◌, ◌<◌, ◌≡◌, sym, ap, ◌∙◌, ◌⊎◌, inl, inr, true, false, Bool-cases, List, [], ◌∷◌,
  arith, length, Bytes,
}
use gomm.Mirror.Ring.Exact.{records, length-records}
use gomm.Mirror.Parallel.Draining.{
  Fetched, DrainConfig, DrainStatus, draining, drain_done, drain_panicked, arrivals, letters,
}
use gomm.Mirror.Parallel.Draining.Tally.{counted}
use gomm.Mirror.Parallel.Pipeline.{
  Pipeline, Turn, worker_turn, worker_fails, close_turn, context_ends, drainer_turn, drainer_runs,
  take_turn, take_turns,
}
use gomm.Mirror.Parallel.Pipeline.Flow.{
  CutShort, Flowing, fail_worker-Flowing, close_when_fetched-Flowing, cancel-Flowing,
}
use gomm.Mirror.Parallel.Pipeline.Worker.{worker_puts-Flowing}
use gomm.Mirror.Parallel.Pipeline.Drainer.{drainer_takes-Flowing}

module _ (format_int : ℕ → Bytes) (cfg : DrainConfig) (log : ℕ → Fetched) (start end : ℕ) where
  abbrev Flows : Pipeline → Type 0
  Flows p = Flowing format_int cfg log start end p

  pub take_turn-Flowing :
      (p : Pipeline) (t : Turn) → end < 2 ^ 63 → Flows p → Flows (take_turn format_int cfg p t)
  unfolding take_turn drainer_runs
  take_turn-Flowing p worker_turn small f =
      worker_puts-Flowing format_int cfg log start end p small f
  take_turn-Flowing p worker_fails small f = fail_worker-Flowing format_int cfg log start end p f
  take_turn-Flowing p close_turn small f =
      close_when_fetched-Flowing format_int cfg log start end p f
  take_turn-Flowing p context_ends small f = cancel-Flowing format_int cfg log start end p f
  take_turn-Flowing p (drainer_turn due) small f = by_status p.status
    where
      by_status : (s : DrainStatus) → Flows (drainer_runs format_int cfg due p s)
      by_status draining = drainer_takes-Flowing format_int cfg log start end due p small f
      by_status drain_done = f
      by_status drain_panicked = f

  pub take_turns-Flowing :
      (p : Pipeline) (ts : List Turn)
      → end < 2 ^ 63
      → Flows p
      → Flows (take_turns format_int cfg p ts)
  unfolding take_turns
  take_turns-Flowing p [] small f = f
  take_turns-Flowing p (t ∷ ts) small f =
      take_turns-Flowing (take_turn format_int cfg p t) ts small (take_turn-Flowing p t small f)

  -- What has come out of a pipeline: the target has what arrives of the first `count` records, in
  -- order, and the dead-letter queue their letters; when the drainer is done, these are all the
  -- records, unless the catch-up is cut short, the metric is their number, and each of them is on the
  -- target or counted as an error.
  abbrev pub DeliveredSo : ℕ → Pipeline → Type 0
  DeliveredSo size p =
      (count : ℕ) × (count ≤ size)
      × (p.drain.produced ≡ flat_map (arrivals format_int cfg) (records log start count))
      × (p.drain.dead_letters ≡ flat_map (letters format_int cfg) (records log start count))
      × (p.status ≡ drain_panicked → cfg.takes_partition ≡ false)
      × (p.status ≡ drain_done
          → ((count ≡ size) ⊎ CutShort p)
            × (counted p.drain.flushed ≡ count)
            × (length p.drain.produced + p.drain.produce_errors ≡ count)
            × ((count ≡ 0) ⊎ (cfg.takes_partition ≡ true)))

  pub Flowing-DeliveredSo :
      (size : ℕ) (p : Pipeline) → start + size ≡ end → Flows p → DeliveredSo size p
  unfolding counted
  Flowing-DeliveredSo size p e f = (
    f.count,
    omega (arith, f.holds.low, f.moved, f.bound),
    f.tally.on_target,
    f.tally.buried,
    f.sound,
    λ h.
        let (whole, metric) = f.complete h in
        (
          elim whole [ inl all ↦ inl (omega arith) | inr over ↦ inr over ],
          metric,
          f.tally.parts ∙ length-records log start f.count,
          none_or_fits metric,
        ),
  )
    where
      none_or_fits :
          counted p.drain.flushed ≡ f.count → (f.count ≡ 0) ⊎ (cfg.takes_partition ≡ true)
      none_or_fits metric = elim (Bool-cases cfg.takes_partition) [
        | inl on ↦ inr on
        | inr off ↦ inl (sym metric ∙ ap counted (f.tally.unflushed off))
      ]
