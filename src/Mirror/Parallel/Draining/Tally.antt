-- ===== src/Mirror/Parallel/Draining/Tally.antt =====
-- internal/mirror/parallel_source.go: what drainPartition has produced, buried and counted.
use mathlib.Core.Path.{subst}
use mathlib.Core.List.{map, flat_map}
use gomm.Prelude.{
  ℕ, ◌+◌, ◌^◌, ◌<◌, ◌≡◌, refl, sym, ap, ◌∙◌, Bool, true, false, not, ◌&&◌, List, [], ◌∷◌, ◌++◌,
  some, append_assoc, append-nil, arith, Bool-cases, lt64, inl, inr, length, length-append, Int64,
  Bytes,
}
use gomm.Mirror.Source.{acked, recovered, failed}
use gomm.Mirror.Parallel.Draining.{
  Fetched, DrainConfig, DrainState, new_drain_state, arrivals, letters, produce_one, produce_batch,
  flush, report_progress, finish_drain,
}

unfoldable pub counted : List (Int64 × Int64) → ℕ
counted [] = 0
counted ((records, bytes) ∷ more) = records + counted more

counted-append : (xs ys : List (Int64 × Int64)) → counted (xs ++ ys) ≡ counted xs + counted ys
unfolding counted
counted-append [] ys = omega arith
counted-append (x ∷ xs) ys = omega (arith, counted-append xs ys)

flat_map-snoc :
    {A B : Type 0} (f : A → List B) (xs : List A) (x : A)
    → flat_map f (xs ++ (x ∷ [])) ≡ flat_map f xs ++ f x
unfolding flat_map
flat_map-snoc f [] x = append-nil (f x)
flat_map-snoc f (y ∷ xs) x =
    ap (λ t. f y ++ t) (flat_map-snoc f xs x) ∙ sym (append_assoc (f y) (flat_map f xs) (f x))

module _ (format_int : ℕ → Bytes) (cfg : DrainConfig) where
  -- The drainer has dealt with `xs`: in order, each is on the target or counted as an error, and the
  -- counters and the metric agree on their number.
  pub record Tally (xs : List Fetched) (d : DrainState) : Type 0 where
    pub on_target : d.produced ≡ flat_map (arrivals format_int cfg) xs
    pub buried : d.dead_letters ≡ flat_map (letters format_int cfg) xs
    pub total : d.total_records ≡ length xs
    pub parts : length d.produced + d.produce_errors ≡ length xs
    pub reported : counted d.flushed + d.period_records ≡ length xs
    pub unflushed : cfg.takes_partition ≡ false → d.flushed ≡ []

  pub new_drain_state-Tally : Tally [] new_drain_state
  unfolding flat_map counted
  new_drain_state-Tally = record {
    on_target = refl;
    buried = refl;
    total = refl;
    parts = refl;
    reported = refl;
    unflushed = λ off. refl;
  }

  one_arrival :
      (x : Fetched) (d : DrainState)
      → length d.produced + d.produce_errors + 1 < 2 ^ 64
      → length (produce_one format_int cfg d x).produced
          + (produce_one format_int cfg d x).produce_errors
        ≡ length d.produced + d.produce_errors + 1
  unfolding produce_one arrivals
  one_arrival (r, acked o) d h = omega (arith, length-append d.produced _)
  one_arrival (r, recovered o) d h = omega (arith, length-append d.produced _)
  one_arrival (r, failed e) d h = omega (arith, length-append d.produced [])

  produce_one-Tally :
      (xs : List Fetched) (x : Fetched) (d : DrainState)
      → length xs + 1 < 2 ^ 63
      → Tally xs d
      → Tally (xs ++ (x ∷ [])) (produce_one format_int cfg d x)
  unfolding produce_one
  produce_one-Tally xs x d small t =
      let one = length-append xs (x ∷ []) in
      record {
        on_target =
            ap (λ l. l ++ arrivals format_int cfg x) t.on_target
            ∙ sym (flat_map-snoc (arrivals format_int cfg) xs x);
        buried =
            ap (λ l. l ++ letters format_int cfg x) t.buried
            ∙ sym (flat_map-snoc (letters format_int cfg) xs x);
        total = omega (arith, one, t.total);
        parts = omega (arith, one, t.parts, one_arrival x d (omega (arith, t.parts)));
        reported = omega (arith, one, t.reported);
        unflushed = t.unflushed;
      }

  -- A batch of records that are all there is dealt with, without a panic.
  pub produce_batch-Tally :
      (xs ys : List Fetched) (d : DrainState)
      → length xs + length ys < 2 ^ 63
      → Tally xs d
      → (next : DrainState) × (produce_batch format_int cfg d (map some ys) ≡ some next)
        × Tally (xs ++ ys) next
  unfolding produce_batch
  produce_batch-Tally xs [] d small t = (d, refl, subst (λ l. Tally l d) (sym (append-nil xs)) t)
  produce_batch-Tally xs (y ∷ ys) d small t =
      let (next, e, done) =
        produce_batch-Tally (xs ++ (y ∷ [])) ys (produce_one format_int cfg d y)
          (omega (arith, length-append xs (y ∷ []))) (produce_one-Tally xs y d (omega arith) t) in
      (next, e, subst (λ l. Tally l next) (append_assoc xs (y ∷ []) ys) done)

  flush-Tally :
      (xs : List Fetched) (d : DrainState)
      → cfg.takes_partition ≡ true
      → Tally xs d
      → Tally xs (flush d)
  unfolding counted
  flush-Tally xs d on t = record {
    on_target = t.on_target;
    buried = t.buried;
    total = t.total;
    parts = t.parts;
    reported =
        omega
          (arith, counted-append d.flushed ((d.period_records, d.period_bytes) ∷ []), t.reported);
    unflushed = λ off. cc (on, off);
  }

  pub report_progress-Tally :
      (due : Bool) (xs : List Fetched) (d : DrainState)
      → (due && not cfg.takes_partition) ≡ false
      → Tally xs d
      → Tally xs (report_progress due d)
  unfolding report_progress
  report_progress-Tally true xs d fits t = flush-Tally xs d (ground (arith, fits)) t
  report_progress-Tally false xs d fits t = t

  -- After the loop the metric has every record.
  pub finish_drain-Tally :
      (xs : List Fetched) (d : DrainState)
      → length xs < 2 ^ 63
      → (lt64 0 d.period_records && not cfg.takes_partition) ≡ false
      → Tally xs d
      → Tally xs (finish_drain d) × (counted (finish_drain d).flushed ≡ length xs)
  unfolding finish_drain
  finish_drain-Tally xs d small fits t = elim (Bool-cases (lt64 0 d.period_records)) [
    | inl some_left ↦ rw some_left (
        let f = flush-Tally xs d (ground (arith, some_left, fits)) t in
        (f, omega (arith, f.reported)))
    | inr nothing ↦ rw nothing (t, ground (arith, t.reported))
  ]
