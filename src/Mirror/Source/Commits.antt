-- ===== src/Mirror/Source/Commits.antt =====
-- internal/mirror/source.go: when the offsets of failed records are committed.
use gomm.Prelude.{
  ℕ, ◌+◌, ◌≡◌, ◌<◌, refl, ap, ◌∙◌, Bool, true, List, [], ◌∷◌, ◌++◌, append_assoc, arith, length,
  add64, le64, Bytes,
}
use gomm.Mirror.Breaker.{since}
use gomm.Mirror.Source.{
  SourceRecord, Delivery, SourceConfig, SourceState, produce_all, commit_step, round,
}
use gomm.Mirror.Source.Losses.{failed_of, produce_all-Sent}

module _ (format_int : ℕ → Bytes) (cfg : SourceConfig) where
  -- A round that finds failed deliveries, of its own records or of earlier ones not yet counted off,
  -- commits nothing.
  pub errors_hold_commit :
      (now : ℕ) (commits : Bool) (batch : List (SourceRecord × Delivery)) (st : SourceState)
      → 0 < st.produce_errors + length (failed_of batch)
      → (round format_int cfg now commits batch st).committed ≡ st.committed
  unfolding round commit_step
  errors_hold_commit now commits [] st some_errors = refl
  errors_hold_commit now commits (x ∷ xs) st some_errors =
      let s = produce_all-Sent format_int cfg st (x ∷ xs) in
      let errors : 0 < (produce_all format_int cfg st (x ∷ xs)).produce_errors =
        omega (arith, s.counted) in
      ground (arith, s.same_committed)

  skipped_round :
      (now : ℕ) (commits : Bool) (x : SourceRecord × Delivery) (xs : List (SourceRecord × Delivery))
      (st : SourceState)
      → le64 cfg.commit_batch (add64 st.records_since_commit (length (x ∷ xs))) ≡ true
      → 0 < st.produce_errors + length (failed_of (x ∷ xs))
      → (let first = round format_int cfg now commits (x ∷ xs) st in
          (first.produce_errors ≡ 0) × (first.polled ≡ st.polled ++ (x ∷ xs)))
  unfolding round commit_step
  skipped_round now commits x xs st due some_errors =
      let s = produce_all-Sent format_int cfg st (x ∷ xs) in
      let errors : 0 < (produce_all format_int cfg st (x ∷ xs)).produce_errors =
        omega (arith, s.counted) in
      let reached_batch : le64 cfg.commit_batch
            (add64 (produce_all format_int cfg st (x ∷ xs)).records_since_commit (length (x ∷ xs)))
          ≡ true =
        ap (λ n. le64 cfg.commit_batch (add64 n (length (x ∷ xs)))) s.same_since ∙ due in
      (ground arith, ground (arith, s.grew))

  clean_round :
      (later : ℕ) (y : SourceRecord × Delivery) (ys : List (SourceRecord × Delivery))
      (st : SourceState)
      → le64 cfg.commit_interval (since later st.last_commit_time) ≡ true
      → st.produce_errors ≡ 0
      → failed_of (y ∷ ys) ≡ []
      → (round format_int cfg later true (y ∷ ys) st).committed ≡ length (st.polled ++ (y ∷ ys))
  unfolding round commit_step
  clean_round later y ys st due none_yet clean =
      let s = produce_all-Sent format_int cfg st (y ∷ ys) in
      let no_errors : (produce_all format_int cfg st (y ∷ ys)).produce_errors ≡ 0 =
        omega (arith, s.counted, ap length clean) in
      let due_now : le64 cfg.commit_interval
            (since later (produce_all format_int cfg st (y ∷ ys)).last_commit_time)
          ≡ true =
        ap (λ t. le64 cfg.commit_interval (since later t)) s.same_time ∙ due in
      let all : length (produce_all format_int cfg st (y ∷ ys)).polled
          ≡ length (st.polled ++ (y ∷ ys)) =
        ap length s.grew in
      ground arith

  -- The round after a commit was skipped for a failed delivery commits that record all the same: when
  -- a round that is due for a commit finds failures, and the next round, due for a commit again,
  -- delivers all its records and commits with success, the committed offsets cover every record
  -- polled in both rounds, the failed ones included.
  pub failed_then_committed :
      (now later : ℕ) (commits : Bool) (x y : SourceRecord × Delivery)
      (xs ys : List (SourceRecord × Delivery)) (st : SourceState)
      → le64 cfg.commit_batch (add64 st.records_since_commit (length (x ∷ xs))) ≡ true
      → 0 < st.produce_errors + length (failed_of (x ∷ xs))
      → le64 cfg.commit_interval
          (since later (round format_int cfg now commits (x ∷ xs) st).last_commit_time)
        ≡ true
      → failed_of (y ∷ ys) ≡ []
      → (round format_int cfg later true
          (y ∷ ys)
          (round format_int cfg now commits (x ∷ xs) st)).committed
        ≡ length (st.polled ++ ((x ∷ xs) ++ (y ∷ ys)))
  failed_then_committed now later commits x y xs ys st due some_errors due_again clean =
      let (no_errors, grew) = skipped_round now commits x xs st due some_errors in
      clean_round later y ys (round format_int cfg now commits (x ∷ xs) st) due_again no_errors
        clean
      ∙ ap (λ l. length (l ++ (y ∷ ys))) grew
      ∙ ap length (append_assoc st.polled (x ∷ xs) (y ∷ ys))
