-- ===== src/Mirror/Retry/Tests.antt =====
-- internal/mirror/retry.go: runs of a function that fails twice and of one that always fails.
use gomm.Prelude.{ℕ, suc, ◌≤◌, ◌-◌, ◌≡◌, true, false, Option, none, some, arith, ltb, if◌then◌else◌}
use gomm.Mirror.Breaker.{circuit_open, CircuitBreaker, default_circuit_breaker_config}
use gomm.Mirror.Retry.{RetryWorld, default_retry_config, compute_backoff, retry}
use gomm.Mirror.Retry.Attempts.{Explained, retry-Explained}
use gomm.Mirror.Retry.Backoff.{compute_backoff-bounded}

-- The state counts the calls; the context never ends, and the least draw is made.
abbrev calm : RetryWorld ℕ ℕ
calm = record { ctx_done = λ s. false; draw = λ s n. n - 1; wait = λ d s. (s, true) }

abbrev third_time : ℕ → ℕ × Option ℕ
third_time n = (suc n, (if ltb n 2 then some n else none))

abbrev clock_of : ℕ → ℕ
clock_of n = 0

compute_backoff-bounded_example :
    (d : ℕ) × (compute_backoff (λ n. n - 1) 70 100 500 ≡ some d) × (d ≤ 500)
compute_backoff-bounded_example =
    compute_backoff-bounded (λ n. n - 1) (λ n h. omega arith) 70 100 500 (omega arith) (omega arith)

retry-Explained_example :
    Explained calm default_retry_config third_time 10 0
      (retry calm default_retry_config third_time 0)
retry-Explained_example = retry-Explained calm default_retry_config third_time 0 (omega arith)

abbrev tripped : CircuitBreaker
tripped = record {
  state = circuit_open;
  failures = 5;
  successes = 0;
  last_failure_time = 0;
  cfg = default_circuit_breaker_config;
}
