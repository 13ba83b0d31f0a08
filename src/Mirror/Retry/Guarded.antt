-- ===== src/Mirror/Retry/Guarded.antt =====
-- internal/mirror/retry.go: what RetryWithCircuitBreaker does to its breaker.
use mathlib.Core.Path.{subst}
use gomm.Prelude.{
  ℕ, zero, suc, ◌≡◌, ◌≢◌, ◌∙◌, refl, sym, ap, Bool, true, false, Option, none, some, arith,
  Bool-cases, inl, inr, if◌then◌else◌, Int64, lt64,
}
use gomm.Mirror.Breaker.{
  CircuitBreaker, circuit_open, circuit_closed, allow, check_state_transition, lets_through, waited,
  record_success, record_failure,
}
use gomm.Mirror.Retry.{
  RetryConfig, RetryWorld, RetryResult, succeeded, cancelled_before, cancelled_in_backoff,
  exhausted, panicked, retry_loop, retry, after_attempt, after_wait, after_draw, back_off,
  GuardedError, GuardedResult, rejected, retried, with_breaker, guarded, report, wrap_error,
  err_circuit_open, retry_with_circuit_breaker,
}

-- A predicate on states that the function and the wait keep is kept by Retry.
module _ {S E : Type 0} (world : RetryWorld S E) (cfg : RetryConfig) (fn : S → S × Option E)
    (Kept : S → Type 0) (fn-Kept : (s : S) → Kept s → Kept (fn s).0)
    (wait-Kept : (d : Int64) (s : S) → Kept s → Kept (world.wait d s).0) where
  wait_then-Kept :
      (next : S → S × RetryResult E) (attempt : ℕ) (err : E)
      → ((s : S) → Kept s → Kept (next s).0)
      → (out : S × Bool) → Kept out.0
      → Kept (after_wait world cfg fn next attempt err out).0
  wait_then-Kept next attempt err next-Kept (s, true) h = next-Kept s h
  wait_then-Kept next attempt err next-Kept (s, false) h = h

  draw_then-Kept :
      (next : S → S × RetryResult E) (attempt : ℕ) (err : E) (s : S)
      → ((t : S) → Kept t → Kept (next t).0)
      → (drawn : Option Int64) → Kept s
      → Kept (after_draw world cfg fn next attempt err s drawn).0
  draw_then-Kept next attempt err s next-Kept none h = h
  draw_then-Kept next attempt err s next-Kept (some d) h =
      wait_then-Kept next attempt err next-Kept (world.wait d s) (wait-Kept d s h)

  attempt_then-Kept :
      (failed : E → S → S × RetryResult E)
      → ((err : E) (s : S) → Kept s → Kept (failed err s).0)
      → (out : S × Option E) → Kept out.0
      → Kept (after_attempt world cfg fn failed out).0
  attempt_then-Kept failed failed-Kept (s, none) h = h
  attempt_then-Kept failed failed-Kept (s, some err) h = failed-Kept err s h

  retry_loop-Kept :
      (left attempt : ℕ) (last : Option E) (s : S)
      → Kept s
      → Kept (retry_loop world cfg fn left attempt last s).0
  unfolding retry_loop
  retry_loop-Kept zero attempt last s h = elim (Bool-cases (world.ctx_done s)) [
    | inl ended ↦ rw ended h
    | inr live ↦
        rw live (
          attempt_then-Kept (λ err t. (t, exhausted (some err))) (λ err t k. k) (fn s)
            (fn-Kept s h))
  ]
  retry_loop-Kept (suc left) attempt last s h = elim (Bool-cases (world.ctx_done s)) [
    | inl ended ↦ rw ended h
    | inr live ↦ rw live (
        attempt_then-Kept
          (λ err.
            back_off world cfg fn (retry_loop world cfg fn left (suc attempt) (some err)) attempt
              err)
          (λ err t k.
            draw_then-Kept (retry_loop world cfg fn left (suc attempt) (some err)) attempt err t
              (λ u l. retry_loop-Kept left (suc attempt) (some err) u l) _ k)
          (fn s) (fn-Kept s h))
  ]

  pub retry-Kept : (s : S) → Kept s → Kept (retry world cfg fn s).0
  unfolding retry
  retry-Kept s h = elim (Bool-cases (lt64 cfg.max_retries 0)) [
    | inl negative ↦ rw negative h
    | inr positive ↦ rw positive (retry_loop-Kept cfg.max_retries 0 none s h)
  ]

allow_closed :
    (now : ℕ) (cb : CircuitBreaker) → cb.state ≡ circuit_closed → allow now cb ≡ (cb, true)
unfolding allow check_state_transition lets_through
allow_closed now cb e = rw e

allow_open :
    (now : ℕ) (cb : CircuitBreaker)
    → cb.state ≡ circuit_open
    → waited now cb ≡ false
    → allow now cb ≡ (cb, false)
unfolding allow check_state_transition lets_through
allow_open now cb e early = ground arith

module _ {S E : Type 0} (world : RetryWorld S E) (clock : S → ℕ) (cfg : RetryConfig)
    (fn : S → S × Option E) where
  -- The whole call, from what Allow answered.
  abbrev after_allow : S → CircuitBreaker × Bool → (S × CircuitBreaker) × GuardedResult E
  after_allow s (cb, allowed) =
      let out = retry (with_breaker world) cfg (guarded clock fn) (s, cb) in
      if allowed then (report clock out, retried out.1) else ((s, cb), rejected)

  -- Behind a breaker that is open, before its reset timeout is over, the function is not called:
  -- errCircuitOpen is returned at once, and neither the world nor the breaker changes.
  pub open_rejects :
      (s : S) (cb : CircuitBreaker)
      → cb.state ≡ circuit_open
      → waited (clock s) cb ≡ false
      → retry_with_circuit_breaker world clock cfg fn (s, cb) ≡ ((s, cb), rejected)
  unfolding retry_with_circuit_breaker
  open_rejects s cb e early = ap (after_allow s) (allow_open (clock s) cb e early)

  -- One try, from what Allow answered.
  abbrev after_try : S → CircuitBreaker × Bool → (S × CircuitBreaker) × Option (GuardedError E)
  after_try s (cb, allowed) =
      if allowed then (((fn s).0, cb), wrap_error (fn s).1) else ((s, cb), some err_circuit_open)

  guarded_closed :
      (cb : CircuitBreaker)
      → cb.state ≡ circuit_closed
      → (p : S × CircuitBreaker) → p.1 ≡ cb
      → (guarded clock fn p).0.1 ≡ cb
  unfolding guarded
  guarded_closed cb e (s, cb') same =
      ap (λ a. (after_try s a).0.1)
        (allow_closed (clock s) cb' (ap (λ (b : CircuitBreaker). b.state) same ∙ e))
      ∙ same

  -- What the breaker is told: nil is one success, an error one failure.
  abbrev pub told : ℕ → CircuitBreaker → GuardedResult E → CircuitBreaker
  told now cb rejected = cb
  told now cb (retried succeeded) = record_success cb
  told now cb (retried panicked) = cb
  told now cb (retried (cancelled_before _ _)) = record_failure now cb
  told now cb (retried (cancelled_in_backoff _ _)) = record_failure now cb
  told now cb (retried (exhausted _)) = record_failure now cb

  report-told :
      (cb : CircuitBreaker) (out : (S × CircuitBreaker) × RetryResult (GuardedError E))
      → out.0.1 ≡ cb
      → (report clock out).1 ≡ told (clock (report clock out).0) cb (retried out.1)
  report-told cb ((s, b), succeeded) same = ap record_success same
  report-told cb ((s, b), panicked) same = same
  report-told cb ((s, b), cancelled_before _ _) same = ap (record_failure (clock s)) same
  report-told cb ((s, b), cancelled_in_backoff _ _) same = ap (record_failure (clock s)) same
  report-told cb ((s, b), exhausted _) same = ap (record_failure (clock s)) same

  -- Behind a breaker that is closed, and that nobody else uses meanwhile, the function is tried, and
  -- however often, the breaker counts the whole call once: a success if it returned nil, a failure at
  -- its end if it returned an error.
  pub closed_counts_once :
      (s : S) (cb : CircuitBreaker)
      → cb.state ≡ circuit_closed
      → (let out = retry_with_circuit_breaker world clock cfg fn (s, cb) in
          (out.1 ≢ rejected) × (out.0.1 ≡ told (clock out.0.0) cb out.1))
  unfolding retry_with_circuit_breaker
  closed_counts_once s cb e =
      let Counts : (S × CircuitBreaker) × GuardedResult E → Type 0 =
        λ out. (out.1 ≢ rejected) × (out.0.1 ≡ told (clock out.0.0) cb out.1) in
      let kept =
        retry-Kept (with_breaker world) cfg (guarded clock fn) (λ p. p.1 ≡ cb) (guarded_closed cb e)
          (λ d p h. h) (s, cb) refl in
      subst (λ a. Counts (after_allow s a)) (sym (allow_closed (clock s) cb e))
        ((λ h. cc h), report-told cb _ kept)
