-- ===== src/Mirror/Retry/Attempts.antt =====
-- internal/mirror/retry.go: what the attempts of Retry have been, for each of its results.
use mathlib.Core.Path.{subst}
use gomm.Prelude.{
  ℕ, zero, suc, ◌+◌, ◌^◌, ◌≤◌, ◌<◌, ◌≡◌, refl, Bool, true, false, Option, none, some, arith,
  Bool-cases, inl, inr, Int64, lt64,
}
use gomm.Mirror.Retry.{
  RetryConfig, RetryWorld, RetryResult, succeeded, cancelled_before, cancelled_in_backoff,
  exhausted, panicked, compute_backoff, retry_loop, retry, after_attempt, after_wait, after_draw,
  back_off,
}

module _ {S E : Type 0} (world : RetryWorld S E) (cfg : RetryConfig) (fn : S → S × Option E) where
  -- A failed attempt and a whole back-off after it, `n` times, lead from one state to another; the
  -- last error is kept.
  pub data Failing (start : S) : ℕ → Option E → S → Type 0 where
    none_yet : Failing start 0 none start
    one_more :
        {n : ℕ} {last : Option E} {s t u : S} (err : E) (backoff : Int64)
        → Failing start n last s
        → world.ctx_done s ≡ false
        → fn s ≡ (t, some err)
        → compute_backoff (world.draw t) n cfg.backoff_base cfg.backoff_max ≡ some backoff
        → world.wait backoff t ≡ (u, true)
        → Failing start (suc n) (some err) u

  -- An attempt number `n` that is begun in `s`, with all before it failed.
  pub record Begun (start : S) (n : ℕ) (s : S) : Type 0 where
    pub last : Option E
    pub before : Failing start n last s
    pub live : world.ctx_done s ≡ false

  -- For each result, how the run came to it; `max` is the number of retries.
  abbrev pub Explained : ℕ → S → S × RetryResult E → Type 0
  Explained max start (t, succeeded) =
      (n : ℕ) × (s : S) × (n ≤ max) × Begun start n s × (fn s ≡ (t, none))
  Explained max start (t, cancelled_before n last) =
      (n ≤ max) × Failing start n last t × (world.ctx_done t ≡ true)
  Explained max start (t, cancelled_in_backoff n err) =
      (m : ℕ) × (s : S) × (u : S) × (backoff : Int64) × (n ≡ suc m)
      × (m < max)
      × Begun start m s
      × (fn s ≡ (u, some err))
      × (compute_backoff (world.draw u) m cfg.backoff_base cfg.backoff_max ≡ some backoff)
      × (world.wait backoff u ≡ (t, false))
  Explained max start (t, exhausted none) = ⊥
  Explained max start (t, exhausted (some err)) =
      (s : S) × Begun start max s × (fn s ≡ (t, some err))
  Explained max start (t, panicked) =
      (m : ℕ) × (s : S) × (err : E) × (m < max)
      × Begun start m s
      × (fn s ≡ (t, some err))
      × (compute_backoff (world.draw t) m cfg.backoff_base cfg.backoff_max ≡ none)

  module _ (max : ℕ) (start : S) where
    wait-Explained :
        (left attempt : ℕ) (s t : S) (err : E) (backoff : Int64)
        → attempt + suc left ≡ max
        → Begun start attempt s
        → fn s ≡ (t, some err)
        → compute_backoff (world.draw t) attempt cfg.backoff_base cfg.backoff_max ≡ some backoff
        → ((u : S)
            → Failing start (suc attempt) (some err) u
            → Explained max start (retry_loop world cfg fn left (suc attempt) (some err) u))
        → (waited : S × Bool) → world.wait backoff t ≡ waited
        → Explained max start (
            after_wait world cfg fn
              (retry_loop world cfg fn left (suc attempt) (some err))
              attempt
              err
              waited)
    wait-Explained left attempt s t err backoff count begun e d next (u, true) w =
        next u (one_more err backoff begun.before begun.live e d w)
    wait-Explained left attempt s t err backoff count begun e d next (u, false) w =
        (attempt, s, t, backoff, refl, omega arith, begun, e, d, w)

    draw-Explained :
        (left attempt : ℕ) (s t : S) (err : E)
        → attempt + suc left ≡ max
        → Begun start attempt s
        → fn s ≡ (t, some err)
        → ((u : S)
            → Failing start (suc attempt) (some err) u
            → Explained max start (retry_loop world cfg fn left (suc attempt) (some err) u))
        → (drawn : Option Int64)
        → compute_backoff (world.draw t) attempt cfg.backoff_base cfg.backoff_max ≡ drawn
        → Explained max start (
            after_draw world cfg fn
              (retry_loop world cfg fn left (suc attempt) (some err))
              attempt
              err
              t
              drawn)
    draw-Explained left attempt s t err count begun e next none d =
        (attempt, s, err, omega arith, begun, e, d)
    draw-Explained left attempt s t err count begun e next (some backoff) d =
        wait-Explained left attempt s t err backoff count begun e d next (world.wait backoff t) refl

    last-Explained :
        (attempt : ℕ) (s : S)
        → attempt ≡ max
        → Begun start attempt s
        → (out : S × Option E) → fn s ≡ out
        → Explained max start (after_attempt world cfg fn (λ err t. (t, exhausted (some err))) out)
    last-Explained attempt s count begun (t, none) e = (attempt, s, omega arith, begun, e)
    last-Explained attempt s count begun (t, some err) e =
        (s, subst (λ n. Begun start n s) count begun, e)

    more-Explained :
        (left attempt : ℕ) (s : S)
        → attempt + suc left ≡ max
        → Begun start attempt s
        → ((err : E) (u : S)
            → Failing start (suc attempt) (some err) u
            → Explained max start (retry_loop world cfg fn left (suc attempt) (some err) u))
        → (out : S × Option E) → fn s ≡ out
        → Explained max start (
            after_attempt world cfg fn
              (λ err.
                back_off world cfg fn
                  (retry_loop world cfg fn left (suc attempt) (some err))
                  attempt
                  err)
              out)
    more-Explained left attempt s count begun next (t, none) e = (attempt, s, omega arith, begun, e)
    more-Explained left attempt s count begun next (t, some err) e =
        draw-Explained left attempt s t err count begun e (next err) _ refl

    retry_loop-Explained :
        (left attempt : ℕ) (last : Option E) (s : S)
        → attempt + left ≡ max
        → Failing start attempt last s
        → Explained max start (retry_loop world cfg fn left attempt last s)
    unfolding retry_loop
    retry_loop-Explained zero attempt last s count h = elim (Bool-cases (world.ctx_done s)) [
      | inl ended ↦ rw ended (omega arith, h, ended)
      | inr live ↦ rw live (
          last-Explained attempt s (omega arith) (record { last = last; before = h; live = live })
            (fn s) refl)
    ]
    retry_loop-Explained (suc left) attempt last s count h = elim (Bool-cases (world.ctx_done s)) [
      | inl ended ↦ rw ended (omega arith, h, ended)
      | inr live ↦ rw live (
          more-Explained left attempt s count (record { last = last; before = h; live = live })
            (λ err u f. retry_loop-Explained left (suc attempt) (some err) u (omega arith) f) (fn s)
            refl)
    ]

  -- With a limit on retries that is not negative, Retry makes at most one attempt more than that.
  -- It returns nil only from a success after failures that were each followed by a whole back-off;
  -- it is exhausted only when the last attempt that is allowed has failed, and then wraps that
  -- failure; it is cancelled only by a context that had ended before an attempt, or in the back-off
  -- after one; and it panics only where the draw of a back-off does.
  pub retry-Explained :
      (start : S)
      → cfg.max_retries < 2 ^ 63
      → Explained cfg.max_retries start (retry world cfg fn start)
  unfolding retry
  retry-Explained start small =
      let positive : lt64 cfg.max_retries 0 ≡ false = ground arith in
      rw positive (
        retry_loop-Explained cfg.max_retries start cfg.max_retries 0 none start (omega arith)
          none_yet)
