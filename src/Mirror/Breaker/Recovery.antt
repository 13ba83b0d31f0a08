-- ===== src/Mirror/Breaker/Recovery.antt =====
-- internal/mirror/retry.go: how a breaker trips, and how it comes back.
use mathlib.Core.Path.{subst}
use gomm.Prelude.{
  ℕ, zero, suc, ◌+◌, ◌^◌, ◌<◌, ◌≡◌, ◌↔◌, ◌∙◌, ap, refl, sym, Bool, true, false, ◌∷◌, arith, leb,
  if◌then◌else◌, Int64, add64, le64, Bool-cases, inl, inr, replicate,
}
use gomm.Mirror.Breaker.{
  CircuitState, circuit_closed, circuit_half_open, circuit_open, CircuitBreakerConfig,
  CircuitBreaker, new_circuit_breaker, check_state_transition, waited, lets_through, allow,
  record_success, record_failure, allow_call, success_call, failure_call, breaker_call,
  breaker_calls,
}

-- Allow says no exactly of a breaker that is open and whose last failure is less than the reset
-- timeout ago.
pub allow_refuses_iff :
    (now : ℕ) (cb : CircuitBreaker)
    → ((allow now cb).1 ≡ false) ↔ ((cb.state ≡ circuit_open) × (waited now cb ≡ false))
unfolding allow check_state_transition lets_through
allow_refuses_iff now cb = ground arith

abbrev breaker : CircuitState → Int64 → Int64 → ℕ → CircuitBreakerConfig → CircuitBreaker
breaker s f n t cfg = record {
  state = s;
  failures = f;
  successes = n;
  last_failure_time = t;
  cfg = cfg;
}

tripped_stays :
    (now : ℕ) (k : ℕ) (f n : Int64) (t : ℕ) (cfg : CircuitBreakerConfig)
    → (breaker_calls (breaker circuit_open f n t cfg) (replicate k (failure_call now))).state
      ≡ circuit_open
unfolding breaker_calls breaker_call record_failure
tripped_stays now zero f n t cfg = refl
tripped_stays now (suc k) f n t cfg = tripped_stays now k (add64 f 1) n now cfg

failed :
    (now : ℕ) (f n : Int64) (t : ℕ) (cfg : CircuitBreakerConfig)
    → record_failure now (breaker circuit_closed f n t cfg)
      ≡ breaker
          (if le64 cfg.failure_threshold (add64 f 1) then circuit_open else circuit_closed)
          (add64 f 1)
          n
          now
          cfg
unfolding record_failure
failed now f n t cfg = elim (Bool-cases (le64 cfg.failure_threshold (add64 f 1))) [
  | inl due ↦ rw due
  | inr early ↦ rw early
]

failures-state :
    (now : ℕ) (k : ℕ) (f n : Int64) (t : ℕ) (cfg : CircuitBreakerConfig)
    → cfg.failure_threshold < 2 ^ 63
    → f < cfg.failure_threshold
    → (breaker_calls (breaker circuit_closed f n t cfg) (replicate k (failure_call now))).state
      ≡ (if leb cfg.failure_threshold (f + k) then circuit_open else circuit_closed)
unfolding breaker_calls breaker_call record_failure
failures-state now zero f n t cfg small h = ground arith
failures-state now (suc k) f n t cfg small h =
    ap (λ b. (breaker_calls b (replicate k (failure_call now))).state) (failed now f n t cfg)
    ∙ elim (Bool-cases (le64 cfg.failure_threshold (add64 f 1))) [
      | inl due ↦
          ap
            (λ c.
              (breaker_calls
                (breaker (if c then circuit_open else circuit_closed) (add64 f 1) n now cfg)
                (replicate k (failure_call now))).state)
            due
          ∙ tripped_stays now k (add64 f 1) n now cfg
          ∙ ground arith
      | inr early ↦
          ap
            (λ c.
              (breaker_calls
                (breaker (if c then circuit_open else circuit_closed) (add64 f 1) n now cfg)
                (replicate k (failure_call now))).state)
            early
          ∙ failures-state now k (add64 f 1) n now cfg small (ground arith)
          ∙ ground arith
    ]

-- Failures in a row on a new breaker trip it when they reach the threshold, not before, and then
-- it stays open.
pub failures_trip :
    (cfg : CircuitBreakerConfig) (now k : ℕ)
    → 0 < cfg.failure_threshold
    → cfg.failure_threshold < 2 ^ 63
    → (breaker_calls (new_circuit_breaker cfg) (replicate k (failure_call now))).state
      ≡ (if leb cfg.failure_threshold k then circuit_open else circuit_closed)
unfolding new_circuit_breaker
failures_trip cfg now k pos small =
    failures-state now k 0 0 0 cfg small pos
    ∙ ap (λ j. if leb cfg.failure_threshold j then circuit_open else circuit_closed) (omega arith)

closed_stays :
    (k : ℕ) (t : ℕ) (cfg : CircuitBreakerConfig)
    → breaker_calls (breaker circuit_closed 0 0 t cfg) (replicate k success_call)
      ≡ breaker circuit_closed 0 0 t cfg
unfolding breaker_calls breaker_call record_success
closed_stays zero t cfg = refl
closed_stays (suc k) t cfg = closed_stays k t cfg

-- A half-open breaker after some successes.
abbrev probed : ℕ → Int64 → Int64 → ℕ → CircuitBreakerConfig → CircuitBreaker
probed k f n t cfg =
    if leb cfg.half_open_max_probes (n + k)
    then breaker circuit_closed 0 0 t cfg
    else breaker circuit_half_open f (n + k) t cfg

probes-probed :
    (k : ℕ) (f n : Int64) (t : ℕ) (cfg : CircuitBreakerConfig)
    → cfg.half_open_max_probes < 2 ^ 63
    → n < cfg.half_open_max_probes
    → breaker_calls (breaker circuit_half_open f n t cfg) (replicate k success_call)
      ≡ probed k f n t cfg
unfolding breaker_calls breaker_call record_success
probes-probed zero f n t cfg small h =
    let early : leb cfg.half_open_max_probes (n + 0) ≡ false = ground arith in
    let same : n + 0 ≡ n = omega arith in rw (early, same) refl
probes-probed (suc k) f n t cfg small h =
    elim (Bool-cases (le64 cfg.half_open_max_probes (add64 n 1))) [
      | inl due ↦
          let whole : leb cfg.half_open_max_probes (n + suc k) ≡ true = ground arith in
          ap (after_one k) due ∙ closed_stays k t cfg ∙ sym (ap (probed_if (n + suc k)) whole)
      | inr early ↦
          let one : add64 n 1 ≡ suc n = ground arith in
          let later : suc n + k ≡ n + suc k = omega arith in
          ap (after_one k) early
          ∙ ap (λ m. breaker_calls (breaker circuit_half_open f m t cfg) (replicate k success_call))
              one
          ∙ probes-probed k f (suc n) t cfg small (ground arith)
          ∙ ap (λ m. probed_if m (leb cfg.half_open_max_probes m)) later
    ]
  where
    after_one : ℕ → Bool → CircuitBreaker
    after_one j c =
        breaker_calls
          (if c
            then breaker circuit_closed 0 0 t cfg
            else breaker circuit_half_open f (add64 n 1) t cfg)
          (replicate j success_call)

    probed_if : ℕ → Bool → CircuitBreaker
    probed_if m c =
        if c then breaker circuit_closed 0 0 t cfg else breaker circuit_half_open f m t cfg

recovers-open :
    (now k : ℕ) (f n : Int64) (t : ℕ) (cfg : CircuitBreakerConfig)
    → waited now (breaker circuit_open f n t cfg) ≡ true
    → 0 < cfg.half_open_max_probes
    → cfg.half_open_max_probes < 2 ^ 63
    → ((allow now (breaker circuit_open f n t cfg)).1 ≡ true)
      × (breaker_calls (breaker circuit_open f n t cfg) (allow_call now ∷ replicate k success_call)
          ≡ (if leb cfg.half_open_max_probes k
              then breaker circuit_closed 0 0 t cfg
              else breaker circuit_half_open f k t cfg))
unfolding allow check_state_transition breaker_call breaker_calls lets_through
recovers-open now k f n t cfg over pos small =
    let opened : check_state_transition now (breaker circuit_open f n t cfg)
        ≡ breaker circuit_half_open f 0 t cfg =
      ap (λ c. if c then breaker circuit_half_open f 0 t cfg else breaker circuit_open f n t cfg)
        over in
    let same : 0 + k ≡ k = omega arith in
    (
      ap (λ b. lets_through (b.state)) opened,
      ap (λ b. breaker_calls b (replicate k success_call)) opened
          ∙ probes-probed k f 0 t cfg small pos
          ∙ ap
              (λ j.
                if leb cfg.half_open_max_probes j
                then breaker circuit_closed 0 0 t cfg
                else breaker circuit_half_open f j t cfg)
              same,
    )

-- An open breaker whose reset timeout is over comes back: Allow makes it half-open and says yes, and
-- after k successes in a row, without other calls, it is closed with its counters at zero if k has
-- reached the limit on probes, and otherwise still half-open with k successes counted.
pub recovers :
    (now : ℕ) (cb : CircuitBreaker) (k : ℕ)
    → cb.state ≡ circuit_open
    → waited now cb ≡ true
    → 0 < cb.cfg.half_open_max_probes
    → cb.cfg.half_open_max_probes < 2 ^ 63
    → ((allow now cb).1 ≡ true)
      × (breaker_calls cb (allow_call now ∷ replicate k success_call) ≡ (
          if leb cb.cfg.half_open_max_probes k
          then record cb { state = circuit_closed; failures = 0; successes = 0 }
          else record cb { state = circuit_half_open; successes = k }))
recovers now cb k e over pos small =
    subst
      (λ s.
        let b = breaker s cb.failures cb.successes cb.last_failure_time cb.cfg in
        waited now b ≡ true
        → ((allow now b).1 ≡ true)
          × (breaker_calls b (allow_call now ∷ replicate k success_call) ≡ (
              if leb cb.cfg.half_open_max_probes k
              then breaker circuit_closed 0 0 cb.last_failure_time cb.cfg
              else breaker circuit_half_open cb.failures k cb.last_failure_time cb.cfg)))
      (sym e)
      (λ o. recovers-open now k cb.failures cb.successes cb.last_failure_time cb.cfg o pos small)
      over
