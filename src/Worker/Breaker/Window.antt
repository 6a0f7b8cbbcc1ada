-- ===== src/Worker/Breaker/Window.antt =====
-- What the window of the circuit breaker of src/workers/video.worker.ts changes.
use neura_gen.Worker.Breaker.{
  count_failure, record_failure, BreakerEvent, record_success, should_use_vast, breaker_run,
  breaker_step, BreakerSettings, Breaker, ask, succeed, fail,
}
use neura_gen.Base.{ℕ, ◌≡◌, ◌∷◌, arith, refl, String, Bool, true, false, List, []}

-- The fields that decide, of two breakers.
record SameGate (a b : Breaker) : Type 0 where
  pub same_deadline : a.opened_until_ms ≡ b.opened_until_ms
  pub same_failures : a.consecutive_failures ≡ b.consecutive_failures
  pub same_successes : a.half_open_success_count ≡ b.half_open_success_count

module _ (low : String → String) (window : ℕ) (c : BreakerSettings) where
  abbrev other : BreakerSettings
  other = record c { window_ms = window }

  breaker_step-SameGate :
      (e : BreakerEvent) (a b : Breaker)
      → SameGate a b
      → SameGate (breaker_step low other e a) (breaker_step low c e b)
  unfolding breaker_step should_use_vast record_success record_failure count_failure
  breaker_step-SameGate (ask now false healthy) a b h = h
  breaker_step-SameGate (ask now true healthy) a b h = ground arith
  breaker_step-SameGate (succeed now) a b h = ground arith
  breaker_step-SameGate (fail now e) a b h = ground arith

  breaker_run-SameGate :
      (es : List BreakerEvent) (a b : Breaker)
      → SameGate a b
      → SameGate (breaker_run low other es a) (breaker_run low c es b)
  unfolding breaker_run
  breaker_run-SameGate [] a b h = h
  breaker_run-SameGate (e ∷ es) a b h =
      breaker_run-SameGate es (breaker_step low other e a) (breaker_step low c e b)
        (breaker_step-SameGate e a b h)

  -- Two breakers that differ in their window alone allow Vast at the same times, whatever happens
  -- to both: the window changes no decision.
  pub should_use_vast-window :
      (now : ℕ) (enabled healthy : Bool) (es : List BreakerEvent) (b : Breaker)
      → (should_use_vast other now enabled healthy (breaker_run low other es b)).0
        ≡ (should_use_vast c now enabled healthy (breaker_run low c es b)).0
  unfolding should_use_vast
  should_use_vast-window now false healthy es b = refl
  should_use_vast-window now true healthy es b = ground (
    arith,
    breaker_run-SameGate es b b
        (record { same_deadline = refl; same_failures = refl; same_successes = refl }),
  )
