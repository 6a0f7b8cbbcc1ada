-- ===== src/Worker/Breaker/Bounds.antt =====
-- The settings and the counters of the circuit breaker of src/workers/video.worker.ts.
use neura_gen.Worker.Breaker.{
  reset_breaker, breaker_run, fail, succeed, ask, BreakerEvent, count_failure, record_failure,
  record_success, quotient, should_use_vast, breaker_step, Breaker, setting, resolve_settings,
  BreakerSettings, Finite,
}
use native.Mathlib.Nat.{le-div_iff_mul-le, mul-le-mul}
use neura_gen.Worker.Breaker.{quotient, negative, ask, succeed, fail}
use neura_gen.Base.{
  ℕ, ◌*◌, ◌/◌, ◌<◌, ◌≤◌, suc, ◌∷◌, arith, none, some, inl, inr, Option, Option-cases, String, true,
  false, List, [],
}

floor-positive : (scale n d : ℕ) → 1 ≤ scale → suc d ≤ n → 1 ≤ n * scale / suc d
floor-positive scale n d h k = (le-div_iff_mul-le (omega arith)).1 (omega (arith, mul-le-mul k h))

-- `floor` of what is at least one is at least one.
setting-positive :
    (scale fallback : ℕ) (number : String → Option Finite) (o : Option String)
    → 1 ≤ scale
    → 1 ≤ fallback
    → 1 ≤ setting 1 scale fallback number o
setting-positive scale fallback number none h k = k
setting-positive scale fallback number (some s) h k = elim (Option-cases (number s)) [
  | inl e ↦ rw e k
  | inr (negative, e) ↦ rw e k
  | inr (quotient n d, e) ↦ rw e (ground (arith, floor-positive scale n d h))
]

-- The settings, whatever the environment.
pub record SettingsArePositive (c : BreakerSettings) : Type 0 where
  pub threshold_positive : 1 ≤ c.failure_threshold
  pub success_positive : 1 ≤ c.half_open_success
  pub cooldown_positive : 1 ≤ c.cooldown_ms

pub resolve_settings-positive :
    (number : String → Option Finite) (env : String → Option String)
    → SettingsArePositive (resolve_settings number env)
unfolding resolve_settings
resolve_settings-positive number env = record {
  threshold_positive =
      setting-positive 1 3 number (env "VAST_BREAKER_FAILURE_THRESHOLD") (omega arith)
        (omega arith);
  success_positive =
      setting-positive 1 3 number (env "VAST_BREAKER_HALF_OPEN_SUCCESS") (omega arith)
        (omega arith);
  cooldown_positive =
      setting-positive 1000 600000 number (env "VAST_BREAKER_COOLDOWN_SECONDS") (omega arith)
        (omega arith);
}

-- What holds of the counters at any time.
pub record BreakerIsBounded (c : BreakerSettings) (b : Breaker) : Type 0 where
  pub below_threshold : b.consecutive_failures < c.failure_threshold
  pub below_success : b.half_open_success_count < c.half_open_success

module _ (low : String → String) (c : BreakerSettings) (positive : SettingsArePositive c) where
  breaker_step-IsBounded :
      (e : BreakerEvent) (b : Breaker)
      → BreakerIsBounded c b
      → BreakerIsBounded c (breaker_step low c e b)
  unfolding breaker_step should_use_vast record_success record_failure count_failure
  breaker_step-IsBounded (ask now false healthy) b h = h
  breaker_step-IsBounded (ask now true healthy) b h = ground arith
  breaker_step-IsBounded (succeed now) b h = ground arith
  breaker_step-IsBounded (fail now e) b h = ground arith

  breaker_run-IsBounded :
      (es : List BreakerEvent) (b : Breaker)
      → BreakerIsBounded c b
      → BreakerIsBounded c (breaker_run low c es b)
  unfolding breaker_run
  breaker_run-IsBounded [] b h = h
  breaker_run-IsBounded (e ∷ es) b h =
      breaker_run-IsBounded es (breaker_step low c e b) (breaker_step-IsBounded e b h)

-- Whatever the environment says and whatever has happened to the breaker of a new worker, its
-- failures in a row are fewer than the threshold and its successes in the half-open state are fewer
-- than the number that closes it.
pub new_breaker-IsBounded :
    (low : String → String) (number : String → Option Finite) (env : String → Option String)
    (es : List BreakerEvent)
    → BreakerIsBounded
        (resolve_settings number env)
        (breaker_run low (resolve_settings number env) es reset_breaker)
new_breaker-IsBounded low number env es =
    let positive = resolve_settings-positive number env in
    breaker_run-IsBounded low (resolve_settings number env) positive es reset_breaker (record {
      below_threshold = positive.threshold_positive;
      below_success = positive.success_positive;
    })
