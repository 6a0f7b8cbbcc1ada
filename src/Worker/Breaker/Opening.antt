-- ===== src/Worker/Breaker/Opening.antt =====
-- When the circuit breaker of src/workers/video.worker.ts opens, how long it stays open, and when
-- it closes.
use neura_gen.Worker.Breaker.{
  reset_breaker, ProviderError, open_breaker, count_failure, record_failure,
  infer_provider_error_type, Breaker, record_success, is_transient, should_use_vast, breaker_run,
  breaker_step, BreakerSettings, BreakerEvent, ask, succeed, fail,
}
use neura_gen.Base.{
  lt→ltb, ℕ, ◌+◌, ◌<◌, ◌≤◌, ◌≡◌, suc, ◌∷◌, ◌++◌, arith, refl, ap, ◌∙◌, String, Bool, true, false,
  List, [], All, length,
}

abbrev pub event_time : BreakerEvent → ℕ
event_time (ask now enabled healthy) = now
event_time (succeed now) = now
event_time (fail now e) = now

-- From `t` on, before `u`.
abbrev pub IsWithin : (t u : ℕ) → BreakerEvent → Type 0
IsWithin t u e = (t ≤ event_time e) × (event_time e < u)

pub should_use_vast-shut :
    (c : BreakerSettings) (now : ℕ) (enabled healthy : Bool) (b : Breaker)
    → now < b.opened_until_ms
    → should_use_vast c now enabled healthy b ≡ (false, b)
unfolding should_use_vast
should_use_vast-shut c now false healthy b h = refl
should_use_vast-shut c now true healthy b h = rw (lt→ltb now b.opened_until_ms h) refl

module _ (low : String → String) (c : BreakerSettings) where
  breaker_step-shut :
      (t : ℕ) (e : BreakerEvent) (b : Breaker)
      → IsWithin t (t + c.cooldown_ms) e
      → t + c.cooldown_ms ≤ b.opened_until_ms
      → t + c.cooldown_ms ≤ (breaker_step low c e b).opened_until_ms
  unfolding breaker_step should_use_vast record_success record_failure count_failure
  breaker_step-shut t (ask now false healthy) b h k = k
  breaker_step-shut t (ask now true healthy) b h k = ground arith
  breaker_step-shut t (succeed now) b h k = ground arith
  breaker_step-shut t (fail now e) b h k = ground arith

  breaker_run-shut :
      (t : ℕ) (es : List BreakerEvent) (b : Breaker)
      → All (IsWithin t (t + c.cooldown_ms)) es
      → t + c.cooldown_ms ≤ b.opened_until_ms
      → t + c.cooldown_ms ≤ (breaker_run low c es b).opened_until_ms
  unfolding breaker_run
  breaker_run-shut t [] b h k = k
  breaker_run-shut t (e ∷ es) b (h, hs) k =
      breaker_run-shut t es (breaker_step low c e b) hs (breaker_step-shut t e b h k)

  -- Once the breaker has opened, Vast is not used before the cooldown has passed, whatever has
  -- happened since then within it.
  pub open_breaker-refuses :
      (t now : ℕ) (enabled healthy : Bool) (es : List BreakerEvent) (b : Breaker)
      → All (IsWithin t (t + c.cooldown_ms)) es
      → now < t + c.cooldown_ms
      → (should_use_vast c now enabled healthy (breaker_run low c es (open_breaker c t b))).0
        ≡ false
  open_breaker-refuses t now enabled healthy es b h k =
      let shut = breaker_run-shut t es (open_breaker c t b) h (omega arith) in
      ap (λ r. r.0)
        (should_use_vast-shut c now enabled healthy (breaker_run low c es (open_breaker c t b))
          (omega (arith, shut)))

  -- Failures that count, one after the other.
  abbrev pub Counts : BreakerEvent → Type 0
  Counts (fail now e) = is_transient (infer_provider_error_type low e) ≡ true
  Counts (ask now enabled healthy) = ⊥
  Counts (succeed now) = ⊥

  failure-adds :
      (now : ℕ) (e : ProviderError) (b : Breaker)
      → Counts (fail now e)
      → suc b.consecutive_failures < c.failure_threshold
      → ((breaker_step low c (fail now e) b).opened_until_ms ≡ b.opened_until_ms)
        × ((breaker_step low c (fail now e) b).consecutive_failures ≡ suc b.consecutive_failures)
  unfolding breaker_step record_failure count_failure
  failure-adds now e b h k = ground arith

  failures-add :
      (es : List BreakerEvent) (b : Breaker)
      → All Counts es
      → b.consecutive_failures + length es < c.failure_threshold
      → ((breaker_run low c es b).opened_until_ms ≡ b.opened_until_ms)
        × ((breaker_run low c es b).consecutive_failures ≡ b.consecutive_failures + length es)
  unfolding breaker_run
  failures-add [] b h k = (refl, omega arith)
  failures-add (ask now enabled healthy ∷ es) b (h, hs) k = elim h [ ]
  failures-add (succeed now ∷ es) b (h, hs) k = elim h [ ]
  failures-add (fail now e ∷ es) b (h, hs) k =
      let next = breaker_step low c (fail now e) b in
      let one = failure-adds now e b h (omega arith) in
      let rest = failures-add es next hs (omega (arith, one)) in
      (rest.0 ∙ one.0, omega (arith, one, rest))

  breaker_run-append :
      (es fs : List BreakerEvent) (b : Breaker)
      → breaker_run low c (es ++ fs) b ≡ breaker_run low c fs (breaker_run low c es b)
  unfolding breaker_run
  breaker_run-append [] fs b = refl
  breaker_run-append (e ∷ es) fs b = breaker_run-append es fs (breaker_step low c e b)

  last_failure-opens :
      (now : ℕ) (e : ProviderError) (b : Breaker)
      → Counts (fail now e)
      → suc b.consecutive_failures ≡ c.failure_threshold
      → (breaker_run low c (fail now e ∷ []) b).opened_until_ms ≡ now + c.cooldown_ms
  unfolding breaker_run breaker_step record_failure count_failure
  last_failure-opens now e b h k = ground arith

  -- Failures in a row that count open the breaker at the one that makes the threshold full and not
  -- before: its deadline is then the cooldown after the time of this one.
  pub failures-open :
      (es : List BreakerEvent) (now : ℕ) (e : ProviderError) (b : Breaker)
      → All Counts es
      → Counts (fail now e)
      → b.consecutive_failures + suc (length es) ≡ c.failure_threshold
      → ((breaker_run low c es b).opened_until_ms ≡ b.opened_until_ms)
        × ((breaker_run low c (es ++ (fail now e ∷ [])) b).opened_until_ms ≡ now + c.cooldown_ms)
  failures-open es now e b hs h k =
      let before = failures-add es b hs (omega arith) in
      (
        before.0,
        rw (breaker_run-append es (fail now e ∷ []) b)
            (last_failure-opens now e (breaker_run low c es b) h (omega (arith, before))),
      )

  -- Successes after the deadline.
  abbrev pub SucceedsAfter : ℕ → BreakerEvent → Type 0
  SucceedsAfter u (succeed now) = u ≤ now
  SucceedsAfter u (ask now enabled healthy) = ⊥
  SucceedsAfter u (fail now e) = ⊥

  success-adds :
      (now : ℕ) (b : Breaker)
      → b.opened_until_ms ≤ now
      → 0 < b.opened_until_ms
      → suc b.half_open_success_count < c.half_open_success
      → breaker_step low c (succeed now) b
        ≡ record b { half_open_success_count = suc b.half_open_success_count }
  unfolding breaker_step record_success
  success-adds now b h p k = ground arith

  last_success-resets :
      (now : ℕ) (b : Breaker)
      → b.opened_until_ms ≤ now
      → 0 < b.opened_until_ms
      → c.half_open_success ≡ suc b.half_open_success_count
      → breaker_run low c (succeed now ∷ []) b ≡ reset_breaker
  unfolding breaker_run breaker_step record_success
  last_success-resets now b h p k = ground arith

  successes-add :
      (n : ℕ) (es : List BreakerEvent) (b : Breaker)
      → All (SucceedsAfter b.opened_until_ms) es
      → 0 < b.opened_until_ms
      → b.half_open_success_count + length es ≡ n
      → n < c.half_open_success
      → breaker_run low c es b ≡ record b { half_open_success_count = n }
  unfolding breaker_run
  successes-add n [] b h p e k = ground arith
  successes-add n (ask now enabled healthy ∷ es) b (h, hs) p e k = elim h [ ]
  successes-add n (fail now _ ∷ es) b (h, hs) p e k = elim h [ ]
  successes-add n (succeed now ∷ es) b (h, hs) p e k = rw (success-adds now b h p (omega arith)) (
      successes-add n es (record b { half_open_success_count = suc b.half_open_success_count }) hs p
        (omega arith) k)

  -- After the deadline, successes in a row close it, at the last of the number that is asked for
  -- and not before.
  pub successes-close :
      (es : List BreakerEvent) (now : ℕ) (b : Breaker)
      → All (SucceedsAfter b.opened_until_ms) es
      → b.opened_until_ms ≤ now
      → 0 < b.opened_until_ms
      → c.half_open_success ≡ b.half_open_success_count + suc (length es)
      → ((breaker_run low c es b).opened_until_ms ≡ b.opened_until_ms)
        × (breaker_run low c (es ++ (succeed now ∷ [])) b ≡ reset_breaker)
  successes-close es now b hs h p k =
      let n = b.half_open_success_count + length es in
      let before = successes-add n es b hs p refl (omega arith) in
      (
        ap (λ x. x.opened_until_ms) before,
        rw (breaker_run-append es (succeed now ∷ []) b, before)
            (last_success-resets now (record b { half_open_success_count = n }) h p (omega arith)),
      )
