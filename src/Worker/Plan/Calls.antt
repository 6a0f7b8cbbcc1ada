-- ===== src/Worker/Plan/Calls.antt =====
-- The calls that `executeProviderPlan` of src/workers/video.worker.ts makes: how many, and none to
-- Vast while its breaker is open.
use neura_gen.Worker.Plan.Rules.{if_usable_rule, should_use-calls, attempts_rule}
use neura_gen.Worker.Plan.{
  has_more, exhausted_text, refused_text, Attempted, should_use, PlanResult, Progress, attempts,
  with_message, execute_provider_plan, execute_plan, after_attempts, call_provider, Execution,
  Providers, answered, refused, exhausted,
}
use neura_gen.Store.{ProviderName}
use neura_gen.Base.{
  ℕ, ◌+◌, ◌≤◌, ◌≡◌, suc, ◌∷◌, arith, refl, ap, none, some, String, Bool, true, false, List, [],
  length,
}

module _ (w : Providers) where
  -- The calls that a plan may cost: each provider once, and its retries.
  abbrev pub budget : List ProviderName → ℕ
  budget [] = 0
  budget (p ∷ ps) = suc (w.max_retries p) + budget ps

  abbrev cost : Execution → ℕ
  cost s = length s.calls

  call_provider-cost :
      (p : ProviderName) (m : String) (s : Execution)
      → cost (call_provider w p (with_message m s)).1 ≡ suc (cost s)
  unfolding call_provider
  call_provider-cost p m s = refl

  attempts-cost :
      (p : ProviderName) (max left : ℕ) (s : Execution)
      → cost (attempts w p max left s).1 ≤ cost s + suc left
  attempts-cost p max left s =
      let total = cost s + suc left in
      attempts_rule w p max (λ n t. cost t + suc n ≤ total) (λ r. cost r.1 ≤ total)
        (record {
          on_answer = λ n attempt m r t h a. omega (arith, h, call_provider-cost p m t);
          on_refusal = λ n m e t h a k. omega (arith, h, call_provider-cost p m t);
          on_exhaustion = λ m e t h a k. omega (arith, h, call_provider-cost p m t);
          on_retry = λ n m k e t h a. omega (arith, h, call_provider-cost p m t);
        })
        left s (omega arith)

  after_attempts-cost :
      (p : ProviderName) (more : Bool) (rest : Progress → Execution → PlanResult × Execution)
      (n : ℕ)
      → ((g : Progress) (t : Execution) → cost (rest g t).1 ≤ cost t + n)
      → (g : Progress) (r : Attempted × Execution)
      → cost (after_attempts p more rest g r).1 ≤ cost r.1 + n
  unfolding after_attempts
  after_attempts-cost p more rest n h g (answered k x, s) = omega arith
  after_attempts-cost p false rest n h g (refused e, s) = omega arith
  after_attempts-cost p true rest n h g (refused e, s) =
      h (record g { has_fallback = true }) (with_message (refused_text p e.message) s)
  after_attempts-cost p more rest n h g (exhausted e, s) =
      h (record { last_retryable_error = some e; has_fallback = true })
        (with_message (exhausted_text p e.message) s)

  execute_plan-cost :
      (plan : List ProviderName) (g : Progress) (s : Execution)
      → cost (execute_plan w plan g s).1 ≤ cost s + budget plan
  unfolding execute_plan
  execute_plan-cost [] g s = omega arith
  execute_plan-cost (p ∷ ps) g s =
      let t = (should_use w p s).1 in
      let tried = attempts w p (w.max_retries p) (w.max_retries p) t in
      let same = should_use-calls w p s in
      let same_cost = ap length same in
      if_usable_rule (λ r. cost r.1 ≤ cost s + budget (p ∷ ps))
        (λ x.
          after_attempts p (has_more ps) (execute_plan w ps) g
            (attempts w p (w.max_retries p) (w.max_retries p) x))
        (execute_plan w ps g) (should_use w p s)
        (λ usable. omega (
          arith,
          same_cost,
          attempts-cost p (w.max_retries p) (w.max_retries p) t,
          after_attempts-cost p (has_more ps) (execute_plan w ps) (budget ps) (execute_plan-cost ps)
              g tried,
        ))
        (λ skipped. omega (arith, same_cost, execute_plan-cost ps g t))

  -- The loops over a provider plan end with at most one call, and the retries that are configured,
  -- for each entry of the plan.
  pub execute_provider_plan-budget :
      (plan : List ProviderName) (s : Execution)
      → length (execute_provider_plan w plan s).1.calls ≤ length s.calls + budget plan
  unfolding execute_provider_plan
  execute_provider_plan-budget plan s =
      execute_plan-cost plan (record { last_retryable_error = none; has_fallback = false }) s
