-- ===== src/Worker/Plan/Outcome.antt =====
-- How `executeProviderPlan` of src/workers/video.worker.ts ends.
use neura_gen.Worker.Plan.Rules.{if_usable_rule, should_use-calls, attempts_rule}
use neura_gen.Worker.Plan.{
  has_more, exhausted_text, refused_text, should_use, attempts, with_message, no_provider,
  execute_provider_plan, execute_plan, after_attempts, Progress, call_provider, Attempted,
  PlanResult, Execution, ProviderError, Providers, responded, failed, answered, refused, exhausted,
  executed, thrown,
}
use neura_gen.Store.{ProviderName}
use neura_gen.Base.{
  ◌⊎◌, ℕ, ◌≡◌, ◌∷◌, refl, none, some, inl, inr, Option, String, Bool, true, false, List, [], All,
  get_or, ◌++◌, ap, ◌∙◌,
}

abbrev pub Among : ProviderName → List ProviderName → Type 0
Among p [] = ⊥
Among p (q ∷ qs) = (p ≡ q) ⊎ Among p qs

All-Among :
    (q : ProviderName) (ps qs : List ProviderName)
    → All (λ p. Among p qs) ps
    → All (λ p. Among p (q ∷ qs)) ps
All-Among q [] qs h = tt
All-Among q (p ∷ ps) qs (h, hs) = (inr h, All-Among q ps qs hs)

plan-Among : (plan : List ProviderName) → All (λ p. Among p plan) plan
plan-Among [] = tt
plan-Among (p ∷ ps) = (inl refl, All-Among p ps ps (plan-Among ps))

-- For a plan, and the calls that the worker had made before it.
module _ (w : Providers) (plan : List ProviderName) (earlier : List (ℕ × ProviderName)) where
  -- A call of a provider of the plan that was answered with an error.
  abbrev pub Failed : ℕ × ProviderName → Type 0
  Failed (t, p) = Among p plan × (e : ProviderError) × (w.generate_video t p ≡ failed e)

  -- One of these calls was answered with this error.
  abbrev pub AnsweredIn : List (ℕ × ProviderName) → ProviderError → Type 0
  AnsweredIn [] e = ⊥
  AnsweredIn ((t, p) ∷ calls) e = (w.generate_video t p ≡ failed e) ⊎ AnsweredIn calls e

  -- The newest call was made to this provider of the plan and answered with this response, the
  -- others that the plan has brought with errors.
  abbrev pub LastAnswered : ProviderName → String → Execution → Type 0
  LastAnswered p response s =
      (t : ℕ) × (before : List (ℕ × ProviderName)) × (s.calls ≡ (t, p) ∷ before ++ earlier)
      × (w.generate_video t p ≡ responded response)
      × All Failed before

  -- What the plan ends with: the response to its last call, by a provider of the plan, after errors
  -- only; or an error, where no call got a response: that of one of its calls, or that no provider
  -- is available.
  abbrev pub PlanEnds : PlanResult × Execution → Type 0
  PlanEnds (executed r, s) = Among r.provider plan × LastAnswered r.provider r.response s
  PlanEnds (thrown e, s) =
      (made : List (ℕ × ProviderName)) × (s.calls ≡ made ++ earlier)
      × All Failed made
      × ((e ≡ no_provider) ⊎ AnsweredIn made e)

  abbrev KeepsAnswer : List (ℕ × ProviderName) → Option ProviderError → Type 0
  KeepsAnswer made none = Unit
  KeepsAnswer made (some e) = AnsweredIn made e

  KeepsAnswer-call :
      (t : ℕ) (p : ProviderName) (made : List (ℕ × ProviderName)) (o : Option ProviderError)
      → KeepsAnswer made o
      → KeepsAnswer ((t, p) ∷ made) o
  KeepsAnswer-call t p made none h = tt
  KeepsAnswer-call t p made (some e) h = inr h

  -- The calls so far all failed; the error that is kept for the end, if any, was an answer.
  record Trace (o : Option ProviderError) (s : Execution) : Type 0 where
    pub made : List (ℕ × ProviderName)
    pub since : s.calls ≡ made ++ earlier
    pub failures : All Failed made
    pub kept : KeepsAnswer made o

  calls-Trace :
      (o : Option ProviderError) (s t : Execution) → t.calls ≡ s.calls → Trace o s → Trace o t
  calls-Trace o s t same h = record {
    made = h.made;
    since = same ∙ h.since;
    failures = h.failures;
    kept = h.kept;
  }

  module _ (p : ProviderName) (m : String) (e : ProviderError) (s : Execution)
      (among : Among p plan) (a : w.generate_video s.calls_made p ≡ failed e) where
    call_provider-Trace :
        (o : Option ProviderError) → Trace o s → Trace o (call_provider w p (with_message m s)).1
    unfolding call_provider
    call_provider-Trace o h = record {
      made = (s.calls_made, p) ∷ h.made;
      since = ap (λ t. (s.calls_made, p) ∷ t) h.since;
      failures = ((among, e, a), h.failures);
      kept = KeepsAnswer-call s.calls_made p h.made o h.kept;
    }

    call_provider-keeps :
        (o : Option ProviderError)
        → Trace o s
        → Trace (some e) (call_provider w p (with_message m s)).1
    unfolding call_provider
    call_provider-keeps o h = record {
      made = (s.calls_made, p) ∷ h.made;
      since = ap (λ t. (s.calls_made, p) ∷ t) h.since;
      failures = ((among, e, a), h.failures);
      kept = inl a;
    }

  abbrev AttemptEnds : ProviderName → Option ProviderError → Attempted × Execution → Type 0
  AttemptEnds p o (answered k response, s) = LastAnswered p response s
  AttemptEnds p o (refused e, s) = Trace o s × Trace (some e) s
  AttemptEnds p o (exhausted e, s) = Trace (some e) s

  attempts-end :
      (p : ProviderName) (max left : ℕ) (o : Option ProviderError) (s : Execution)
      → Among p plan
      → Trace o s
      → AttemptEnds p o (attempts w p max left s)
  unfolding call_provider
  attempts-end p max left o s among h =
      attempts_rule w p max (λ n t. Trace o t) (AttemptEnds p o)
        (record {
          on_answer = λ n attempt m r t k a.
              (t.calls_made, k.made, ap (λ c. (t.calls_made, p) ∷ c) k.since, a, k.failures);
          on_refusal = λ n m e t k a never.
              (call_provider-Trace p m e t among a o k, call_provider-keeps p m e t among a o k);
          on_exhaustion = λ m e t k a again. call_provider-keeps p m e t among a o k;
          on_retry = λ n m l e t k a.
              calls-Trace o (call_provider w p (with_message m t)).1
                (with_message l (call_provider w p (with_message m t)).1) refl
                (call_provider-Trace p m e t among a o k);
        })
        left s h

  throws : (e : ProviderError) (s : Execution) → Trace (some e) s → PlanEnds (thrown e, s)
  throws e s h = (h.made, h.since, h.failures, inr h.kept)

  gives_up :
      (o : Option ProviderError) (s : Execution)
      → Trace o s
      → PlanEnds (thrown (get_or o no_provider), s)
  gives_up none s h = (h.made, h.since, h.failures, inl refl)
  gives_up (some e) s h = throws e s h

  after_attempts-end :
      (p : ProviderName) (more : Bool) (rest : Progress → Execution → PlanResult × Execution)
      → Among p plan
      → ((g : Progress) (t : Execution) → Trace g.last_retryable_error t → PlanEnds (rest g t))
      → (g : Progress) (r : Attempted × Execution) → AttemptEnds p g.last_retryable_error r
      → PlanEnds (after_attempts p more rest g r)
  unfolding after_attempts
  after_attempts-end p more rest among h g (answered k x, s) a = (among, a)
  after_attempts-end p false rest among h g (refused e, s) (a, f) = throws e s f
  after_attempts-end p true rest among h g (refused e, s) (a, f) =
      let t = with_message (refused_text p e.message) s in
      h (record g { has_fallback = true }) t (calls-Trace g.last_retryable_error s t refl a)
  after_attempts-end p more rest among h g (exhausted e, s) a =
      let t = with_message (exhausted_text p e.message) s in
      h (record { last_retryable_error = some e; has_fallback = true }) t
        (calls-Trace (some e) s t refl a)

  execute_plan-end :
      (ps : List ProviderName) (g : Progress) (s : Execution)
      → All (λ p. Among p plan) ps
      → Trace g.last_retryable_error s
      → PlanEnds (execute_plan w ps g s)
  unfolding execute_plan
  execute_plan-end [] g s among h = gives_up g.last_retryable_error s h
  execute_plan-end (p ∷ ps) g s (here, among) h =
      let t = (should_use w p s).1 in
      let so_far = calls-Trace g.last_retryable_error s t (should_use-calls w p s) h in
      let max = w.max_retries p in
      if_usable_rule PlanEnds
        (λ x. after_attempts p (has_more ps) (execute_plan w ps) g (attempts w p max max x))
        (execute_plan w ps g) (should_use w p s)
        (λ usable.
          after_attempts-end p (has_more ps) (execute_plan w ps) here
            (λ g' t'. execute_plan-end ps g' t' among) g (attempts w p max max t)
            (attempts-end p max max g.last_retryable_error t here so_far))
        (λ skipped. execute_plan-end ps g t among so_far)

-- How the execution of a provider plan ends, with the calls that it adds to those made before. It
-- returns the response to its last call, and all its other calls were answered with errors; or all
-- its calls were, and it throws the error that one of them was answered with, or that no provider
-- is available. All its calls are to providers of the plan.
pub execute_provider_plan-ends :
    (w : Providers) (plan : List ProviderName) (s : Execution)
    → PlanEnds w plan s.calls (execute_provider_plan w plan s)
unfolding execute_provider_plan
execute_provider_plan-ends w plan s =
    execute_plan-end w plan s.calls plan
      (record { last_retryable_error = none; has_fallback = false }) s (plan-Among plan)
      (record { made = []; since = refl; failures = tt; kept = tt })
