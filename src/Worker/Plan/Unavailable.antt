-- ===== src/Worker/Plan/Unavailable.antt =====
-- `executeProviderPlan` of src/workers/video.worker.ts where Vast cannot be used: its breaker is
-- open, or it is off.
use neura_gen.Worker.Breaker.Opening.{should_use_vast-shut}
use neura_gen.Worker.Plan.Rules.{attempts_rule}
use neura_gen.Worker.Plan.{
  no_provider, after_call, exhausted_text, refused_text, Attempted, has_more, PlanResult, attempts,
  with_message, if_usable, should_use_vast, Progress, Execution, execute_provider_plan,
  execute_plan, should_use, after_attempts, call_provider, Breaker, Providers, failed, answered,
  refused, exhausted, thrown,
}
use neura_gen.Store.{ProviderName}
use neura_gen.Worker.Breaker.{is_retryable_provider_error, ProviderError, should_use_vast}
use mathlib.Core.Path.{subst}
use neura_gen.Base.{
  ℕ, ◌<◌, ◌≡◌, suc, zero, ◌∷◌, refl, sym, ap, ◌∙◌, none, some, String, Bool, true, false, List, [],
  All,
}

module _ (w : Providers) where
  -- The breaker as `b`, and no call to Vast.
  record SparesVast (b : Breaker) (s : Execution) : Type 0 where
    pub same_breaker : s.breaker ≡ b
    pub no_vast : All (λ c. c.1 ≡ ProviderName.modal) s.calls

  modal-spares :
      (b : Breaker) (m : String) (s : Execution)
      → SparesVast b s
      → SparesVast b (call_provider w ProviderName.modal (with_message m s)).1
  unfolding call_provider
  modal-spares b m s h = record { same_breaker = h.same_breaker; no_vast = (refl, h.no_vast) }

  attempts-spare :
      (b : Breaker) (max left : ℕ) (s : Execution)
      → SparesVast b s
      → SparesVast b (attempts w ProviderName.modal max left s).1
  attempts-spare b max left s h =
      attempts_rule w ProviderName.modal max (λ n t. SparesVast b t) (λ r. SparesVast b r.1)
        (record {
          on_answer = λ n attempt m r t k a. modal-spares b m t k;
          on_refusal = λ n m e t k a never. modal-spares b m t k;
          on_exhaustion = λ m e t k a again. modal-spares b m t k;
          on_retry = λ n m l e t k a. record {
            same_breaker = (modal-spares b m t k).same_breaker;
            no_vast = (modal-spares b m t k).no_vast;
          };
        })
        left s h

  after_modal-spares :
      (b : Breaker) (more : Bool) (rest : Progress → Execution → PlanResult × Execution)
      → ((g : Progress) (t : Execution) → SparesVast b t → SparesVast b (rest g t).1)
      → (g : Progress) (r : Attempted × Execution) → SparesVast b r.1
      → SparesVast b (after_attempts ProviderName.modal more rest g r).1
  unfolding after_attempts
  after_modal-spares b more rest h g (answered k x, s) a = a
  after_modal-spares b false rest h g (refused e, s) a = a
  after_modal-spares b true rest h g (refused e, s) a =
      h (record g { has_fallback = true })
        (with_message (refused_text ProviderName.modal e.message) s)
        (record { same_breaker = a.same_breaker; no_vast = a.no_vast })
  after_modal-spares b more rest h g (exhausted e, s) a =
      h (record { last_retryable_error = some e; has_fallback = true })
        (with_message (exhausted_text ProviderName.modal e.message) s)
        (record { same_breaker = a.same_breaker; no_vast = a.no_vast })

  -- The clock stays before the deadline.
  abbrev pub StaysBefore : ℕ → Type 0
  StaysBefore u = (t : ℕ) → w.now t < u

  should_use-spares :
      (b : Breaker) (s : Execution)
      → StaysBefore b.opened_until_ms
      → SparesVast b s
      → ((should_use w ProviderName.vast s).0 ≡ false)
        × SparesVast b (should_use w ProviderName.vast s).1
  unfolding should_use
  should_use-spares b s before h =
      let shut =
        subst (λ x. w.now s.calls_made < x.opened_until_ms) (sym h.same_breaker)
          (before s.calls_made) in
      let asked =
        should_use_vast-shut w.settings (w.now s.calls_made) w.vast_is_enabled
          (w.healthcheck s.calls_made) s.breaker shut in
      (
        ap (λ r. r.0) asked,
        record { same_breaker = ap (λ r. r.1) asked ∙ h.same_breaker; no_vast = h.no_vast },
      )

  execute_plan-spares :
      (b : Breaker)
      → StaysBefore b.opened_until_ms
      → (plan : List ProviderName) (g : Progress) (s : Execution) → SparesVast b s
      → SparesVast b (execute_plan w plan g s).1
  unfolding execute_plan if_usable should_use
  execute_plan-spares b before [] g s h = h
  execute_plan-spares b before (ProviderName.modal ∷ ps) g s h =
      let max = w.max_retries ProviderName.modal in
      after_modal-spares b (has_more ps) (execute_plan w ps) (execute_plan-spares b before ps) g
        (attempts w ProviderName.modal max max s) (attempts-spare b max max s h)
  execute_plan-spares b before (ProviderName.vast ∷ ps) g s h =
      let (refuses, same) = should_use-spares b s before h in
      rw refuses (execute_plan-spares b before ps g (should_use w ProviderName.vast s).1 same)

  -- No call goes to Vast while its breaker is open, and the breaker stays as it is.
  pub execute_provider_plan-spares :
      (plan : List ProviderName) (s : Execution)
      → StaysBefore s.breaker.opened_until_ms
      → s.calls ≡ []
      → ((execute_provider_plan w plan s).1.breaker ≡ s.breaker)
        × All (λ c. c.1 ≡ ProviderName.modal) (execute_provider_plan w plan s).1.calls
  unfolding execute_provider_plan
  execute_provider_plan-spares plan s before none_yet =
      let start : SparesVast s.breaker s = record {
        same_breaker = refl;
        no_vast = rw none_yet tt;
      } in
      let done =
        execute_plan-spares s.breaker before plan
          (record { last_retryable_error = none; has_fallback = false }) s start in
      (done.same_breaker, done.no_vast)

  attempts-refused :
      (e : ProviderError) (max left : ℕ) (s : Execution)
      → w.generate_video s.calls_made ProviderName.modal ≡ failed e
      → is_retryable_provider_error e ≡ false
      → (attempts w ProviderName.modal max left s).0 ≡ refused e
  unfolding attempts after_call call_provider
  attempts-refused e max zero s a never = rw (a, never) refl
  attempts-refused e max (suc left) s a never = rw (a, never) refl

  -- Where Modal comes before Vast in the plan and Vast is off, an error of Modal that is not worth
  -- a retry is not thrown: the execution throws that no provider is available.
  pub refusal-masked :
      (e : ProviderError) (s : Execution)
      → w.vast_is_enabled ≡ false
      → w.generate_video s.calls_made ProviderName.modal ≡ failed e
      → is_retryable_provider_error e ≡ false
      → (execute_provider_plan w (ProviderName.modal ∷ ProviderName.vast ∷ []) s).0
        ≡ thrown no_provider
  unfolding execute_provider_plan execute_plan if_usable should_use should_use_vast after_attempts
  refusal-masked e s off a never =
      let max = w.max_retries ProviderName.modal in
      rw (attempts-refused e max max s a never, off) refl
