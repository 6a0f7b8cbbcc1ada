-- ===== src/Worker/Plan/Fallback.antt =====
-- Fallback in `executeProviderPlan` of src/workers/video.worker.ts to a provider that answers.
use neura_gen.Worker.Plan.Rules.{if_usable_rule}
use neura_gen.Worker.Plan.Outcome.{Among}
use neura_gen.Worker.Plan.{
  exhausted_text, if_usable, refused_text, with_message, should_use, Progress,
  execute_provider_plan, ProviderExecution, execute_plan, after_attempts, after_call, has_more,
  call_provider, attempts, Attempted, Execution, Providers, PlanResult, responded, answered,
  refused, exhausted, executed, thrown,
}
use neura_gen.Store.{ProviderName}
use neura_gen.Base.{
  ℕ, ◌≡◌, suc, zero, ◌∷◌, arith, refl, none, some, inl, inr, String, Bool, true, false, List, [],
}

abbrev IsExecuted : PlanResult × Execution → Type 0
IsExecuted (executed r, s) = Unit
IsExecuted (thrown e, s) = ⊥

module _ (w : Providers) where
  -- Modal answers whenever it is asked.
  abbrev pub ModalAnswers : Type 0
  ModalAnswers = (t : ℕ) → (r : String) × (w.generate_video t ProviderName.modal ≡ responded r)

  -- The attempts were answered, if they were made at Modal.
  abbrev AnsweredBy : ProviderName → Attempted × Execution → Type 0
  AnsweredBy ProviderName.modal (answered k r, s) = Unit
  AnsweredBy ProviderName.modal (refused e, s) = ⊥
  AnsweredBy ProviderName.modal (exhausted e, s) = ⊥
  AnsweredBy ProviderName.vast r = Unit

  attempts-answered :
      ModalAnswers
      → (p : ProviderName) (max left : ℕ) (s : Execution) → AnsweredBy p (attempts w p max left s)
  unfolding attempts call_provider after_call
  attempts-answered h ProviderName.vast max left s = tt
  attempts-answered h ProviderName.modal max zero s = rw ((h s.calls_made).1) tt
  attempts-answered h ProviderName.modal max (suc left) s = rw ((h s.calls_made).1) tt

  has_more-Among : (ps : List ProviderName) → Among ProviderName.modal ps → has_more ps ≡ true
  has_more-Among [] h = elim h [ ]
  has_more-Among (p ∷ ps) h = refl

  after_vast-IsExecuted :
      (rest : Progress → Execution → PlanResult × Execution)
      → ((g : Progress) (t : Execution) → IsExecuted (rest g t))
      → (g : Progress) (r : Attempted × Execution)
      → IsExecuted (after_attempts ProviderName.vast true rest g r)
  unfolding after_attempts
  after_vast-IsExecuted rest h g (answered k x, s) = tt
  after_vast-IsExecuted rest h g (refused e, s) =
      h (record g { has_fallback = true })
        (with_message (refused_text ProviderName.vast e.message) s)
  after_vast-IsExecuted rest h g (exhausted e, s) =
      h (record { last_retryable_error = some e; has_fallback = true })
        (with_message (exhausted_text ProviderName.vast e.message) s)

  after_modal-IsExecuted :
      (more : Bool) (rest : Progress → Execution → PlanResult × Execution) (g : Progress)
      (r : Attempted × Execution)
      → AnsweredBy ProviderName.modal r
      → IsExecuted (after_attempts ProviderName.modal more rest g r)
  unfolding after_attempts
  after_modal-IsExecuted more rest g (answered k x, s) h = tt
  after_modal-IsExecuted more rest g (refused e, s) h = elim h [ ]
  after_modal-IsExecuted more rest g (exhausted e, s) h = elim h [ ]

  modal-later :
      (ps : List ProviderName)
      → Among ProviderName.modal (ProviderName.vast ∷ ps)
      → Among ProviderName.modal ps
  modal-later ps (inl e) = ground arith
  modal-later ps (inr h) = h

  -- Where Modal answers, a plan with Modal in it is executed, whatever Vast does.
  execute_plan-IsExecuted :
      ModalAnswers
      → (plan : List ProviderName) (g : Progress) (s : Execution) → Among ProviderName.modal plan
      → IsExecuted (execute_plan w plan g s)
  unfolding execute_plan should_use if_usable
  execute_plan-IsExecuted h [] g s a = elim a [ ]
  execute_plan-IsExecuted h (ProviderName.modal ∷ ps) g s a =
      let max = w.max_retries ProviderName.modal in
      after_modal-IsExecuted (has_more ps) (execute_plan w ps) g
        (attempts w ProviderName.modal max max s) (attempts-answered h ProviderName.modal max max s)
  execute_plan-IsExecuted h (ProviderName.vast ∷ ps) g s a =
      let later = modal-later ps a in
      let max = w.max_retries ProviderName.vast in
      if_usable_rule IsExecuted
        (λ x.
          after_attempts ProviderName.vast (has_more ps) (execute_plan w ps) g
            (attempts w ProviderName.vast max max x))
        (execute_plan w ps g) (should_use w ProviderName.vast s)
        (λ usable. rw (has_more-Among ps later) (
          after_vast-IsExecuted (execute_plan w ps)
            (λ g' t. execute_plan-IsExecuted h ps g' t later) g
            (attempts w ProviderName.vast max max (should_use w ProviderName.vast s).1)))
        (λ skipped. execute_plan-IsExecuted h ps g (should_use w ProviderName.vast s).1 later)

  executed-result :
      (r : PlanResult × Execution) → IsExecuted r → (x : ProviderExecution) × (r.0 ≡ executed x)
  executed-result (executed x, s) h = (x, refl)
  executed-result (thrown e, s) h = elim h [ ]

  -- A provider plan with Modal in it is executed if Modal answers whenever it is asked, whatever
  -- Vast, its health check and its breaker do.
  pub modal-answers :
      ModalAnswers
      → (plan : List ProviderName) (s : Execution) → Among ProviderName.modal plan
      → (x : ProviderExecution) × ((execute_provider_plan w plan s).0 ≡ executed x)
  unfolding execute_provider_plan
  modal-answers h plan s a =
      let start : Progress = record { last_retryable_error = none; has_fallback = false } in
      executed-result (execute_plan w plan start s) (execute_plan-IsExecuted h plan start s a)
