-- ===== src/Worker/Plan/Rules.antt =====
-- Rules for `executeProviderPlan` of src/workers/video.worker.ts: what is to be shown of its loops.
use neura_gen.Worker.Plan.{
  if_usable, PlanResult, should_use, retrying_text, calling_text, is_retryable_provider_error,
  Answer, log_and_call, with_message, ProviderError, attempts, call_provider, after_call, Execution,
  Providers, Attempted, responded, failed, answered, refused, exhausted,
}
use neura_gen.Store.{ProviderName}
use neura_gen.Base.{ℕ, ◌-◌, ◌≡◌, suc, zero, refl, inl, inr, Bool-cases, String, Bool, true, false}

module _ {ℓ} (Q : Attempted × Execution → Type ℓ) where
  pub after_call_rule :
      (attempt : ℕ) (retry : ProviderError → Execution → Attempted × Execution) (a : Answer)
      (s : Execution)
      → ((r : String) → a ≡ responded r → Q (answered attempt r, s))
      → ((e : ProviderError)
          → a ≡ failed e
          → is_retryable_provider_error e ≡ false
          → Q (refused e, s))
      → ((e : ProviderError) → a ≡ failed e → is_retryable_provider_error e ≡ true → Q (retry e s))
      → Q (after_call attempt retry (a, s))
  unfolding after_call
  after_call_rule attempt retry (responded r) s h k l = h r refl
  after_call_rule attempt retry (failed e) s h k l =
      elim (Bool-cases (is_retryable_provider_error e)) [
        | inl again ↦ rw (after_call, again) (l e refl again)
        | inr never ↦ rw (after_call, never) (k e refl never)
      ]

-- A property of the result of `attempts`, and what holds before each call, with the retries left.
pub record LoopRule {ℓ κ} (w : Providers) (p : ProviderName) (max : ℕ) (I : ℕ → Execution → Type ℓ)
    (Q : Attempted × Execution → Type κ) : Type (ℓ ⊔ κ) where
  pub on_answer :
      (left attempt : ℕ) (m r : String) (s : Execution)
      → I left s
      → w.generate_video s.calls_made p ≡ responded r
      → Q (answered attempt r, (call_provider w p (with_message m s)).1)
  pub on_refusal :
      (left : ℕ) (m : String) (e : ProviderError) (s : Execution)
      → I left s
      → w.generate_video s.calls_made p ≡ failed e
      → is_retryable_provider_error e ≡ false
      → Q (refused e, (call_provider w p (with_message m s)).1)
  pub on_exhaustion :
      (m : String) (e : ProviderError) (s : Execution)
      → I 0 s
      → w.generate_video s.calls_made p ≡ failed e
      → is_retryable_provider_error e ≡ true
      → Q (exhausted e, (call_provider w p (with_message m s)).1)
  pub on_retry :
      (left : ℕ) (m n : String) (e : ProviderError) (s : Execution)
      → I (suc left) s
      → w.generate_video s.calls_made p ≡ failed e
      → I left (with_message n (call_provider w p (with_message m s)).1)

module _ {ℓ κ} (w : Providers) (p : ProviderName) (max : ℕ) (I : ℕ → Execution → Type ℓ)
    (Q : Attempted × Execution → Type κ) (rule : LoopRule w p max I Q) where
  pub attempts_rule : (left : ℕ) (s : Execution) → I left s → Q (attempts w p max left s)
  unfolding attempts call_provider
  attempts_rule zero s h =
      after_call_rule Q (suc max) (λ e t. (exhausted e, t)) (w.generate_video s.calls_made p)
        ((log_and_call w p (suc max) max s).1)
        (λ r a. rule.on_answer 0 (suc max) (calling_text p (suc max) max) r s h a)
        (λ e a k. rule.on_refusal 0 (calling_text p (suc max) max) e s h a k)
        (λ e a k. rule.on_exhaustion (calling_text p (suc max) max) e s h a k)
  attempts_rule (suc left) s h =
      let attempt = max - left in
      let m = calling_text p attempt max in
      after_call_rule Q attempt
        (λ e t. attempts w p max left (with_message (retrying_text p attempt e.message) t))
        (w.generate_video s.calls_made p) ((log_and_call w p attempt max s).1)
        (λ r a. rule.on_answer (suc left) attempt m r s h a)
        (λ e a k. rule.on_refusal (suc left) m e s h a k)
        (λ e a k.
          attempts_rule left
            (with_message (retrying_text p attempt e.message) (log_and_call w p attempt max s).1)
            (rule.on_retry left m (retrying_text p attempt e.message) e s h a))

-- What `shouldUseVastProvider` leaves as it is.
pub should_use-calls :
    (w : Providers) (p : ProviderName) (s : Execution) → (should_use w p s).1.calls ≡ s.calls
unfolding should_use
should_use-calls w ProviderName.vast s = refl
should_use-calls w ProviderName.modal s = refl

module _ {ℓ} (R : PlanResult × Execution → Type ℓ) where
  pub if_usable_rule :
      (go skip : Execution → PlanResult × Execution) (o : Bool × Execution)
      → (o.0 ≡ true → R (go o.1))
      → (o.0 ≡ false → R (skip o.1))
      → R (if_usable go skip o)
  unfolding if_usable
  if_usable_rule go skip (true, s) h k = h refl
  if_usable_rule go skip (false, s) h k = k refl
