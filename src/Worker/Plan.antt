-- ===== src/Worker/Plan.antt =====
-- `executeProviderPlan` of src/workers/video.worker.ts and what it calls. The answers of the
-- providers, the clock and the health check are parameters: functions of the number of calls so
-- far. The answer to a call stands for the job log's entry before it too. An error that is thrown is
-- an `Error` object.
pub mod Rules
pub mod Calls
pub mod Outcome
pub mod Fallback
pub mod Unavailable
use Prim.Native.String.{◌++◌ as ◌++ₛ◌}
use neura_gen.Worker.Breaker.{
  record_failure, is_retryable_provider_error, record_success, should_use_vast, Breaker,
  BreakerSettings, ProviderError, Finite, setting,
}
use neura_gen.Store.{ProviderName}
use neura_gen.Base.{show}
use neura_gen.Base.{
  ℕ, ◌+◌, ◌-◌, ◌*◌, ◌/◌, ◌<◌, ◌≤◌, ◌≡◌, suc, zero, not, ◌||◌, ◌&&◌, ◌∷◌, ◌++◌, ◌==◌, ◌=ₛ◌,
  if◌then◌else◌, arith, refl, sym, ap, ◌∙◌, none, some, inl, inr, Option, Option-cases, Bool-cases,
  String, Bool, true, false, List, [], All, length, is_some, case_option, get_or, ltb, leb,
  map_option, Table, lookup, update, put, filterb, find,
}

pub data Answer : Type 0 where
  responded : (response : String) → Answer
  failed : ProviderError → Answer

pub record Providers : Type 0 where
  pub vast_is_enabled : Bool
  pub now : ℕ → ℕ
  pub healthcheck : ℕ → Bool
  pub generate_video : ℕ → ProviderName → Answer
  pub settings : BreakerSettings
  pub max_retries : ProviderName → ℕ
  pub to_lower_case : String → String

-- The worker as the calls change it; the newest call and the newest message come first.
pub record Execution : Type 0 where
  pub calls_made : ℕ
  pub breaker : Breaker
  pub calls : List (ℕ × ProviderName)
  pub messages : List String

-- `resolveProviderMaxRetries`
unfoldable pub resolve_provider_max_retries :
    (String → Option Finite) → (String → Option String) → ProviderName → ℕ
resolve_provider_max_retries number env ProviderName.vast =
    setting 0 1 1 number (env "VAST_MAX_RETRIES")
resolve_provider_max_retries number env ProviderName.modal =
    setting 0 1 1 number (env "MODAL_MAX_RETRIES")

abbrev pub is_vast : ProviderName → Bool
is_vast ProviderName.vast = true
is_vast ProviderName.modal = false

abbrev pub provider_text : ProviderName → String
provider_text ProviderName.vast = "vast"
provider_text ProviderName.modal = "modal"

abbrev pub with_message : String → Execution → Execution
with_message m s = record s { messages = m ∷ s.messages }

-- `provider !== 'vast' || await shouldUseVastProvider()`
unfoldable pub should_use : Providers → ProviderName → Execution → Bool × Execution
should_use w ProviderName.modal s = (true, s)
should_use w ProviderName.vast s =
    let asked =
      should_use_vast w.settings (w.now s.calls_made) w.vast_is_enabled (w.healthcheck s.calls_made)
        s.breaker in
    (asked.0, record s { breaker = asked.1 })

-- What the answer does to the breaker.
abbrev pub record_answer : Providers → ℕ → ProviderName → Answer → Breaker → Breaker
record_answer w now ProviderName.modal a b = b
record_answer w now ProviderName.vast (responded response) b = record_success w.settings now b
record_answer w now ProviderName.vast (failed e) b =
    record_failure w.to_lower_case w.settings now e b

-- `callProvider`, with what is recorded of it.
unfoldable pub call_provider : Providers → ProviderName → Execution → Answer × Execution
call_provider w p s =
    let a = w.generate_video s.calls_made p in
    (
      a,
      record s {
        calls_made = suc s.calls_made;
        breaker = record_answer w (w.now (suc s.calls_made)) p a s.breaker;
        calls = (s.calls_made, p) ∷ s.calls;
      },
    )

abbrev pub calling_text : ProviderName → (attempt max : ℕ) → String
calling_text p attempt max =
    "Calling provider "
    ++ₛ provider_text p
    ++ₛ " (attempt "
    ++ₛ show attempt
    ++ₛ "/"
    ++ₛ show (suc max)
    ++ₛ ")"

abbrev pub retrying_text : ProviderName → (attempt : ℕ) → String → String
retrying_text p attempt m =
    "Provider " ++ₛ provider_text p ++ₛ " attempt " ++ₛ show attempt ++ₛ " failed, retrying: " ++ₛ m

abbrev pub exhausted_text : ProviderName → String → String
exhausted_text p m =
    "Provider "
    ++ₛ provider_text p
    ++ₛ " exhausted retries, switching to fallback if available: "
    ++ₛ m

abbrev pub refused_text : ProviderName → String → String
refused_text p m =
    "Provider "
    ++ₛ provider_text p
    ++ₛ " returned non-retryable error, switching to fallback if available: "
    ++ₛ m

-- How the inner loop ends: with a response, with an error that is not worth a retry, or with the
-- last of the retries.
pub data Attempted : Type 0 where
  answered : (attempt : ℕ) → (response : String) → Attempted
  refused exhausted : ProviderError → Attempted

-- The `try` and the `catch` around a call, with what a retryable error leads to.
unfoldable pub after_call :
    (attempt : ℕ)
    → (ProviderError → Execution → Attempted × Execution)
    → Answer × Execution
    → Attempted × Execution
after_call attempt retry (responded response, s) = (answered attempt response, s)
after_call attempt retry (failed e, s) = elim (is_retryable_provider_error e) [
  | true ↦ retry e s
  | false ↦ (refused e, s)
]

abbrev pub log_and_call :
    Providers → ProviderName → (attempt max : ℕ) → Execution → Answer × Execution
log_and_call w p attempt max s = call_provider w p (with_message (calling_text p attempt max) s)

-- The inner loop, with `left` retries left of `max`.
unfoldable pub attempts :
    Providers → ProviderName → (max left : ℕ) → Execution → Attempted × Execution
attempts w p max zero s =
    after_call (suc max) (λ e t. (exhausted e, t)) (log_and_call w p (suc max) max s)
attempts w p max (suc left) s =
    after_call (max - left)
      (λ e t. attempts w p max left (with_message (retrying_text p (max - left) e.message) t))
      (log_and_call w p (max - left) max s)

pub record ProviderExecution : Type 0 where
  pub provider : ProviderName
  pub response : String
  pub provider_attempt : ℕ
  pub fallback_triggered : Bool

pub data PlanResult : Type 0 where
  executed : ProviderExecution → PlanResult
  thrown : ProviderError → PlanResult

-- `new Error(message)`
abbrev pub plain_error : String → ProviderError
plain_error m = record { message = m; retryable = none; status_code = none; error_type = none }

abbrev pub no_provider : ProviderError
no_provider = plain_error "No provider is currently available"

-- The state of the outer loop: `lastRetryableError` and `hasFallback`.
pub record Progress : Type 0 where
  pub last_retryable_error : Option ProviderError
  pub has_fallback : Bool

-- What follows the attempts at `p`: the return, the exception, or the rest of the plan.
unfoldable pub after_attempts :
    (p : ProviderName) (has_next : Bool)
    → (Progress → Execution → PlanResult × Execution)
    → Progress
    → Attempted × Execution
    → PlanResult × Execution
after_attempts p has_next rest g (answered attempt response, s) = (
  executed (record {
    provider = p;
    response = response;
    provider_attempt = attempt;
    fallback_triggered = g.has_fallback;
  }),
  s,
)
after_attempts p false rest g (refused e, s) = (thrown e, s)
after_attempts p true rest g (refused e, s) =
    rest (record g { has_fallback = true }) (with_message (refused_text p e.message) s)
after_attempts p has_next rest g (exhausted e, s) =
    rest (record { last_retryable_error = some e; has_fallback = true })
      (with_message (exhausted_text p e.message) s)

-- `if (provider === 'vast' && !(await this.shouldUseVastProvider())) continue;`
unfoldable pub if_usable :
    (Execution → PlanResult × Execution)
    → (Execution → PlanResult × Execution)
    → Bool × Execution
    → PlanResult × Execution
if_usable go skip (true, s) = go s
if_usable go skip (false, s) = skip s

abbrev pub has_more : List ProviderName → Bool
has_more [] = false
has_more (p ∷ ps) = true

-- The outer loop.
unfoldable pub execute_plan :
    Providers → List ProviderName → Progress → Execution → PlanResult × Execution
execute_plan w [] g s = (thrown (get_or g.last_retryable_error no_provider), s)
execute_plan w (p ∷ ps) g s =
    if_usable
      (λ t.
        after_attempts p (has_more ps) (execute_plan w ps) g
          (attempts w p (w.max_retries p) (w.max_retries p) t))
      (execute_plan w ps g) (should_use w p s)

-- `executeProviderPlan`
unfoldable pub execute_provider_plan :
    Providers → List ProviderName → Execution → PlanResult × Execution
execute_provider_plan w plan s =
    execute_plan w plan (record { last_retryable_error = none; has_fallback = false }) s
