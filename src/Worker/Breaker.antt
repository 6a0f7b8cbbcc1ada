-- ===== src/Worker/Breaker.antt =====
-- The circuit breaker of src/workers/video.worker.ts: its four fields, its settings from
-- `process.env`, the kinds of provider errors (src/modules/modal/provider-error.types.ts), and its
-- operations. `Number` of a text is a parameter; of its value, only a finite one matters.

pub mod Bounds
pub mod Opening
pub mod Window
use text.Mathlib.Text.{find?}
use neura_gen.Base.{
  none, some, false, true, is_some, case_option, filterb, ltb, leb, [], List, Bool, String, Option,
  ℕ, ◌+◌, ◌-◌, ◌*◌, ◌/◌, suc, ◌||◌, ◌&&◌, ◌∷◌, ◌++◌, ◌==◌, if◌then◌else◌,
}

-- A finite number: a negative one, or a quotient of a natural number by `suc d`.
pub data Finite : Type 0 where
  negative : Finite
  quotient : (n d : ℕ) → Finite

-- `Math.floor(x * scale)` where `x >= least`, else the default; `Number(env.KEY ?? default)`.
abbrev pub floor_or : (least scale fallback : ℕ) → Option Finite → ℕ
floor_or least scale fallback none = fallback
floor_or least scale fallback (some negative) = fallback
floor_or least scale fallback (some (quotient n d)) =
    if ltb n (least * suc d) then fallback else n * scale / suc d

abbrev pub setting : (least scale fallback : ℕ) → (String → Option Finite) → Option String → ℕ
setting least scale fallback number none = fallback
setting least scale fallback number (some s) = floor_or least scale fallback (number s)

pub record BreakerSettings : Type 0 where
  pub failure_threshold : ℕ
  pub window_ms : ℕ
  pub cooldown_ms : ℕ
  pub half_open_success : ℕ

-- The four `resolveVast…` functions.
unfoldable pub resolve_settings :
    (String → Option Finite) → (String → Option String) → BreakerSettings
resolve_settings number env = record {
  failure_threshold = setting 1 1 3 number (env "VAST_BREAKER_FAILURE_THRESHOLD");
  window_ms = setting 1 1000 300000 number (env "VAST_BREAKER_WINDOW_SECONDS");
  cooldown_ms = setting 1 1000 600000 number (env "VAST_BREAKER_COOLDOWN_SECONDS");
  half_open_success = setting 1 1 3 number (env "VAST_BREAKER_HALF_OPEN_SUCCESS");
}

pub data ErrorType : Type 0 where
  transient_infra transient_timeout transient_oom permanent_input permanent_config : ErrorType

-- `ProviderRequestError`: an error with the optional fields of a provider.
pub record ProviderError : Type 0 where
  pub message : String
  pub retryable : Option Bool
  pub status_code : Option ℕ
  pub error_type : Option ErrorType

abbrev pub is_retry_status : ℕ → Bool
is_retry_status n = (n == 408) || ((n == 425) || (leb 500 n || (n == 429)))

-- `isRetryableProviderError`
unfoldable pub is_retryable_provider_error : ProviderError → Bool
is_retryable_provider_error e =
    case_option e.retryable (case_option e.status_code true is_retry_status) (λ b. b)

-- `message.includes(part)`
abbrev pub includes : String → String → Bool
includes message part = is_some (find? message part)

-- `inferProviderErrorType`, for the lower-case text of the message.
abbrev pub infer_from_status : Option ℕ → ErrorType
infer_from_status none = ErrorType.transient_timeout
infer_from_status (some n) =
    if (n == 408) || (n == 425)
    then ErrorType.transient_timeout
    else if leb 500 n || (n == 429)
    then ErrorType.transient_infra
    else if leb 400 n
    then ErrorType.permanent_input
    else ErrorType.transient_infra

unfoldable pub infer_provider_error_type : (String → String) → ProviderError → ErrorType
infer_provider_error_type to_lower_case e =
    let message = to_lower_case e.message in
    case_option e.error_type
      (if includes message "out of memory" || (includes message "cuda" || includes message "oom")
        then ErrorType.transient_oom
        else infer_from_status e.status_code)
      (λ t. t)

-- The errors that count for the breaker.
abbrev pub is_transient : ErrorType → Bool
is_transient ErrorType.transient_infra = true
is_transient ErrorType.transient_timeout = true
is_transient ErrorType.transient_oom = true
is_transient ErrorType.permanent_input = false
is_transient ErrorType.permanent_config = false

-- The four fields `vast…` of the worker.
pub record Breaker : Type 0 where
  pub opened_until_ms : ℕ
  pub failure_timestamps_ms : List ℕ
  pub consecutive_failures : ℕ
  pub half_open_success_count : ℕ

-- `resetVastBreaker`; also the fields of a new worker.
abbrev pub reset_breaker : Breaker
reset_breaker = record {
  opened_until_ms = 0;
  failure_timestamps_ms = [];
  consecutive_failures = 0;
  half_open_success_count = 0;
}

-- `openVastBreaker`
abbrev pub open_breaker : BreakerSettings → ℕ → Breaker → Breaker
open_breaker c now b = record b {
  opened_until_ms = now + c.cooldown_ms;
  consecutive_failures = 0;
  half_open_success_count = 0;
}

-- `shouldUseVastProvider`, with the answer of the health check.
unfoldable pub should_use_vast :
    BreakerSettings → ℕ → (enabled healthy : Bool) → Breaker → Bool × Breaker
should_use_vast c now false healthy b = (false, b)
should_use_vast c now true healthy b =
    if ltb now b.opened_until_ms
    then (false, b)
    else if healthy
    then (true, b)
    else (false, open_breaker c now b)

-- One more success of the half-open state, which closes the breaker when it is the last one.
abbrev pub count_half_open : BreakerSettings → Breaker → Breaker
count_half_open c b =
    if leb c.half_open_success (suc b.half_open_success_count)
    then reset_breaker
    else record b { half_open_success_count = suc b.half_open_success_count }

-- `recordVastSuccess`
unfoldable pub record_success : BreakerSettings → ℕ → Breaker → Breaker
record_success c now b =
    if ltb 0 b.opened_until_ms && leb b.opened_until_ms now
    then count_half_open c b
    else record b { consecutive_failures = 0 }

-- `recordVastFailure` of an error that counts.
unfoldable pub count_failure : BreakerSettings → ℕ → Breaker → Breaker
count_failure c now b =
    let counted = record b {
      failure_timestamps_ms =
          filterb (λ t. leb (now - t) c.window_ms) b.failure_timestamps_ms ++ (now ∷ []);
      consecutive_failures = suc b.consecutive_failures;
    } in
    if leb c.failure_threshold counted.consecutive_failures
    then open_breaker c now counted
    else counted

-- `recordVastFailure`
unfoldable pub record_failure :
    (String → String) → BreakerSettings → ℕ → ProviderError → Breaker → Breaker
record_failure to_lower_case c now e b =
    if is_transient (infer_provider_error_type to_lower_case e) then count_failure c now b else b

-- What happens to the breaker, with its time.
pub data BreakerEvent : Type 0 where
  ask : (now : ℕ) → (enabled healthy : Bool) → BreakerEvent
  succeed : (now : ℕ) → BreakerEvent
  fail : (now : ℕ) → ProviderError → BreakerEvent

unfoldable pub breaker_step : (String → String) → BreakerSettings → BreakerEvent → Breaker → Breaker
breaker_step low c (ask now enabled healthy) b = (should_use_vast c now enabled healthy b).1
breaker_step low c (succeed now) b = record_success c now b
breaker_step low c (fail now e) b = record_failure low c now e b

unfoldable pub breaker_run :
    (String → String) → BreakerSettings → List BreakerEvent → Breaker → Breaker
breaker_run low c [] b = b
breaker_run low c (e ∷ es) b = breaker_run low c es (breaker_step low c e b)
