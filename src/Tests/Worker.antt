-- ===== src/Tests/Worker.antt =====
-- The worker: its breaker, a provider plan, a run of its handler.
use neura_gen.Worker.Pipeline.Outputs.{Published}
use neura_gen.Worker.Pipeline.Delivery.{Delivers}
use neura_gen.System.Workers.{handle_balances, among}
use neura_gen.Worker.Pipeline.{holds_key, is_key_taken, deliver}
use neura_gen.Worker.Pipeline.Publishing.{deliver-completes}
use neura_gen.Worker.Plan.Unavailable.{refusal-masked}
use neura_gen.Worker.Breaker.Window.{should_use_vast-window}
use neura_gen.Worker.Breaker.Opening.{open_breaker-refuses, failures-open}
use neura_gen.Worker.Handle.{handle, on_failure}
use neura_gen.Worker.Pipeline.Rules.{At, Row}
use neura_gen.Worker.Plan.Fallback.{modal-answers}
use neura_gen.Worker.Plan.Calls.{execute_provider_plan-budget, budget}
use neura_gen.Ledger.{ledger_sum, balance}
use neura_gen.Worker.Handle.Endings.{FailureEnds}
use neura_gen.Worker.Handle.Failures.{on_failure-ends}
use neura_gen.Worker.Task.Rules.{Succeeds}
use neura_gen.Worker.Steps.{BullJob, Outside}
use neura_gen.Worker.Plan.Outcome.{execute_provider_plan-ends, PlanEnds}
use neura_gen.Worker.Breaker.Bounds.{new_breaker-IsBounded, BreakerIsBounded}
use neura_gen.Tests.Data.{job, studio, world, env}
use neura_gen.Worker.Breaker.{
  open_breaker, breaker_run, resolve_settings, reset_breaker, ErrorType,
  is_retryable_provider_error, infer_provider_error_type, should_use_vast, ProviderError,
  BreakerSettings, ask, succeed, fail,
}
use neura_gen.Worker.Plan.{
  no_provider, ProviderExecution, execute_provider_plan, Execution, Providers, responded, failed,
  executed, thrown,
}
use neura_gen.Worker.Task.{Run, failure}
use neura_gen.System.{register, cancel, Call, run_all, empty_db}
use neura_gen.Jobs.Cancel.{removed}
use neura_gen.Store.{AssetRole, AssetType, Asset, ProviderName, JobStatus}
use neura_gen.Base.{show, find_row, pos}
use neura_gen.Base.{
  ℕ, ◌+◌, ◌≤◌, ◌≡◌, ◌∷◌, ◌++◌, arith, refl, none, some, inl, inr, true, false, List, [], length,
  lookup,
}

abbrev breaker_settings : BreakerSettings
breaker_settings = record {
  failure_threshold = 3;
  window_ms = 300000;
  cooldown_ms = 600000;
  half_open_success = 3;
}

abbrev overload : ProviderError
overload = record {
  message = "busy";
  retryable = none;
  status_code = some 503;
  error_type = some ErrorType.transient_infra;
}

abbrev bad_input : ProviderError
bad_input = record {
  message = "bad prompt";
  retryable = some false;
  status_code = some 400;
  error_type = none;
}

-- Vast is overloaded, Modal answers.
abbrev providers : Providers
providers = record {
  vast_is_enabled = true;
  now = λ t. 1000 + t;
  healthcheck = λ t. true;
  generate_video = λ t p. elim p [
    | ProviderName.vast ↦ failed overload
    | ProviderName.modal ↦ responded "video"
  ];
  settings = breaker_settings;
  max_retries = λ p. 1;
  to_lower_case = λ s. s;
}

abbrev idle : Execution
idle = record { calls_made = 0; breaker = reset_breaker; calls = []; messages = [] }

abbrev both : List ProviderName
both = ProviderName.vast ∷ ProviderName.modal ∷ []

new_breaker-IsBounded_example : BreakerIsBounded (resolve_settings (λ s. none) env) (
    breaker_run
      (λ s. s)
      (resolve_settings (λ s. none) env)
      (fail 1 overload ∷ ask 2 true true ∷ succeed 3 ∷ [])
      reset_breaker)
new_breaker-IsBounded_example =
    new_breaker-IsBounded (λ s. s) (λ s. none) env
      (fail 1 overload ∷ ask 2 true true ∷ succeed 3 ∷ [])

open_breaker-refuses_example :
    (should_use_vast breaker_settings 70 true true (
      breaker_run
        (λ s. s)
        breaker_settings
        (fail 50 overload ∷ succeed 60 ∷ [])
        (open_breaker breaker_settings 40 reset_breaker))).0
    ≡ false
open_breaker-refuses_example =
    open_breaker-refuses (λ s. s) breaker_settings 40 70 true true
      (fail 50 overload ∷ succeed 60 ∷ []) reset_breaker
      ((omega arith, omega arith), ((omega arith, omega arith), tt)) (omega arith)

failures-open_example :
    ((breaker_run
        (λ s. s)
        breaker_settings
        (fail 1 overload ∷ fail 2 overload ∷ [])
        reset_breaker).opened_until_ms
      ≡ 0)
    × ((breaker_run
          (λ s. s)
          breaker_settings
          ((fail 1 overload ∷ fail 2 overload ∷ []) ++ (fail 3 overload ∷ []))
          reset_breaker).opened_until_ms
        ≡ 3 + 600000)
unfolding infer_provider_error_type
failures-open_example =
    failures-open (λ s. s) breaker_settings (fail 1 overload ∷ fail 2 overload ∷ []) 3 overload
      reset_breaker (refl, (refl, tt)) refl refl

should_use_vast-window_example :
    (should_use_vast
      (record breaker_settings { window_ms = 1 })
      9
      true
      true
      (breaker_run
        (λ s. s)
        (record breaker_settings { window_ms = 1 })
        (fail 1 overload ∷ [])
        reset_breaker)).0
    ≡ (should_use_vast breaker_settings 9 true true
        (breaker_run (λ s. s) breaker_settings (fail 1 overload ∷ []) reset_breaker)).0
should_use_vast-window_example =
    should_use_vast-window (λ s. s) 1 breaker_settings 9 true true (fail 1 overload ∷ [])
      reset_breaker

execute_provider_plan-budget_example :
    length (execute_provider_plan providers both idle).1.calls ≤ 0 + budget providers both
execute_provider_plan-budget_example = execute_provider_plan-budget providers both idle

execute_provider_plan-ends_example :
    PlanEnds providers both idle.calls (execute_provider_plan providers both idle)
execute_provider_plan-ends_example = execute_provider_plan-ends providers both idle

modal-answers_example :
    (x : ProviderExecution) × ((execute_provider_plan providers both idle).0 ≡ executed x)
modal-answers_example = modal-answers providers (λ t. ("video", refl)) both idle (inr (inl refl))

abbrev strict : Providers
strict = record providers { vast_is_enabled = false; generate_video = λ t p. failed bad_input }

refusal-masked_example :
    (execute_provider_plan strict (ProviderName.modal ∷ ProviderName.vast ∷ []) idle).0
    ≡ thrown no_provider
unfolding is_retryable_provider_error
refusal-masked_example = refusal-masked strict bad_input idle refl refl refl

abbrev outside : Outside
outside = record {
  providers = providers;
  env = env;
  now = 50;
  meanwhile = λ n db. db;
  download_signed_url = λ k. responded k;
  video_buffer = λ p r. responded r;
  add_background_audio = λ b p s. failed bad_input;
  generate_thumbnail = λ b. responded "picture";
  upload_key = λ b f n. responded n;
  output_id = 20;
  thumbnail_id = 21;
}

abbrev response : ProviderExecution
response = record {
  provider = ProviderName.modal;
  response = "video";
  provider_attempt = 1;
  fallback_triggered = true;
}

-- An output of another job.
abbrev older : Asset
older = record {
  user_id = 1;
  job_id = some 2;
  asset_type = AssetType.video;
  role = AssetRole.output;
  versions = record { version = 1; object_key = "older.mp4" } ∷ [];
}

-- A run for the job 3, which its user has cancelled by now.
abbrev run : Run
run = record {
  db = record studio {
    jobs = (3, record job { status = JobStatus.cancelled }) ∷ [];
    assets = (19, older) ∷ [];
  };
  files = [];
  execution = idle;
  queries = 0;
  current_progress = 30;
  uploaded_keys = "half.mp4" ∷ [];
}

abbrev delivers : Delivers outside response
delivers = record {
  buffer = "video";
  has_buffer = refl;
  thumbnail = λ v. ("picture", refl);
  upload = λ v f n. (n, refl);
  distinct_ids = refl;
}

deliver-completes_example :
    Succeeds
      (λ key t. Row 3 (At JobStatus.completed 100) t × Published 20 21 key t.db.assets t.files)
      (deliver outside 3 job response run)
unfolding lookup is_key_taken holds_key find_row show
deliver-completes_example =
    deliver-completes outside (λ n db. refl) 3 job response delivers run
      (record job { status = JobStatus.cancelled }, refl, tt)
      (record {
        new_output = refl;
        new_thumbnail = refl;
        new_video_key = λ v. refl;
        new_thumbnail_key = λ v. refl;
        distinct_keys = λ v x. refl;
      })

abbrev last_attempt : BullJob
last_attempt = record { job_id = 3; attempts_made = 2; max_attempts = 3 }

on_failure-ends_example :
    FailureEnds last_attempt job
      (pos 100)
      run
      (failure overload)
      (on_failure outside last_attempt job (failure overload) run)
unfolding lookup
on_failure-ends_example =
    on_failure-ends outside (λ n db. refl) last_attempt job
      (record job { status = JobStatus.cancelled }) (pos 100) (failure overload) run refl refl

abbrev fresh : Run
fresh = record run { db = run_all world (register 1 ∷ []) empty_db; uploaded_keys = [] }

abbrev meantime : ℕ → List Call
meantime n = cancel 9 1 3 removed ∷ []

handle_balances_example :
    balance 1 (handle (among world meantime outside) last_attempt fresh).1.db
    ≡ ledger_sum 1 (handle (among world meantime outside) last_attempt fresh).1.db.transactions
handle_balances_example =
    handle_balances world (register 1 ∷ []) meantime outside last_attempt fresh 1 refl
