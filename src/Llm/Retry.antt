-- ===== src/Llm/Retry.antt =====
-- llm.py, `invoke_with_retry`: the loop over the attempts, the errors that are retried and the delays.
pub mod Attempts
use autocim_agent.Prelude.{
  ℕ, zero, suc, ◌-◌, ◌^◌, String, ◌<>◌, Bool, true, false, not, ◌||◌, Option, none, some, List, [],
  ◌∷◌, ◌++◌, ◌==◌,
}
use autocim_agent.Prelude.Int.{ℤ, pos, negsuc, pos_part}
use autocim_agent.Prelude.Float.{Float, zero_f, max_f, min_f}
use autocim_agent.State.{LlmCallRecord}
use autocim_agent.Llm.{LlmEnv, int_env, float_env}
use autocim_agent.Llm.Failure.{Failure, status_code_of, retry_after_seconds}
use autocim_agent.Llm.Usage.{Response, token_counts, estimate_cost_usd}

-- What one `chat_model.invoke(messages)` does.
pub data Reply (F : Type 0) : Type 0 where
  response : Response F → Reply F
  error : Failure F → Reply F

-- A call's end: the response with its record, or the record that `LLMCallFailed` carries.
pub data CallEnd (F : Type 0) : Type 0 where
  returned : Response F → LlmCallRecord F → CallEnd F
  call_failed : LlmCallRecord F → CallEnd F

-- A call's end, and the delays that were slept before it.
pub record CallRun (F : Type 0) : Type 0 where
  pub end : CallEnd F
  pub sleeps : List F

-- `_RETRYABLE_STATUS_CODES`
abbrev pub retryable_code : ℤ → Bool
retryable_code (negsuc n) = false
retryable_code (pos c) = c == 429 || c == 500 || c == 502 || c == 503 || c == 504

-- `_RETRYABLE_MESSAGE_MARKERS`
abbrev pub retryable_markers : List String
retryable_markers =
    "rate limit" ∷ "ratelimit" ∷ "429" ∷ "overloaded" ∷ "timeout" ∷ "timed out" ∷ "connection"
    ∷ "temporarily unavailable" ∷ "service unavailable" ∷ "502" ∷ "503" ∷ "504" ∷ []

any_marker : {F : Type 0} → LlmEnv F → String → List String → Bool
any_marker env message [] = false
any_marker env message (m ∷ markers) = env.occurs_in m message || any_marker env message markers

unfoldable pub is_retryable : {F : Type 0} → LlmEnv F → Failure F → Bool
unfolding any_marker
is_retryable env e = elim (status_code_of e) [
  | some code ↦ retryable_code code
  | none ↦ any_marker env (env.lower e.message) retryable_markers
]

-- `attempt >= max_retries`
abbrev pub none_left : ℕ → Bool
none_left zero = true
none_left (suc n) = false

-- The call's fixed values: the node, the iteration, and the retry settings.
pub record CallSettings (F : Type 0) : Type 0 where
  pub node : String
  pub iteration : ℕ
  pub max_retries : ℤ
  pub base_delay : F
  pub max_delay : F

module _ {F : Type 0} ⦃fl : Float F⦄ (env : LlmEnv F) where
  -- The settings of a call that passes none itself.
  unfoldable pub settings_from_env : String → ℕ → CallSettings F
  settings_from_env node iteration = record {
    node = node;
    iteration = iteration;
    max_retries = int_env env "AUTOCIM_LLM_MAX_RETRIES" (pos 3);
    base_delay = float_env env "AUTOCIM_LLM_BASE_DELAY_SECONDS" (fl.of_nat 1);
    max_delay = float_env env "AUTOCIM_LLM_MAX_DELAY_SECONDS" (fl.of_nat 20);
  }

module _ {F : Type 0} ⦃fl : Float F⦄ (env : LlmEnv F) (call : CallSettings F) where
  unfoldable pub backoff_delay_seconds : Failure F → ℕ → F
  backoff_delay_seconds e attempt = elim (retry_after_seconds e) [
    | some seconds ↦ min_f (max_f seconds zero_f) call.max_delay
    | none ↦
        fl.mul (min_f call.max_delay (fl.mul call.base_delay (fl.of_nat (2 ^ (attempt - 1)))))
          (fl.add (fl.decimal 5 1) (env.random attempt))
  ]

  abbrev pub succeeded_record : ℕ → Response F → LlmCallRecord F
  succeeded_record attempt r =
      let (input, output, total) = token_counts r in
      record {
        node = call.node;
        iteration = call.iteration;
        attempts = attempt;
        succeeded = true;
        latency_ms = env.elapsed_ms attempt;
        input_tokens = input;
        output_tokens = output;
        total_tokens = total;
        estimated_cost_usd = estimate_cost_usd env input output;
        error = none;
      }

  abbrev pub show_failure : Option (Failure F) → String
  show_failure none = "unknown error"
  show_failure (some e) = e.name <> (": " <> e.message)

  abbrev pub failed_record : ℕ → Option (Failure F) → LlmCallRecord F
  failed_record attempt last_exc = record {
    node = call.node;
    iteration = call.iteration;
    attempts = attempt;
    succeeded = false;
    latency_ms = env.elapsed_ms attempt;
    input_tokens = none;
    output_tokens = none;
    total_tokens = none;
    estimated_cost_usd = none;
    error = some (show_failure last_exc);
  }

  abbrev pub gives_up : ℕ → Failure F → List F → CallRun F
  gives_up attempt e sleeps = record {
    end = call_failed (failed_record attempt (some e));
    sleeps = sleeps;
  }

  -- The loop with `remaining = max_retries - attempt` attempts left.
  unfoldable pub retry_loop :
      (invoke : ℕ → Reply F) (remaining attempt : ℕ) (last_exc : Option (Failure F))
      (sleeps : List F)
      → CallRun F
  retry_loop invoke zero attempt last_exc sleeps = record {
    end = call_failed (failed_record attempt last_exc);
    sleeps = sleeps;
  }
  retry_loop invoke (suc remaining) attempt last_exc sleeps = elim (invoke (suc attempt)) [
    | response r ↦ record { end = returned r (succeeded_record (suc attempt) r); sleeps = sleeps }
    | error e ↦ elim (none_left remaining || not (is_retryable env e)) [
      | true ↦ gives_up (suc attempt) e sleeps
      | false ↦
          retry_loop invoke remaining (suc attempt) (some e)
            (sleeps ++ (backoff_delay_seconds e (suc attempt) ∷ []))
    ]
  ]

  unfoldable pub invoke_with_retry : (invoke : ℕ → Reply F) → CallRun F
  invoke_with_retry invoke = retry_loop invoke (pos_part call.max_retries) 0 none []
