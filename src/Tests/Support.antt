-- ===== src/Tests/Support.antt =====
-- What the theorems on the state, the tools and the model's calls say of concrete inputs.
use autocim_agent.Prelude.{
  str_eq, ℕ, ◌*◌, ◌≡◌, ◌↔◌, ◌||◌, inr, refl, String, true, false, none, some, List, [], ◌∷◌, Exc,
  ok, ◌==◌,
}
use autocim_agent.Prelude.Dict.{Dict, lookup}
use autocim_agent.Prelude.Int.{pos}
use autocim_agent.Prelude.Float.{Float}
use autocim_agent.Schemas.{ExecutionContext, success, ToolResult, flag}
use autocim_agent.State.{Entry, nested, namespaced_metrics_reducer, Message, LlmCallRecord}
use autocim_agent.State.Merge.{namespaced_comm}
use autocim_agent.Targets.{check_targets}
use autocim_agent.Targets.Laws.{check_targets-eq-nil, MeetsFloor, MeetsCeiling}
use autocim_agent.Middleware.{
  get_hw_config, inject, hw_arg, context_arg, own_arg, Kwargs, InputSchema, valid, invalid, assign,
  wrap_tool_call, ContextPruningConfig,
}
use autocim_agent.Middleware.Contained.{wrap_tool_call-injected}
use autocim_agent.Tools.{
  VerifierToolInput, verifier_tool, ir_drop_error_pct, noise_margin_db, datum,
}
use autocim_agent.Tools.Verdict.{verifier_tool_verdict}
use autocim_agent.Llm.{
  LlmEnv, check_budget, max_cost, max_tokens, total_cost, total_tokens, reaches,
}
use autocim_agent.Llm.Budget.{reached, check_budget-exceeded}
use autocim_agent.Llm.Usage.{Response}
use autocim_agent.Llm.Failure.{Failure, missing, integer}
use autocim_agent.Llm.Retry.{Reply, response, error, CallSettings, invoke_with_retry}
use autocim_agent.Llm.Retry.Attempts.{Paced, EndsWith, invoke_with_retry-ends}
use autocim_agent.Tests.Numbers.{million, micro_float}
use autocim_agent.Tests.Fixtures.{hw, registry, mapper_result, profiler_result}

abbrev left_dict : Dict ℕ
left_dict = ("weight_bits_min", 2) ∷ ("weight_bits_max", 8) ∷ []

abbrev right_dict : Dict ℕ
right_dict = ("weight_bits_max", 6) ∷ []

abbrev store : Dict (Entry ℕ)
store = ("tuner", nested (("accuracy", 9) ∷ [])) ∷ []

abbrev from_mapper : Dict (Entry ℕ)
from_mapper = ("mapper", nested (("latency", 2) ∷ [])) ∷ []

abbrev from_profiler : Dict (Entry ℕ)
from_profiler = ("profiler", nested (("energy", 3) ∷ [])) ∷ []

namespaced_comm_example :
    lookup "mapper"
      (namespaced_metrics_reducer (namespaced_metrics_reducer store from_mapper) from_profiler)
    ≡ lookup "mapper"
        (namespaced_metrics_reducer (namespaced_metrics_reducer store from_profiler) from_mapper)
unfolding lookup
namespaced_comm_example =
    namespaced_comm store from_mapper from_profiler "mapper" (refl, tt) (refl, tt) (inr refl)

check_targets-eq-nil_example :
    (check_targets {F = ℕ} (some 900000) (some 3000000) none (some 800000) none none ≡ []) ↔ (
      MeetsFloor {F = ℕ} (some 900000) (some 800000)
      × MeetsCeiling {F = ℕ} (some 3000000) none
      × MeetsCeiling {F = ℕ} none none)
check_targets-eq-nil_example =
    check_targets-eq-nil (some 900000) (some 3000000) none (some 800000) none none

abbrev run_context : ExecutionContext
run_context = record {
  session_id = "model::hw";
  model_id = "model";
  hw_spec_id = "hw";
  iteration_count = 1;
  user_id = none;
}

abbrev other_context : ExecutionContext
other_context = record run_context { hw_spec_id = "another" }

-- A schema that reads one argument of the tool's own.
abbrev one_argument : InputSchema ℕ ℕ ℕ
one_argument = record {
  needs_hw = true;
  construct = λ kwargs. elim (kwargs "bits") [
    | some (own_arg n) ↦ valid n
    | _ ↦ invalid "bits: field required"
  ];
}

abbrev arguments : Kwargs ℕ ℕ
arguments name = some (own_arg 4)

abbrev quiet_tool : ℕ → Exc (ToolResult ℕ)
quiet_tool n = ok mapper_result

abbrev same_text : String → String
same_text e = e

abbrev supplied : Kwargs ℕ ℕ
supplied =
    assign "execution_context" (context_arg other_context)
      (assign "hw_config" (own_arg 0) arguments)

wrap_tool_call-injected_example :
    (args : Kwargs ℕ ℕ) × (inject one_argument (some run_context) registry supplied ≡ ok args)
    × (args "execution_context" ≡ some (context_arg run_context))
    × (args "hw_config" ≡ some (hw_arg hw))
    × ((name : String)
        → str_eq "execution_context" name ≡ false
        → str_eq "hw_config" name ≡ false
        → args name ≡ arguments name)
    × (wrap_tool_call same_text one_argument "mapper" quiet_tool
          (some run_context)
          registry
          supplied
        ≡ wrap_tool_call same_text one_argument "mapper" quiet_tool
            (some run_context)
            registry
            arguments)
unfolding get_hw_config lookup
wrap_tool_call-injected_example =
    wrap_tool_call-injected one_argument refl same_text "mapper" quiet_tool run_context registry hw
      refl arguments (context_arg other_context) (own_arg 0)

abbrev verified : VerifierToolInput ℕ
verified = record {
  execution_context = run_context;
  hw_config = hw;
  mapper_result = mapper_result;
  profiler_result = profiler_result;
  input_distribution_ref = none;
}

verifier_tool_verdict_example :
    (r : ToolResult ℕ) × (verifier_tool verified ≡ ok r)
    × (r.status ≡ success)
    × ((datum "is_converged" r.data_ ≡ flag true) ↔ (
        (success ≡ success)
        × (success ≡ success)
        × (Float.lt micro_float (ir_drop_error_pct {F = ℕ} hw) (5 * million) ≡ true)
        × (Float.lt micro_float 0 (noise_margin_db {F = ℕ} hw) ≡ true)))
verifier_tool_verdict_example = verifier_tool_verdict verified

abbrev window : ContextPruningConfig
window = record {
  max_recent_messages = 1;
  summarize_before_drop = true;
  summary_max_chars = 100;
  summarizer_fn = λ messages n. "a summary";
}

abbrev spoken : String → Message
spoken text = record { role = "user"; content = text }

abbrev three_messages : List Message
three_messages = spoken "one" ∷ spoken "two" ∷ spoken "three" ∷ []

-- An environment with a cap on the tokens.
abbrev capped : LlmEnv ℕ
capped = record {
  variables = ("AUTOCIM_LLM_MAX_TOTAL_TOKENS", "1000") ∷ [];
  parse_float = λ raw. none;
  parse_int = λ raw. some (pos 1000);
  lower = λ text. text;
  occurs_in = λ marker text. true;
  random = λ n. 0;
  elapsed_ms = λ n. n * million;
  show_cost = λ a b. "cost";
  show_tokens = λ n i. "tokens";
}

abbrev spent : LlmCallRecord ℕ
spent = record {
  node = "planner";
  iteration = 1;
  attempts = 1;
  succeeded = true;
  latency_ms = 5;
  input_tokens = some 800;
  output_tokens = some 400;
  total_tokens = some 1200;
  estimated_cost_usd = none;
  error = none;
}

check_budget-exceeded_example : (check_budget capped (spent ∷ [])).exceeded ≡ (
    reached (max_cost capped) (λ cap. Float.le micro_float cap (total_cost capped (spent ∷ [])))
    || reached (max_tokens capped) (λ cap. reaches (total_tokens capped (spent ∷ [])) cap))
check_budget-exceeded_example = check_budget-exceeded capped (spent ∷ [])

abbrev settings : CallSettings ℕ
settings = record {
  node = "planner";
  iteration = 1;
  max_retries = pos 3;
  base_delay = million;
  max_delay = 20 * million;
}

abbrev overloaded : Failure ℕ
overloaded = record {
  name = "ApiError";
  message = "overloaded";
  status_code = integer (pos 503);
  code = missing;
  retry_after = missing;
  retry_after_seconds = missing;
  response = none;
}

abbrev answer : Response ℕ
answer = record { usage_metadata = none; response_metadata = none; tool_calls = [] }

-- The first attempt fails, the second is answered.
abbrev second_works : ℕ → Reply ℕ
second_works n = elim (n == 1) [ true ↦ error overloaded | false ↦ response answer ]

invoke_with_retry-ends_example :
    Paced 3 (invoke_with_retry capped settings second_works)
    × EndsWith capped second_works 3 (invoke_with_retry capped settings second_works).end
invoke_with_retry-ends_example = invoke_with_retry-ends capped settings second_works 2 refl
