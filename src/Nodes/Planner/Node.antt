-- ===== src/Nodes/Planner/Node.antt =====
-- nodes/planner.py, `_explain_decision` and `planner_node`
pub mod Sanitize
use autocim_agent.Prelude.{
  ℕ, ◌+◌, String, ◌<>◌, str_eq, Bool, true, false, Option, none, some, List, [], ◌∷◌, ◌++◌,
  is_empty, Exc, ok, raise, ◌>>=◌, if◌then◌else◌,
}
use autocim_agent.Prelude.Dict.{Dict}
use autocim_agent.Prelude.Float.{Float, zero_f}
use autocim_agent.Schemas.{LayerBitConfig}
use autocim_agent.State.{CimState, Update, no_update, Override, Message, LlmCallRecord, merge_dicts}
use autocim_agent.Middleware.{Registry}
use autocim_agent.Nodes.Evaluator.{has_note, show_error}
use autocim_agent.Nodes.Recheck.{system}
use autocim_agent.Nodes.Planner.{
  PlannerEnv, real_stage_names, propose_stage_points, points_to_stage_configs,
}
use autocim_agent.Llm.{LlmEnv, check_budget}
use autocim_agent.Llm.Usage.{DecisionCall, PlannerLayerDecision}
use autocim_agent.Llm.Retry.{
  Reply, CallEnd, returned, call_failed, settings_from_env, invoke_with_retry,
}

-- `get_planner_chat_model().bind_tools(…)` with the prompt of `_build_user_prompt`: what each attempt
-- of a call does, or the error of a model that is not configured.
abbrev pub ChatModel : Type 0 → Type 0
ChatModel F = CimState F → Dict (Override F) → String → List (LayerBitConfig F) → Exc (ℕ → Reply F)

-- The three ends of the `try` around `_explain_decision`.
pub data Explained (F : Type 0) : Type 0 where
  explained : PlannerLayerDecision → LlmCallRecord F → Explained F
  llm_call_failed : LlmCallRecord F → Explained F
  llm_not_called : String → Explained F

abbrev pub tool_name : String
tool_name = "PlannerLayerDecision"

-- `_extract_decision`
unfoldable pub extract_decision : List DecisionCall → Exc PlannerLayerDecision
extract_decision [] = raise "RuntimeError: planner LLM response had no tool call"
extract_decision (call ∷ calls) =
    if str_eq call.name tool_name then call.args else extract_decision calls

module _ {F : Type 0} where
  decided : Exc PlannerLayerDecision → LlmCallRecord F → Explained F
  decided (ok decision) usage = explained decision usage
  decided (raise e) usage = llm_call_failed (record usage { succeeded = false; error = some e })

  explained_by : CallEnd F → Explained F
  explained_by (call_failed usage) = llm_call_failed usage
  explained_by (returned response usage) = decided (extract_decision response.tool_calls) usage

-- What the planner keeps of the explanation.
pub record Outcome (F : Type 0) : Type 0 where
  pub used_llm : Bool
  pub rationale : String
  pub rationale_ko : Option String
  pub anomaly_note : Option String
  pub usage_record : LlmCallRecord F
  pub messages : List Message

module _ {F : Type 0} ⦃fl : Float F⦄ where
  abbrev not_called : ℕ → Option String → LlmCallRecord F
  not_called iteration error = record {
    node = "planner";
    iteration = iteration;
    attempts = 0;
    succeeded = false;
    latency_ms = zero_f;
    input_tokens = none;
    output_tokens = none;
    total_tokens = none;
    estimated_cost_usd = none;
    error = error;
  }

  -- Without an explanation the search point is used directly.
  abbrev fallback : String → String → LlmCallRecord F → Outcome F
  fallback search_tag rationale usage = record {
    used_llm = false;
    rationale = rationale;
    rationale_ko = none;
    anomaly_note = none;
    usage_record = usage;
    messages =
        system (
          "[planner] "
          <> (rationale <> ("; using the " <> (search_tag <> " search point directly"))))
        ∷ [];
  }

  outcome_of : (show : ℕ → String) → ℕ → String → Explained F → Outcome F
  outcome_of show iteration search_tag (explained decision usage) = record {
    used_llm = true;
    rationale = decision.rationale;
    rationale_ko = decision.rationale_ko;
    anomaly_note = decision.anomaly_note;
    usage_record = usage;
    messages =
        record {
          role = "assistant";
          content =
              "[planner] iteration "
              <> (show iteration <> (" (" <> (search_tag <> ("): " <> decision.rationale))));
        }
        ∷ [];
  }
  outcome_of show iteration search_tag (llm_call_failed usage) =
      fallback search_tag
        ("LLM proposal failed after "
          <> (show usage.attempts <> (" attempt(s) (" <> (show_error usage.error <> ")"))))
        usage
  outcome_of show iteration search_tag (llm_not_called e) =
      fallback search_tag ("LLM proposal failed (" <> (e <> ")")) (not_called iteration (some e))

  over_budget_outcome : ℕ → String → Option String → Outcome F
  over_budget_outcome iteration search_tag reason =
      fallback search_tag ("LLM call skipped: " <> show_error reason) (not_called iteration reason)

module _ {F G : Type 0} ⦃fl : Float F⦄ (env : PlannerEnv F G) (llm : LlmEnv F)
    (chat : ChatModel F) where
  -- `_explain_decision`, with the exceptions that `planner_node` catches.
  unfoldable pub explain_decision :
      CimState F → Dict (Override F) → String → List (LayerBitConfig F) → ℕ → Explained F
  unfolding explained_by decided
  explain_decision s overrides search_tag configs iteration =
      elim (chat s overrides search_tag configs) [
        | raise e ↦ llm_not_called e
        | ok invoke ↦
            explained_by
              (invoke_with_retry llm (settings_from_env llm "planner" iteration) invoke).end
      ]

  -- The explanation, or the template when the run's budget is exceeded.
  unfoldable pub explanation :
      CimState F → Dict (Override F) → String → List (LayerBitConfig F) → ℕ → Outcome F
  unfolding outcome_of over_budget_outcome
  explanation s overrides search_tag configs iteration =
      let budget = check_budget llm s.llm_usage in
      let called = explain_decision s overrides search_tag configs iteration in
      if budget.exceeded
      then over_budget_outcome iteration search_tag budget.reason
      else outcome_of env.show iteration search_tag called

  anomaly_messages : ℕ → Option String → List Message
  anomaly_messages iteration note =
      if has_note note
      then system (
          "[planner] anomaly flagged at iteration "
          <> (env.show iteration <> (": " <> show_error note)))
        ∷ []
      else []

  applied_messages : ℕ → Dict (Override F) → List Message
  applied_messages iteration new_overrides =
      system (
        "[planner] applied human_overrides at iteration "
        <> (env.show iteration <> (": " <> env.show_overrides new_overrides)))
      ∷ []

  -- The keys that are set only when overrides are consumed.
  sanitized : ℕ → Dict (Override F) → Update F
  sanitized iteration new_overrides =
      if is_empty new_overrides then no_update else record (no_update {F = F}) {
        human_overrides = some [];
        search_bound_overrides = new_overrides;
        needs_hitl = some false;
        retry_count = some 0;
        messages = applied_messages iteration new_overrides;
      }

  -- The rest of the update, once the stages' configurations are known.
  unfoldable pub planned_update :
      CimState F → Dict (Override F) → String → List (LayerBitConfig F) → Update F
  unfolding anomaly_messages applied_messages sanitized
  planned_update s overrides search_tag configs =
      let iteration = s.iteration_count + 1 in
      let base = sanitized iteration s.human_overrides in
      let outcome = explanation s overrides search_tag configs iteration in
      record base {
        iteration_count = some iteration;
        planned_layer_configs = some configs;
        planner_flagged_anomaly = some outcome.anomaly_note;
        llm_usage = outcome.usage_record ∷ [];
        planner_decisions =
            record {
              iteration = iteration;
              search_tag = search_tag;
              used_llm = outcome.used_llm;
              rationale = outcome.rationale;
              rationale_ko = outcome.rationale_ko;
              anomaly_note = outcome.anomaly_note;
              layer_configs = configs;
            }
            ∷ [];
        messages =
            base.messages ++ (outcome.messages ++ anomaly_messages iteration outcome.anomaly_note);
      }

  unfoldable pub planner_node : Registry F → CimState F → Exc (Update F)
  planner_node registry s = do
    let overrides = merge_dicts s.search_bound_overrides s.human_overrides
    let stage_names = real_stage_names env s.model_id
    (points, search_tag) ← propose_stage_points env registry s stage_names overrides
    configs ← points_to_stage_configs points stage_names
    ok (planned_update s overrides search_tag configs)
