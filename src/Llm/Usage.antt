-- ===== src/Llm/Usage.antt =====
-- llm.py, `_extract_token_usage` and `_estimate_cost_usd`: the tokens and the cost of a response.
use autocim_agent.Prelude.{ℕ, ◌+◌, String, Option, none, some, List, is_empty, Exc, if◌then◌else◌}
use autocim_agent.Prelude.Dict.{Dict, lookup}
use autocim_agent.Prelude.Float.{Float}
use autocim_agent.Llm.{LlmEnv}

-- `PlannerLayerDecision` of schemas/planner.py
pub record PlannerLayerDecision : Type 0 where
  pub rationale : String
  pub rationale_ko : Option String
  pub anomaly_note : Option String

-- A tool call of a response: its name, and what pydantic makes of its arguments.
pub record DecisionCall : Type 0 where
  pub name : String
  pub args : Exc PlannerLayerDecision

-- A response of the model, as far as it is read: its two kinds of metadata, `none` when they are no
-- dict, and its tool calls.
pub record Response (F : Type 0) : Type 0 where
  pub usage_metadata : Option (Dict ℕ)
  pub response_metadata : Option (Dict (Dict ℕ))
  pub tool_calls : List DecisionCall

abbrev pub TokenCounts : Type 0
TokenCounts = Option ℕ × Option ℕ × Option ℕ

-- `a if a is not None else b`, the default of `dict.get`
abbrev or_else : Option ℕ → Option ℕ → Option ℕ
or_else (some n) m = some n
or_else none m = m

total_or_sum : Option ℕ → Option ℕ → Option ℕ → Option ℕ
total_or_sum (some total) input output = some total
total_or_sum none (some input) (some output) = some (input + output)
total_or_sum none _ _ = none

raw_counts : Option (Dict ℕ) → TokenCounts
raw_counts none = (none, none, none)
raw_counts (some usage) =
    let input = or_else (lookup "input_tokens" usage) (lookup "prompt_tokens" usage) in
    let output = or_else (lookup "output_tokens" usage) (lookup "completion_tokens" usage) in
    (input, output, total_or_sum (lookup "total_tokens" usage) input output)

-- `response_metadata.get("usage") or response_metadata.get("token_usage")`
raw_usage : Dict (Dict ℕ) → Option (Dict ℕ)
raw_usage metadata = elim (lookup "usage" metadata) [
  | none ↦ lookup "token_usage" metadata
  | some usage ↦ if is_empty usage then lookup "token_usage" metadata else some usage
]

unfoldable pub token_counts : {F : Type 0} → Response F → TokenCounts
unfolding raw_counts raw_usage total_or_sum
token_counts r = elim r.usage_metadata [
  | some usage ↦
      (lookup "input_tokens" usage, lookup "output_tokens" usage, lookup "total_tokens" usage)
  | none ↦ elim r.response_metadata [
    | none ↦ (none, none, none)
    | some metadata ↦ raw_counts (raw_usage metadata)
  ]
]

module _ {F : Type 0} ⦃fl : Float F⦄ (env : LlmEnv F) where
  -- A rate of the environment; `none` also stands for the `ValueError` of a text that is no number.
  rate : String → Option F
  rate name = elim (lookup name env.variables) [ none ↦ none | some raw ↦ env.parse_float raw ]

  cost : ℕ → ℕ → Option F → Option F → Option F
  cost input output (some input_rate) (some output_rate) = some (
      fl.round_to
        (fl.add (fl.mul (fl.div (fl.of_nat input) (fl.of_nat 1000)) input_rate)
          (fl.mul (fl.div (fl.of_nat output) (fl.of_nat 1000)) output_rate))
        6)
  cost input output _ _ = none

  unfoldable pub estimate_cost_usd : Option ℕ → Option ℕ → Option F
  unfolding rate cost
  estimate_cost_usd (some input) (some output) =
      cost input output (rate "AUTOCIM_LLM_COST_PER_1K_INPUT_USD")
        (rate "AUTOCIM_LLM_COST_PER_1K_OUTPUT_USD")
  estimate_cost_usd _ _ = none
