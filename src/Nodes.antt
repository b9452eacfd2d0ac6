-- ===== src/Nodes.antt =====
-- nodes/: one module for each node of the pipeline, and what they share (nodes/common.py).
pub mod Evaluator
pub mod Recheck
pub mod Workers
pub mod Planner
use autocim_agent.Prelude.{
  ℕ, String, ◌<>◌, str_eq, Bool, false, Option, none, some, List, [], ◌∷◌, is_empty, min, get_or,
  not, Exc, ok, raise, if◌then◌else◌,
}
use autocim_agent.Prelude.Dict.{Dict, lookup}
use autocim_agent.Prelude.Float.{Float, zero_f, truthy}
use autocim_agent.Schemas.{
  HwConfig, ExecutionContext, LayerBitConfig, Datum, null, flag, num, text, texts, layers, factors,
  ToolResult, Member, no_member, text_member, data_member,
}
use autocim_agent.State.{Entry, nested, leaf, Metrics, CimState}
use autocim_agent.Middleware.{Registry, get_hw_config}

-- What the wrapped tools return, given the context that the node has set and its arguments. Each
-- is a `wrap_tool_call` around a function of `Tools`; an argument read from the metrics store is
-- passed on unread.
pub record PrecisionArgs (F : Type 0) : Type 0 where
  pub layer_configs : Datum F
  pub accuracy : Datum F
  pub noc_latency_ms : Datum F
  pub target_accuracy : Option F
  pub target_energy_pj : Option F
  pub target_latency_ms : Option F

pub record ToolCalls (F : Type 0) : Type 0 where
  pub tuner : ExecutionContext → List (LayerBitConfig F) → ℕ → Metrics F
  pub mapper : ExecutionContext → Datum F → Datum F → Metrics F
  pub profiler : ExecutionContext → Datum F → Datum F → Option (Dict F) → Metrics F
  pub verifier : ExecutionContext → ToolResult F → ToolResult F → Metrics F
  pub precision_check : ExecutionContext → PrecisionArgs F → Metrics F

-- pydantic's check of a dumped tool result against its output schema: the parsed result, or the
-- text of the validation error.
abbrev pub OutputSchemas : Type 0 → Type 0
OutputSchemas F = String → Entry (Member F) → Exc (ToolResult F)

module _ {F : Type 0} where
  -- `d.get("data") or {}` of a dumped result.
  member_data : Option (Member F) → Exc (Dict (Datum F))
  member_data none = ok []
  member_data (some no_member) = ok []
  member_data (some (data_member d)) = ok d
  member_data (some (text_member t)) = if str_eq t "" then ok [] else raise "AttributeError"

  -- `(metrics.get(node) or {}).get("data") or {}`
  unfoldable pub data_of : Metrics F → String → Exc (Dict (Datum F))
  unfolding member_data
  data_of metrics node = elim (lookup node metrics) [
    | none ↦ ok []
    | some (leaf none) ↦ ok []
    | some (leaf (some t)) ↦ if str_eq t "" then ok [] else raise "AttributeError"
    | some (nested d) ↦ member_data (lookup "data" d)
  ]

  -- `d.get(key)`
  abbrev pub value_at : Dict (Datum F) → String → Datum F
  value_at d key = get_or (lookup key d) null

  -- A value that is used as an optional number.
  unfoldable pub number_at : Dict (Datum F) → String → Exc (Option F)
  number_at d key = elim (value_at d key) [
    | null ↦ ok none
    | num x ↦ ok (some x)
    | _ ↦ raise "TypeError"
  ]

  -- `run_id_for`
  unfoldable pub run_id_for : CimState F → String
  run_id_for s = s.model_id <> ("::" <> s.hw_spec_id)

  unfoldable pub build_execution_context : CimState F → ExecutionContext
  unfolding run_id_for
  build_execution_context s = record {
    session_id = run_id_for s;
    model_id = s.model_id;
    hw_spec_id = s.hw_spec_id;
    iteration_count = s.iteration_count;
    user_id = none;
  }

module _ {F : Type 0} ⦃fl : Float F⦄ where
  -- `bool(x)`
  unfoldable pub truthy_datum : Datum F → Bool
  truthy_datum null = false
  truthy_datum (flag b) = b
  truthy_datum (num x) = truthy x
  truthy_datum (text t) = not (str_eq t "")
  truthy_datum (texts l) = not (is_empty l)
  truthy_datum (layers l) = not (is_empty l)
  truthy_datum (factors d) = not (is_empty d)

  baseline_bits : Exc (HwConfig F) → ℕ
  baseline_bits (ok hw) = min 8 hw.adc_bits
  baseline_bits (raise e) = 8

  unfoldable pub default_layer_configs : Registry F → String → List (LayerBitConfig F)
  unfolding baseline_bits
  default_layer_configs registry hw_spec_id =
      let bits = baseline_bits (get_hw_config hw_spec_id registry) in
      record {
        layer_name = "model_default";
        weight_bits = bits;
        activation_bits = bits;
        column_pruning_ratio = zero_f;
      }
      ∷ []
