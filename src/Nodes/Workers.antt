-- ===== src/Nodes/Workers.antt =====
-- nodes/tuner.py, nodes/mapper.py, nodes/profiler.py, nodes/verifier.py and nodes/hitl.py
use autocim_agent.Prelude.{
  ℕ, String, str_eq, false, Option, none, some, List, [], ◌∷◌, get_or, is_empty, Exc, ok, raise,
  ◌>>=◌, if◌then◌else◌,
}
use autocim_agent.Prelude.Dict.{Dict, lookup}
use autocim_agent.Prelude.Float.{Float}
use autocim_agent.Schemas.{
  Datum, null, text, layers, factors, failed, Member, LayerBitConfig, model_dump,
}
use autocim_agent.State.{CimState, Update, no_update, Entry, nested, leaf, Metrics, Override}
use autocim_agent.Middleware.{Registry}
use autocim_agent.Nodes.{
  ToolCalls, OutputSchemas, data_of, value_at, build_execution_context, default_layer_configs,
}

-- `_DEFAULT_MAX_EPOCHS`
abbrev pub default_max_epochs : ℕ
default_max_epochs = 5

module _ {F : Type 0} where
  abbrev measured : Metrics F → Update F
  measured result = record (no_update {F = F}) { metrics_store = result }

  -- `d.get(key, default)`
  abbrev value_or : Dict (Datum F) → String → Datum F → Datum F
  value_or d key default = get_or (lookup key d) default

  unfoldable pub mapper_node : ToolCalls F → CimState F → Exc (Update F)
  mapper_node calls s = do
    tuner_data ← data_of s.metrics_store "tuner"
    let model_ref = value_or tuner_data "model_ref" (text s.model_id)
    let configs = value_or tuner_data "layer_configs" (layers [])
    ok (measured (calls.mapper (build_execution_context s) model_ref configs))

  -- `x or None` of a dict
  or_none : Dict F → Option (Dict F)
  or_none [] = none
  or_none (x ∷ d) = some (x ∷ d)

  -- `data.get("calibration_factors") or {}`
  abbrev pub factors_at : Dict (Datum F) → Exc (Dict F)
  factors_at d = elim (value_at d "calibration_factors") [
    | null ↦ ok []
    | factors f ↦ ok f
    | _ ↦ raise "TypeError"
  ]

  unfoldable pub profiler_node : ToolCalls F → CimState F → Exc (Update F)
  unfolding or_none
  profiler_node calls s = do
    tuner_data ← data_of s.metrics_store "tuner"
    let model_ref = value_or tuner_data "model_ref" (text s.model_id)
    let configs = value_or tuner_data "layer_configs" (layers [])
    let result =
        calls.profiler (build_execution_context s) model_ref configs (or_none s.calibration_factors)
    profiler_data ← data_of result "profiler"
    updated ← factors_at profiler_data
    ok (record (measured result) { calibration_factors = updated })

  -- `_MISSING_MAPPER` and `_MISSING_PROFILER`
  abbrev missing : String → Entry (Member F)
  missing error = nested (model_dump (record { status = failed; data_ = none; error = some error }))

  -- `metrics.get(node) or missing`
  entry_or : Option (Entry (Member F)) → Entry (Member F) → Entry (Member F)
  entry_or none default = default
  entry_or (some (leaf none)) default = default
  entry_or (some (leaf (some t))) default = if str_eq t "" then default else leaf (some t)
  entry_or (some (nested d)) default = if is_empty d then default else nested d

  unfoldable pub verifier_node : OutputSchemas F → ToolCalls F → CimState F → Exc (Update F)
  unfolding entry_or
  verifier_node schema calls s = do
    mapper_result ← schema "mapper" (
        entry_or (lookup "mapper" s.metrics_store)
          (missing "mapper result missing from metrics_store"))
    profiler_result ← schema "profiler" (
        entry_or (lookup "profiler" s.metrics_store)
          (missing "profiler result missing from metrics_store"))
    ok (measured (calls.verifier (build_execution_context s) mapper_result profiler_result))

module _ {F : Type 0} ⦃fl : Float F⦄ where
  -- `state.get("planned_layer_configs") or default_layer_configs(hw_spec_id)`
  planned_or_default : Registry F → CimState F → List (LayerBitConfig F)
  planned_or_default registry s =
      if is_empty s.planned_layer_configs
      then default_layer_configs registry s.hw_spec_id
      else s.planned_layer_configs

  unfoldable pub tuner_node : Registry F → ToolCalls F → CimState F → Exc (Update F)
  unfolding planned_or_default
  tuner_node registry calls s = ok (
      measured (
        calls.tuner (build_execution_context s) (planned_or_default registry s) default_max_epochs))

-- What a human resumes the run with: a dict, which may hold `new_bounds`, or anything else.
pub data HumanInput (F : Type 0) : Type 0 where
  bounds_input : Option (Dict (Override F)) → HumanInput F
  other_input : HumanInput F

abbrev new_bounds : {F : Type 0} → HumanInput F → Dict (Override F)
new_bounds (bounds_input bounds) = get_or bounds []
new_bounds other_input = []

-- The rest of `hitl_node` after `interrupt` has returned the human's input.
unfoldable pub hitl_node : {F : Type 0} → HumanInput F → CimState F → Update F
hitl_node {F} input s = record (no_update {F = F}) {
  human_overrides = some (new_bounds input);
  needs_hitl = some false;
}
