-- ===== src/Tests/Fixtures.antt =====
-- Hardware, a model's layers, metrics and states for the tests.
use autocim_agent.Prelude.{ℕ, ◌*◌, String, true, false, Option, none, some, [], ◌∷◌, ok, raise}
use autocim_agent.Prelude.Dict.{Dict}
use autocim_agent.Schemas.{
  HwConfig, mesh, LayerBitConfig, Datum, flag, num, text, layers, factors, success, ToolResult,
  model_dump,
}
use autocim_agent.State.{nested, leaf, Metrics, CimState, CandidateEntry}
use autocim_agent.Middleware.{Registry}
use autocim_agent.Nodes.{OutputSchemas, ToolCalls}
use autocim_agent.Tests.Numbers.{million, micro_float}

abbrev pub hw : HwConfig ℕ
hw = record {
  hw_spec_id = "hw";
  crossbar_rows = 128;
  crossbar_cols = 128;
  num_tiles = 16;
  adc_bits = 7;
  dac_bits = 8;
  noc_topology = mesh;
  noc_link_bandwidth_gbps = 32 * million;
  wire_resistance_ohm_per_um = none;
  device_noise_sigma = none;
  sram_buffer_kb = none;
}

abbrev pub registry : Registry ℕ
registry = ("hw", hw) ∷ []

abbrev pub layer : LayerBitConfig ℕ
layer = record {
  layer_name = "conv1";
  weight_bits = 4;
  activation_bits = 4;
  column_pruning_ratio = 100000;
}

abbrev result : Dict (Datum ℕ) → ToolResult ℕ
result d = record { status = success; data_ = some d; error = none }

-- The results of the four tools for a candidate that meets its targets.
abbrev pub tuner_result : ToolResult ℕ
tuner_result = result (
    ("accuracy", num 900000)
    ∷ ("avg_weight_bits", num (4 * million))
    ∷ ("avg_column_pruning_ratio", num 100000)
    ∷ ("layer_configs", layers (layer ∷ []))
    ∷ ("model_ref", text "model::tuned")
    ∷ [])

abbrev pub verifier_result : ToolResult ℕ
verifier_result = result (
    ("is_converged", flag true)
    ∷ ("noc_latency_ms", num 2000000)
    ∷ ("energy_pj", num (3 * million))
    ∷ [])

abbrev pub profiler_result : ToolResult ℕ
profiler_result = result (
    ("energy_pj", num (3 * million))
    ∷ ("latency_ns", num (5 * million))
    ∷ ("calibration_factors", factors (("hw", million) ∷ []))
    ∷ [])

abbrev pub mapper_result : ToolResult ℕ
mapper_result = result (("noc_latency_ms", num 2000000) ∷ [])

abbrev pub precision_result : ToolResult ℕ
precision_result = result (
    ("is_converged", flag true)
    ∷ ("calibration_factor", num 1100000)
    ∷ ("raw_energy_pj", num (3 * million))
    ∷ ("precise_energy_pj", num 3300000)
    ∷ [])

abbrev pub entry : String → ToolResult ℕ → Metrics ℕ
entry node r = (node, nested (model_dump r)) ∷ []

abbrev pub metrics : Metrics ℕ
metrics =
    ("tuner", nested (model_dump tuner_result))
    ∷ ("mapper", nested (model_dump mapper_result))
    ∷ ("profiler", nested (model_dump profiler_result))
    ∷ ("verifier", nested (model_dump verifier_result))
    ∷ []

abbrev pub calls : ToolCalls ℕ
calls = record {
  tuner = λ c l n. entry "tuner" tuner_result;
  mapper = λ c m l. entry "mapper" mapper_result;
  profiler = λ c m l f. entry "profiler" profiler_result;
  verifier = λ c m p. entry "verifier" verifier_result;
  precision_check = λ c p. entry "precision_check" precision_result;
}

-- A schema that accepts what is a dict.
abbrev pub schema : OutputSchemas ℕ
schema node (nested d) = ok (result [])
schema node (leaf t) = raise "ValidationError"

abbrev pub candidate : ℕ → ℕ → ℕ → Option ℕ → CandidateEntry ℕ
candidate accuracy energy latency rank = record {
  iteration = 1;
  avg_weight_bits = 4 * million;
  avg_column_pruning_ratio = 100000;
  layer_configs = some (layer ∷ []);
  accuracy = accuracy;
  energy_pj = energy;
  noc_latency_ms = latency;
  is_converged = false;
  pareto_rank = rank;
}

-- The state of a run before its first step, with two targets.
abbrev pub fresh : CimState ℕ
fresh = record {
  messages = [];
  failure_history = [];
  candidate_history = [];
  llm_usage = [];
  planner_decisions = [];
  metrics_store = [];
  calibration_factors = [];
  calibration_provenance = [];
  human_overrides = [];
  search_bound_overrides = [];
  planned_layer_configs = [];
  planner_flagged_anomaly = none;
  model_id = "model";
  hw_spec_id = "hw";
  target_accuracy = some 800000;
  target_energy_pj = some (5 * million);
  target_latency_ms = none;
  iteration_count = 0;
  retry_count = 0;
  is_converged = false;
  needs_hitl = false;
}

-- The state that the evaluator reads.
abbrev pub evaluated : CimState ℕ
evaluated = record fresh { metrics_store = metrics; iteration_count = 1 }
