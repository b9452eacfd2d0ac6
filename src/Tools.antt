-- ===== src/Tools.antt =====
-- tools/simulators.py: the tools, as functions of their validated inputs.
pub mod Verdict
use autocim_agent.Prelude.{
  ℕ, ◌+◌, String, ◌<>◌, str_eq, Bool, ◌&&◌, true, false, Option, none, some, List, [], ◌∷◌, map,
  length, is_empty, get_or, Exc, ok, raise, if◌then◌else◌,
}
use autocim_agent.Prelude.Dict.{Dict, lookup, insert}
use autocim_agent.Prelude.Float.{Float, zero_f, sum_f}
use autocim_agent.Prelude.Int.{ℤ}
use autocim_agent.Schemas.{
  HwConfig, ExecutionContext, LayerBitConfig, Datum, null, flag, num, text, texts, layers, factors,
  ToolStatus, success, failed, ToolResult,
}
use autocim_agent.Physics.{simulate_cim_profile, simulate_noc_mapping, cim_tech_params}
use autocim_agent.Precision.{simulate_precise_energy, compute_updated_calibration_factor}
use autocim_agent.Targets.{check_targets}

pub record TunerToolInput (F : Type 0) : Type 0 where
  pub execution_context : ExecutionContext
  pub hw_config : HwConfig F
  pub layer_configs : List (LayerBitConfig F)
  pub max_epochs : ℕ
  pub early_stopping_patience : Option ℕ

pub record MapperToolInput (F : Type 0) : Type 0 where
  pub execution_context : ExecutionContext
  pub hw_config : HwConfig F
  pub model_ref : String
  pub layer_configs : List (LayerBitConfig F)
  pub tiling_strategy : Option String

pub record ProfilerToolInput (F : Type 0) : Type 0 where
  pub execution_context : ExecutionContext
  pub hw_config : HwConfig F
  pub model_ref : String
  pub layer_configs : List (LayerBitConfig F)
  pub calibration_factors : Option (Dict F)

pub record VerifierToolInput (F : Type 0) : Type 0 where
  pub execution_context : ExecutionContext
  pub hw_config : HwConfig F
  pub mapper_result : ToolResult F
  pub profiler_result : ToolResult F
  pub input_distribution_ref : Option String

pub record PrecisionCheckToolInput (F : Type 0) : Type 0 where
  pub execution_context : ExecutionContext
  pub hw_config : HwConfig F
  pub layer_configs : List (LayerBitConfig F)
  pub accuracy : Option F
  pub noc_latency_ms : Option F
  pub target_accuracy : Option F
  pub target_energy_pj : Option F
  pub target_latency_ms : Option F

-- A call of `run_qat_tuning`, and what it returns. The trial itself (PyTorch) is a parameter.
pub record QatCall (F : Type 0) : Type 0 where
  pub stage_configs : Dict (ℕ × F)
  pub default_bits : ℤ
  pub default_ratio : F
  pub max_epochs : ℕ
  pub early_stopping_patience : Option ℕ
  pub adc_bits : ℕ

pub record QatResult (F : Type 0) : Type 0 where
  pub accuracy : F
  pub epochs_run : ℕ
  pub device : String

is_success : ToolStatus → Bool
is_success success = true
is_success failed = false

-- `args.tiling_strategy or "default_row_major"`
strategy : Option String → String
strategy none = "default_row_major"
strategy (some s) = if str_eq s "" then "default_row_major" else s

module _ {F : Type 0} ⦃fl : Float F⦄ where
  abbrev pub succeeded : Dict (Datum F) → ToolResult F
  succeeded d = record { status = success; data_ = some d; error = none }

  -- `{lc.layer_name: (lc.weight_bits, lc.column_pruning_ratio) for lc in layer_configs}`
  stage_configs_from : List (LayerBitConfig F) → Dict (ℕ × F) → Dict (ℕ × F)
  stage_configs_from [] d = d
  stage_configs_from (lc ∷ configs) d =
      stage_configs_from configs (insert lc.layer_name (lc.weight_bits, lc.column_pruning_ratio) d)

  total_bits : List (LayerBitConfig F) → ℕ
  total_bits [] = 0
  total_bits (lc ∷ configs) = lc.weight_bits + total_bits configs

  -- `show` renders a whole number.
  unfoldable pub tuner_tool :
      (String → QatCall F → Exc (QatResult F))
      → (ℕ → String)
      → TunerToolInput F
      → Exc (ToolResult F)
  unfolding stage_configs_from total_bits
  tuner_tool qat show args =
      let n = fl.of_nat (length args.layer_configs) in
      let avg_weight_bits = fl.div (fl.of_nat (total_bits args.layer_configs)) n in
      let avg_pruning_ratio =
        fl.div (sum_f (map (λ lc. lc.column_pruning_ratio) args.layer_configs)) n in
      let call : QatCall F = record {
        stage_configs = stage_configs_from args.layer_configs [];
        default_bits = fl.nearest avg_weight_bits;
        default_ratio = avg_pruning_ratio;
        max_epochs = args.max_epochs;
        early_stopping_patience = args.early_stopping_patience;
        adc_bits = args.hw_config.adc_bits;
      } in
      let model_ref =
        args.execution_context.model_id
        <> ("::tuned::iter" <> show args.execution_context.iteration_count) in
      elim (qat args.execution_context.model_id call) [
        | raise e ↦ raise e
        | ok r ↦ ok (
            succeeded (
              ("accuracy", num (fl.round_to r.accuracy 4))
              ∷ ("epochs_run", num (fl.of_nat r.epochs_run))
              ∷ ("model_ref", text model_ref)
              ∷ ("avg_weight_bits", num avg_weight_bits)
              ∷ ("avg_column_pruning_ratio", num avg_pruning_ratio)
              ∷ ("layer_configs", layers args.layer_configs)
              ∷ ("device", text r.device)
              ∷ []))
      ]

  unfoldable pub mapper_tool : MapperToolInput F → Exc (ToolResult F)
  unfolding strategy
  mapper_tool args =
      let mapping = simulate_noc_mapping args.hw_config args.layer_configs cim_tech_params in
      ok (
        succeeded (
          ("noc_latency_ms", num mapping.noc_latency_ms)
          ∷ ("buffer_delay_ms", num mapping.buffer_delay_ms)
          ∷ ("tile_utilization", num mapping.tile_utilization)
          ∷ ("tiles_needed", num (fl.of_nat mapping.tiles_needed))
          ∷ ("tiling_strategy", text (strategy args.tiling_strategy))
          ∷ []))

  -- `calibration_factors.setdefault(hw_spec_id, 1.0)`
  unfoldable pub with_default : String → Dict F → Dict F
  with_default key d = elim (lookup key d) [ none ↦ insert key (fl.of_nat 1) d | some x ↦ d ]

  unfoldable pub profiler_tool : ProfilerToolInput F → Exc (ToolResult F)
  profiler_tool args =
      let profile = simulate_cim_profile args.hw_config args.layer_configs cim_tech_params in
      let given = get_or args.calibration_factors [] in
      let calibration_factors = with_default args.hw_config.hw_spec_id given in
      let factor = get_or (lookup args.hw_config.hw_spec_id given) (fl.of_nat 1) in
      ok (
        succeeded (
          ("energy_pj", num (fl.round_to (fl.mul profile.energy_pj factor) 6))
          ∷ ("latency_ns", num (fl.round_to (fl.mul profile.latency_ns factor) 6))
          ∷ ("calibration_factors", factors calibration_factors)
          ∷ []))

  -- `d.get(key)`, where a missing key gives `None`.
  abbrev pub datum : String → Option (Dict (Datum F)) → Datum F
  datum key none = null
  datum key (some d) = get_or (lookup key d) null

  abbrev pub ir_drop_error_pct : HwConfig F → F
  ir_drop_error_pct hw =
      fl.round_to
        (fl.mul (fl.mul (get_or hw.wire_resistance_ohm_per_um zero_f) (fl.of_nat hw.crossbar_rows))
          (fl.decimal 1 2))
        4

  abbrev pub noise_margin_db : HwConfig F → F
  noise_margin_db hw =
      fl.round_to
        (fl.sub (fl.mul (fl.decimal 602 2) (fl.of_nat hw.adc_bits))
          (fl.mul (fl.of_nat 20) (get_or hw.device_noise_sigma zero_f)))
        4

  unfoldable pub physically_feasible : HwConfig F → Bool
  physically_feasible hw =
      fl.lt (ir_drop_error_pct hw) (fl.of_nat 5) && fl.lt zero_f (noise_margin_db hw)

  unfoldable pub verifier_tool : VerifierToolInput F → Exc (ToolResult F)
  unfolding is_success physically_feasible
  verifier_tool args =
      let is_converged =
        is_success args.mapper_result.status
        && (is_success args.profiler_result.status && physically_feasible args.hw_config) in
      ok (
        succeeded (
          ("ir_drop_error_pct", num (ir_drop_error_pct args.hw_config))
          ∷ ("noise_margin_db", num (noise_margin_db args.hw_config))
          ∷ ("is_converged", flag is_converged)
          ∷ ("noc_latency_ms", datum "noc_latency_ms" args.mapper_result.data_)
          ∷ ("energy_pj", datum "energy_pj" args.profiler_result.data_)
          ∷ []))

  unfoldable pub precision_check_tool : PrecisionCheckToolInput F → Exc (ToolResult F)
  precision_check_tool args =
      let result = simulate_precise_energy args.hw_config args.layer_configs in
      let factor =
        compute_updated_calibration_factor result.raw_energy_pj result.precise_energy_pj in
      let target_errors =
        check_targets args.accuracy (some result.precise_energy_pj) args.noc_latency_ms
          args.target_accuracy args.target_energy_pj args.target_latency_ms in
      ok (
        succeeded (
          ("raw_energy_pj", num (fl.round_to result.raw_energy_pj 6))
          ∷ ("precise_energy_pj", num (fl.round_to result.precise_energy_pj 6))
          ∷ ("calibration_factor", num (fl.round_to factor 6))
          ∷ ("is_converged", flag (is_empty target_errors))
          ∷ ("target_errors", texts target_errors)
          ∷ []))
