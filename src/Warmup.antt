-- ===== src/Warmup.antt =====
-- tools/batch_warmup.py: one warm-up candidate through the tools, and the pass over all results.
pub mod Batch
pub mod Finishes
pub mod Numbers
pub mod Order
pub mod Ranks
pub mod Total
use autocim_agent.Prelude.{
  ℕ, suc, ◌+◌, String, ◌<>◌, not, ◌&&◌, Option, none, some, List, [], ◌∷◌, ◌++◌, get_or, is_empty,
  Exc, ok, raise, ◌>>=◌, if◌then◌else◌,
}
use autocim_agent.Prelude.Dict.{Dict, lookup}
use autocim_agent.Prelude.Float.{Float}
use autocim_agent.Schemas.{
  HwConfig, ExecutionContext, LayerBitConfig, Datum, null, text, layers, success, failed,
  ToolResult, Member, model_dump,
}
use autocim_agent.State.{Entry, nested, Metrics, CandidateEntry, FailureEntry}
use autocim_agent.Tools.{QatCall, QatResult, tuner_tool, mapper_tool, profiler_tool, verifier_tool}
use autocim_agent.Nodes.{OutputSchemas, data_of, value_at, truthy_datum}
use autocim_agent.Nodes.Evaluator.{join, show_error, validate_metrics, build_candidate_entry}
use autocim_agent.Nodes.Workers.{default_max_epochs}

module _ {F : Type 0} where
  -- A dumped result under a node's name.
  abbrev pub dumped : String → ToolResult F → String × Entry (Member F)
  dumped node r = (node, nested (model_dump r))

  -- `_failed_result_dict`
  abbrev pub failed_result : String → ToolResult F
  failed_result error = record { status = failed; data_ = none; error = some error }

  -- `tuner_data.get("model_ref", model_id)`, which pydantic reads as a text.
  model_ref_of : Dict (Datum F) → String → Exc String
  model_ref_of d model_id = elim (get_or (lookup "model_ref" d) (text model_id)) [
    | text t ↦ ok t
    | _ ↦ raise "ValidationError"
  ]

  -- `tuner_data.get("layer_configs") or []`
  layers_of : Dict (Datum F) → Exc (List (LayerBitConfig F))
  layers_of d = elim (value_at d "layer_configs") [
    | null ↦ ok []
    | layers l ↦ ok l
    | _ ↦ raise "ValidationError"
  ]

module _ {F : Type 0} ⦃fl : Float F⦄ (qat : String → QatCall F → Exc (QatResult F))
    (show : ℕ → String) (model_id : String) (hw : HwConfig F) (factors : Option (Dict F)) where
  abbrev warmup_context : ExecutionContext
  warmup_context = record {
    session_id = model_id <> ("::" <> hw.hw_spec_id);
    model_id = model_id;
    hw_spec_id = hw.hw_spec_id;
    iteration_count = 0;
    user_id = none;
  }

  -- The three tools after a successful trial.
  simulate : ToolResult F → Exc (Metrics F)
  simulate tuned = do
    let tuner_data = get_or tuned.data_ []
    model_ref ← model_ref_of tuner_data model_id
    configs ← layers_of tuner_data
    mapper ← mapper_tool (record {
      execution_context = warmup_context;
      hw_config = hw;
      model_ref = model_ref;
      layer_configs = configs;
      tiling_strategy = none;
    })
    profiler ← profiler_tool (record {
      execution_context = warmup_context;
      hw_config = hw;
      model_ref = model_ref;
      layer_configs = configs;
      calibration_factors = factors;
    })
    verifier ← verifier_tool (record {
      execution_context = warmup_context;
      hw_config = hw;
      mapper_result = mapper;
      profiler_result = profiler;
      input_distribution_ref = none;
    })
    ok (
        dumped "tuner" tuned
        ∷ dumped "mapper" mapper
        ∷ dumped "profiler" profiler
        ∷ dumped "verifier" verifier
        ∷ [])

  -- After a failed trial the other tools count as failed for its reason.
  not_simulated : ToolResult F → Metrics F
  not_simulated tuned =
      let reason = "tuner failed: " <> show_error tuned.error in
      dumped "tuner" tuned
      ∷ dumped "mapper" (failed_result reason)
      ∷ dumped "profiler" (failed_result reason)
      ∷ dumped "verifier" (failed_result reason)
      ∷ []

  -- `_evaluate_one_candidate`
  unfoldable pub evaluate_one_candidate : List (LayerBitConfig F) → Exc (Metrics F)
  unfolding simulate not_simulated model_ref_of layers_of
  evaluate_one_candidate layer_configs =
      tuner_tool qat show (record {
        execution_context = warmup_context;
        hw_config = hw;
        layer_configs = layer_configs;
        max_epochs = default_max_epochs;
        early_stopping_patience = none;
      })
      >>= (λ tuned. elim tuned.status [
        | failed ↦ ok (not_simulated tuned)
        | success ↦ simulate tuned
      ])

module _ {F : Type 0} where
  -- A candidate joins the history, and anything else the failures.
  abbrev pub filed :
      Option (CandidateEntry F)
      → FailureEntry
      → List (CandidateEntry F) × List FailureEntry
      → List (CandidateEntry F) × List FailureEntry
  filed (some c) failure (history, failures) = (history ++ (c ∷ []), failures)
  filed none failure (history, failures) = (history, failures ++ (failure ∷ []))

module _ {F : Type 0} ⦃fl : Float F⦄ (schema : OutputSchemas F) where
  warmup_failure : ℕ → List String → FailureEntry
  warmup_failure iteration errors = record {
    iteration = iteration;
    retry_count = 0;
    reason =
        (if is_empty errors then "verifier reported not converged" else join errors)
        <> " (parallel warm-up candidate)";
  }

  -- The second pass of `run_parallel_warmup`, from the candidate with index `i` on.
  unfoldable pub collect :
      ℕ
      → List (Metrics F)
      → List (CandidateEntry F) × List FailureEntry
      → Exc (List (CandidateEntry F) × List FailureEntry)
  unfolding warmup_failure
  collect i [] found = ok found
  collect i (metrics ∷ results) found = data_of metrics "verifier" >>= (λ verifier_data.
      build_candidate_entry found.0 metrics (i + 1)
        (is_empty (validate_metrics schema metrics)
          && truthy_datum (value_at verifier_data "is_converged"))
        (not (is_empty (validate_metrics schema metrics)))
      >>= (λ entry.
          collect (suc i) results
            (filed entry (warmup_failure (i + 1) (validate_metrics schema metrics)) found)))
