-- ===== src/Nodes/Evaluator.antt =====
-- nodes/evaluator.py
pub mod Verdict
pub mod Total
pub mod Candidate
use autocim_agent.Prelude.{
  ℕ, ◌+◌, String, ◌<>◌, str_eq, Bool, true, false, not, ◌&&◌, ◌||◌, Option, none, some, List, [],
  ◌∷◌, ◌++◌, is_empty, leb, Exc, ok, raise, ◌>>=◌, if◌then◌else◌,
}
use autocim_agent.Prelude.Dict.{Dict, lookup}
use autocim_agent.Prelude.Float.{Float}
use autocim_agent.Schemas.{Datum, null, layers, LayerBitConfig, success, failed, ToolResult, Member}
use autocim_agent.State.{Entry, Metrics, CimState, Update, no_update, CandidateEntry}
use autocim_agent.Targets.{check_targets}
use autocim_agent.Search.Pareto.{compute_pareto_rank}
use autocim_agent.Nodes.{OutputSchemas, data_of, value_at, number_at, truthy_datum}

abbrev pub max_retry_limit : ℕ
max_retry_limit = 3

-- `"; ".join(texts)`
unfoldable pub join : List String → String
join [] = ""
join (t ∷ []) = t
join (t ∷ u ∷ rest) = t <> ("; " <> join (u ∷ rest))

abbrev pub show_error : Option String → String
show_error none = "None"
show_error (some e) = e

module _ {F : Type 0} (schema : OutputSchemas F) where
  -- The errors of one node's entry.
  unfoldable pub status_errors : String → ToolResult F → List String
  status_errors node r = elim r.status [
    | success ↦ []
    | failed ↦ (node <> (": status=ToolStatus.FAILED, error=" <> show_error r.error)) ∷ []
  ]

  unfoldable pub entry_errors : String → Option (Entry (Member F)) → List String
  unfolding status_errors
  entry_errors node none = (node <> ": missing from metrics_store") ∷ []
  entry_errors node (some raw) = elim (schema node raw) [
    | raise e ↦ (node <> (": " <> e)) ∷ []
    | ok parsed ↦ status_errors node parsed
  ]

  unfoldable pub validate_metrics : Metrics F → List String
  validate_metrics metrics =
      entry_errors "tuner" (lookup "tuner" metrics)
      ++ (entry_errors "mapper" (lookup "mapper" metrics)
          ++ (entry_errors "profiler" (lookup "profiler" metrics)
              ++ entry_errors "verifier" (lookup "verifier" metrics)))

module _ {F : Type 0} where
  -- `tuner_data.get("layer_configs")`
  unfoldable pub layers_at : Dict (Datum F) → String → Exc (Option (List (LayerBitConfig F)))
  layers_at d key = elim (value_at d key) [
    | null ↦ ok none
    | layers l ↦ ok (some l)
    | _ ↦ raise "TypeError"
  ]

module _ {F : Type 0} ⦃fl : Float F⦄ where
  -- The candidate with its rank, if none of its numbers is missing.
  ranked :
      List (CandidateEntry F)
      → ℕ
      → Bool
      → Option (List (LayerBitConfig F))
      → Option F
      → Option F
      → Option F
      → Option F
      → Option F
      → Option (CandidateEntry F)
  ranked history iteration converged configs (some bits) (some pruning) (some accuracy)
        (some energy) (some latency) =
      let candidate : CandidateEntry F = record {
        iteration = iteration;
        avg_weight_bits = bits;
        avg_column_pruning_ratio = pruning;
        layer_configs = configs;
        accuracy = accuracy;
        energy_pj = energy;
        noc_latency_ms = latency;
        is_converged = converged;
        pareto_rank = none;
      } in
      some (record candidate { pareto_rank = some (compute_pareto_rank candidate history) })
  ranked history iteration converged configs _ _ _ _ _ = none

  unfoldable pub build_candidate_entry :
      List (CandidateEntry F) → Metrics F → ℕ → Bool → Bool → Exc (Option (CandidateEntry F))
  unfolding ranked
  build_candidate_entry history metrics iteration is_converged has_validation_errors =
      if has_validation_errors then ok none else do
        tuner_data ← data_of metrics "tuner"
        verifier_data ← data_of metrics "verifier"
        bits ← number_at tuner_data "avg_weight_bits"
        pruning ← number_at tuner_data "avg_column_pruning_ratio"
        configs ← layers_at tuner_data "layer_configs"
        accuracy ← number_at tuner_data "accuracy"
        energy ← number_at verifier_data "energy_pj"
        latency ← number_at verifier_data "noc_latency_ms"
        ok (ranked history iteration is_converged configs bits pruning accuracy energy latency)

  -- The reasons of `check_targets`, read from the two nodes' data.
  unfoldable pub target_reasons : CimState F → Dict (Datum F) → Dict (Datum F) → Exc (List String)
  target_reasons s tuner_data verifier_data = do
    accuracy ← number_at tuner_data "accuracy"
    energy ← number_at verifier_data "energy_pj"
    latency ← number_at verifier_data "noc_latency_ms"
    ok (
        check_targets accuracy energy latency s.target_accuracy s.target_energy_pj
          s.target_latency_ms)

-- What the first half of `evaluator_node` finds out.
pub record Assessment (F : Type 0) : Type 0 where
  pub validation_errors : List String
  pub hw_verified : Bool
  pub target_errors : List String
  pub candidate : Option (CandidateEntry F)

-- `bool(note)`
abbrev pub has_note : Option String → Bool
has_note none = false
has_note (some note) = not (str_eq note "")

module _ {F : Type 0} where
  listed : Option (CandidateEntry F) → List (CandidateEntry F)
  listed none = []
  listed (some c) = c ∷ []

  abbrev pub converges : Assessment F → Bool
  converges a = a.hw_verified && is_empty a.target_errors

  failure_reason : Assessment F → String
  failure_reason a =
      if not (is_empty a.validation_errors)
      then join a.validation_errors
      else if not a.hw_verified
      then "verifier reported not converged"
      else join a.target_errors

  -- The second half of `evaluator_node`: the partial state that it returns.
  unfoldable pub conclude : CimState F → Assessment F → Update F
  unfolding listed failure_reason
  conclude s a =
      let base : Update F = no_update in
      let retries = s.retry_count + 1 in
      if converges a
      then record base {
        is_converged = some true;
        needs_hitl = some false;
        candidate_history = listed a.candidate;
      }
      else record base {
        is_converged = some false;
        needs_hitl = some (leb max_retry_limit retries || has_note s.planner_flagged_anomaly);
        retry_count = some retries;
        failure_history =
            record {
              iteration = s.iteration_count;
              retry_count = retries;
              reason = failure_reason a;
            }
            ∷ [];
        candidate_history = listed a.candidate;
      }

-- The three labels of `evaluator_router`.
pub data Route : Type 0 where
  converged hitl_interrupt replan : Route

unfoldable pub evaluator_router : {F : Type 0} → CimState F → Route
evaluator_router s =
    if s.is_converged then converged else if s.needs_hitl then hitl_interrupt else replan

module _ {F : Type 0} ⦃fl : Float F⦄ (schema : OutputSchemas F) where
  -- The assessment, once the two nodes' data have been read.
  unfoldable pub assess_data : CimState F → Dict (Datum F) → Dict (Datum F) → Exc (Assessment F)
  assess_data s tuner_data verifier_data = do
    let validation_errors = validate_metrics schema s.metrics_store
    let hw_verified =
        is_empty validation_errors && truthy_datum (value_at verifier_data "is_converged")
    target_errors ←
        if is_empty validation_errors then target_reasons s tuner_data verifier_data else ok []
    candidate ←
        build_candidate_entry s.candidate_history s.metrics_store s.iteration_count
          (hw_verified && is_empty target_errors) (not (is_empty validation_errors))
    ok (record {
      validation_errors = validation_errors;
      hw_verified = hw_verified;
      target_errors = target_errors;
      candidate = candidate;
    })

  unfoldable pub assess : CimState F → Exc (Assessment F)
  assess s = do
    tuner_data ← data_of s.metrics_store "tuner"
    verifier_data ← data_of s.metrics_store "verifier"
    assess_data s tuner_data verifier_data

  unfoldable pub evaluator_node : CimState F → Exc (Update F)
  evaluator_node s = do a ← assess s; ok (conclude s a)
