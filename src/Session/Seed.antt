-- ===== src/Session/Seed.antt =====
-- main.py: the state that a new session starts from, and what a session leaves to later ones.
use autocim_agent.Prelude.{
  String, ◌<>◌, Bool, false, Option, none, some, List, [], ◌∷◌, length, get_or, is_empty,
  if◌then◌else◌, ℕ, Exc, ok, ◌>>=◌,
}
use autocim_agent.Prelude.Dict.{Dict, lookup}
use autocim_agent.Prelude.Float.{Float}
use autocim_agent.Schemas.{HwConfig}
use autocim_agent.State.{CimState, CandidateEntry, merge_dicts}
use autocim_agent.Calibration.{
  bootstrap_calibration_factors, bootstrap_calibration_provenance,
  bootstrap_approximate_calibration_factors, bootstrap_approximate_calibration_provenance,
}
use autocim_agent.Calibration.References.{known_references}
use autocim_agent.Store.{
  StoreOps, get_pareto_solutions, put_pareto_solutions, get_calibration_factors,
  put_calibration_factors,
}
use autocim_agent.Session.{persist_candidates}
use autocim_agent.Tools.{QatCall, QatResult}
use autocim_agent.Warmup.Batch.{Batch, run_parallel_warmup}
use autocim_agent.Pipeline.{Services}

-- The targets of a run.
pub record Targets (F : Type 0) : Type 0 where
  pub target_accuracy : Option F
  pub target_energy_pj : Option F
  pub target_latency_ms : Option F

module _ {F : Type 0} ⦃fl : Float F⦄ where
  unfoldable pub build_initial_state :
      String → HwConfig F → Targets F → (allow_approximate_calibration : Bool) → CimState F
  build_initial_state model_id hw targets allow_approximate_calibration = record {
    messages = [];
    failure_history = [];
    candidate_history = [];
    llm_usage = [];
    planner_decisions = [];
    metrics_store = [];
    calibration_factors =
        (if allow_approximate_calibration
          then bootstrap_approximate_calibration_factors known_references hw
          else bootstrap_calibration_factors known_references hw);
    calibration_provenance =
        (if allow_approximate_calibration
          then bootstrap_approximate_calibration_provenance known_references hw
          else bootstrap_calibration_provenance known_references hw);
    human_overrides = [];
    search_bound_overrides = [];
    planned_layer_configs = [];
    planner_flagged_anomaly = none;
    model_id = model_id;
    hw_spec_id = hw.hw_spec_id;
    target_accuracy = targets.target_accuracy;
    target_energy_pj = targets.target_energy_pj;
    target_latency_ms = targets.target_latency_ms;
    iteration_count = 0;
    retry_count = 0;
    is_converged = false;
    needs_hitl = false;
  }

-- `_pareto_store_key`
abbrev pub pareto_store_key : String → String → String
pareto_store_key model_id hw_spec_id = model_id <> ("::" <> hw_spec_id)

-- The long-term store as its two memories read and write it.
pub record LongTerm (S F : Type 0) : Type 0 where
  pub hw_store : StoreOps S (Dict F)
  pub model_store : StoreOps S (Dict (List (CandidateEntry F)))

module _ {S F : Type 0} (long_term : LongTerm S F) (model_id hw_spec_id : String) where
  -- `(get_pareto_solutions(key) or {}).get("candidates", [])`, where there may be none
  unfoldable pub stored_candidates : S → Option (List (CandidateEntry F))
  stored_candidates store = lookup "candidates" (
      get_or
        (get_pareto_solutions long_term.model_store store (pareto_store_key model_id hw_spec_id))
        [])

module _ {S F : Type 0} (long_term : LongTerm S F) (hw_spec_id : String) where
  -- The calibration factor of the run's hardware.
  unfoldable pub persist_factor : S → Option F → S
  persist_factor store none = store
  persist_factor store (some factor) =
      put_calibration_factors long_term.hw_store store hw_spec_id ((hw_spec_id, factor) ∷ [])

module _ {S F : Type 0} ⦃fl : Float F⦄ (long_term : LongTerm S F)
    (model_id hw_spec_id : String) where
  unfoldable pub persist_long_term_learnings : S → CimState F → S
  unfolding persist_factor
  persist_long_term_learnings store s =
      let calibrated =
        persist_factor long_term hw_spec_id store (lookup hw_spec_id s.calibration_factors) in
      let existing = stored_candidates long_term model_id hw_spec_id calibrated in
      if is_empty s.candidate_history
      then calibrated
      else put_pareto_solutions long_term.model_store calibrated
          (pareto_store_key model_id hw_spec_id)
          (("candidates", get_or (persist_candidates existing s.candidate_history) []) ∷ [])

  -- What earlier sessions have learned about the hardware and the model goes over the initial state.
  unfoldable pub recall : S → CimState F → CimState F
  recall store s = record s {
    calibration_factors =
        merge_dicts s.calibration_factors
          (get_or (get_calibration_factors long_term.hw_store store hw_spec_id) []);
    candidate_history =
        get_or (stored_candidates long_term model_id hw_spec_id store) s.candidate_history;
  }

module _ {F : Type 0} where
  -- What the warm-up batch puts into the state.
  abbrev pub with_batch : CimState F → Batch F → CimState F
  with_batch s batch = record s {
    candidate_history = batch.candidate_history;
    failure_history = batch.failure_history;
    planner_decisions = batch.planner_decisions;
    iteration_count = length batch.candidate_history;
  }

-- A warm-up in which the trials finish in some order, or which Ctrl-C breaks off.
pub data Trials : Type 0 where
  finish_in : List ℕ → Trials
  broken_off : Trials

module _ {F G : Type 0} ⦃fl : Float F⦄ (services : Services F G)
    (qat : String → QatCall F → Exc (QatResult F)) (model_id : String) (hw : HwConfig F) where
  warm : CimState F → Trials → Exc (Option (CimState F))
  warm s broken_off = ok none
  warm s (finish_in order) = do
    batch ←
        run_parallel_warmup services.planning services.schema qat model_id hw
          (some s.calibration_factors) order services.registry
    ok (some (with_batch s batch))

  -- The warm-up is left out where earlier sessions have left candidates.
  unfoldable pub warm_up : Trials → CimState F → Exc (Option (CimState F))
  unfolding warm
  warm_up trials s = if is_empty s.candidate_history then warm s trials else ok (some s)
