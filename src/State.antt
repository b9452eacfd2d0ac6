-- ===== src/State.antt =====
-- state.py: the reducers, the state of the pipeline and what a node returns.
pub mod Merge
use autocim_agent.Prelude.{ℕ, String, Bool, Option, none, some, List, [], ◌∷◌, ◌++◌, get_or}
use autocim_agent.Prelude.Dict.{Dict, lookup, insert, update}
use autocim_agent.Schemas.{LayerBitConfig, Member}

-- `merge_dicts`: an empty dict on one side returns the other side itself.
unfoldable pub merge_dicts {ℓ} : {V : Type ℓ} → Dict V → Dict V → Dict V
merge_dicts [] right = right
merge_dicts (x ∷ left) [] = x ∷ left
merge_dicts (x ∷ left) (y ∷ right) = update (x ∷ left) (y ∷ right)

-- A value of `metrics_store`: a dict, or a text or `None`, which is not merged.
pub data Entry {ℓ} (V : Type ℓ) : Type ℓ where
  nested : Dict V → Entry V
  leaf : Option String → Entry V

module _ {ℓ} {V : Type ℓ} where
  -- What `merged[key]` becomes in the loop of `namespaced_metrics_reducer`.
  unfoldable pub merge_entry : Option (Entry V) → Entry V → Entry V
  merge_entry (some (nested old)) (nested new) = nested (update old new)
  merge_entry _ value = value

  unfoldable pub namespaced_metrics_reducer : Dict (Entry V) → Dict (Entry V) → Dict (Entry V)
  unfolding merge_entry
  namespaced_metrics_reducer merged [] = merged
  namespaced_metrics_reducer merged ((key, value) ∷ right) =
      namespaced_metrics_reducer (insert key (merge_entry (lookup key merged) value) merged) right

abbrev pub Metrics : Type 0 → Type 0
Metrics F = Dict (Entry (Member F))

pub record Message : Type 0 where
  pub role : String
  pub content : String

pub record FailureEntry : Type 0 where
  pub iteration : ℕ
  pub retry_count : ℕ
  pub reason : String

-- An entry of `candidate_history`; `pareto_rank` is missing until it has been computed.
pub record CandidateEntry (F : Type 0) : Type 0 where
  pub iteration : ℕ
  pub avg_weight_bits : F
  pub avg_column_pruning_ratio : F
  pub layer_configs : Option (List (LayerBitConfig F))
  pub accuracy : F
  pub energy_pj : F
  pub noc_latency_ms : F
  pub is_converged : Bool
  pub pareto_rank : Option ℕ

pub record LlmCallRecord (F : Type 0) : Type 0 where
  pub node : String
  pub iteration : ℕ
  pub attempts : ℕ
  pub succeeded : Bool
  pub latency_ms : F
  pub input_tokens : Option ℕ
  pub output_tokens : Option ℕ
  pub total_tokens : Option ℕ
  pub estimated_cost_usd : Option F
  pub error : Option String

pub record PlannerDecision (F : Type 0) : Type 0 where
  pub iteration : ℕ
  pub search_tag : String
  pub used_llm : Bool
  pub rationale : String
  pub rationale_ko : Option String
  pub anomaly_note : Option String
  pub layer_configs : List (LayerBitConfig F)

-- A value of `human_overrides`: a number, or anything else, which the bounds ignore.
pub data Override (F : Type 0) : Type 0 where
  number : F → Override F
  other : String → Override F

-- An entry of `calibration_provenance`.
pub data Provenance (F : Type 0) : Type 0 where
  reference : F → String → Option String → Provenance F
  approximated : F → String → Option String → ℕ → ℕ → ℕ → F → Provenance F
  precision_verified : Option F → Option F → ℕ → Provenance F

-- `AutoCIMState`
pub record CimState (F : Type 0) : Type 0 where
  pub messages : List Message
  pub failure_history : List FailureEntry
  pub candidate_history : List (CandidateEntry F)
  pub llm_usage : List (LlmCallRecord F)
  pub planner_decisions : List (PlannerDecision F)
  pub metrics_store : Metrics F
  pub calibration_factors : Dict F
  pub calibration_provenance : Dict (Provenance F)
  pub human_overrides : Dict (Override F)
  pub search_bound_overrides : Dict (Override F)
  pub planned_layer_configs : List (LayerBitConfig F)
  pub planner_flagged_anomaly : Option String
  pub model_id : String
  pub hw_spec_id : String
  pub target_accuracy : Option F
  pub target_energy_pj : Option F
  pub target_latency_ms : Option F
  pub iteration_count : ℕ
  pub retry_count : ℕ
  pub is_converged : Bool
  pub needs_hitl : Bool

-- The partial state that a node returns. A missing plain key is `none`; a missing key with a
-- reducer is the empty value, with which the reducers change nothing.
pub record Update (F : Type 0) : Type 0 where
  pub messages : List Message
  pub failure_history : List FailureEntry
  pub candidate_history : List (CandidateEntry F)
  pub llm_usage : List (LlmCallRecord F)
  pub planner_decisions : List (PlannerDecision F)
  pub metrics_store : Metrics F
  pub calibration_factors : Dict F
  pub calibration_provenance : Dict (Provenance F)
  pub human_overrides : Option (Dict (Override F))
  pub search_bound_overrides : Dict (Override F)
  pub planned_layer_configs : Option (List (LayerBitConfig F))
  pub planner_flagged_anomaly : Option (Option String)
  pub iteration_count : Option ℕ
  pub retry_count : Option ℕ
  pub is_converged : Option Bool
  pub needs_hitl : Option Bool

abbrev pub no_update : {F : Type 0} → Update F
no_update = record {
  messages = [];
  failure_history = [];
  candidate_history = [];
  llm_usage = [];
  planner_decisions = [];
  metrics_store = [];
  calibration_factors = [];
  calibration_provenance = [];
  human_overrides = none;
  search_bound_overrides = [];
  planned_layer_configs = none;
  planner_flagged_anomaly = none;
  iteration_count = none;
  retry_count = none;
  is_converged = none;
  needs_hitl = none;
}

-- Each key of an update goes through the reducer of its annotation; a plain key is overwritten.
unfoldable pub apply_update : {F : Type 0} → CimState F → Update F → CimState F
apply_update s u = record s {
  messages = s.messages ++ u.messages;
  failure_history = s.failure_history ++ u.failure_history;
  candidate_history = s.candidate_history ++ u.candidate_history;
  llm_usage = s.llm_usage ++ u.llm_usage;
  planner_decisions = s.planner_decisions ++ u.planner_decisions;
  metrics_store = namespaced_metrics_reducer s.metrics_store u.metrics_store;
  calibration_factors = merge_dicts s.calibration_factors u.calibration_factors;
  calibration_provenance = merge_dicts s.calibration_provenance u.calibration_provenance;
  human_overrides = get_or u.human_overrides s.human_overrides;
  search_bound_overrides = merge_dicts s.search_bound_overrides u.search_bound_overrides;
  planned_layer_configs = get_or u.planned_layer_configs s.planned_layer_configs;
  planner_flagged_anomaly = get_or u.planner_flagged_anomaly s.planner_flagged_anomaly;
  iteration_count = get_or u.iteration_count s.iteration_count;
  retry_count = get_or u.retry_count s.retry_count;
  is_converged = get_or u.is_converged s.is_converged;
  needs_hitl = get_or u.needs_hitl s.needs_hitl;
}
