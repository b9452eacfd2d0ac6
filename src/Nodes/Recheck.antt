-- ===== src/Nodes/Recheck.antt =====
-- nodes/precision_verifier.py
pub mod Verdict
use autocim_agent.Prelude.{
  ℕ, ◌+◌, String, ◌<>◌, Bool, true, false, Option, none, some, List, [], ◌∷◌, leb, Exc, ok, raise,
  ◌>>=◌, if◌then◌else◌,
}
use autocim_agent.Prelude.Dict.{Dict}
use autocim_agent.Prelude.Float.{Float}
use autocim_agent.Schemas.{Datum, null, texts, layers}
use autocim_agent.State.{CimState, Update, no_update, Provenance, precision_verified, Message}
use autocim_agent.Targets.{show_option}
use autocim_agent.Nodes.{
  ToolCalls, data_of, value_at, number_at, truthy_datum, build_execution_context,
}
use autocim_agent.Nodes.Evaluator.{max_retry_limit, join}

-- What the node reads from the result of the precise check.
pub record Recheck (F : Type 0) : Type 0 where
  pub is_precisely_converged : Bool
  pub calibration_factor : Option F
  pub raw_energy_pj : Option F
  pub precise_energy_pj : Option F
  pub target_errors : List String

module _ {F : Type 0} where
  -- `precision_data.get("target_errors") or ["precise re-verification failed"]`
  reasons_at : Dict (Datum F) → Exc (List String)
  reasons_at d = elim (value_at d "target_errors") [
    | null ↦ ok ("precise re-verification failed" ∷ [])
    | texts l ↦ elim l [ [] ↦ ok ("precise re-verification failed" ∷ []) | t ∷ l ↦ ok (t ∷ l) ]
    | _ ↦ raise "TypeError"
  ]

  -- `{hw_spec_id: factor}` if there is a factor.
  factor_entry : String → Option F → Dict F
  factor_entry hw_spec_id none = []
  factor_entry hw_spec_id (some factor) = (hw_spec_id, factor) ∷ []

  provenance_entry : CimState F → Recheck F → Dict (Provenance F)
  provenance_entry s r = elim r.calibration_factor [
    | none ↦ []
    | some factor ↦
        (s.hw_spec_id, precision_verified r.raw_energy_pj r.precise_energy_pj s.iteration_count)
        ∷ []
  ]

module _ {F : Type 0} ⦃fl : Float F⦄ (calls : ToolCalls F) where
  -- `tuner_data.get("layer_configs") or []`
  abbrev layers_or_empty : Datum F → Datum F
  layers_or_empty d = if truthy_datum d then d else layers []

  unfoldable pub recheck : CimState F → Exc (Recheck F)
  unfolding reasons_at
  recheck s = do
    tuner_data ← data_of s.metrics_store "tuner"
    verifier_data ← data_of s.metrics_store "verifier"
    let result = calls.precision_check (build_execution_context s) (record {
      layer_configs = layers_or_empty (value_at tuner_data "layer_configs");
      accuracy = value_at tuner_data "accuracy";
      noc_latency_ms = value_at verifier_data "noc_latency_ms";
      target_accuracy = s.target_accuracy;
      target_energy_pj = s.target_energy_pj;
      target_latency_ms = s.target_latency_ms;
    })
    precision_data ← data_of result "precision_check"
    factor ← number_at precision_data "calibration_factor"
    raw ← number_at precision_data "raw_energy_pj"
    precise ← number_at precision_data "precise_energy_pj"
    let confirmed = truthy_datum (value_at precision_data "is_converged")
    reasons ← if confirmed then ok [] else reasons_at precision_data
    ok (record {
      is_precisely_converged = confirmed;
      calibration_factor = factor;
      raw_energy_pj = raw;
      precise_energy_pj = precise;
      target_errors = reasons;
    })

abbrev pub system : String → Message
system content = record { role = "system"; content = content }

module _ {F : Type 0} ⦃fl : Float F⦄ (show : ℕ → String) where
  -- The partial state that the node returns.
  unfoldable pub conclude_recheck : CimState F → Recheck F → Update F
  unfolding factor_entry provenance_entry
  conclude_recheck s r =
      let base : Update F = record (no_update {F = F}) {
        calibration_factors = factor_entry s.hw_spec_id r.calibration_factor;
        calibration_provenance = provenance_entry s r;
      } in
      let retries = s.retry_count + 1 in
      let reason = "precision check: " <> join r.target_errors in
      let prefix = "[precision_verifier] iteration " <> show s.iteration_count in
      if r.is_precisely_converged
      then record base {
        is_converged = some true;
        needs_hitl = some false;
        messages =
            system (
              prefix
              <> (": precisely verified -- precise_energy_pj=" <> show_option r.precise_energy_pj))
            ∷ [];
      }
      else record base {
        is_converged = some false;
        needs_hitl = some (leb max_retry_limit retries);
        retry_count = some retries;
        failure_history =
            record { iteration = s.iteration_count; retry_count = retries; reason = reason } ∷ [];
        messages =
            system (prefix <> (": " <> (reason <> " -- fast-approximation was too optimistic")))
            ∷ [];
      }

  unfoldable pub precision_verifier_node : ToolCalls F → CimState F → Exc (Update F)
  precision_verifier_node calls s = do r ← recheck calls s; ok (conclude_recheck s r)
