-- ===== src/Nodes/Evaluator/Total.antt =====
-- The evaluator returns where each of its reads of the metrics store does.
use autocim_agent.Prelude.{
  ℕ, ◌≡◌, refl, Bool, true, false, Option, none, List, [], is_empty, ok, Returns, bind-Returns,
  if◌then◌else◌,
}
use autocim_agent.Prelude.Dict.{Dict}
use autocim_agent.Prelude.Float.{Float}
use autocim_agent.Schemas.{Datum, LayerBitConfig}
use autocim_agent.State.{CimState, CandidateEntry, Metrics}
use autocim_agent.Nodes.{OutputSchemas, data_of, number_at}
use autocim_agent.Nodes.Evaluator.{
  assess, assess_data, validate_metrics, evaluator_node, target_reasons, build_candidate_entry,
  layers_at,
}

-- The data of the two nodes are dicts, and what is read from them as a number is a number or `None`.
pub record Readable {F : Type 0} (metrics : Metrics F) : Type 0 where
  pub tuner_data : Dict (Datum F)
  pub verifier_data : Dict (Datum F)
  pub bits : Option F
  pub pruning : Option F
  pub accuracy : Option F
  pub energy : Option F
  pub latency : Option F
  pub configs : Option (List (LayerBitConfig F))
  pub tuner_read : data_of metrics "tuner" ≡ ok tuner_data
  pub verifier_read : data_of metrics "verifier" ≡ ok verifier_data
  pub bits_read : number_at tuner_data "avg_weight_bits" ≡ ok bits
  pub pruning_read : number_at tuner_data "avg_column_pruning_ratio" ≡ ok pruning
  pub configs_read : layers_at tuner_data "layer_configs" ≡ ok configs
  pub accuracy_read : number_at tuner_data "accuracy" ≡ ok accuracy
  pub energy_read : number_at verifier_data "energy_pj" ≡ ok energy
  pub latency_read : number_at verifier_data "noc_latency_ms" ≡ ok latency

module _ {F : Type 0} ⦃fl : Float F⦄ where
  target_reasons_total :
      (s : CimState F) (r : Readable s.metrics_store)
      → Returns (target_reasons s r.tuner_data r.verifier_data)
  unfolding target_reasons
  target_reasons_total s r =
      bind-Returns _ _ _ r.accuracy_read
        (bind-Returns _ _ _ r.energy_read (bind-Returns _ _ _ r.latency_read (_, refl)))

  pub build_total :
      (metrics : Metrics F) (r : Readable metrics) (history : List (CandidateEntry F)) (n : ℕ)
      (c e : Bool)
      → Returns (build_candidate_entry history metrics n c e)
  unfolding build_candidate_entry
  build_total metrics r history n c true = (none, refl)
  build_total metrics r history n c false = bind-Returns _ _ _ r.tuner_read (
      bind-Returns _ _ _ r.verifier_read (
        bind-Returns _ _ _ r.bits_read (
          bind-Returns _ _ _ r.pruning_read (
            bind-Returns _ _ _ r.configs_read (
              bind-Returns _ _ _ r.accuracy_read (
                bind-Returns _ _ _ r.energy_read (bind-Returns _ _ _ r.latency_read (_, refl))))))))

module _ {F : Type 0} ⦃fl : Float F⦄ (schema : OutputSchemas F) where
  assess_data_total :
      (s : CimState F) (r : Readable s.metrics_store)
      → Returns (assess_data schema s r.tuner_data r.verifier_data)
  unfolding assess_data
  assess_data_total s r =
      let (reasons, e) = checked (is_empty (validate_metrics schema s.metrics_store)) in
      bind-Returns _ _ reasons e
        (bind-Returns _ _ _ (build_total s.metrics_store r _ _ _ _).1 (_, refl))
    where
      checked :
          (b : Bool) → Returns (if b then target_reasons s r.tuner_data r.verifier_data else ok [])
      checked true = target_reasons_total s r
      checked false = ([], refl)

  -- On a readable metrics store the evaluator returns, whatever the verdict.
  pub evaluator_node_total :
      (s : CimState F) → Readable s.metrics_store → Returns (evaluator_node schema s)
  unfolding evaluator_node assess
  evaluator_node_total s r =
      bind-Returns (assess schema s) _ _
        (bind-Returns _ _ _ r.tuner_read
          (bind-Returns _ _ _ r.verifier_read (assess_data_total s r))).1
        (_, refl)
