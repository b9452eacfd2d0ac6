-- ===== src/Tests/Nodes.antt =====
-- What the theorems on the nodes say of concrete inputs.
use autocim_agent.Prelude.{
  ℕ, suc, min, ◌+◌, ◌*◌, ◌≡◌, ◌≤◌, ◌↔◌, refl, String, true, false, some, List, [], ◌∷◌, length, All,
  arith, ok, map, Returns,
}
use autocim_agent.Prelude.Dict.{Dict, lookup}
use autocim_agent.Prelude.Float.{Float}
use autocim_agent.Schemas.{LayerBitConfig, IsValidLayer, model_dump}
use autocim_agent.State.{apply_update, Override, number, other}
use autocim_agent.Middleware.{get_hw_config}
use autocim_agent.Nodes.{data_of, number_at}
use autocim_agent.Nodes.Evaluator.{
  evaluator_node, evaluator_router, converged, replan, hitl_interrupt, conclude, Assessment,
  max_retry_limit, has_note, layers_at,
}
use autocim_agent.Nodes.Evaluator.Verdict.{Achieves, evaluator_node_converged, conclude_replan}
use autocim_agent.Nodes.Evaluator.Total.{Readable, evaluator_node_total}
use autocim_agent.Nodes.Recheck.{Recheck}
use autocim_agent.Nodes.Recheck.Verdict.{rechecked, recheck_routes}
use autocim_agent.Nodes.Planner.{
  search_bounds, bits_ceiling, clamp_bounds, points_to_stage_configs, bits_max,
}
use autocim_agent.Nodes.Planner.Bounds.{Inside, search_bounds-Inside}
use autocim_agent.Nodes.Planner.Configs.{points_to_stage_configs_valid}
use autocim_agent.Tests.Numbers.{
  million, micro_float, micro_float-IsOrder, micro_float-IsTotal, micro_float-IsRounding,
}
use autocim_agent.Tests.Fixtures.{hw, registry, layer, schema, metrics, evaluated, candidate}

readable : Readable metrics
unfolding data_of number_at layers_at lookup model_dump
readable = record {
  tuner_data = _;
  verifier_data = _;
  bits = some (4 * million);
  pruning = some 100000;
  accuracy = some 900000;
  energy = some (3 * million);
  latency = some 2000000;
  configs = some (layer ∷ []);
  tuner_read = refl;
  verifier_read = refl;
  bits_read = refl;
  pruning_read = refl;
  configs_read = refl;
  accuracy_read = refl;
  energy_read = refl;
  latency_read = refl;
}

abbrev verdict : Returns (evaluator_node schema evaluated)
verdict = evaluator_node_total schema evaluated readable

evaluator_node_converged_example :
    (evaluator_router (apply_update evaluated verdict.0) ≡ converged) ↔ Achieves schema evaluated
evaluator_node_converged_example = evaluator_node_converged schema evaluated verdict.0 verdict.1

abbrev missed : Assessment ℕ
missed = record {
  validation_errors = [];
  hw_verified = true;
  target_errors = "accuracy 0.7 below target 0.8" ∷ [];
  candidate = some (candidate 700000 3000000 2000000 (some 1));
}

goes_back : evaluator_router (apply_update evaluated (conclude evaluated missed)) ≡ replan
unfolding evaluator_router apply_update conclude
goes_back = refl

conclude_replan_example :
    (let t = apply_update evaluated (conclude evaluated missed) in
      (t.retry_count ≡ evaluated.retry_count + 1)
      × (suc t.retry_count ≤ max_retry_limit)
      × (has_note evaluated.planner_flagged_anomaly ≡ false)
      × (length t.failure_history ≡ length evaluated.failure_history + 1))
conclude_replan_example = conclude_replan evaluated missed goes_back

abbrev refuted : Recheck ℕ
refuted = record {
  is_precisely_converged = false;
  calibration_factor = some 1100000;
  raw_energy_pj = some (3 * million);
  precise_energy_pj = some 3300000;
  target_errors = "energy_pj 3.3 above target 3" ∷ [];
}

abbrev digits : ℕ → String
digits n = "n"

recheck_routes_example :
    (let t = rechecked digits evaluated refuted in
      ((evaluator_router t ≡ converged) ↔ (refuted.is_precisely_converged ≡ true))
      × (refuted.is_precisely_converged ≡ false → t.retry_count ≡ evaluated.retry_count + 1)
      × ((evaluator_router t ≡ hitl_interrupt) ↔ (
          (refuted.is_precisely_converged ≡ false) × (max_retry_limit ≤ evaluated.retry_count + 1)))
      × ((evaluator_router t ≡ replan) ↔ (
          (refuted.is_precisely_converged ≡ false)
          × (suc (evaluated.retry_count + 1) ≤ max_retry_limit))))
recheck_routes_example = recheck_routes digits evaluated refuted

abbrev narrowed : Dict (Override ℕ)
narrowed = ("weight_bits_max", number (5 * million)) ∷ ("pruning_ratio_min", other "high") ∷ []

search_bounds-Inside_example :
    Inside
      (search_bounds registry "hw" narrowed).0
      (2 * million, Float.of_nat micro_float (min 8 (min hw.adc_bits hw.dac_bits)))
    × Inside (search_bounds registry "hw" narrowed).1 (0, 500000)
unfolding get_hw_config lookup
search_bounds-Inside_example =
    search_bounds-Inside micro_float-IsOrder micro_float-IsTotal registry "hw" narrowed hw refl
      (omega arith) (omega arith) refl refl

-- A converter of two bits leaves a range up to three bits.
two_bits :
    (search_bounds (("coarse", record hw { adc_bits = 2 }) ∷ []) "coarse" narrowed).0
    ≡ (2 * million, 3 * million)
unfolding search_bounds bits_max bits_ceiling get_hw_config lookup clamp_bounds
two_bits = refl

points_to_stage_configs_valid_example :
    (configs : List (LayerBitConfig ℕ)) × (points_to_stage_configs
        ((4400000, 123456) ∷ [])
        ("conv1" ∷ [])
      ≡ ok configs)
    × (map (λ (lc : LayerBitConfig ℕ). lc.layer_name) configs ≡ "conv1" ∷ [])
    × All (λ (lc : LayerBitConfig ℕ). IsValidLayer micro_float lc × (lc.weight_bits ≤ 7)) configs
points_to_stage_configs_valid_example =
    points_to_stage_configs_valid micro_float-IsOrder micro_float-IsTotal micro_float-IsRounding
      (2 * million, 7 * million) (0, 500000) ("conv1" ∷ []) ((4400000, 123456) ∷ []) 7 (omega arith)
      (omega arith) refl ((refl, refl), (refl, refl), tt)
