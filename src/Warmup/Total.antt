-- ===== src/Warmup/Total.antt =====
-- The pass over the warm-up results returns: what the tools give is what it reads.
use autocim_agent.Prelude.{
  ℕ, suc, ◌+◌, ◌≡◌, refl, subst, not, is_empty, ◌&&◌, String, Option, some, List, [], ◌∷◌, All, Exc,
  ok, raise, ok-injective, Returns, bind-Returns,
}
use autocim_agent.Prelude.Dict.{Dict, lookup}
use autocim_agent.Prelude.Float.{Float}
use autocim_agent.Schemas.{HwConfig, LayerBitConfig, model_dump}
use autocim_agent.State.{Metrics}
use autocim_agent.Tools.{QatCall, QatResult, tuner_tool, mapper_tool, profiler_tool, verifier_tool}
use autocim_agent.Nodes.{OutputSchemas, data_of, number_at, value_at, truthy_datum}
use autocim_agent.Nodes.Evaluator.{layers_at, validate_metrics}
use autocim_agent.Nodes.Evaluator.Total.{Readable, build_total}
use autocim_agent.Warmup.{
  evaluate_one_candidate, simulate, model_ref_of, layers_of, collect, filed, warmup_failure,
}
use autocim_agent.Warmup.Ranks.{Found}

module _ {F : Type 0} ⦃fl : Float F⦄ (qat : String → QatCall F → Exc (QatResult F))
    (show : ℕ → String) (model_id : String) (hw : HwConfig F) (factors : Option (Dict F)) where
  -- The tools have given these metrics for some configuration.
  abbrev pub Evaluated : Metrics F → Type 0
  Evaluated metrics =
      (configs : List (LayerBitConfig F)) × (evaluate_one_candidate qat show model_id hw factors
          configs
        ≡ ok metrics)

  -- The metrics of a trial are readable, whatever its result.
  trial-Readable :
      (trial : Exc (QatResult F)) (configs : List (LayerBitConfig F)) (metrics : Metrics F)
      → evaluate_one_candidate (λ model call. trial) show model_id hw factors configs ≡ ok metrics
      → Readable metrics
  unfolding evaluate_one_candidate simulate model_ref_of layers_of tuner_tool mapper_tool
      profiler_tool verifier_tool data_of number_at layers_at lookup model_dump
  trial-Readable (raise e) configs metrics h = absurd (cc h)
  trial-Readable (ok r) configs metrics h =
      subst (λ m. Readable m) (ok-injective _ _ h)
        (record {
          tuner_data = _;
          verifier_data = _;
          bits = some _;
          pruning = some _;
          accuracy = some _;
          energy = some _;
          latency = some _;
          configs = some configs;
          tuner_read = refl;
          verifier_read = refl;
          bits_read = refl;
          pruning_read = refl;
          configs_read = refl;
          accuracy_read = refl;
          energy_read = refl;
          latency_read = refl;
        })

  Evaluated-Readable : (metrics : Metrics F) → Evaluated metrics → Readable metrics
  unfolding evaluate_one_candidate simulate model_ref_of layers_of tuner_tool mapper_tool
      profiler_tool verifier_tool data_of number_at layers_at lookup model_dump
  Evaluated-Readable metrics (configs, h) = trial-Readable (qat model_id _) configs metrics h

  trial-Returns :
      (trial : Exc (QatResult F)) (configs : List (LayerBitConfig F))
      → Returns trial
      → Returns (evaluate_one_candidate (λ model call. trial) show model_id hw factors configs)
  unfolding evaluate_one_candidate simulate model_ref_of layers_of tuner_tool mapper_tool
      profiler_tool verifier_tool lookup
  trial-Returns (raise e) configs h = absurd (cc (h.1))
  trial-Returns (ok r) configs h = (_, refl)

  -- If the training returns, so does the evaluation of a candidate.
  pub evaluate_total :
      ((model : String) (call : QatCall F) → Returns (qat model call))
      → (configs : List (LayerBitConfig F))
      → Returns (evaluate_one_candidate qat show model_id hw factors configs)
  unfolding evaluate_one_candidate tuner_tool
  evaluate_total trained configs = trial-Returns (qat model_id _) configs (trained model_id _)

  module _ (schema : OutputSchemas F) where
    -- The pass returns.
    pub collect_total :
        (results : List (Metrics F)) (i : ℕ) (found : Found F)
        → All Evaluated results
        → Returns (collect schema i results found)
    unfolding collect
    collect_total [] i found tt = (found, refl)
    collect_total (metrics ∷ results) i found (e, es) =
        let r = Evaluated-Readable metrics e in
        let errors = validate_metrics schema metrics in
        let verified = is_empty errors && truthy_datum (value_at r.verifier_data "is_converged") in
        let built = build_total metrics r found.0 (i + 1) verified (not (is_empty errors)) in
        bind-Returns _ _ _ r.verifier_read (
          bind-Returns _ _ _ built.1 (
            collect_total results (suc i)
              (filed built.0 (warmup_failure schema (i + 1) errors) found) es))
