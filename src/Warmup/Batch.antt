-- ===== src/Warmup/Batch.antt =====
-- tools/batch_warmup.py: the whole warm-up, with the trials finishing in any order.
use autocim_agent.Prelude.{
  ℕ, suc, ◌+◌, String, ◌<>◌, false, Option, none, some, List, [], ◌∷◌, length, get_elem?, set, Exc,
  ok, raise, ◌>>=◌,
}
use autocim_agent.Prelude.Dict.{Dict}
use autocim_agent.Prelude.Float.{Float}
use autocim_agent.Schemas.{HwConfig, LayerBitConfig}
use autocim_agent.State.{Metrics, CandidateEntry, FailureEntry, PlannerDecision}
use autocim_agent.Search.{StagePoint}
use autocim_agent.Search.Lhs.{latin_hypercube_stage_candidates}
use autocim_agent.Middleware.{Registry}
use autocim_agent.Tools.{QatCall, QatResult}
use autocim_agent.Nodes.{OutputSchemas}
use autocim_agent.Nodes.Planner.{
  PlannerEnv, real_stage_names, search_bounds, warmup_count, search_seed_for,
  points_to_stage_configs,
}
use autocim_agent.Warmup.{evaluate_one_candidate, collect}

module _ {A B : Type 0} where
  -- `future.result()` of the trial with this index.
  unfoldable pub trial : (A → Exc B) → List A → ℕ → Exc B
  trial evaluate candidates i = elim (get_elem? candidates i) [
    | none ↦ raise "IndexError"
    | some c ↦ evaluate c
  ]

  -- The loop over `as_completed`: each result goes to the place of its index.
  unfoldable pub gather : (A → Exc B) → List A → List ℕ → List (Option B) → Exc (List (Option B))
  gather evaluate candidates [] slots = ok slots
  gather evaluate candidates (i ∷ order) slots =
      trial evaluate candidates i
      >>= (λ result. gather evaluate candidates order (set slots i (some result)))

  -- `[None] * total`
  abbrev pub blank : List A → List (Option B)
  blank [] = []
  blank (c ∷ candidates) = none ∷ blank candidates

module _ {B : Type 0} where
  -- The second pass reads every place; it fails at one that is empty.
  unfoldable pub filled : List (Option B) → Exc (List B)
  filled [] = ok []
  filled (none ∷ slots) = raise "AttributeError"
  filled (some b ∷ slots) = do ok (b ∷ (← filled slots))

module _ {F : Type 0} ⦃fl : Float F⦄ where
  -- `[points_to_stage_configs(points, stage_names) for points in stage_points]`
  unfoldable pub all_configs :
      List (StagePoint F) → List String → Exc (List (List (LayerBitConfig F)))
  all_configs [] stage_names = ok []
  all_configs (points ∷ stage_points) stage_names = do
    configs ← points_to_stage_configs points stage_names
    ok (configs ∷ (← all_configs stage_points stage_names))

  -- The entries of `planner_decisions`, from the candidate with index `i` on.
  unfoldable pub decisions :
      (ℕ → String) → ℕ → ℕ → List (List (LayerBitConfig F)) → List (PlannerDecision F)
  decisions show n_warmup i [] = []
  decisions show n_warmup i (configs ∷ candidates) =
      record {
        iteration = i + 1;
        search_tag = "LHS warm-up candidate " <> (show (i + 1) <> ("/" <> show n_warmup));
        used_llm = false;
        rationale =
            "Evaluated directly from Latin Hypercube sampling (parallel warm-up batch) -- "
            <> "no LLM confirmation for this candidate (tools/batch_warmup.py).";
        rationale_ko = some (
            "라틴 하이퍼큐브 샘플링(LHS)으로 직접 평가된 후보입니다 (병렬 워밍업 배치) -- "
            <> "이 후보는 LLM 확인을 거치지 않았습니다 (tools/batch_warmup.py).");
        anomaly_note = none;
        layer_configs = configs;
      }
      ∷ decisions show n_warmup (suc i) candidates

-- What a warm-up leaves: the candidates, the failures and the decisions.
pub record Batch (F : Type 0) : Type 0 where
  pub candidate_history : List (CandidateEntry F)
  pub failure_history : List FailureEntry
  pub planner_decisions : List (PlannerDecision F)

module _ {F G : Type 0} (env : PlannerEnv F G) (model_id : String) where
  abbrev pub stage_names : List String
  stage_names = real_stage_names env model_id

  abbrev pub n_warmup : ℕ
  n_warmup = warmup_count (length stage_names)

module _ {F G : Type 0} ⦃fl : Float F⦄ (env : PlannerEnv F G) (registry : Registry F)
    (model_id : String) (hw : HwConfig F) where
  -- `layer_configs_per_candidate`
  unfoldable pub layer_configs_per_candidate : Exc (List (List (LayerBitConfig F)))
  layer_configs_per_candidate =
      let (bit_bounds, pruning_bounds) = search_bounds registry hw.hw_spec_id [] in
      let names = stage_names env model_id in
      latin_hypercube_stage_candidates env.rng (n_warmup env model_id) (length names) bit_bounds
        pruning_bounds (search_seed_for env model_id hw.hw_spec_id)
      >>= (λ points. all_configs points names)

module _ {F G : Type 0} ⦃fl : Float F⦄ (env : PlannerEnv F G) (schema : OutputSchemas F)
    (model_id : String) where
  -- The pass over the results in the order of the candidates, once all trials have finished.
  unfoldable pub second_pass :
      List (List (LayerBitConfig F)) → List (Option (Metrics F)) → Exc (Batch F)
  second_pass candidates slots = do
    results ← filled slots
    found ← collect schema 0 results ([], [])
    ok (record {
      candidate_history = found.0;
      failure_history = found.1;
      planner_decisions = decisions env.show (n_warmup env model_id) 0 candidates;
    })

module _ {F G : Type 0} ⦃fl : Float F⦄ (env : PlannerEnv F G) (schema : OutputSchemas F)
    (qat : String → QatCall F → Exc (QatResult F)) (model_id : String) (hw : HwConfig F)
    (factors : Option (Dict F)) where
  -- The trials, which finish in the given order, and the pass over their results.
  unfoldable pub evaluate_all : (order : List ℕ) → List (List (LayerBitConfig F)) → Exc (Batch F)
  evaluate_all order candidates =
      gather (evaluate_one_candidate qat env.show model_id hw factors) candidates order
        (blank candidates)
      >>= second_pass env schema model_id candidates

  -- `run_parallel_warmup`
  unfoldable pub run_parallel_warmup : (order : List ℕ) → Registry F → Exc (Batch F)
  run_parallel_warmup order registry =
      layer_configs_per_candidate env registry model_id hw >>= evaluate_all order
