-- ===== src/Tests/Warmup.antt =====
-- What the theorem on the warm-up pass says of a concrete result.
use autocim_agent.Prelude.{
  ℕ, zero, suc, ap, ◌+◌, ◌≤◌, ◌≡◌, refl, subst, sym, ◌∙◌, String, none, List, [], ◌∷◌, map, length,
  All, arith, Exc, ok, raise, ok-injective,
}
use autocim_agent.Prelude.Dict.{lookup, insert}
use autocim_agent.Schemas.{LayerBitConfig, model_dump}
use autocim_agent.Nodes.{data_of, number_at, truthy_datum}
use autocim_agent.Nodes.Evaluator.{
  validate_metrics, entry_errors, status_errors, build_candidate_entry, layers_at, join,
}
use autocim_agent.Warmup.{collect, evaluate_one_candidate}
use autocim_agent.Warmup.Ranks.{Found, total, entries_of, RankedInTurn}
use autocim_agent.Tools.{
  QatCall, QatResult, mapper_tool, physically_feasible, profiler_tool, tuner_tool, verifier_tool,
  with_default,
}
use autocim_agent.Warmup.Numbers.{Ascending, collect-numbers}
use autocim_agent.Warmup.Batch.{
  Batch, run_parallel_warmup, layer_configs_per_candidate, all_configs, evaluate_all, decisions,
  filled, gather, second_pass, trial,
}
use autocim_agent.Warmup.Finishes.{run_parallel_warmup_total}
use autocim_agent.Warmup.Order.{Complete, run_parallel_warmup_any_order}
use autocim_agent.Search.Lhs.{
  latin_hypercube_stage_candidates, zip_rows, stage_dims, latin_hypercube_1d, shuffled_strata,
  cyclic, draw_strata, pairs, heads,
}
use autocim_agent.Nodes.Planner.{
  real_stage_names, warmup_count, points_to_stage_configs, construct_layer, search_bounds, bits_max,
  clamp_bounds, search_seed_for,
}
use autocim_agent.Middleware.{get_hw_config}
use autocim_agent.Physics.{
  apart_distance, grid_dim, grid_distance, hop_distance, layer_energy_fj, layer_latency_ns,
  profile_loop, simulate_cim_profile, simulate_noc_mapping, wrap_around,
}
use autocim_agent.Search.Pareto.{compute_pareto_rank, dominates, dominating, max_rank}
use autocim_agent.Tests.Pipeline.{planning}
use autocim_agent.Tests.Numbers.{micro_float}
use autocim_agent.Tests.Fixtures.{schema, metrics, hw, registry}

abbrev nothing_found : Found ℕ
nothing_found = ([], [])

abbrev found_of : Exc (Found ℕ) → Found ℕ
found_of (ok found) = found
found_of (raise e) = nothing_found

-- Two results: one that validates, and one with nothing in it.
abbrev pass : Exc (Found ℕ)
pass = collect schema 0 (metrics ∷ [] ∷ []) nothing_found

pass-returned : pass ≡ ok (found_of pass)
unfolding collect data_of lookup model_dump validate_metrics entry_errors status_errors
    build_candidate_entry number_at layers_at truthy_datum
pass-returned = refl

collect-numbers_example :
    (total (found_of pass) ≡ 2)
    × ((k : ℕ) → 1 ≤ k → k ≤ 2 → entries_of k (found_of pass) ≡ 1)
    × RankedInTurn [] (found_of pass).0
    × Ascending 0 (found_of pass).0 2
    × ((found_of pass).1 ≡ [] → All (λ c. c.iteration ≤ length (found_of pass).0) (found_of pass).0)
collect-numbers_example = collect-numbers schema (metrics ∷ [] ∷ []) (found_of pass) pass-returned

-- A failure before a success: one candidate, with the number 2, which the planner's next iteration,
-- the one after as many as there are candidates, has again.
abbrev late_pass : Exc (Found ℕ)
late_pass = collect schema 0 ([] ∷ metrics ∷ []) nothing_found

late_number :
    (map (λ c. c.iteration) (found_of late_pass).0 ≡ 2 ∷ [])
    × (length (found_of late_pass).0 + 1 ≡ 2)
unfolding collect data_of lookup model_dump validate_metrics entry_errors status_errors
    build_candidate_entry number_at layers_at truthy_datum
late_number = (refl, refl)

abbrev trained : String → QatCall ℕ → Exc (QatResult ℕ)
trained model call = ok (record { accuracy = 900000; epochs_run = 5; device = "cpu" })

abbrev warmed : List ℕ → Exc (Batch ℕ)
warmed order = run_parallel_warmup planning schema trained "model" hw none order registry

abbrev batch_of : Exc (Batch ℕ) → Batch ℕ
batch_of (ok batch) = batch
batch_of (raise e) = record { candidate_history = []; failure_history = []; planner_decisions = [] }

abbrev one_way : List ℕ
one_way = 2 ∷ 0 ∷ 1 ∷ []

abbrev other_way : List ℕ
other_way = 1 ∷ 2 ∷ 0 ∷ []

warmed-returned :
    (warmed one_way ≡ ok (batch_of (warmed one_way)))
    × (warmed other_way ≡ ok (batch_of (warmed other_way)))
    × (map (λ c. c.iteration) (Batch.candidate_history (batch_of (warmed one_way)))
        ≡ 1 ∷ 2 ∷ 3 ∷ [])
unfolding run_parallel_warmup layer_configs_per_candidate all_configs
    latin_hypercube_stage_candidates zip_rows stage_dims real_stage_names warmup_count
    latin_hypercube_1d shuffled_strata cyclic draw_strata points_to_stage_configs pairs
    construct_layer search_bounds bits_max get_hw_config lookup evaluate_all build_candidate_entry
    entry_errors join layers_at status_errors validate_metrics clamp_bounds search_seed_for data_of
    number_at truthy_datum apart_distance grid_dim grid_distance hop_distance layer_energy_fj
    layer_latency_ns profile_loop simulate_cim_profile simulate_noc_mapping wrap_around insert
    model_dump heads compute_pareto_rank dominates dominating max_rank mapper_tool
    physically_feasible profiler_tool tuner_tool verifier_tool with_default decisions filled gather
    second_pass trial collect evaluate_one_candidate
warmed-returned = (refl, refl, refl)

abbrev planned : Exc (List (List (LayerBitConfig ℕ)))
planned = layer_configs_per_candidate planning registry "model" hw

abbrev configs_of : Exc (List (List (LayerBitConfig ℕ))) → List (List (LayerBitConfig ℕ))
configs_of (ok configs) = configs
configs_of (raise e) = []

planned-three : (planned ≡ ok (configs_of planned)) × (length (configs_of planned) ≡ 3)
unfolding layer_configs_per_candidate all_configs latin_hypercube_stage_candidates zip_rows
    stage_dims real_stage_names warmup_count latin_hypercube_1d shuffled_strata cyclic draw_strata
    points_to_stage_configs pairs construct_layer search_bounds bits_max get_hw_config lookup
    clamp_bounds search_seed_for heads
planned-three = (refl, refl)

one_way-Complete : Complete 3 one_way
one_way-Complete zero h = refl
one_way-Complete (suc zero) h = refl
one_way-Complete (suc (suc zero)) h = refl
one_way-Complete (suc (suc (suc i))) h = absurd (omega (arith, h))

other_way-Complete : Complete 3 other_way
other_way-Complete zero h = refl
other_way-Complete (suc zero) h = refl
other_way-Complete (suc (suc zero)) h = refl
other_way-Complete (suc (suc (suc i))) h = absurd (omega (arith, h))

run_parallel_warmup_total_example :
    (batch : Batch ℕ) × (warmed one_way ≡ ok batch)
    × (length batch.candidate_history + length batch.failure_history ≡ 3)
    × ((k : ℕ) → 1 ≤ k → k ≤ 3 → entries_of k (batch.candidate_history, batch.failure_history) ≡ 1)
    × (length batch.planner_decisions ≡ 3)
unfolding layer_configs_per_candidate all_configs latin_hypercube_stage_candidates zip_rows
    stage_dims real_stage_names warmup_count latin_hypercube_1d shuffled_strata cyclic draw_strata
    points_to_stage_configs pairs construct_layer search_bounds bits_max get_hw_config lookup
    clamp_bounds search_seed_for heads
run_parallel_warmup_total_example =
    run_parallel_warmup_total planning schema trained "model" hw none (λ model call. (_, refl))
      registry (configs_of planned) one_way planned-three.0 one_way-Complete
      (omega arith, (omega arith, (omega arith, tt)))

both-Complete :
    (candidates : List (List (LayerBitConfig ℕ)))
    → planned ≡ ok candidates
    → Complete (length candidates) one_way × Complete (length candidates) other_way
both-Complete candidates e =
    let three : length candidates ≡ 3 =
      ap length (ok-injective _ _ (sym e ∙ planned-three.0)) ∙ planned-three.1 in
    subst (λ n. Complete n one_way × Complete n other_way) (sym three)
      (one_way-Complete, other_way-Complete)

run_parallel_warmup_any_order_example : batch_of (warmed one_way) ≡ batch_of (warmed other_way)
run_parallel_warmup_any_order_example =
    run_parallel_warmup_any_order planning schema trained "model" hw none registry one_way other_way
      (batch_of (warmed one_way)) (batch_of (warmed other_way)) both-Complete warmed-returned.0
      warmed-returned.1
