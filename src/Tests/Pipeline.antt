-- ===== src/Tests/Pipeline.antt =====
-- What the theorems on the planner and on whole runs say of a concrete one.
use autocim_agent.Prelude.{ℕ, ◌≡◌, ◌≢◌, refl, false, none, [], ◌∷◌, Exc, ok, raise}
use autocim_agent.Prelude.Dict.{lookup, insert, update}
use mathlib.Core.List.{zip}
use autocim_agent.State.{
  CimState, Update, no_update, apply_update, namespaced_metrics_reducer, merge_dicts,
}
use autocim_agent.Search.Lhs.{
  warmup_stage_candidate, latin_hypercube_stage_candidates, stage_dims, latin_hypercube_1d,
  shuffled_strata, cyclic, draw_strata, zip_rows, heads, pairs,
}
use autocim_agent.Middleware.{get_hw_config}
use autocim_agent.Nodes.{data_of, number_at, truthy_datum}
use autocim_agent.Nodes.Planner.{
  PlannerEnv, real_stage_names, propose_stage_points, points_to_stage_configs, search_bounds,
  bits_max, warmup_count, construct_layer,
}
use autocim_agent.Nodes.Planner.Node.{
  ChatModel, planner_node, planned_update, explanation, explain_decision,
}
use autocim_agent.Nodes.Planner.Node.Sanitize.{Planned, proposed, planner_node-Planned}
use autocim_agent.Nodes.Evaluator.{
  evaluator_node, evaluator_router, assess, assess_data, conclude, validate_metrics, entry_errors,
  status_errors, target_reasons, build_candidate_entry, layers_at,
}
use autocim_agent.Nodes.Recheck.{precision_verifier_node, recheck, conclude_recheck}
use autocim_agent.Nodes.Workers.{tuner_node, mapper_node, profiler_node, verifier_node}
use autocim_agent.Targets.{check_targets}
use autocim_agent.Schemas.{model_dump}
use autocim_agent.Llm.{LlmEnv, check_budget}
use autocim_agent.Pipeline.{
  Services, Outcome, ended, waiting, failed_with, out_of_fuel, start, run, step,
}
use autocim_agent.Pipeline.Termination.{start-Terminates}
use autocim_agent.Pipeline.Safety.{Confirmed, start-Confirmed}
use autocim_agent.Tests.Numbers.{micro_float, low_rng}
use autocim_agent.Tests.Fixtures.{registry, calls, schema, fresh}

abbrev pub planning : PlannerEnv ℕ ℕ
planning = record {
  rng = low_rng;
  nsga2 = λ p pop gens seed. none;
  crc32 = λ text. 7;
  get_layer_groups = λ model. ok ("conv1" ∷ []);
  show = λ n. "n";
  show_overrides = λ overrides. "overrides";
}

abbrev pub quiet : LlmEnv ℕ
quiet = record {
  variables = [];
  parse_float = λ raw. none;
  parse_int = λ raw. none;
  lower = λ text. text;
  occurs_in = λ marker text. false;
  random = λ n. 0;
  elapsed_ms = λ n. n;
  show_cost = λ a b. "cost";
  show_tokens = λ n i. "tokens";
}

-- No model is configured.
abbrev pub no_chat : ChatModel ℕ
no_chat s overrides tag configs = raise "AUTOCIM_PLANNER_MODEL is not set"

abbrev pub services : Services ℕ ℕ
services = record {
  registry = registry;
  schema = schema;
  calls = calls;
  planning = planning;
  llm = quiet;
  chat = no_chat;
}

abbrev plan_of : Exc (Update ℕ) → Update ℕ
plan_of (ok u) = u
plan_of (raise e) = no_update

abbrev first_plan : Update ℕ
first_plan = plan_of (planner_node planning quiet no_chat registry fresh)

first_plan-returned : planner_node planning quiet no_chat registry fresh ≡ ok first_plan
unfolding planner_node propose_stage_points warmup_count real_stage_names warmup_stage_candidate
    latin_hypercube_stage_candidates zip_rows stage_dims latin_hypercube_1d shuffled_strata cyclic
    draw_strata points_to_stage_configs pairs construct_layer search_bounds merge_dicts bits_max
    get_hw_config lookup heads zip
first_plan-returned = refl

planner_node-Planned_example :
    Planned planning quiet no_chat fresh (apply_update fresh first_plan)
    × (proposed planning quiet no_chat registry fresh
        ≡ ok (apply_update fresh first_plan).planned_layer_configs)
planner_node-Planned_example =
    planner_node-Planned planning quiet no_chat registry fresh first_plan first_plan-returned

start-Terminates_example : start services 19 fresh ≢ out_of_fuel
start-Terminates_example = start-Terminates services fresh

abbrev state_of : Outcome ℕ → CimState ℕ
state_of (ended t) = t
state_of (waiting t) = t
state_of (failed_with e) = fresh
state_of out_of_fuel = fresh

abbrev last_state : CimState ℕ
last_state = state_of (start services 19 fresh)

reaches_end : start services 19 fresh ≡ ended last_state
unfolding run step planner_node propose_stage_points warmup_count real_stage_names
    warmup_stage_candidate latin_hypercube_stage_candidates zip_rows stage_dims latin_hypercube_1d
    shuffled_strata cyclic draw_strata points_to_stage_configs pairs construct_layer search_bounds
    merge_dicts bits_max get_hw_config lookup heads zip planned_update apply_update tuner_node
    mapper_node profiler_node verifier_node evaluator_node assess assess_data conclude
    validate_metrics entry_errors status_errors target_reasons check_targets build_candidate_entry
    evaluator_router precision_verifier_node recheck conclude_recheck data_of number_at layers_at
    truthy_datum namespaced_metrics_reducer insert update model_dump explanation explain_decision
    check_budget
reaches_end = refl

start-Confirmed_example : Confirmed services last_state
start-Confirmed_example = start-Confirmed services 19 fresh last_state reaches_end
