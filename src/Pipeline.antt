-- ===== src/Pipeline.antt =====
-- graph.py: the nodes, the edges and the run of the pipeline. LangGraph executes it: a step runs the
-- node, merges its update by the reducers of the state, and follows the edges.
pub mod Keeps
pub mod Termination
pub mod Safety
use autocim_agent.Prelude.{ℕ, zero, suc, String, Exc, ok, raise}
use autocim_agent.Prelude.Float.{Float}
use autocim_agent.State.{CimState, Update, apply_update}
use autocim_agent.Middleware.{Registry}
use autocim_agent.Nodes.{ToolCalls, OutputSchemas}
use autocim_agent.Nodes.Evaluator.{
  evaluator_node, evaluator_router, Route, converged, hitl_interrupt, replan,
}
use autocim_agent.Nodes.Recheck.{precision_verifier_node}
use autocim_agent.Nodes.Workers.{
  tuner_node, mapper_node, profiler_node, verifier_node, HumanInput, hitl_node,
}
use autocim_agent.Nodes.Planner.{PlannerEnv}
use autocim_agent.Nodes.Planner.Node.{ChatModel, planner_node}
use autocim_agent.Llm.{LlmEnv}

-- The nodes of `build_graph`; mapper and profiler run side by side, as `fan_out`.
pub data Node : Type 0 where
  planner tuner fan_out verifier evaluator precision_verifier hitl_human_approval : Node

-- What a step leads to: the next node, the end of the graph, the pause of `interrupt`, or the
-- exception of a node.
pub data Next (F : Type 0) : Type 0 where
  goto : Node → CimState F → Next F
  finished : CimState F → Next F
  interrupted : CimState F → Next F
  crashed : String → Next F

-- What the nodes take from elsewhere.
pub record Services (F G : Type 0) : Type 0 where
  pub registry : Registry F
  pub schema : OutputSchemas F
  pub calls : ToolCalls F
  pub planning : PlannerEnv F G
  pub llm : LlmEnv F
  pub chat : ChatModel F

module _ {F : Type 0} where
  -- `add_edge`: the update is merged, and the next node runs.
  abbrev pub proceed : Exc (Update F) → CimState F → Node → Next F
  proceed (raise e) s node = crashed e
  proceed (ok u) s node = goto node (apply_update s u)

  -- The two edges out of `tuner`, which join again before `verifier`: both updates are of the same
  -- state, and are merged one after the other.
  abbrev pub join_updates : Exc (Update F) → Exc (Update F) → CimState F → Next F
  join_updates (ok u) (ok v) s = goto verifier (apply_update (apply_update s u) v)
  join_updates (raise e) v s = crashed e
  join_updates (ok u) (raise e) s = crashed e

  abbrev pub branch : Route → CimState F → Next F → Next F
  branch converged t done = done
  branch hitl_interrupt t done = goto hitl_human_approval t
  branch replan t done = goto planner t

  -- `add_conditional_edges` with `evaluator_router`, and where the route "Converged (Done)" leads.
  abbrev pub route : Exc (Update F) → CimState F → (CimState F → Next F) → Next F
  route (raise e) s done = crashed e
  route (ok u) s done =
      branch (evaluator_router (apply_update s u)) (apply_update s u) (done (apply_update s u))

module _ {F G : Type 0} ⦃fl : Float F⦄ (env : Services F G) where
  unfoldable pub step : Node → CimState F → Next F
  step planner s = proceed (planner_node env.planning env.llm env.chat env.registry s) s tuner
  step tuner s = proceed (tuner_node env.registry env.calls s) s fan_out
  step fan_out s = join_updates (mapper_node env.calls s) (profiler_node env.calls s) s
  step verifier s = proceed (verifier_node env.schema env.calls s) s evaluator
  step evaluator s = route (evaluator_node env.schema s) s (goto precision_verifier)
  step precision_verifier s =
      route (precision_verifier_node env.planning.show env.calls s) s finished
  step hitl_human_approval s = interrupted s

-- The end of a run with a bounded number of steps.
pub data Outcome (F : Type 0) : Type 0 where
  ended : CimState F → Outcome F
  waiting : CimState F → Outcome F
  failed_with : String → Outcome F
  out_of_fuel : Outcome F

-- The outcome of a run after a step, given the run of the steps that follow.
abbrev pub follow : {F : Type 0} → (Node → CimState F → Outcome F) → Next F → Outcome F
follow rest (goto node t) = rest node t
follow rest (finished t) = ended t
follow rest (interrupted t) = waiting t
follow rest (crashed e) = failed_with e

module _ {F G : Type 0} ⦃fl : Float F⦄ (env : Services F G) where
  unfoldable pub run : (fuel : ℕ) → Node → CimState F → Outcome F
  run zero node s = out_of_fuel
  run (suc fuel) node s = follow (run fuel) (step env node s)

  -- A run from START.
  abbrev pub start : (fuel : ℕ) → CimState F → Outcome F
  start fuel s = run fuel planner s

  -- `Command(resume=…)`: `interrupt` returns the human's input, and the node goes on to the planner.
  abbrev pub resume : (fuel : ℕ) → HumanInput F → CimState F → Outcome F
  resume fuel input s = run fuel planner (apply_update s (hitl_node input s))
