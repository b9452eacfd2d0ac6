-- ===== src/Nodes/Recheck/Verdict.antt =====
-- The routes out of the precise check.
use autocim_agent.Prelude.{ℕ, suc, ◌+◌, ◌≤◌, ◌≡◌, ◌↔◌, String, true, false, arith}
use autocim_agent.Prelude.Float.{Float}
use autocim_agent.State.{CimState, apply_update}
use autocim_agent.Nodes.Evaluator.{
  max_retry_limit, evaluator_router, converged, hitl_interrupt, replan,
}
use autocim_agent.Nodes.Recheck.{Recheck, conclude_recheck}

module _ {F : Type 0} ⦃fl : Float F⦄ (show : ℕ → String) (s : CimState F) (r : Recheck F) where
  -- The state after the precise check.
  abbrev pub rechecked : CimState F
  rechecked = apply_update s (conclude_recheck show s r)

  -- After the precise check the graph ends exactly when the check confirms the candidate. Where it
  -- does not, the candidate costs a retry; a human is asked exactly when the retries have then reached
  -- the limit, and the graph goes back to the planner exactly when they are still below it.
  pub recheck_routes :
      ((evaluator_router rechecked ≡ converged) ↔ (r.is_precisely_converged ≡ true))
      × (r.is_precisely_converged ≡ false → rechecked.retry_count ≡ s.retry_count + 1)
      × ((evaluator_router rechecked ≡ hitl_interrupt)
          ↔ ((r.is_precisely_converged ≡ false) × (max_retry_limit ≤ s.retry_count + 1)))
      × ((evaluator_router rechecked ≡ replan)
          ↔ ((r.is_precisely_converged ≡ false) × (suc (s.retry_count + 1) ≤ max_retry_limit)))
  unfolding conclude_recheck evaluator_router apply_update
  recheck_routes = ground arith
