-- ===== src/Pipeline/Safety.antt =====
-- What holds of a run that has reached the end of the graph.
use autocim_agent.Prelude.{
  ℕ, zero, suc, ◌≡◌, refl, sym, subst, ap, arith, true, [], Exc, ok, raise, >>=-eq-ok, ok-injective,
}
use autocim_agent.Prelude.Float.{Float}
use autocim_agent.State.{CimState, Update, apply_update, namespaced_metrics_reducer}
use autocim_agent.Nodes.Evaluator.{
  evaluator_node, evaluator_router, Route, converged, hitl_interrupt, replan, conclude, Assessment,
  assess, target_reasons,
}
use autocim_agent.Nodes.Evaluator.Verdict.{Achieves, evaluator_node_converged}
use autocim_agent.Nodes.Recheck.{precision_verifier_node, recheck, Recheck}
use autocim_agent.Nodes.Recheck.Verdict.{rechecked, recheck_routes}
use autocim_agent.Pipeline.{
  Node, planner, tuner, fan_out, verifier, evaluator, precision_verifier, hitl_human_approval, Next,
  goto, finished, interrupted, crashed, Services, step, run, Outcome, ended, proceed, follow, start,
  join_updates, route, branch,
}

module _ {F G : Type 0} ⦃fl : Float F⦄ (env : Services F G) where
  -- The state is that of a candidate which achieved its goals by the fast models, and which the
  -- precise check then confirmed.
  abbrev pub Confirmed : CimState F → Type 0
  Confirmed t =
      (s : CimState F) × (r : Recheck F) × Achieves env.schema s
      × (recheck env.calls s ≡ ok r)
      × (r.is_precisely_converged ≡ true)
      × (t ≡ rechecked env.planning.show s r)

  -- What a node may rely on.
  abbrev Ready : Node → CimState F → Type 0
  Ready precision_verifier s = Achieves env.schema s
  Ready _ s = ℕ

  abbrev Sound : Next F → Type 0
  Sound (goto node t) = Ready node t
  Sound (finished t) = Confirmed t
  Sound (interrupted t) = ℕ
  Sound (crashed e) = ℕ

  branch-Sound :
      (r : Route) (t : CimState F) (done : Next F)
      → (r ≡ converged → Sound done)
      → Sound (branch r t done)
  branch-Sound converged t done h = h refl
  branch-Sound hitl_interrupt t done h = 0
  branch-Sound replan t done h = 0

  route-Sound :
      (m : Exc (Update F)) (s : CimState F) (done : CimState F → Next F)
      → ((u : Update F)
          → m ≡ ok u
          → evaluator_router (apply_update s u) ≡ converged
          → Sound (done (apply_update s u)))
      → Sound (route m s done)
  route-Sound (ok u) s done h = branch-Sound _ (apply_update s u) _ (h u refl)
  route-Sound (raise e) s done h = 0

  conclude-metrics_store : (s : CimState F) (a : Assessment F) → (conclude s a).metrics_store ≡ []
  unfolding conclude
  conclude-metrics_store s a = ground arith

  -- The evaluator leaves the metrics and the targets as they are.
  conclude-Achieves :
      (s : CimState F) (a : Assessment F)
      → Achieves env.schema s
      → Achieves env.schema (apply_update s (conclude s a))
  unfolding apply_update namespaced_metrics_reducer target_reasons
  conclude-Achieves s a h = rw (conclude-metrics_store s a) h

  evaluator_sound :
      (s : CimState F) (u : Update F)
      → evaluator_node env.schema s ≡ ok u
      → evaluator_router (apply_update s u) ≡ converged
      → Achieves env.schema (apply_update s u)
  unfolding evaluator_node
  evaluator_sound s u h q =
      let (a, e, h1) = >>=-eq-ok (assess env.schema s) _ h in
      subst (λ u. Achieves env.schema (apply_update s u)) (ok-injective _ _ h1)
        (conclude-Achieves s a ((evaluator_node_converged env.schema s u h).0 q))

  precision_verifier_sound :
      (s : CimState F) (u : Update F)
      → Achieves env.schema s
      → precision_verifier_node env.planning.show env.calls s ≡ ok u
      → evaluator_router (apply_update s u) ≡ converged
      → Confirmed (apply_update s u)
  unfolding precision_verifier_node
  precision_verifier_sound s u c h q =
      let (r, e, h1) = >>=-eq-ok (recheck env.calls s) _ h in
      let same = ap (apply_update s) (ok-injective _ _ h1) in
      (
        s,
        r,
        c,
        e,
        (recheck_routes env.planning.show s r).0.0
            (subst (λ t. evaluator_router t ≡ converged) (sym same) q),
        sym same,
      )

  proceed-Sound :
      (m : Exc (Update F)) (s : CimState F) (node : Node)
      → ((t : CimState F) → Ready node t)
      → Sound (proceed m s node)
  proceed-Sound (ok u) s node h = h _
  proceed-Sound (raise e) s node h = 0

  join-Sound : (m k : Exc (Update F)) (s : CimState F) → Sound (join_updates m k s)
  join-Sound (ok u) (ok v) s = 0
  join-Sound (ok u) (raise e) s = 0
  join-Sound (raise e) k s = 0

  step-Sound : (node : Node) (s : CimState F) → Ready node s → Sound (step env node s)
  unfolding step
  step-Sound planner s c = proceed-Sound _ s tuner (λ t. 0)
  step-Sound tuner s c = proceed-Sound _ s fan_out (λ t. 0)
  step-Sound fan_out s c = join-Sound _ _ s
  step-Sound verifier s c = proceed-Sound _ s evaluator (λ t. 0)
  step-Sound evaluator s c = route-Sound _ s (goto precision_verifier) (evaluator_sound s)
  step-Sound precision_verifier s c = route-Sound _ s finished (λ u. precision_verifier_sound s u c)
  step-Sound hitl_human_approval s c = 0

  follow-Confirmed :
      (rest : Node → CimState F → Outcome F) (next : Next F) (t : CimState F)
      → Sound next
      → ((node : Node) (s : CimState F) → Ready node s → rest node s ≡ ended t → Confirmed t)
      → follow rest next ≡ ended t
      → Confirmed t
  follow-Confirmed rest (goto node s) t c h e = h node s c e
  follow-Confirmed rest (finished s) t c h e = subst Confirmed (cc e) c
  follow-Confirmed rest (interrupted s) t c h e = cc e
  follow-Confirmed rest (crashed x) t c h e = cc e

  run-Confirmed :
      (fuel : ℕ) (node : Node) (s t : CimState F)
      → Ready node s
      → run env fuel node s ≡ ended t
      → Confirmed t
  unfolding run
  run-Confirmed zero node s t c e = cc e
  run-Confirmed (suc fuel) node s t c e =
      follow-Confirmed (run env fuel) (step env node s) t (step-Sound node s c)
        (λ next s' c'. run-Confirmed fuel next s' t c') e

  -- A run that reaches the end of the graph, in however many steps, ends with a candidate of which
  -- every tool's result validated, the verifier's verdict was true, no configured target was missed,
  -- and which the precise check confirmed; no other path leads to the end.
  pub start-Confirmed : (fuel : ℕ) (s t : CimState F) → start env fuel s ≡ ended t → Confirmed t
  start-Confirmed fuel s t e = run-Confirmed fuel planner s t 0 e
