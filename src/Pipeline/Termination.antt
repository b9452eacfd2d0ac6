-- ===== src/Pipeline/Termination.antt =====
-- A run of the pipeline reaches the end, a pause or an exception in a bounded number of steps.
use autocim_agent.Prelude.{
  ℕ, String, zero, suc, ◌+◌, ◌-◌, ◌*◌, ◌≤◌, ◌<◌, ◌≡◌, ◌≢◌, refl, sym, subst, ◌∙◌, max, arith, [],
  ◌∷◌, List, is_empty, if◌then◌else◌, Exc, ok, raise, >>=-eq-ok, ok-injective,
}
use autocim_agent.Prelude.Float.{Float}
use autocim_agent.State.{CimState, Update, apply_update}
use autocim_agent.Nodes.Evaluator.{
  evaluator_node, evaluator_router, Route, converged, hitl_interrupt, replan, conclude, Assessment,
  assess, max_retry_limit,
}
use autocim_agent.Nodes.Recheck.{precision_verifier_node, conclude_recheck, recheck, Recheck}
use autocim_agent.Nodes.Planner.Node.Sanitize.{planner_node-Planned}
use autocim_agent.Pipeline.{
  Node, planner, tuner, fan_out, verifier, evaluator, precision_verifier, hitl_human_approval, Next,
  goto, finished, interrupted, crashed, Services, step, run, Outcome, out_of_fuel, proceed, follow,
  start, join_updates, route, branch,
}
use autocim_agent.Pipeline.Keeps.{Keeps, mapper-Keeps, profiler-Keeps, verifier-Keeps, tuner-Keeps}

-- The planning rounds that the retries leave, the current one included.
abbrev rounds : ℕ → ℕ
rounds retries = max 1 (max_retry_limit - retries)

-- A bound on the steps left, from the node and the state.
abbrev pub steps_left : {F : Type 0} → Node → CimState F → ℕ
steps_left planner s = elim s.human_overrides [ [] ↦ 6 * rounds s.retry_count | x ∷ l ↦ 18 ]
steps_left tuner s = 6 * rounds s.retry_count - 1
steps_left fan_out s = 6 * rounds s.retry_count - 2
steps_left verifier s = 6 * rounds s.retry_count - 3
steps_left evaluator s = 6 * rounds s.retry_count - 4
steps_left precision_verifier s = 6 * rounds s.retry_count - 5
steps_left hitl_human_approval s = 0

-- After the planner, the overrides have been consumed.
abbrev Consumed : {F : Type 0} → Node → CimState F → Type 0
Consumed planner s = ℕ
Consumed _ s = s.human_overrides ≡ []

rounds_pos : (r k : ℕ) → k ≤ 5 → 0 < 6 * rounds r - k
rounds_pos r k h = omega arith

-- The step ends the run, or leads to a node with fewer steps left.
abbrev Lower : {F : Type 0} → ℕ → Next F → Type 0
Lower n (goto node t) = Consumed node t × (steps_left node t < n)
Lower n (finished t) = n ≡ n
Lower n (interrupted t) = n ≡ n
Lower n (crashed e) = n ≡ n

module _ {F : Type 0} where
  proceed-Lower :
      (n : ℕ) (m : Exc (Update F)) (s : CimState F) (node : Node)
      → ((u : Update F) → m ≡ ok u → Lower n (goto node (apply_update s u)))
      → Lower n (proceed m s node)
  proceed-Lower n (ok u) s node h = h u refl
  proceed-Lower n (raise e) s node h = refl

  join-Lower :
      (n : ℕ) (m k : Exc (Update F)) (s : CimState F)
      → ((u v : Update F)
          → m ≡ ok u
          → k ≡ ok v
          → Lower n (goto verifier (apply_update (apply_update s u) v)))
      → Lower n (join_updates m k s)
  join-Lower n (ok u) (ok v) s h = h u v refl refl
  join-Lower n (ok u) (raise e) s h = refl
  join-Lower n (raise e) k s h = refl

  branch-Lower :
      (n : ℕ) (r : Route) (t : CimState F) (done : Next F)
      → (r ≡ converged → Lower n done)
      → (r ≡ hitl_interrupt → Lower n (goto hitl_human_approval t))
      → (r ≡ replan → Lower n (goto planner t))
      → Lower n (branch r t done)
  branch-Lower n converged t done a b c = a refl
  branch-Lower n hitl_interrupt t done a b c = b refl
  branch-Lower n replan t done a b c = c refl

  -- From each worker to the next node.
  worker_step :
      (k : ℕ) (s t : CimState F)
      → suc k ≤ 5
      → s.human_overrides ≡ []
      → Keeps s t
      → (t.human_overrides ≡ []) × (6 * rounds t.retry_count - suc k < 6 * rounds s.retry_count - k)
  worker_step k s t h c (o, r) = (o ∙ c, rw (r) (omega arith))

  -- The two routers: a miss costs a retry below the limit.
  replan_step :
      (k : ℕ) (s t : CimState F)
      → k ≤ 5
      → t.human_overrides ≡ []
      → t.retry_count ≡ s.retry_count + 1
      → suc t.retry_count ≤ max_retry_limit
      → steps_left planner t < 6 * rounds s.retry_count - k
  replan_step k s t h c r l = rw (c) (omega arith)

module _ {F : Type 0} where
  -- A router's node leaves the overrides; it counts a retry, still below the limit, exactly on the
  -- way back to the planner.
  abbrev Turns : CimState F → CimState F → Type 0
  Turns s t =
      (t.human_overrides ≡ s.human_overrides)
      × (evaluator_router t ≡ converged → t.retry_count ≡ s.retry_count)
      × (evaluator_router t ≡ replan
          → (t.retry_count ≡ s.retry_count + 1) × (suc t.retry_count ≤ max_retry_limit))

  conclude-Turns : (s : CimState F) (a : Assessment F) → Turns s (apply_update s (conclude s a))
  unfolding conclude evaluator_router apply_update
  conclude-Turns s a = ground arith

  conclude_recheck-Turns :
      ⦃fl : Float F⦄ (show : ℕ → String) (s : CimState F) (r : Recheck F)
      → Turns s (apply_update s (conclude_recheck show s r))
  unfolding conclude_recheck evaluator_router apply_update
  conclude_recheck-Turns show s r = ground arith

  -- A router's step from a node that is `k` steps after the planner.
  turn-Lower :
      (k : ℕ) (m : Exc (Update F)) (s : CimState F) (done : CimState F → Next F)
      → k ≤ 5
      → s.human_overrides ≡ []
      → ((u : Update F) → m ≡ ok u → Turns s (apply_update s u))
      → ((t : CimState F)
          → (t.human_overrides ≡ [])
          → t.retry_count ≡ s.retry_count
          → Lower (6 * rounds s.retry_count - k) (done t))
      → Lower (6 * rounds s.retry_count - k) (route m s done)
  turn-Lower k (raise e) s done l c h d = refl
  turn-Lower k (ok u) s done l c h d =
      let t = apply_update s u in
      let (o, same, miss) = h u refl in
      branch-Lower _ (evaluator_router t) t (done t) (λ q. d t (o ∙ c) (same q))
        (λ q. (o ∙ c, rounds_pos s.retry_count k l))
        (λ q. (0, replan_step k s t l (o ∙ c) (miss q).0 (miss q).1))

planner_bound :
    {A : Type 0} (l : List A) (r t : ℕ)
    → t ≡ (if is_empty l then r else 0)
    → 6 * rounds t - 1 < elim l [ [] ↦ 6 * rounds r | x ∷ l ↦ 18 ]
planner_bound [] r t h = rw (h) (omega arith)
planner_bound (x ∷ l) r t h = rw (h) (omega arith)

planner_steps : {A : Type 0} (l : List A) (r : ℕ) → elim l [ [] ↦ 6 * rounds r | x ∷ l ↦ 18 ] < 19
planner_steps [] r = omega arith
planner_steps (x ∷ l) r = omega arith

module _ {F G : Type 0} ⦃fl : Float F⦄ (env : Services F G) where
  evaluator-Turns :
      (s : CimState F) (u : Update F)
      → evaluator_node env.schema s ≡ ok u
      → Turns s (apply_update s u)
  unfolding evaluator_node
  evaluator-Turns s u h =
      let (a, e, h1) = >>=-eq-ok (assess env.schema s) _ h in
      subst (λ u. Turns s (apply_update s u)) (ok-injective _ _ h1) (conclude-Turns s a)

  precision_verifier-Turns :
      (show : ℕ → String) (s : CimState F) (u : Update F)
      → precision_verifier_node show env.calls s ≡ ok u
      → Turns s (apply_update s u)
  unfolding precision_verifier_node
  precision_verifier-Turns show s u h =
      let (r, e, h1) = >>=-eq-ok (recheck env.calls s) _ h in
      subst (λ u. Turns s (apply_update s u)) (ok-injective _ _ h1)
        (conclude_recheck-Turns show s r)

  step-Lower :
      (node : Node) (s : CimState F) → Consumed node s → Lower (steps_left node s) (step env node s)
  unfolding step
  step-Lower planner s c = proceed-Lower _ _ s tuner (λ u e.
      let (planned, _) = planner_node-Planned env.planning env.llm env.chat env.registry s u e in
      (planned.0, planner_bound s.human_overrides s.retry_count _ planned.2))
  step-Lower tuner s c = proceed-Lower _ _ s fan_out (λ u e.
      worker_step 1 s (apply_update s u) (omega arith) c (tuner-Keeps env.calls env.registry s u e))
  step-Lower fan_out s c = join-Lower _ _ _ s (λ u v e f.
      let t = apply_update s u in
      let (o, r) = mapper-Keeps env.calls s s u e in
      let (o', r') = profiler-Keeps env.calls t s v f in
      worker_step 2 s (apply_update t v) (omega arith) c (o' ∙ o, r' ∙ r))
  step-Lower verifier s c = proceed-Lower _ _ s evaluator (λ u e.
      worker_step 3 s (apply_update s u) (omega arith) c
        (verifier-Keeps env.calls env.schema s u e))
  step-Lower evaluator s c =
      turn-Lower 4 _ s (goto precision_verifier) (omega arith) c (evaluator-Turns s)
        (λ t o r. worker_step 4 s t (omega arith) c (o ∙ sym c, r))
  step-Lower precision_verifier s c =
      turn-Lower 5 _ s finished (omega arith) c (precision_verifier-Turns env.planning.show s)
        (λ t o r. refl)
  step-Lower hitl_human_approval s c = refl

  follow-Terminates :
      (n : ℕ) (rest : Node → CimState F → Outcome F) (next : Next F)
      → Lower n next
      → ((node : Node) (t : CimState F)
          → Consumed node t
          → steps_left node t < n
          → rest node t ≢ out_of_fuel)
      → follow rest next ≢ out_of_fuel
  follow-Terminates n rest (goto node t) (c, l) h = h node t c l
  follow-Terminates n rest (finished t) l h = λ e. cc e
  follow-Terminates n rest (interrupted t) l h = λ e. cc e
  follow-Terminates n rest (crashed x) l h = λ e. cc e

  run-Terminates :
      (fuel : ℕ) (node : Node) (s : CimState F)
      → Consumed node s
      → steps_left node s < fuel
      → run env fuel node s ≢ out_of_fuel
  unfolding run
  run-Terminates zero node s c l = omega (arith, l)
  run-Terminates (suc fuel) node s c l =
      follow-Terminates (steps_left node s) (run env fuel) (step env node s) (step-Lower node s c)
        (λ next t c' l'. run-Terminates fuel next t c' (omega (arith, l, l')))

  -- Whatever the tools, the model and the random numbers do, a run from the planner ends within 19
  -- steps: with the end of the graph, with a pause for a human, or with the exception of a node. It
  -- does so from START and after a resume alike.
  pub start-Terminates : (s : CimState F) → start env 19 s ≢ out_of_fuel
  start-Terminates s = run-Terminates 19 planner s 0 (planner_steps s.human_overrides s.retry_count)

  -- The same with any number of steps from 19 on.
  pub start-Terminates_from :
      (fuel : ℕ) (s : CimState F) → 19 ≤ fuel → start env fuel s ≢ out_of_fuel
  start-Terminates_from fuel s h =
      run-Terminates fuel planner s 0
        (omega (arith, h, planner_steps s.human_overrides s.retry_count))
