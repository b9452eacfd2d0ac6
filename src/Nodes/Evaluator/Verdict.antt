-- ===== src/Nodes/Evaluator/Verdict.antt =====
-- When a candidate counts as converged, and what a miss does to the retry counter.
use autocim_agent.Prelude.{
  suc, ◌+◌, ◌≤◌, true, false, [], ◌≡◌, sym, ◌∙◌, length-append, ◌↔◌, arith, ok, ◌>>=◌, ok-injective,
  >>=-eq-ok, length,
}
use autocim_agent.Prelude.Dict.{Dict}
use autocim_agent.Prelude.Float.{Float}
use autocim_agent.Schemas.{Datum}
use autocim_agent.State.{CimState, Update, apply_update}
use autocim_agent.Nodes.{OutputSchemas, data_of, value_at, truthy_datum}
use autocim_agent.Nodes.Evaluator.{
  max_retry_limit, Assessment, assess, assess_data, conclude, converges, evaluator_node,
  evaluator_router, converged, replan, validate_metrics, target_reasons, has_note,
}

module _ {F : Type 0} where
  -- The state after the update was applied to it.
  conclude_converged :
      (s : CimState F) (a : Assessment F)
      → (evaluator_router (apply_update s (conclude s a)) ≡ converged) ↔ (converges a ≡ true)
  unfolding conclude evaluator_router apply_update
  conclude_converged s a = ground arith

  -- Where the evaluator's update leads back to the planner, it has counted one retry, which is still
  -- below the limit, the planner had flagged no anomaly, and the failure history has one entry more.
  pub conclude_replan :
      (s : CimState F) (a : Assessment F)
      → evaluator_router (apply_update s (conclude s a)) ≡ replan
      → let t = apply_update s (conclude s a) in
        (t.retry_count ≡ s.retry_count + 1)
        × (suc t.retry_count ≤ max_retry_limit)
        × (has_note s.planner_flagged_anomaly ≡ false)
        × (length t.failure_history ≡ length s.failure_history + 1)
  unfolding conclude evaluator_router apply_update
  conclude_replan s a h =
      ground (arith, length-append s.failure_history (conclude s a).failure_history)

module _ {F : Type 0} ⦃fl : Float F⦄ (schema : OutputSchemas F) where
  -- The three conditions of convergence, read off the metrics store.
  abbrev pub Achieves : CimState F → Type 0
  Achieves s =
      (validate_metrics schema s.metrics_store ≡ [])
      × (td : Dict (Datum F)) × (vd : Dict (Datum F)) × (data_of s.metrics_store "tuner" ≡ ok td)
      × (data_of s.metrics_store "verifier" ≡ ok vd)
      × (truthy_datum (value_at vd "is_converged") ≡ true)
      × (target_reasons s td vd ≡ ok [])

  assess_data-converges :
      (s : CimState F) (td vd : Dict (Datum F)) (a : Assessment F)
      → assess_data schema s td vd ≡ ok a
      → (converges a ≡ true) ↔ (
          (validate_metrics schema s.metrics_store ≡ [])
          × (truthy_datum (value_at vd "is_converged") ≡ true)
          × (target_reasons s td vd ≡ ok []))
  unfolding assess_data
  assess_data-converges s td vd a h = ground arith

  assess-converges :
      (s : CimState F) (a : Assessment F)
      → assess schema s ≡ ok a
      → (converges a ≡ true) ↔ Achieves s
  unfolding assess
  assess-converges s a h =
      let (td, et, h') =
        >>=-eq-ok (data_of s.metrics_store "tuner")
          (λ td. data_of s.metrics_store "verifier" >>= λ vd. assess_data schema s td vd) h in
      let (vd, ev, h'') =
        >>=-eq-ok (data_of s.metrics_store "verifier") (λ vd. assess_data schema s td vd) h' in
      let iff = assess_data-converges s td vd a h'' in
      (
        λ c. let (valid, verified, met) = iff.0 c in (valid, td, vd, et, ev, verified, met),
        λ (valid, td', vd', et', ev', verified, met). iff.1 (
          valid,
          cc (ok-injective vd vd' (sym ev ∙ ev')),
          cc (ok-injective vd vd' (sym ev ∙ ev'), ok-injective td td' (sym et ∙ et')),
        ),
      )

  -- Where the node returns, the graph takes the edge "Converged" from the updated state exactly when
  -- every tool's result validates, the verifier's verdict is true and no configured target is
  -- missed.
  pub evaluator_node_converged :
      (s : CimState F) (u : Update F)
      → evaluator_node schema s ≡ ok u
      → (evaluator_router (apply_update s u) ≡ converged) ↔ Achieves s
  unfolding evaluator_node
  evaluator_node_converged s u h =
      let (a, e, h') = >>=-eq-ok (assess schema s) (λ a. ok (conclude s a)) h in
      let same : u ≡ conclude s a = cc h' in
      let route = conclude_converged s a in
      let iff = assess-converges s a e in rw same (λ r. iff.0 (route.0 r), λ x. route.1 (iff.1 x))
