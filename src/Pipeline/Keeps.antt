-- ===== src/Pipeline/Keeps.antt =====
-- What the workers' nodes leave as it is.
use autocim_agent.Prelude.{◌≡◌, refl, subst, ok, >>=-eq-ok, ok-injective}
use autocim_agent.Prelude.Float.{Float}
use autocim_agent.State.{CimState, Update, apply_update}
use autocim_agent.Middleware.{Registry}
use autocim_agent.Nodes.{ToolCalls, OutputSchemas, data_of}
use autocim_agent.Nodes.Workers.{factors_at, tuner_node, mapper_node, profiler_node, verifier_node}

module _ {F : Type 0} where
  -- A worker's update touches neither the overrides nor the retries.
  abbrev pub Keeps : CimState F → CimState F → Type 0
  Keeps s t = (t.human_overrides ≡ s.human_overrides) × (t.retry_count ≡ s.retry_count)

module _ {F : Type 0} (calls : ToolCalls F) where
  pub mapper-Keeps :
      (s t : CimState F) (u : Update F) → mapper_node calls t ≡ ok u → Keeps s (apply_update s u)
  unfolding mapper_node apply_update
  mapper-Keeps s t u h =
      let (d, e, h') = >>=-eq-ok (data_of t.metrics_store "tuner") _ h in
      subst (λ u. Keeps s (apply_update s u)) (ok-injective _ _ h') (refl, refl)

  pub profiler-Keeps :
      (s t : CimState F) (u : Update F) → profiler_node calls t ≡ ok u → Keeps s (apply_update s u)
  unfolding profiler_node apply_update
  profiler-Keeps s t u h =
      let (d, e, h1) = >>=-eq-ok (data_of t.metrics_store "tuner") _ h in
      let (p, e', h2) = >>=-eq-ok (data_of _ "profiler") _ h1 in
      let (f, e'', h3) = >>=-eq-ok (factors_at p) _ h2 in
      subst (λ u. Keeps s (apply_update s u)) (ok-injective _ _ h3) (refl, refl)

  pub verifier-Keeps :
      (schema : OutputSchemas F) (s : CimState F) (u : Update F)
      → verifier_node schema calls s ≡ ok u
      → Keeps s (apply_update s u)
  unfolding verifier_node apply_update
  verifier-Keeps schema s u h =
      let (m, e, h1) = >>=-eq-ok (schema "mapper" _) _ h in
      let (p, e', h2) = >>=-eq-ok (schema "profiler" _) _ h1 in
      subst (λ u. Keeps s (apply_update s u)) (ok-injective _ _ h2) (refl, refl)

  pub tuner-Keeps :
      ⦃fl : Float F⦄ (registry : Registry F) (s : CimState F) (u : Update F)
      → tuner_node registry calls s ≡ ok u
      → Keeps s (apply_update s u)
  unfolding tuner_node apply_update
  tuner-Keeps registry s u h =
      subst (λ u. Keeps s (apply_update s u)) (ok-injective _ _ h) (refl, refl)
