-- ===== src/Nodes/Planner/Node/Sanitize.antt =====
-- What a planning round leaves in the state.
use autocim_agent.Prelude.{
  ℕ, ◌+◌, ◌≡◌, refl, List, [], ◌∷◌, length, length-append, is_empty, String, Exc, ok, ◌>>=◌,
  >>=-eq-ok, ok-injective, if◌then◌else◌, get_or, subst, ap, ◌∙◌,
}
use autocim_agent.Prelude.Dict.{Dict}
use autocim_agent.Prelude.Float.{Float}
use autocim_agent.Schemas.{LayerBitConfig}
use autocim_agent.State.{CimState, Update, Override, apply_update, merge_dicts}
use autocim_agent.Middleware.{Registry}
use autocim_agent.Nodes.Planner.{
  PlannerEnv, real_stage_names, propose_stage_points, points_to_stage_configs,
}
use autocim_agent.Nodes.Planner.Node.{ChatModel, planned_update, planner_node, sanitized}
use autocim_agent.Llm.{LlmEnv}

module _ {F G : Type 0} ⦃fl : Float F⦄ (env : PlannerEnv F G) (llm : LlmEnv F)
    (chat : ChatModel F) where
  -- The state after a round that has planned `configs`.
  abbrev pub Planned : CimState F → CimState F → Type 0
  Planned s t =
      (t.human_overrides ≡ [])
      × (t.iteration_count ≡ s.iteration_count + 1)
      × (t.retry_count ≡ (if is_empty s.human_overrides then s.retry_count else 0))
      × (length t.llm_usage ≡ length s.llm_usage + 1)

  sanitized_overrides :
      (n : ℕ) (l : Dict (Override F)) → get_or (sanitized env llm chat n l).human_overrides l ≡ []
  unfolding sanitized
  sanitized_overrides n [] = refl
  sanitized_overrides n (x ∷ l) = refl

  sanitized_retries :
      (n r : ℕ) (l : Dict (Override F))
      → get_or (sanitized env llm chat n l).retry_count r ≡ (if is_empty l then r else 0)
  unfolding sanitized
  sanitized_retries n r [] = refl
  sanitized_retries n r (x ∷ l) = refl

  planned_update-Planned :
      (s : CimState F) (overrides : Dict (Override F)) (tag : String)
      (configs : List (LayerBitConfig F))
      → Planned s (apply_update s (planned_update env llm chat s overrides tag configs))
  unfolding apply_update planned_update
  planned_update-Planned s overrides tag configs = (
    sanitized_overrides _ s.human_overrides,
    refl,
    sanitized_retries _ _ s.human_overrides,
    length-append s.llm_usage _,
  )

  planned_configs :
      (s : CimState F) (overrides : Dict (Override F)) (tag : String)
      (configs : List (LayerBitConfig F))
      → configs
        ≡ (apply_update s
            (planned_update env llm chat s overrides tag configs)).planned_layer_configs
  unfolding apply_update planned_update
  planned_configs s overrides tag configs = refl

  -- What the search proposes for the state, with no regard to the model.
  abbrev pub proposed : Registry F → CimState F → Exc (List (LayerBitConfig F))
  proposed registry s =
      propose_stage_points env registry s (real_stage_names env s.model_id)
        (merge_dicts s.search_bound_overrides s.human_overrides)
      >>= (λ p. points_to_stage_configs p.0 (real_stage_names env s.model_id))

  -- A planning round that returns has consumed the human's overrides, has counted one iteration
  -- and recorded one call of the model, and has reset the retries exactly when there were overrides
  -- to consume. The configurations it plans are those of the search, whatever the model answers, also
  -- when the model is not called.
  pub planner_node-Planned :
      (registry : Registry F) (s : CimState F) (u : Update F)
      → planner_node env llm chat registry s ≡ ok u
      → Planned s (apply_update s u)
        × (proposed registry s ≡ ok (apply_update s u).planned_layer_configs)
  unfolding planner_node
  planner_node-Planned registry s u h =
      let (p, e, h1) = >>=-eq-ok (propose_stage_points env registry s _ _) _ h in
      let (configs, f, h2) = >>=-eq-ok (points_to_stage_configs p.0 _) _ h1 in
      subst
        (λ v.
          Planned s (apply_update s v)
          × (proposed registry s ≡ ok (apply_update s v).planned_layer_configs))
        (ok-injective _ _ h2)
        (
          planned_update-Planned s _ p.1 configs,
          ap (λ m. m >>= (λ p. points_to_stage_configs p.0 (real_stage_names env s.model_id))) e
              ∙ f
              ∙ ap ok (planned_configs s _ p.1 configs),
        )
