-- ===== src/Warmup/Order.antt =====
-- The order in which the warm-up trials finish does not show in what the warm-up returns.
use autocim_agent.Prelude.{
  ℕ, ◌<◌, ◌≡◌, refl, sym, ◌∙◌, ap, subst, String, Bool, true, false, Bool-cases, inl, inr, ◌==◌,
  ==_iff, ◌||◌, Option, none, some, List, [], ◌∷◌, length, get_elem?, set, length-set,
  get_elem?-set_self, get_elem?-set_ne, list_ext, if◌then◌else◌, arith, Exc, ok, raise, >>=-eq-ok,
  ok-injective,
}
use autocim_agent.Prelude.Dict.{Dict}
use autocim_agent.Prelude.Float.{Float}
use autocim_agent.Schemas.{HwConfig, LayerBitConfig}
use autocim_agent.Middleware.{Registry}
use autocim_agent.Tools.{QatCall, QatResult}
use autocim_agent.Nodes.{OutputSchemas}
use autocim_agent.Nodes.Planner.{PlannerEnv}
use autocim_agent.Warmup.{evaluate_one_candidate}
use autocim_agent.Warmup.Batch.{
  trial, gather, blank, layer_configs_per_candidate, Batch, second_pass, evaluate_all,
  run_parallel_warmup,
}

abbrev pub member : ℕ → List ℕ → Bool
member i [] = false
member i (j ∷ order) = i == j || member i order

-- Every trial is in the order.
abbrev pub Complete : ℕ → List ℕ → Type 0
Complete total order = (i : ℕ) → i < total → member i order ≡ true

-- What a place holds when its trial has returned.
abbrev pub place : {B : Type 0} → Exc B → Option (Option B)
place (raise e) = none
place (ok b) = some (some b)

module _ {A B : Type 0} (evaluate : A → Exc B) (candidates : List A) where
  pub gather-length :
      (order : List ℕ) (slots final : List (Option B))
      → gather evaluate candidates order slots ≡ ok final
      → length final ≡ length slots
  unfolding gather
  gather-length [] slots final h = ap length (sym (ok-injective slots final h))
  gather-length (j ∷ order) slots final h =
      let (result, _, h') = >>=-eq-ok (trial evaluate candidates j) _ h in
      gather-length order (set slots j (some result)) final h' ∙ length-set slots j (some result)

  set-at :
      (slots : List (Option B)) (i j : ℕ) (result : B)
      → i < length slots
      → trial evaluate candidates j ≡ ok result
      → get_elem? (set slots j (some result)) i
        ≡ (if i == j then place (trial evaluate candidates i) else get_elem? slots i)
  set-at slots i j result l e = elim (Bool-cases (i == j)) [
    | inl q ↦
        let same : i ≡ j = (==_iff i j).0 q in
        let held : place (trial evaluate candidates i) ≡ some (some result) =
          ap place (ap (trial evaluate candidates) same ∙ e) in
        let found : get_elem? (set slots j (some result)) i ≡ some (some result) =
          subst (λ k. get_elem? (set slots k (some result)) i ≡ some (some result)) same
            (get_elem?-set_self slots i (some result) l) in
        rw (q) (found ∙ sym held)
    | inr q ↦ rw (q) (get_elem?-set_ne slots i j (some result) (λ e. cc ((==_iff i j).1 e, q)))
  ]

  pub gather-at :
      (order : List ℕ) (slots final : List (Option B)) (i : ℕ)
      → i < length slots
      → gather evaluate candidates order slots ≡ ok final
      → get_elem? final i
        ≡ (if member i order then place (trial evaluate candidates i) else get_elem? slots i)
  unfolding gather
  gather-at [] slots final i l h = ap (λ xs. get_elem? xs i) (sym (ok-injective slots final h))
  gather-at (j ∷ order) slots final i l h =
      let (result, e, h') = >>=-eq-ok (trial evaluate candidates j) _ h in
      let slots' = set slots j (some result) in
      let ih =
        gather-at order slots' final i (omega (arith, l, length-set slots j (some result))) h' in
      let put = set-at slots i j result l e in ground (arith, ih, put)

  pub length-blank : (cs : List A) → length (blank {B = B} cs) ≡ length cs
  length-blank [] = refl
  length-blank (c ∷ cs) = omega (arith, length-blank cs)

  gather-same :
      (order order' : List ℕ) (final final' : List (Option B))
      → Complete (length candidates) order
      → Complete (length candidates) order'
      → gather evaluate candidates order (blank candidates) ≡ ok final
      → gather evaluate candidates order' (blank candidates) ≡ ok final'
      → final ≡ final'
  gather-same order order' final final' c c' h h' =
      let sized = length-blank candidates in
      let here = gather-length order (blank candidates) final h in
      let there = gather-length order' (blank candidates) final' h' in
      list_ext final final' (here ∙ sym there) (λ i l.
        let small : i < length (blank {B = B} candidates) = omega (arith, l, here) in
        let inside : i < length candidates = omega (arith, small, sized) in
        let at_here = gather-at order (blank candidates) final i small h in
        let at_there = gather-at order' (blank candidates) final' i small h' in
        ground (arith, at_here, at_there, c i inside, c' i inside))

module _ {F G : Type 0} ⦃fl : Float F⦄ (env : PlannerEnv F G) (schema : OutputSchemas F)
    (qat : String → QatCall F → Exc (QatResult F)) (model_id : String) (hw : HwConfig F)
    (factors : Option (Dict F)) where
  evaluate_all-same :
      (candidates : List (List (LayerBitConfig F))) (order order' : List ℕ) (batch batch' : Batch F)
      → Complete (length candidates) order
      → Complete (length candidates) order'
      → evaluate_all env schema qat model_id hw factors order candidates ≡ ok batch
      → evaluate_all env schema qat model_id hw factors order' candidates ≡ ok batch'
      → batch ≡ batch'
  unfolding evaluate_all
  evaluate_all-same candidates order order' batch batch' c c' h h' =
      let evaluate = evaluate_one_candidate qat env.show model_id hw factors in
      let pass = second_pass env schema model_id candidates in
      let (slots, e, g) = >>=-eq-ok (gather evaluate candidates order (blank candidates)) pass h in
      let (slots', e', g') =
        >>=-eq-ok (gather evaluate candidates order' (blank candidates)) pass h' in
      let same = gather-same evaluate candidates order order' slots slots' c c' e e' in
      ok-injective _ _ (sym g ∙ (ap pass same ∙ g'))

  -- Two warm-ups of the same session that both return, and in which every trial finishes, return the
  -- same candidates, ranks, failures and decisions, in whatever orders their trials finish.
  pub run_parallel_warmup_any_order :
      (registry : Registry F) (order order' : List ℕ) (batch batch' : Batch F)
      → ((candidates : List (List (LayerBitConfig F)))
          → layer_configs_per_candidate env registry model_id hw ≡ ok candidates
          → Complete (length candidates) order × Complete (length candidates) order')
      → run_parallel_warmup env schema qat model_id hw factors order registry ≡ ok batch
      → run_parallel_warmup env schema qat model_id hw factors order' registry ≡ ok batch'
      → batch ≡ batch'
  unfolding run_parallel_warmup
  run_parallel_warmup_any_order registry order order' batch batch' complete h h' =
      let configs = layer_configs_per_candidate env registry model_id hw in
      let all = evaluate_all env schema qat model_id hw factors in
      let (candidates, e, g) = >>=-eq-ok configs (all order) h in
      let (candidates', e', g') = >>=-eq-ok configs (all order') h' in
      let same = ok-injective _ _ (sym e' ∙ e) in
      let (c, c') = complete candidates e in
      evaluate_all-same candidates order order' batch batch' c c' g
        (subst (λ l. all order' l ≡ ok batch') same g')
