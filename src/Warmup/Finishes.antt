-- ===== src/Warmup/Finishes.antt =====
-- The whole warm-up returns where every training does.
use autocim_agent.Prelude.{
  ℕ, zero, suc, ◌<◌, ◌≤◌, ◌≡◌, refl, subst, String, Option, none, some, List, [], ◌∷◌, ◌+◌, length,
  get_elem?, set, All, arith, Exc, ok, Returns, bind-Returns,
}
use autocim_agent.Prelude.Dict.{Dict}
use autocim_agent.Prelude.Float.{Float}
use autocim_agent.Schemas.{HwConfig, LayerBitConfig}
use autocim_agent.State.{Metrics}
use autocim_agent.Middleware.{Registry}
use autocim_agent.Tools.{QatCall, QatResult}
use autocim_agent.Nodes.{OutputSchemas}
use autocim_agent.Nodes.Planner.{PlannerEnv}
use autocim_agent.Warmup.{evaluate_one_candidate}
use autocim_agent.Warmup.Total.{Evaluated, evaluate_total, collect_total}
use autocim_agent.Warmup.Ranks.{entries_of, collect-entries}
use autocim_agent.Warmup.Batch.{
  n_warmup, trial, gather, blank, filled, layer_configs_per_candidate, Batch, second_pass,
  evaluate_all, decisions, run_parallel_warmup,
}
use autocim_agent.Warmup.Order.{Complete, gather-length, gather-at, length-blank}

get_elem?-some :
    {A : Type 0} (xs : List A) (i : ℕ) → i < length xs → (x : A) × (get_elem? xs i ≡ some x)
get_elem?-some [] i l = absurd (omega (arith, l))
get_elem?-some (x ∷ xs) zero l = (x, refl)
get_elem?-some (x ∷ xs) (suc i) l = get_elem?-some xs i (omega (arith, l))

module _ {A B : Type 0} (evaluate : A → Exc B) (candidates : List A)
    (returns : (c : A) → Returns (evaluate c)) where
  -- The result of the candidate with this index.
  trial-result :
      (i : ℕ)
      → i < length candidates
      → (c : A) × (b : B) × (evaluate c ≡ ok b) × (trial evaluate candidates i ≡ ok b)
  unfolding trial
  trial-result i l =
      let (c, e) = get_elem?-some candidates i l in
      let (b, q) = returns c in (c, b, q, rw (e, trial) q)

  gather_total :
      (order : List ℕ) (slots : List (Option B))
      → All (λ i. i < length candidates) order
      → Returns (gather evaluate candidates order slots)
  unfolding gather
  gather_total [] slots tt = (slots, refl)
  gather_total (i ∷ order) slots (l, ls) =
      let (c, b, _, e) = trial-result i l in
      bind-Returns _ _ b e (gather_total order (set slots i (some b)) ls)

length-decisions :
    {F : Type 0} ⦃fl : Float F⦄ (show : ℕ → String) (n i : ℕ)
    (candidates : List (List (LayerBitConfig F)))
    → length (decisions show n i candidates) ≡ length candidates
unfolding decisions
length-decisions show n i [] = refl
length-decisions show n i (configs ∷ candidates) =
    omega (arith, length-decisions show n (suc i) candidates)

module _ {B : Type 0} (P : B → Type 0) where
  filled_total :
      (slots : List (Option B))
      → ((i : ℕ) → i < length slots → (b : B) × (get_elem? slots i ≡ some (some b)) × P b)
      → (results : List B) × (filled slots ≡ ok results)
        × All P results
        × (length results ≡ length slots)
  unfolding filled
  filled_total [] at_each = ([], refl, tt, refl)
  filled_total (none ∷ slots) at_each = absurd (cc ((at_each 0 (omega arith)).1))
  filled_total (some b ∷ slots) at_each =
      let (c, e, p) = at_each 0 (omega arith) in
      let (results, q, ps, n) = filled_total slots (λ i l. at_each (suc i) (omega (arith, l))) in
      let same : c ≡ b = cc e in (b ∷ results, rw (q) refl, (subst P same p, ps), omega (arith, n))

module _ {F G : Type 0} ⦃fl : Float F⦄ (env : PlannerEnv F G) (schema : OutputSchemas F)
    (qat : String → QatCall F → Exc (QatResult F)) (model_id : String) (hw : HwConfig F)
    (factors : Option (Dict F))
    (trained : (model : String) (call : QatCall F) → Returns (qat model call)) where
  module _ (candidates : List (List (LayerBitConfig F))) (order : List ℕ)
      (complete : Complete (length candidates) order)
      (inside : All (λ i. i < length candidates) order) where
    abbrev evaluate : List (LayerBitConfig F) → Exc (Metrics F)
    evaluate = evaluate_one_candidate qat env.show model_id hw factors

    returns : (configs : List (LayerBitConfig F)) → Returns (evaluate configs)
    returns = evaluate_total qat env.show model_id hw factors trained

    -- Every place holds the metrics of some candidate once all trials have finished.
    slot :
        (slots : List (Option (Metrics F)))
        → gather evaluate candidates order (blank candidates) ≡ ok slots
        → (i : ℕ) → i < length slots
        → (b : Metrics F) × (get_elem? slots i ≡ some (some b))
          × Evaluated qat env.show model_id hw factors b
    slot slots g i l =
        let sized = length-blank evaluate candidates candidates in
        let gathered = gather-length evaluate candidates order (blank candidates) slots g in
        let small : i < length (blank {B = Metrics F} candidates) = omega (arith, l, gathered) in
        let member_of : i < length candidates = omega (arith, small, sized) in
        let (c, b, q, e) = trial-result evaluate candidates returns i member_of in
        let held = gather-at evaluate candidates order (blank candidates) slots i small g in
        (b, rw (complete i member_of, e) at held, (c, q))

    evaluate_all_total :
        (batch : Batch F) × (evaluate_all env schema qat model_id hw factors order candidates
          ≡ ok batch)
        × (length batch.candidate_history + length batch.failure_history ≡ length candidates)
        × ((k : ℕ)
            → 1 ≤ k
            → k ≤ length candidates
            → entries_of k (batch.candidate_history, batch.failure_history) ≡ 1)
        × (length batch.planner_decisions ≡ length candidates)
    unfolding evaluate_all second_pass
    evaluate_all_total =
        let (slots, g) = gather_total evaluate candidates returns order (blank candidates) inside in
        let (results, f, ps, n) =
          filled_total (Evaluated qat env.show model_id hw factors) slots (slot slots g) in
        let (found, h) =
          collect_total qat env.show model_id hw factors schema results 0 ([], []) ps in
        let (sum, entries, _) = collect-entries schema results 0 ([], []) found tt h in
        let gathered = gather-length evaluate candidates order (blank candidates) slots g in
        let sized = length-blank evaluate candidates candidates in
        (
          record {
            candidate_history = found.0;
            failure_history = found.1;
            planner_decisions = decisions env.show (n_warmup env model_id) 0 candidates;
          },
          rw (g, f, h) refl,
          omega (arith, sum, n, gathered, sized),
          λ k above below. ground (arith, entries k, above, below, n, gathered, sized),
          length-decisions env.show (n_warmup env model_id) 0 candidates,
        )

  -- If no training raises an exception, the warm-up returns, in whatever order its trials finish: it
  -- has as many candidates and failures in all, and as many decisions, as there are planned candidates,
  -- and exactly one candidate or failure has the number of each planned candidate, counted from 1. The
  -- planning of the candidates has returned, and the order names each of them and no other.
  pub run_parallel_warmup_total :
      (registry : Registry F) (candidates : List (List (LayerBitConfig F))) (order : List ℕ)
      → layer_configs_per_candidate env registry model_id hw ≡ ok candidates
      → Complete (length candidates) order
      → All (λ i. i < length candidates) order
      → (batch : Batch F) × (run_parallel_warmup env schema qat model_id hw factors order registry
          ≡ ok batch)
        × (length batch.candidate_history + length batch.failure_history ≡ length candidates)
        × ((k : ℕ)
            → 1 ≤ k
            → k ≤ length candidates
            → entries_of k (batch.candidate_history, batch.failure_history) ≡ 1)
        × (length batch.planner_decisions ≡ length candidates)
  unfolding run_parallel_warmup
  run_parallel_warmup_total registry candidates order planned complete inside =
      let (batch, e, filed, each, decided) = evaluate_all_total candidates order complete inside in
      (batch, rw (planned) e, filed, each, decided)
