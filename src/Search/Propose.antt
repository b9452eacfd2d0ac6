-- ===== src/Search/Propose.antt =====
-- tools/search.py: the multi-objective problem over the surrogates, and the proposal. The
-- optimiser (pymoo's NSGA-II) is a parameter.
pub mod Bounded
use autocim_agent.Prelude.{
  ℕ, zero, suc, ◌*◌, String, Option, none, some, List, [], ◌∷◌, length, get_elem?, Exc, ok, raise,
}
use autocim_agent.Prelude.Float.{Float, Rng}
use autocim_agent.State.{CandidateEntry}
use autocim_agent.Search.{Bounds, StagePoint}
use autocim_agent.Search.Lhs.{pairs}
use autocim_agent.Search.Surrogate.{
  predict_accuracy_stages, predict_energy_stages, predict_latency_stages,
}

-- pymoo's `Problem`: its size, the bounds of each variable and the objectives of a row.
pub record Problem (F : Type 0) : Type 0 where
  pub n_var : ℕ
  pub xl : List F
  pub xu : List F
  pub evaluate : List F → List F

-- `minimize(problem, NSGA2(pop_size), ("n_gen", n_generations), seed=seed).X`: problem, population,
-- generations and seed; `none` where there is no solution.
abbrev pub Optimiser : Type 0 → Type 0
Optimiser F = Problem F → ℕ → ℕ → ℕ → Option (List (List F))

module _ {F : Type 0} ⦃fl : Float F⦄ where
  -- `[bit_bounds[0] if d % 2 == 0 else pruning_bounds[0] for d in range(2 * n)]`
  abbrev pub alternate : F → F → ℕ → List F
  alternate bits pruning zero = []
  alternate bits pruning (suc n) = bits ∷ pruning ∷ alternate bits pruning n

  -- One row of `_evaluate`.
  unfoldable pub objectives :
      List (CandidateEntry F) → List String → Bounds F → Bounds F → F → StagePoint F → List F
  objectives history stage_names bit_bounds pruning_bounds weight point =
      let (accuracy, accuracy_unc) =
        predict_accuracy_stages point history stage_names bit_bounds pruning_bounds in
      let (energy, energy_unc) =
        predict_energy_stages point history stage_names bit_bounds pruning_bounds in
      let (latency, latency_unc) =
        predict_latency_stages point history stage_names bit_bounds pruning_bounds in
      fl.neg (fl.add accuracy (fl.mul weight accuracy_unc))
      ∷ fl.sub energy (fl.mul weight energy_unc)
      ∷ fl.sub latency (fl.mul weight latency_unc)
      ∷ []

  -- `_SurrogateMultiObjectiveProblem`; `row_to_point` is `pairs`.
  unfoldable pub surrogate_problem :
      List (CandidateEntry F) → List String → Bounds F → Bounds F → F → Problem F
  surrogate_problem history stage_names bit_bounds pruning_bounds weight = record {
    n_var = 2 * length stage_names;
    xl = alternate bit_bounds.0 pruning_bounds.0 (length stage_names);
    xu = alternate bit_bounds.1 pruning_bounds.1 (length stage_names);
    evaluate = λ row. objectives history stage_names bit_bounds pruning_bounds weight (pairs row);
  }

module _ {F G : Type 0} ⦃fl : Float F⦄ (rg : Rng F G) (nsga2 : Optimiser F) where
  -- The fallback: one uniform pair for each stage.
  unfoldable pub uniform_points : Bounds F → Bounds F → List String → G → StagePoint F
  uniform_points bit_bounds pruning_bounds [] g = []
  uniform_points bit_bounds pruning_bounds (name ∷ names) g =
      let (bits, g') = rg.uniform bit_bounds.0 bit_bounds.1 g in
      let (pruning, g'') = rg.uniform pruning_bounds.0 pruning_bounds.1 g' in
      (bits, pruning) ∷ uniform_points bit_bounds pruning_bounds names g''

  -- What is taken from `result.X`.
  choose : Bounds F → Bounds F → List String → G → Option (List (List F)) → Exc (StagePoint F)
  choose bit_bounds pruning_bounds stage_names g none =
      ok (uniform_points bit_bounds pruning_bounds stage_names g)
  choose bit_bounds pruning_bounds stage_names g (some []) =
      ok (uniform_points bit_bounds pruning_bounds stage_names g)
  choose bit_bounds pruning_bounds stage_names g (some (row ∷ rows)) =
      elim (get_elem? (row ∷ rows) (rg.randrange (length (row ∷ rows)) g).0) [
        | none ↦ raise "IndexError"
        | some chosen ↦ ok (pairs chosen)
      ]

  unfoldable pub propose_stage_candidates_via_surrogate :
      List (CandidateEntry F)
      → List String
      → Bounds F
      → Bounds F
      → ℕ
      → ℕ
      → F
      → ℕ
      → Exc (StagePoint F)
  unfolding choose
  propose_stage_candidates_via_surrogate history stage_names bit_bounds pruning_bounds seed
        n_candidates weight n_generations =
      choose bit_bounds pruning_bounds stage_names (rg.seeded seed) (
        nsga2 (surrogate_problem history stage_names bit_bounds pruning_bounds weight) n_candidates
          n_generations seed)
