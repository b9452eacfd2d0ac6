-- ===== src/Search/Lhs.antt =====
-- tools/search.py: Latin hypercube sampling.
pub mod Strata
pub mod Shape
use autocim_agent.Prelude.{
  ℕ, zero, suc, ◌+◌, ◌%◌, Option, none, some, List, [], ◌∷◌, Exc, ok, raise, get_elem?, ◌>>=◌,
}
use autocim_agent.Prelude.Float.{Float, Rng}
use autocim_agent.Search.{Bounds, StagePoint}
use mathlib.Core.List.{zip, map}

-- `candidates[index]`
abbrev pub found {ℓ} : {A : Type ℓ} → Option A → Exc A
found none = raise "IndexError"
found (some x) = ok x

-- `candidates[index % n]`
unfoldable pub cyclic : {A : Type 0} → List A → ℕ → ℕ → Exc A
cyclic candidates index zero = raise "ZeroDivisionError"
cyclic candidates index (suc n) = found (get_elem? candidates (index % suc n))

module _ {F G : Type 0} ⦃fl : Float F⦄ (rg : Rng F G) where
  -- The lower end of stratum `i`: `low + i * width`.
  abbrev pub edge : ℕ → Bounds F → ℕ → F
  edge n (low, high) i = fl.add low (fl.mul (fl.of_nat i) (fl.div (fl.sub high low) (fl.of_nat n)))

  -- The samples of `k` strata from stratum `i` on.
  unfoldable pub draw_strata : ℕ → Bounds F → ℕ → ℕ → G → List F × G
  draw_strata n bounds zero i g = ([], g)
  draw_strata n bounds (suc k) i g =
      let (x, g') = rg.uniform (edge n bounds i) (edge n bounds (suc i)) g in
      let (xs, g'') = draw_strata n bounds k (suc i) g' in (x ∷ xs, g'')

  -- `n` samples, where the width of the strata is defined.
  unfoldable pub shuffled_strata : ℕ → Bounds F → ℕ → List F
  shuffled_strata n bounds seed =
      let (points, g) = draw_strata n bounds n 0 (rg.seeded seed) in (rg.shuffle points g).0

  -- Without samples, the width of the strata divides by zero.
  unfoldable pub latin_hypercube_1d : ℕ → Bounds F → ℕ → Exc (List F)
  latin_hypercube_1d zero bounds seed = raise "ZeroDivisionError"
  latin_hypercube_1d (suc n) bounds seed = ok (shuffled_strata (suc n) bounds seed)

  unfoldable pub latin_hypercube_candidates : ℕ → Bounds F → Bounds F → ℕ → Exc (List (F × F))
  latin_hypercube_candidates n bit_bounds pruning_bounds seed = do
    bits ← latin_hypercube_1d n bit_bounds seed
    pruning ← latin_hypercube_1d n pruning_bounds (seed + 1)
    ok (zip bits pruning)

  unfoldable pub warmup_candidate : ℕ → ℕ → Bounds F → Bounds F → ℕ → Exc (F × F)
  warmup_candidate index n_warmup bit_bounds pruning_bounds seed = do
    candidates ← latin_hypercube_candidates n_warmup bit_bounds pruning_bounds seed
    cyclic candidates index n_warmup

  -- `dims`, from dimension `d` on: bits at even dimensions, pruning ratios at odd ones.
  unfoldable pub stage_dims : ℕ → Bounds F → Bounds F → ℕ → ℕ → ℕ → Exc (List (List F))
  stage_dims n bit_bounds pruning_bounds seed zero d = ok []
  stage_dims n bit_bounds pruning_bounds seed (suc k) d = do
    bits ← latin_hypercube_1d n bit_bounds (seed + d)
    pruning ← latin_hypercube_1d n pruning_bounds (seed + (d + 1))
    ok (bits ∷ pruning ∷ (← stage_dims n bit_bounds pruning_bounds seed k (d + 2)))

module _ {F : Type 0} where
  -- The first elements of all the columns, if each has one.
  unfoldable pub heads : List (List F) → Option (List F)
  heads [] = some []
  heads ([] ∷ columns) = none
  heads ((x ∷ xs) ∷ columns) = elim (heads columns) [ none ↦ none | some row ↦ some (x ∷ row) ]

  abbrev pub tails : List (List F) → List (List F)
  tails [] = []
  tails ([] ∷ columns) = [] ∷ tails columns
  tails ((x ∷ xs) ∷ columns) = xs ∷ tails columns

  -- At most `n` rows of `zip(*dims)`.
  zip_from : ℕ → List (List F) → List (List F)
  zip_from zero columns = []
  zip_from (suc n) columns = elim (heads columns) [
    | none ↦ []
    | some row ↦ row ∷ zip_from n (tails columns)
  ]

  -- `zip(*dims)`, which is empty when there is no column, for columns of length at most `n`.
  unfoldable pub zip_rows : ℕ → List (List F) → List (List F)
  unfolding zip_from heads
  zip_rows n [] = []
  zip_rows n (column ∷ columns) = zip_from n (column ∷ columns)

  -- `[(row[2 * s], row[2 * s + 1]) for s in range(n_stages)]`
  unfoldable pub pairs : List F → StagePoint F
  pairs (bits ∷ pruning ∷ row) = (bits, pruning) ∷ pairs row
  pairs _ = []

module _ {F G : Type 0} ⦃fl : Float F⦄ (rg : Rng F G) where
  unfoldable pub latin_hypercube_stage_candidates :
      ℕ → ℕ → Bounds F → Bounds F → ℕ → Exc (List (StagePoint F))
  latin_hypercube_stage_candidates n_samples n_stages bit_bounds pruning_bounds seed = do
    dims ← stage_dims rg n_samples bit_bounds pruning_bounds seed n_stages 0
    ok (map pairs (zip_rows n_samples dims))

  unfoldable pub warmup_stage_candidate : ℕ → ℕ → ℕ → Bounds F → Bounds F → ℕ → Exc (StagePoint F)
  warmup_stage_candidate index n_warmup n_stages bit_bounds pruning_bounds seed = do
    candidates ← latin_hypercube_stage_candidates n_warmup n_stages bit_bounds pruning_bounds seed
    cyclic candidates index n_warmup
