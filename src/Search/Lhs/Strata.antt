-- ===== src/Search/Lhs/Strata.antt =====
-- What makes the sampling a Latin hypercube: one sample in each stratum, in some order.
use autocim_agent.Prelude.{ℕ, zero, suc, ◌≡◌, refl, true, List, [], ◌∷◌, length, ap, ◌<◌, ok}
use mathlib.Core.List.{Perm}
use autocim_agent.Prelude.Float.{Float, Rng, IsRng}
use autocim_agent.Search.{Bounds}
use autocim_agent.Search.Lhs.{edge, draw_strata, shuffled_strata, latin_hypercube_1d}

module _ {F G : Type 0} ⦃fl : Float F⦄ (rg : Rng F G) where
  -- Sample by sample, from stratum `i` on: it lies between the two ends of its stratum.
  abbrev pub Stratified : ℕ → Bounds F → ℕ → List F → Type 0
  Stratified n bounds i [] = Unit
  Stratified n bounds i (x ∷ xs) =
      (fl.le (edge rg n bounds i) x ≡ true)
      × (fl.le x (edge rg n bounds (suc i)) ≡ true)
      × Stratified n bounds (suc i) xs

  pub length-draw_strata :
      (n : ℕ) (bounds : Bounds F) (k i : ℕ) (g : G) → length (draw_strata rg n bounds k i g).0 ≡ k
  unfolding draw_strata
  length-draw_strata n bounds zero i g = refl
  length-draw_strata n bounds (suc k) i g = ap suc (length-draw_strata n bounds k (suc i) _)

  pub latin_hypercube_1d-ok :
      (n : ℕ) (bounds : Bounds F) (seed : ℕ)
      → 0 < n
      → latin_hypercube_1d rg n bounds seed ≡ ok (shuffled_strata rg n bounds seed)
  unfolding latin_hypercube_1d
  latin_hypercube_1d-ok zero bounds seed pos = elim pos [ ]
  latin_hypercube_1d-ok (suc n) bounds seed pos = refl

  module _ (law : IsRng fl rg) (n : ℕ) (bounds : Bounds F) where
    draw_strata-Stratified :
        ((i : ℕ) → fl.le (edge rg n bounds i) (edge rg n bounds (suc i)) ≡ true)
        → (k i : ℕ) (g : G) → Stratified n bounds i (draw_strata rg n bounds k i g).0
    unfolding draw_strata
    draw_strata-Stratified rising zero i g = tt
    draw_strata-Stratified rising (suc k) i g = (
      law.uniform_ge _ _ g (rising i),
      law.uniform_le _ _ g (rising i),
      draw_strata-Stratified rising k (suc i) _,
    )

    -- For `n` of at least one, and strata that have their ends in order: the code returns samples that
    -- are a permutation of a list that has one sample in each of the `n` strata.
    pub latin_hypercube_1d_strata :
        ((i : ℕ) → fl.le (edge rg n bounds i) (edge rg n bounds (suc i)) ≡ true)
        → 0 < n
        → (seed : ℕ)
        → (samples : List F) × (latin_hypercube_1d rg n bounds seed ≡ ok samples)
          × ((points : List F) × (length points ≡ n)
              × Stratified n bounds 0 points
              × Perm samples points)
    unfolding shuffled_strata
    latin_hypercube_1d_strata rising pos seed = (
      shuffled_strata rg n bounds seed,
      latin_hypercube_1d-ok n bounds seed pos,
      (
        (draw_strata rg n bounds n 0 (rg.seeded seed)).0,
        length-draw_strata n bounds n 0 _,
        draw_strata-Stratified rising n 0 _,
        law.shuffle-perm _ _,
      ),
    )
