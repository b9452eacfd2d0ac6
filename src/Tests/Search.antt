-- ===== src/Tests/Search.antt =====
-- What the theorems on the search say of concrete inputs.
use autocim_agent.Prelude.{
  ℕ, suc, ◌*◌, ◌≡◌, ◌↔◌, refl, true, false, none, some, List, [], ◌∷◌, length, All, arith, ok,
  raise, Bool, leb, ◌&&◌, Option, subst,
}
use mathlib.Core.List.{Perm, Mem}
use autocim_agent.Prelude.Float.{Float}
use autocim_agent.State.{CandidateEntry}
use autocim_agent.Search.{Bounds, StagePoint, normalize}
use autocim_agent.Search.Pareto.{dominates, compute_pareto_rank}
use autocim_agent.Search.Pareto.Laws.{compute_pareto_rank-gt, DominatorsBelow, Undominated}
use autocim_agent.Search.Pareto.Front.{compute_pareto_rank_front}
use autocim_agent.Search.Lhs.{pairs, edge, latin_hypercube_1d, warmup_stage_candidate}
use autocim_agent.Search.Lhs.Strata.{Stratified, latin_hypercube_1d_strata}
use autocim_agent.Search.Lhs.Shape.{warmup_stage_candidate_total}
use autocim_agent.Search.Surrogate.{
  acquisition, grid_rows, grid_value, propose_via_surrogate, predict_accuracy, weighted, idw_loop,
}
use autocim_agent.Search.Surrogate.Scan.{propose_via_surrogate_max}
use autocim_agent.Search.Propose.{
  surrogate_problem, Problem, Optimiser, propose_stage_candidates_via_surrogate,
}
use autocim_agent.Search.Propose.Bounded.{
  Within, RespectsBounds, InSpace, propose_stage_candidates-InSpace,
}
use autocim_agent.Tests.Numbers.{
  million, micro_float, low_rng, micro_float-IsOrder, micro_float-IsTotal, low_rng-IsRng,
}
use autocim_agent.Tests.Fixtures.{candidate}

abbrev good : CandidateEntry ℕ
good = candidate 950000 2000000 1000000 (some 1)

abbrev fair : CandidateEntry ℕ
fair = candidate 900000 3000000 2000000 (some 2)

abbrev poor : CandidateEntry ℕ
poor = candidate 800000 4000000 3000000 (some 3)

abbrev bit_bounds : Bounds ℕ
bit_bounds = (2 * million, 8 * million)

abbrev pruning_bounds : Bounds ℕ
pruning_bounds = (0, 500000)

good-fair : dominates good fair ≡ true
unfolding dominates
good-fair = refl

fair-poor : dominates fair poor ≡ true
unfolding dominates
fair-poor = refl

compute_pareto_rank-gt_example :
    DominatorsBelow poor (compute_pareto_rank poor (good ∷ fair ∷ [])) (good ∷ fair ∷ [])
compute_pareto_rank-gt_example = compute_pareto_rank-gt poor (good ∷ fair ∷ [])

compute_pareto_rank_front_example :
    (compute_pareto_rank good (fair ∷ poor ∷ []) ≡ 1) ↔ Undominated good (fair ∷ poor ∷ [])
compute_pareto_rank_front_example =
    compute_pareto_rank_front good (fair ∷ poor ∷ []) (omega arith, (omega arith, tt))

rising :
    (i : ℕ)
    → Float.le micro_float (edge low_rng 3 bit_bounds i) (edge low_rng 3 bit_bounds (suc i)) ≡ true
rising i = ground arith

latin_hypercube_1d_strata_example :
    (samples : List ℕ) × (latin_hypercube_1d low_rng 3 bit_bounds 7 ≡ ok samples)
    × ((points : List ℕ) × (length points ≡ 3)
        × Stratified low_rng 3 bit_bounds 0 points
        × Perm samples points)
latin_hypercube_1d_strata_example =
    latin_hypercube_1d_strata low_rng low_rng-IsRng 3 bit_bounds rising (omega arith) 7

-- Without samples, and on a grid of one point, the code divides by zero.
by_zero :
    (latin_hypercube_1d low_rng 0 bit_bounds 7 ≡ raise "ZeroDivisionError")
    × (propose_via_surrogate {F = ℕ} [] bit_bounds pruning_bounds 1 million
        ≡ raise "ZeroDivisionError")
unfolding latin_hypercube_1d propose_via_surrogate
by_zero = (refl, refl)

warmup_stage_candidate_total_example :
    (point : StagePoint ℕ) × (warmup_stage_candidate low_rng 1 3 2 bit_bounds pruning_bounds 7
      ≡ ok point)
    × (length point ≡ 2)
warmup_stage_candidate_total_example =
    warmup_stage_candidate_total low_rng low_rng-IsRng 1 3 2 bit_bounds pruning_bounds 7
      (omega arith) (omega arith)

-- An optimiser that proposes the two outer corners of a problem whose bounds are in order.
abbrev fits : List ℕ → List ℕ → Bool
fits [] [] = true
fits (l ∷ ls) (u ∷ us) = leb l u && fits ls us
fits _ _ = false

abbrev corners_if : Bool → Problem ℕ → Option (List (List ℕ))
corners_if true p = some (p.xl ∷ p.xu ∷ [])
corners_if false p = none

abbrev corners : Optimiser ℕ
corners p pop gens seed = corners_if (fits p.xl p.xu) p

fits-Within : (ls us : List ℕ) → fits ls us ≡ true → Within ls us ls × Within ls us us
fits-Within [] [] h = (tt, tt)
fits-Within [] (u ∷ us) h = cc h
fits-Within (l ∷ ls) [] h = cc h
fits-Within (l ∷ ls) (u ∷ us) h =
    let (low, high) = fits-Within ls us (ground (arith, h)) in
    ((ground arith, ground (arith, h), low), (ground (arith, h), ground arith, high))

corners_if-Within :
    (b : Bool) (p : Problem ℕ) (rows : List (List ℕ))
    → fits p.xl p.xu ≡ b
    → corners_if b p ≡ some rows
    → All (Within p.xl p.xu) rows
corners_if-Within true p rows h e =
    let (low, high) = fits-Within p.xl p.xu h in
    let same : p.xl ∷ p.xu ∷ [] ≡ rows = cc e in
    subst (All (Within p.xl p.xu)) same (low, (high, tt))
corners_if-Within false p rows h e = cc e

corners-RespectsBounds : RespectsBounds corners
corners-RespectsBounds = record {
  within = λ p pop gens seed rows e. corners_if-Within (fits p.xl p.xu) p rows refl e;
}

-- The optimiser's first solution is taken.
from_optimiser :
    propose_stage_candidates_via_surrogate low_rng corners
      (good ∷ [])
      ("conv1" ∷ [])
      bit_bounds
      pruning_bounds
      7
      200
      300000
      30
    ≡ ok ((2 * million, 0) ∷ [])
unfolding propose_stage_candidates_via_surrogate surrogate_problem pairs
from_optimiser = refl

propose_stage_candidates-InSpace_example :
    (point : StagePoint ℕ) × (propose_stage_candidates_via_surrogate low_rng corners
        (good ∷ [])
        ("conv1" ∷ [])
        bit_bounds
        pruning_bounds
        7
        200
        300000
        30
      ≡ ok point)
    × InSpace bit_bounds pruning_bounds ("conv1" ∷ []) point
propose_stage_candidates-InSpace_example =
    propose_stage_candidates-InSpace low_rng low_rng-IsRng corners bit_bounds pruning_bounds
      ("conv1" ∷ []) corners-RespectsBounds refl refl (good ∷ []) 7 200 300000 30

above :
    Float.lt micro_float 0 (
      acquisition
        (good ∷ [])
        bit_bounds
        pruning_bounds
        million
        (grid_value 2 bit_bounds 0, grid_value 2 pruning_bounds 0))
    ≡ true
unfolding predict_accuracy idw_loop weighted normalize
above = refl

propose_via_surrogate_max_example :
    (let score = acquisition (good ∷ []) bit_bounds pruning_bounds million in
      let grid = grid_rows 2 bit_bounds pruning_bounds 2 0 in
      (r : ℕ × ℕ) × (propose_via_surrogate (good ∷ []) bit_bounds pruning_bounds 2 million ≡ ok r)
      × Mem r grid
      × All (λ q. Float.lt micro_float (score r) (score q) ≡ false) grid)
propose_via_surrogate_max_example =
    propose_via_surrogate_max micro_float-IsOrder micro_float-IsTotal (good ∷ []) bit_bounds
      pruning_bounds 0 million above
