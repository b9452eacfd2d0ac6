-- ===== src/Nodes/Planner/Configs.antt =====
-- Every point of the search space becomes a valid configuration, one for each stage.
use autocim_agent.Prelude.{
  ℕ, ◌≡◌, ◌≤◌, ◌<◌, refl, String, true, List, [], ◌∷◌, arith, ok, All, map, subst,
}
use autocim_agent.Prelude.Int.{ℤ, pos, negsuc, max_ℤ}
use autocim_agent.Prelude.Float.{Float, IsOrder, IsTotal, IsRounding, max_f, min_f, zero_f}
use autocim_agent.Schemas.{LayerBitConfig, IsValidLayer}
use autocim_agent.Search
use autocim_agent.Search.{StagePoint}
use autocim_agent.Search.Propose.Bounded.{InSpace}
use autocim_agent.Nodes.Planner.{
  construct_layer, stage_bits, stage_pruning, points_to_stage_configs, pruning_ratio_max,
}

module _ {F : Type 0} ⦃fl : Float F⦄ (law : IsOrder fl) (total : IsTotal fl)
    (round : IsRounding fl) where
  clipped_ge : (p : F) → fl.le zero_f (min_f (max_f p zero_f) pruning_ratio_max) ≡ true
  clipped_ge p = ground (
    arith,
    round.zero_le_half,
    total.le_of_not_lt p zero_f,
    total.le_of_not_lt zero_f zero_f,
    law.lt-irrefl zero_f,
  )

  clipped_le : (p : F) → fl.le (min_f (max_f p zero_f) pruning_ratio_max) pruning_ratio_max ≡ true
  clipped_le p = ground (
    arith,
    round.zero_le_half,
    total.le_of_not_lt pruning_ratio_max p,
    total.le_of_not_lt pruning_ratio_max pruning_ratio_max,
    total.le_of_not_lt pruning_ratio_max zero_f,
    law.lt-irrefl pruning_ratio_max,
  )

  stage_pruning_ge : (p : F) → fl.le zero_f (stage_pruning p) ≡ true
  stage_pruning_ge p =
      subst (λ z. fl.le z (stage_pruning p) ≡ true) (round.round_zero 4)
        (round.round_mono _ _ 4 (clipped_ge p))

  stage_pruning_lt : (p : F) → fl.lt (stage_pruning p) (fl.of_nat 1) ≡ true
  stage_pruning_lt p =
      law.lt_of_le_of_lt _ _ _
        (subst (λ z. fl.le (stage_pruning p) z ≡ true) round.round_half
          (round.round_mono _ _ 4 (clipped_le p)))
        round.half_lt_one

  max_two : (i : ℤ) (n : ℕ) → 2 ≤ n → max_ℤ 0 i ≤ n → (0 < max_ℤ 2 i) × (max_ℤ 2 i ≤ n)
  max_two (pos k) n h m = ground arith
  max_two (negsuc k) n h m = ground arith

  construct_layer_total :
      (name : String) (bits p : F) (n : ℕ)
      → 2 ≤ n
      → n ≤ 32
      → fl.le bits (fl.of_nat n) ≡ true
      → (lc : LayerBitConfig F) × (construct_layer name (stage_bits bits) (stage_pruning p) ≡ ok lc)
        × IsValidLayer fl lc
        × (lc.layer_name ≡ name)
        × (lc.weight_bits ≤ n)
  unfolding construct_layer
  construct_layer_total name bits p n h k b =
      let (low, high) = max_two (fl.nearest bits) n h (round.nearest-le bits n b) in
      (
        record {
          layer_name = name;
          weight_bits = stage_bits bits;
          activation_bits = stage_bits bits;
          column_pruning_ratio = stage_pruning p;
        },
        ground (arith, stage_pruning_ge p, stage_pruning_lt p),
        record {
          weight_pos = low;
          weight_le = omega arith;
          activation_pos = low;
          activation_le = omega arith;
          ratio_nonneg = stage_pruning_ge p;
          ratio_lt_one = stage_pruning_lt p;
        },
        refl,
        high,
      )

  -- For every point of a search space whose bits end at a whole number between 2 and 32, the
  -- configurations are constructed without a validation error: one for each stage, with the stages'
  -- names in their order, each valid and with at most that many bits.
  pub points_to_stage_configs_valid :
      (bb pb : Search.Bounds F) (names : List String) (point : StagePoint F) (n : ℕ)
      → 2 ≤ n
      → n ≤ 32
      → fl.le bb.1 (fl.of_nat n) ≡ true
      → InSpace bb pb names point
      → (configs : List (LayerBitConfig F)) × (points_to_stage_configs point names ≡ ok configs)
        × (map (λ (lc : LayerBitConfig F). lc.layer_name) configs ≡ names)
        × All (λ (lc : LayerBitConfig F). IsValidLayer fl lc × (lc.weight_bits ≤ n)) configs
  unfolding points_to_stage_configs
  points_to_stage_configs_valid bb pb [] [] n h k b s = ([], refl, refl, tt)
  points_to_stage_configs_valid bb pb [] (x ∷ point) n h k b s = elim s [ ]
  points_to_stage_configs_valid bb pb (name ∷ names) [] n h k b s = elim s [ ]
  points_to_stage_configs_valid bb pb (name ∷ names) ((bits, p) ∷ point) n h k b s =
      let (lc, e, valid, named, bounded) =
        construct_layer_total name bits p n h k (law.le_trans bits bb.1 (fl.of_nat n) s.0.1 b) in
      let (configs, e', names', all) =
        points_to_stage_configs_valid bb pb names point n h k b s.2 in
      (
        lc ∷ configs,
        rw (e, e', points_to_stage_configs),
        cc (named, names'),
        ((valid, bounded), all),
      )
