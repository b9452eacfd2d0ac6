-- ===== src/Nodes/Planner.antt =====
-- nodes/planner.py: the bounds of the search, the proposal for each stage, and the node.
pub mod Bounds
pub mod Configs
pub mod Node
use autocim_agent.Prelude.{
  ℕ, ◌+◌, String, ◌<>◌, Bool, ◌&&◌, Option, some, List, [], ◌∷◌, length, leb, ltb, min, max,
  is_empty, Exc, ok, raise, ◌>>=◌, if◌then◌else◌,
}
use autocim_agent.Prelude.Int.{max_ℤ}
use autocim_agent.Prelude.Dict.{Dict, lookup}
use autocim_agent.Prelude.Float.{Float, Rng, zero_f, max_f, min_f}
use autocim_agent.Schemas.{HwConfig, LayerBitConfig}
use autocim_agent.State.{CimState, Override, number}
use autocim_agent.Middleware.{Registry, get_hw_config}
use autocim_agent.Search
use autocim_agent.Search.{StagePoint}
use autocim_agent.Search.Lhs.{warmup_stage_candidate}
use autocim_agent.Search.Propose.{Optimiser, propose_stage_candidates_via_surrogate}

abbrev pub warmup_candidates : ℕ
warmup_candidates = 3

abbrev pub max_warmup_candidates : ℕ
max_warmup_candidates = 12

abbrev pub weight_bits_min : ℕ
weight_bits_min = 2

unfoldable pub warmup_count : ℕ → ℕ
warmup_count n_stages = min max_warmup_candidates (max warmup_candidates n_stages)

in_bits : ℕ → Bool
in_bits n = ltb 0 n && leb n 32

unfoldable pub bits_ceiling : {F : Type 0} → Exc (HwConfig F) → ℕ
bits_ceiling (raise e) = 8
bits_ceiling (ok hw) = min 8 (min hw.adc_bits hw.dac_bits)

-- `bits_max` of `search_bounds`: the converters' resolution, at most 8 and at least 3.
unfoldable pub bits_max : {F : Type 0} → Registry F → String → ℕ
unfolding bits_ceiling
bits_max registry hw_spec_id =
    max (bits_ceiling (get_hw_config hw_spec_id registry)) (weight_bits_min + 1)

module _ {F : Type 0} ⦃fl : Float F⦄ where
  abbrev pub pruning_ratio_max : F
  pruning_ratio_max = fl.decimal 5 1

  -- An override that is a number narrows its end; any other is ignored.
  raised : F → Option (Override F) → F
  raised lo (some (number x)) = max_f lo x
  raised lo _ = lo

  lowered : F → Option (Override F) → F
  lowered hi (some (number x)) = min_f hi x
  lowered hi _ = hi

  -- `_clamp_bounds`
  unfoldable pub clamp_bounds :
      Search.Bounds F → Option (Override F) → Option (Override F) → Search.Bounds F
  unfolding raised lowered
  clamp_bounds (lo, hi) override_lo override_hi =
      let new_lo = raised lo override_lo in
      let new_hi = lowered hi override_hi in
      if fl.lt new_hi new_lo then (lo, hi) else (new_lo, new_hi)

  -- The range without overrides. Its upper end is at least 3, also for a converter of 1 or 2 bits.
  abbrev pub default_bit_bounds : Registry F → String → Search.Bounds F
  default_bit_bounds registry hw_spec_id =
      (fl.of_nat weight_bits_min, fl.of_nat (bits_max registry hw_spec_id))

  abbrev pub policy_pruning_bounds : Search.Bounds F
  policy_pruning_bounds = (zero_f, pruning_ratio_max)

  unfoldable pub search_bounds :
      Registry F → String → Dict (Override F) → Search.Bounds F × Search.Bounds F
  search_bounds registry hw_spec_id overrides =
      if is_empty overrides
      then (default_bit_bounds registry hw_spec_id, policy_pruning_bounds)
      else (
        clamp_bounds (default_bit_bounds registry hw_spec_id) (lookup "weight_bits_min" overrides)
            (lookup "weight_bits_max" overrides),
        clamp_bounds policy_pruning_bounds (lookup "pruning_ratio_min" overrides)
            (lookup "pruning_ratio_max" overrides),
      )

  -- pydantic's checks when a `LayerBitConfig` is constructed.
  unfoldable pub construct_layer : String → ℕ → F → Exc (LayerBitConfig F)
  unfolding in_bits
  construct_layer name bits ratio =
      if in_bits bits && (fl.le zero_f ratio && fl.lt ratio (fl.of_nat 1))
      then ok (record {
        layer_name = name;
        weight_bits = bits;
        activation_bits = bits;
        column_pruning_ratio = ratio;
      })
      else raise "ValidationError"

  abbrev pub stage_bits : F → ℕ
  stage_bits bits = max_ℤ weight_bits_min (fl.nearest bits)

  abbrev pub stage_pruning : F → F
  stage_pruning pruning = fl.round_to (min_f (max_f pruning zero_f) pruning_ratio_max) 4

  -- The loop over `zip(stage_names, stage_points)`.
  unfoldable pub points_to_stage_configs :
      StagePoint F → List String → Exc (List (LayerBitConfig F))
  points_to_stage_configs ((bits, pruning) ∷ points) (name ∷ names) = do
    config ← construct_layer name (stage_bits bits) (stage_pruning pruning)
    configs ← points_to_stage_configs points names
    ok (config ∷ configs)
  points_to_stage_configs _ _ = ok []

-- What the planner takes from elsewhere: generators of random numbers, the optimiser, `zlib.crc32`,
-- the model registry of tools/qat.py, and the rendering of numbers and of overrides.
pub record PlannerEnv (F G : Type 0) : Type 0 where
  pub rng : Rng F G
  pub nsga2 : Optimiser F
  pub crc32 : String → ℕ
  pub get_layer_groups : String → Exc (List String)
  pub show : ℕ → String
  pub show_overrides : Dict (Override F) → String

module _ {F G : Type 0} (env : PlannerEnv F G) where
  names_or_default : Exc (List String) → List String
  names_or_default (ok names) = names
  names_or_default (raise e) = "model_default" ∷ []

  unfoldable pub real_stage_names : String → List String
  unfolding names_or_default
  real_stage_names model_id = names_or_default (env.get_layer_groups model_id)

  unfoldable pub search_seed_for : String → String → ℕ
  search_seed_for model_id hw_spec_id = env.crc32 (model_id <> ("::" <> hw_spec_id))

module _ {F G : Type 0} ⦃fl : Float F⦄ (env : PlannerEnv F G) where
  -- `_propose_stage_points`: the point for each stage and the tag of the phase. The population, the
  -- weight and the generations are the defaults of `propose_stage_candidates_via_surrogate`.
  unfoldable pub propose_stage_points :
      Registry F → CimState F → List String → Dict (Override F) → Exc (StagePoint F × String)
  propose_stage_points registry s stage_names overrides =
      let (bit_bounds, pruning_bounds) = search_bounds registry s.hw_spec_id overrides in
      let history = s.candidate_history in
      let n_warmup = warmup_count (length stage_names) in
      let seed = search_seed_for env s.model_id s.hw_spec_id in
      let warmup =
        warmup_stage_candidate env.rng (length history) n_warmup (length stage_names) bit_bounds
          pruning_bounds seed in
      let surrogate =
        propose_stage_candidates_via_surrogate env.rng env.nsga2 history stage_names bit_bounds
          pruning_bounds seed 200 (fl.decimal 3 1) 30 in
      if ltb (length history) n_warmup
      then warmup >>= (λ point. ok (
        point,
        "LHS warm-up candidate " <> (env.show (length history + 1) <> ("/" <> env.show n_warmup)),
      ))
      else surrogate >>= (λ point. ok (
        point,
        "surrogate-model acquisition over " <> (env.show (length history) <> " prior candidates"),
      ))
