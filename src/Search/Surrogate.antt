-- ===== src/Search/Surrogate.antt =====
-- tools/search.py: the inverse-distance-weighted surrogate, and the scan of the flat search space.
pub mod Scan
use autocim_agent.Prelude.{
  ℕ, zero, suc, ◌-◌, Bool, true, false, String, str_eq, Option, none, some, List, [], ◌∷◌, ◌++◌,
  ◌&&◌, if◌then◌else◌, map, Exc, ok, raise,
}
use mathlib.Core.List.{zip}
use autocim_agent.Prelude.Float.{Float, zero_f, sum_f}
use autocim_agent.Schemas.{LayerBitConfig}
use autocim_agent.State.{CandidateEntry}
use autocim_agent.Search.{Bounds, StagePoint, normalize}

abbrev pub contains : String → List String → Bool
contains name [] = false
contains name (n ∷ names) = if str_eq n name then true else contains name names

module _ {F : Type 0} ⦃fl : Float F⦄ where
  abbrev pub square : F → F
  square x = fl.mul x x

  -- The values after the loop: the weighted mean, and the uncertainty.
  unfoldable pub weighted : List F → List F → F → F × F
  weighted [] values neutral = (neutral, fl.of_nat 1)
  weighted (w ∷ weights) values neutral =
      let total = sum_f (w ∷ weights) in
      (
        fl.div (sum_f (map (λ (a, b). fl.mul a b) (zip (w ∷ weights) values))) total,
        fl.div (fl.of_nat 1) (fl.add (fl.of_nat 1) total),
      )

  -- `distance < 1e-6`
  abbrev pub is_close : F → Bool
  is_close distance = fl.lt distance (fl.decimal 1 6)

  -- The loop over the history, for any way to read an entry: `none` is an entry that is skipped,
  -- and else its distance and its value. A close entry is returned at once.
  unfoldable pub idw_loop {ℓ} :
      {E : Type ℓ} → (E → Option (F × F)) → F → List E → List F → List F → F × F
  idw_loop read neutral [] weights values = weighted weights values neutral
  idw_loop read neutral (e ∷ history) weights values = elim (read e) [
    | none ↦ idw_loop read neutral history weights values
    | some (distance, value) ↦ elim (is_close distance) [
      | true ↦ (value, zero_f)
      | false ↦
          idw_loop read neutral history (weights ++ (fl.div (fl.of_nat 1) (square distance) ∷ []))
            (values ++ (value ∷ []))
    ]
  ]

  -- How `predict_accuracy` reads an entry: its distance in the plane of the two averages.
  abbrev pub read_flat : F → F → Bounds F → Bounds F → CandidateEntry F → Option (F × F)
  read_flat bits pruning bit_bounds pruning_bounds entry = some (
    fl.hypot (fl.sub (normalize bits bit_bounds) (normalize entry.avg_weight_bits bit_bounds)) (
        fl.sub (normalize pruning pruning_bounds)
          (normalize entry.avg_column_pruning_ratio pruning_bounds)),
    entry.accuracy,
  )

  unfoldable pub predict_accuracy : F → F → List (CandidateEntry F) → Bounds F → Bounds F → F × F
  predict_accuracy bits pruning history bit_bounds pruning_bounds =
      idw_loop (read_flat bits pruning bit_bounds pruning_bounds) (fl.decimal 5 1) history [] []

  -- `low + (high - low) * i / (grid_size - 1)`
  abbrev pub grid_value : ℕ → Bounds F → ℕ → F
  grid_value grid_size (low, high) i =
      fl.add low (fl.div (fl.mul (fl.sub high low) (fl.of_nat i)) (fl.of_nat (grid_size - 1)))

  -- The points of the double loop, in its order: `n` of them from index `i` on.
  unfoldable pub grid_row : ℕ → Bounds F → F → ℕ → ℕ → List (F × F)
  grid_row grid_size pruning_bounds bits zero j = []
  grid_row grid_size pruning_bounds bits (suc n) j =
      (bits, grid_value grid_size pruning_bounds j)
      ∷ grid_row grid_size pruning_bounds bits n (suc j)

  unfoldable pub grid_rows : ℕ → Bounds F → Bounds F → ℕ → ℕ → List (F × F)
  grid_rows grid_size bit_bounds pruning_bounds zero i = []
  grid_rows grid_size bit_bounds pruning_bounds (suc n) i =
      grid_row grid_size pruning_bounds (grid_value grid_size bit_bounds i) grid_size 0
      ++ grid_rows grid_size bit_bounds pruning_bounds n (suc i)

  -- The scan keeps a point only if it scores more than the best so far.
  unfoldable pub scan : (F × F → F) → F → F × F → List (F × F) → F × F
  scan score best_score best_point [] = best_point
  scan score best_score best_point (p ∷ points) = elim (fl.lt best_score (score p)) [
    | true ↦ scan score (score p) p points
    | false ↦ scan score best_score best_point points
  ]

  -- `predicted + exploration_weight * uncertainty`
  abbrev pub acquisition : List (CandidateEntry F) → Bounds F → Bounds F → F → F × F → F
  acquisition history bit_bounds pruning_bounds exploration_weight (bits, pruning) =
      let (predicted, uncertainty) =
        predict_accuracy bits pruning history bit_bounds pruning_bounds in
      fl.add predicted (fl.mul exploration_weight uncertainty)

  -- The scan of the whole grid, where its step is defined.
  unfoldable pub best_on_grid : List (CandidateEntry F) → Bounds F → Bounds F → ℕ → F → F × F
  best_on_grid history bit_bounds pruning_bounds grid_size exploration_weight =
      scan (acquisition history bit_bounds pruning_bounds exploration_weight) fl.neg_inf
        (bit_bounds.0, pruning_bounds.0) (grid_rows grid_size bit_bounds pruning_bounds grid_size 0)

  -- No loop runs on an empty grid, and the step of a grid of size 1 divides by zero.
  unfoldable pub propose_via_surrogate :
      List (CandidateEntry F) → Bounds F → Bounds F → ℕ → F → Exc (F × F)
  propose_via_surrogate history bit_bounds pruning_bounds zero exploration_weight =
      ok (bit_bounds.0, pruning_bounds.0)
  propose_via_surrogate history bit_bounds pruning_bounds (suc zero) exploration_weight =
      raise "ZeroDivisionError"
  propose_via_surrogate history bit_bounds pruning_bounds (suc (suc n)) exploration_weight =
      ok (best_on_grid history bit_bounds pruning_bounds (suc (suc n)) exploration_weight)

  -- `by_name[name]`, where a later entry of the same name has overwritten an earlier one.
  unfoldable pub by_name : String → List (LayerBitConfig F) → Option (LayerBitConfig F)
  by_name name [] = none
  by_name name (lc ∷ configs) = elim (by_name name configs) [
    | some later ↦ some later
    | none ↦ if str_eq lc.layer_name name then some lc else none
  ]

  -- `set(by_name) == set(stage_names)`: one inclusion, and the other by the look-ups below.
  all_named : List (LayerBitConfig F) → List String → Bool
  all_named [] stage_names = true
  all_named (lc ∷ configs) stage_names =
      contains lc.layer_name stage_names && all_named configs stage_names

  stage_vector : List (LayerBitConfig F) → List String → Option (StagePoint F)
  stage_vector configs [] = some []
  stage_vector configs (name ∷ names) = elim (by_name name configs) [
    | none ↦ none
    | some lc ↦ elim (stage_vector configs names) [
      | none ↦ none
      | some point ↦ some ((fl.of_nat lc.weight_bits, lc.column_pruning_ratio) ∷ point)
    ]
  ]

  unfoldable pub stage_vector_from_layer_configs :
      Option (List (LayerBitConfig F)) → List String → Option (StagePoint F)
  unfolding all_named stage_vector by_name
  stage_vector_from_layer_configs none stage_names = none
  stage_vector_from_layer_configs (some []) stage_names = none
  stage_vector_from_layer_configs (some (lc ∷ configs)) stage_names =
      if all_named (lc ∷ configs) stage_names then stage_vector (lc ∷ configs) stage_names else none

  unfoldable pub normalize_stage_point : StagePoint F → Bounds F → Bounds F → List F
  normalize_stage_point [] bit_bounds pruning_bounds = []
  normalize_stage_point ((bits, pruning) ∷ point) bit_bounds pruning_bounds =
      normalize bits bit_bounds
      ∷ normalize pruning pruning_bounds
      ∷ normalize_stage_point point bit_bounds pruning_bounds

  -- `math.sqrt(sum((t - p) ** 2 for t, p in zip(target, entry_point)))`
  abbrev pub euclidean : List F → List F → F
  euclidean target entry_point =
      fl.sqrt (sum_f (map (λ (t, p). square (fl.sub t p)) (zip target entry_point)))

  -- How `_predict_stage_value` reads an entry; `value` is its `value_key`.
  abbrev pub read_stages :
      (CandidateEntry F → Option F)
      → StagePoint F
      → List String
      → Bounds F
      → Bounds F
      → CandidateEntry F
      → Option (F × F)
  read_stages value point stage_names bit_bounds pruning_bounds entry = elim (value entry) [
    | none ↦ none
    | some v ↦ elim (stage_vector_from_layer_configs entry.layer_configs stage_names) [
      | none ↦ none
      | some vector ↦ some (
        euclidean (normalize_stage_point point bit_bounds pruning_bounds)
            (normalize_stage_point vector bit_bounds pruning_bounds),
        v,
      )
    ]
  ]

  unfoldable pub predict_stage_value :
      StagePoint F
      → List (CandidateEntry F)
      → List String
      → Bounds F
      → Bounds F
      → (CandidateEntry F → Option F)
      → F
      → F × F
  predict_stage_value point history stage_names bit_bounds pruning_bounds value neutral =
      idw_loop (read_stages value point stage_names bit_bounds pruning_bounds) neutral history [] []

  unfoldable pub predict_accuracy_stages :
      StagePoint F → List (CandidateEntry F) → List String → Bounds F → Bounds F → F × F
  predict_accuracy_stages point history stage_names bit_bounds pruning_bounds =
      predict_stage_value point history stage_names bit_bounds pruning_bounds (λ e. some e.accuracy)
        (fl.decimal 5 1)

  unfoldable pub predict_energy_stages :
      StagePoint F → List (CandidateEntry F) → List String → Bounds F → Bounds F → F × F
  predict_energy_stages point history stage_names bit_bounds pruning_bounds =
      predict_stage_value point history stage_names bit_bounds pruning_bounds
        (λ e. some e.energy_pj) zero_f

  unfoldable pub predict_latency_stages :
      StagePoint F → List (CandidateEntry F) → List String → Bounds F → Bounds F → F × F
  predict_latency_stages point history stage_names bit_bounds pruning_bounds =
      predict_stage_value point history stage_names bit_bounds pruning_bounds
        (λ e. some e.noc_latency_ms) zero_f
