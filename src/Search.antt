-- ===== src/Search.antt =====
-- tools/search.py: the bounds of the search space and the points in it.
pub mod Pareto
pub mod Lhs
pub mod Surrogate
pub mod Propose
use autocim_agent.Prelude.{List, if◌then◌else◌}
use autocim_agent.Prelude.Float.{Float, zero_f}

abbrev pub Bounds : Type 0 → Type 0
Bounds F = F × F

-- One (weight_bits, column_pruning_ratio) pair for each stage.
abbrev pub StagePoint : Type 0 → Type 0
StagePoint F = List (F × F)

module _ {F : Type 0} ⦃fl : Float F⦄ where
  unfoldable pub normalize : F → Bounds F → F
  normalize value (low, high) =
      if fl.lt low high then fl.div (fl.sub value low) (fl.sub high low) else zero_f
