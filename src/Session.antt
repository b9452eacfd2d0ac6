-- ===== src/Session.antt =====
-- main.py: the rule that suggests bounds for a paused run, and what a finished run leaves in the
-- long-term store.
pub mod Front
pub mod Capped
pub mod Prompt
pub mod Seed
pub mod Run
pub mod Listing
use autocim_agent.Prelude.{
  ℕ, ◌==◌, String, Bool, true, false, ◌||◌, Option, none, some, List, [], ◌∷◌, ◌++◌, get_or,
  is_empty, Exc, ok, ◌>>=◌, if◌then◌else◌,
}
use autocim_agent.Prelude.Dict.{Dict}
use autocim_agent.Prelude.Float.{Float, zero_f, max_f, min_f, truthy, of_int}
use autocim_agent.State.{FailureEntry, CandidateEntry, CimState, Override, number}
use autocim_agent.Search
use autocim_agent.Search.Pareto.{compute_pareto_rank}
use autocim_agent.Middleware.{Registry}
use autocim_agent.Nodes.{data_of, number_at}
use autocim_agent.Nodes.Planner.{search_bounds}

module _ {F : Type 0} ⦃fl : Float F⦄ where
  -- `[c for c in entries if compute_pareto_rank(c, union) == 1]`
  unfoldable pub rank_one :
      List (CandidateEntry F) → List (CandidateEntry F) → List (CandidateEntry F)
  rank_one union [] = []
  rank_one union (c ∷ entries) =
      let rest = rank_one union entries in
      if compute_pareto_rank c union == 1 then c ∷ rest else rest

  -- The candidates of `_persist_long_term_learnings`: the stored ones before and after.
  unfoldable pub persist_candidates :
      Option (List (CandidateEntry F)) → List (CandidateEntry F) → Option (List (CandidateEntry F))
  persist_candidates stored candidate_history =
      let union = get_or stored [] ++ candidate_history in
      if is_empty candidate_history then stored else some (rank_one union union)

-- What a failure's reason asks for.
pub data Direction : Type 0 where
  precision compression : Direction

-- `str.startswith`, and the stripped non-empty parts of a reason between its semicolons.
pub record TextOps : Type 0 where
  pub starts_with : String → String → Bool
  pub segments : String → List String

module _ (ops : TextOps) where
  abbrev pub is_accuracy : String → Bool
  is_accuracy segment = ops.starts_with segment "accuracy "

  abbrev pub is_cost : String → Bool
  is_cost segment =
      ops.starts_with segment "energy_pj " || ops.starts_with segment "noc_latency_ms "

  -- The loop over the segments: `none` is the early return, and else the two flags.
  unfoldable pub wants : List String → Bool → Bool → Option (Bool × Bool)
  wants [] wants_precision wants_compression = some (wants_precision, wants_compression)
  wants (segment ∷ segments) wants_precision wants_compression =
      let more_precision = wants segments true wants_compression in
      let more_compression = wants segments wants_precision true in
      if is_accuracy segment
      then more_precision
      else if is_cost segment
      then more_compression
      else none

  -- `wants_precision == wants_compression` gives no suggestion.
  direction_of : Option (Bool × Bool) → Option Direction
  direction_of (some (true, false)) = some precision
  direction_of (some (false, true)) = some compression
  direction_of _ = none

  last_reason : List FailureEntry → Option String
  last_reason [] = none
  last_reason (f ∷ []) = some f.reason
  last_reason (f ∷ g ∷ history) = last_reason (g ∷ history)

  unfoldable pub classify : List FailureEntry → Option Direction
  unfolding direction_of last_reason
  classify history = elim (last_reason history) [
    | none ↦ none
    | some reason ↦ direction_of (wants (ops.segments reason) false false)
  ]

module _ {F : Type 0} ⦃fl : Float F⦄ where
  -- `_gap_tier`
  unfoldable pub gap_tier : F → ℕ
  gap_tier gap_ratio =
      if fl.lt gap_ratio (fl.decimal 15 2)
      then 0
      else if fl.lt gap_ratio (fl.decimal 4 1)
      then 1
      else 2

  -- `max(0.0, difference / target)` where the target is set and not zero, and the value is there.
  gap : (F → F → F) → Option F → Option F → List F
  gap difference (some target) (some current) =
      if truthy target then max_f zero_f (fl.div (difference target current) target) ∷ [] else []
  gap difference _ _ = []

  greatest : F → List F → F
  greatest best [] = best
  greatest best (x ∷ gaps) = greatest (max_f best x) gaps

  -- `_gap_tier(max(gap_ratios)) if gap_ratios else 0`
  unfoldable pub tier_of : List F → ℕ
  unfolding greatest
  tier_of [] = 0
  tier_of (x ∷ gaps) = gap_tier (greatest x gaps)

  bits_step : ℕ → F
  bits_step tier = if tier == 0 then fl.of_nat 1 else if tier == 1 then fl.of_nat 2 else fl.of_nat 3

  pruning_step : ℕ → F
  pruning_step tier =
      if tier == 0 then fl.decimal 1 1 else if tier == 1 then fl.decimal 2 1 else fl.decimal 3 1

  abbrev pub bits_margin : F
  bits_margin = fl.of_nat 1

  abbrev pub pruning_margin : F
  pruning_margin = fl.decimal 5 2

  -- `round(bits)`
  abbrev rounded : F → F
  rounded bits = of_int (fl.nearest bits)

  -- The bounds suggested for more precision: `weight_bits_min` and `pruning_ratio_max`.
  unfoldable pub more_precise : Search.Bounds F → Search.Bounds F → F → F → ℕ → F × F
  unfolding bits_step pruning_step
  more_precise (bits_floor, bits_ceiling) (pruning_floor, pruning_ceiling) bits pruning tier =
      let least_bits = min_f bits_ceiling (fl.add (rounded bits) (bits_step tier)) in
      let most_pruning = max_f pruning_floor (fl.round_to (fl.sub pruning (pruning_step tier)) 4) in
      (
        (if fl.le bits_margin (fl.sub bits_ceiling bits_floor)
            then min_f least_bits (fl.sub bits_ceiling bits_margin)
            else least_bits),
        (if fl.le pruning_margin (fl.sub pruning_ceiling pruning_floor)
            then max_f most_pruning (fl.add pruning_floor pruning_margin)
            else most_pruning),
      )

  -- The bounds suggested for more compression: `weight_bits_max` and `pruning_ratio_min`.
  unfoldable pub more_compressed : Search.Bounds F → Search.Bounds F → F → F → ℕ → F × F
  unfolding bits_step pruning_step
  more_compressed (bits_floor, bits_ceiling) (pruning_floor, pruning_ceiling) bits pruning tier =
      let most_bits = max_f bits_floor (fl.sub (rounded bits) (bits_step tier)) in
      let least_pruning =
        min_f pruning_ceiling (fl.round_to (fl.add pruning (pruning_step tier)) 4) in
      (
        (if fl.le bits_margin (fl.sub bits_ceiling bits_floor)
            then max_f most_bits (fl.add bits_floor bits_margin)
            else most_bits),
        (if fl.le pruning_margin (fl.sub pruning_ceiling pruning_floor)
            then min_f least_pruning (fl.sub pruning_ceiling pruning_margin)
            else least_pruning),
      )

  suggestion :
      Direction → F → F → List F → List F → Search.Bounds F × Search.Bounds F → Dict (Override F)
  suggestion precision bits pruning gaps cost_gaps (bit_bounds, pruning_bounds) =
      let (least_bits, most_pruning) =
        more_precise bit_bounds pruning_bounds bits pruning (tier_of gaps) in
      ("weight_bits_min", number least_bits) ∷ ("pruning_ratio_max", number most_pruning) ∷ []
  suggestion compression bits pruning gaps cost_gaps (bit_bounds, pruning_bounds) =
      let (most_bits, least_pruning) =
        more_compressed bit_bounds pruning_bounds bits pruning (tier_of cost_gaps) in
      ("weight_bits_max", number most_bits) ∷ ("pruning_ratio_min", number least_pruning) ∷ []

  suggest_from :
      Direction
      → Option F
      → Option F
      → List F
      → List F
      → Search.Bounds F × Search.Bounds F
      → Option (Dict (Override F))
  suggest_from direction (some bits) (some pruning) gaps cost_gaps bounds =
      some (suggestion direction bits pruning gaps cost_gaps bounds)
  suggest_from direction _ _ gaps cost_gaps bounds = none

  -- `suggest_override_bounds` on the payload that `hitl_node` builds from the state.
  unfoldable pub suggest_override_bounds :
      TextOps → Registry F → CimState F → Exc (Option (Dict (Override F)))
  unfolding suggestion suggest_from gap
  suggest_override_bounds ops registry s = elim (classify ops s.failure_history) [
    | none ↦ ok none
    | some direction ↦ do
      tuner_data ← data_of s.metrics_store "tuner"
      verifier_data ← data_of s.metrics_store "verifier"
      bits ← number_at tuner_data "avg_weight_bits"
      pruning ← number_at tuner_data "avg_column_pruning_ratio"
      accuracy ← number_at tuner_data "accuracy"
      energy ← number_at verifier_data "energy_pj"
      latency ← number_at verifier_data "noc_latency_ms"
      ok (
          suggest_from direction bits pruning
            (gap (λ target current. fl.sub target current) s.target_accuracy accuracy)
            (gap (λ target current. fl.sub current target) s.target_energy_pj energy
              ++ gap (λ target current. fl.sub current target) s.target_latency_ms latency)
            (search_bounds registry s.hw_spec_id s.search_bound_overrides))
  ]
