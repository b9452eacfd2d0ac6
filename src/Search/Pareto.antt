-- ===== src/Search/Pareto.antt =====
-- tools/search.py: domination between candidates and the incremental Pareto rank.
pub mod Laws
pub mod Front
use autocim_agent.Prelude.{ℕ, ◌+◌, Bool, ◌&&◌, ◌||◌, List, [], ◌∷◌, max, get_or, if◌then◌else◌}
use autocim_agent.Prelude.Float.{Float}
use autocim_agent.State.{CandidateEntry}

module _ {F : Type 0} ⦃fl : Float F⦄ where
  unfoldable pub dominates : CandidateEntry F → CandidateEntry F → Bool
  dominates a b =
      let not_worse =
        fl.le b.accuracy a.accuracy
        && fl.le a.energy_pj b.energy_pj
        && fl.le a.noc_latency_ms b.noc_latency_ms in
      let strictly_better =
        fl.lt b.accuracy a.accuracy
        || fl.lt a.energy_pj b.energy_pj
        || fl.lt a.noc_latency_ms b.noc_latency_ms in
      not_worse && strictly_better

  -- `entry.get("pareto_rank", 1)`
  abbrev pub rank_of : CandidateEntry F → ℕ
  rank_of e = get_or e.pareto_rank 1

  -- `[entry for entry in history if _dominates(entry, candidate)]`
  unfoldable pub dominating : CandidateEntry F → List (CandidateEntry F) → List (CandidateEntry F)
  dominating c [] = []
  dominating c (e ∷ history) =
      let rest = dominating c history in if dominates e c then e ∷ rest else rest

  -- `max(entry.get("pareto_rank", 1) for entry in entries)`
  unfoldable pub max_rank : List (CandidateEntry F) → ℕ
  max_rank [] = 0
  max_rank (e ∷ entries) = max (rank_of e) (max_rank entries)

  rank_above : List (CandidateEntry F) → ℕ
  rank_above [] = 1
  rank_above (e ∷ entries) = 1 + max_rank (e ∷ entries)

  unfoldable pub compute_pareto_rank : CandidateEntry F → List (CandidateEntry F) → ℕ
  unfolding rank_above
  compute_pareto_rank candidate history = rank_above (dominating candidate history)
