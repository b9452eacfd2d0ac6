-- ===== src/Search/Pareto/Front.antt =====
-- Rank 1 is the Pareto front of the candidates so far.
use autocim_agent.Prelude.{◌≤◌, ◌≡◌, refl, ◌↔◌, List, [], ◌∷◌, All, arith, Bool-cases, inl, inr}
use autocim_agent.Prelude.Float.{Float}
use autocim_agent.State.{CandidateEntry}
use autocim_agent.Search.Pareto.{
  dominates, rank_of, dominating, max_rank, rank_above, compute_pareto_rank,
}
use autocim_agent.Search.Pareto.Laws.{Undominated}

module _ {F : Type 0} ⦃fl : Float F⦄ where
  -- Every entry of the history carries a rank of at least 1.
  abbrev pub Ranked : List (CandidateEntry F) → Type 0
  Ranked = All (λ e. 1 ≤ rank_of e)

  front_of_max :
      (c : CandidateEntry F) (history : List (CandidateEntry F))
      → Ranked history
      → (rank_above (dominating c history) ≡ 1) ↔ Undominated c history
  unfolding rank_above dominating max_rank
  front_of_max c [] h = (λ _. tt, λ _. refl)
  front_of_max c (e ∷ history) h = elim (Bool-cases (dominates e c)) [
    | inl d ↦ rw d (λ p. absurd (omega (arith, h.0)), λ u. cc u.0)
    | inr nd ↦
        rw nd
          (λ p. (refl, (front_of_max c history h.1).0 p), λ u. (front_of_max c history h.1).1 u.1)
  ]

  -- Against a history of ranked entries, a candidate gets rank 1 exactly when no entry dominates
  -- it.
  pub compute_pareto_rank_front :
      (c : CandidateEntry F) (history : List (CandidateEntry F))
      → Ranked history
      → (compute_pareto_rank c history ≡ 1) ↔ Undominated c history
  unfolding compute_pareto_rank
  compute_pareto_rank_front c history h = front_of_max c history h
