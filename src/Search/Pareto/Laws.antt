-- ===== src/Search/Pareto/Laws.antt =====
-- Domination is a strict order, and the rank of a candidate lies above every dominator's.
use autocim_agent.Prelude.{
  ℕ, ◌<◌, ◌≤◌, ◌≡◌, refl, true, false, ◌||◌, List, [], ◌∷◌, All, arith, max, Bool-cases, inl, inr,
}
use autocim_agent.Prelude.Float.{Float, IsOrder}
use autocim_agent.State.{CandidateEntry}
use autocim_agent.Search.Pareto.{
  dominates, rank_of, dominating, max_rank, rank_above, compute_pareto_rank,
}

module _ {F : Type 0} ⦃fl : Float F⦄ (law : IsOrder fl) where
  -- No candidate dominates itself.
  pub dominates_irrefl : (a : CandidateEntry F) → dominates a a ≡ false
  unfolding dominates
  dominates_irrefl a =
      ground
        (arith, law.lt-irrefl a.accuracy, law.lt-irrefl a.energy_pj, law.lt-irrefl a.noc_latency_ms)

  -- On one objective: the outer candidate is at least as good, and better if one of the steps is.
  chain :
      (x y z : F)
      → fl.le x y ≡ true
      → fl.le y z ≡ true
      → (fl.le x z ≡ true) × ((fl.lt x y || fl.lt y z) ≡ true → fl.lt x z ≡ true)
  chain x y z p q =
      (law.le_trans x y z p q, ground (arith, law.lt_of_lt_of_le x y z, law.lt_of_le_of_lt x y z))

  -- Domination is transitive.
  pub dominates_trans :
      (a b c : CandidateEntry F)
      → dominates a b ≡ true
      → dominates b c ≡ true
      → dominates a c ≡ true
  unfolding dominates
  dominates_trans a b c p q = ground (
    arith,
    chain c.accuracy b.accuracy a.accuracy,
    chain a.energy_pj b.energy_pj c.energy_pj,
    chain a.noc_latency_ms b.noc_latency_ms c.noc_latency_ms,
  )

module _ {F : Type 0} ⦃fl : Float F⦄ where
  -- Every entry that dominates the candidate ranks below `n`.
  abbrev pub DominatorsBelow : CandidateEntry F → ℕ → List (CandidateEntry F) → Type 0
  DominatorsBelow c n = All (λ e. dominates e c ≡ true → rank_of e < n)

  max_rank_bound :
      (c : CandidateEntry F) (history : List (CandidateEntry F)) (n : ℕ)
      → max_rank (dominating c history) < n
      → DominatorsBelow c n history
  unfolding dominating max_rank
  max_rank_bound c [] n h = tt
  max_rank_bound c (e ∷ history) n h = elim (Bool-cases (dominates e c)) [
    | inl d ↦
        let k : max (rank_of e) (max_rank (dominating c history)) < n = rw d at h in
        (λ _. omega arith, max_rank_bound c history n (omega arith))
    | inr nd ↦ (λ d. cc, max_rank_bound c history n (rw nd at h))
  ]

  rank_above-lt : (entries : List (CandidateEntry F)) → max_rank entries < rank_above entries
  unfolding rank_above max_rank
  rank_above-lt [] = omega arith
  rank_above-lt (e ∷ entries) = omega arith

  rank_above_pos : (entries : List (CandidateEntry F)) → 1 ≤ rank_above entries
  unfolding rank_above
  rank_above_pos [] = omega arith
  rank_above_pos (e ∷ entries) = omega arith

  pub compute_pareto_rank_pos :
      (c : CandidateEntry F) (history : List (CandidateEntry F)) → 1 ≤ compute_pareto_rank c history
  unfolding compute_pareto_rank
  compute_pareto_rank_pos c history = rank_above_pos (dominating c history)

  -- The computed rank is greater than the rank of every entry of the history that dominates the
  -- candidate.
  pub compute_pareto_rank-gt :
      (c : CandidateEntry F) (history : List (CandidateEntry F))
      → DominatorsBelow c (compute_pareto_rank c history) history
  unfolding compute_pareto_rank
  compute_pareto_rank-gt c history =
      max_rank_bound c history _ (rank_above-lt (dominating c history))

  -- No entry of the history dominates the candidate.
  abbrev pub Undominated : CandidateEntry F → List (CandidateEntry F) → Type 0
  Undominated c = All (λ e. dominates e c ≡ false)

  dominating_of_Undominated :
      (c : CandidateEntry F) (history : List (CandidateEntry F))
      → Undominated c history
      → dominating c history ≡ []
  unfolding dominating
  dominating_of_Undominated c [] h = refl
  dominating_of_Undominated c (e ∷ history) h =
      ground (arith, dominating_of_Undominated c history h.1)
