-- ===== src/Session/Front.antt =====
-- What the long-term store holds after a run is the Pareto front of all that was found.
use autocim_agent.Prelude.{
  ◌≡◌, refl, sym, subst, Bool-cases, inl, inr, true, false, ◌==◌, ==_iff, Option, some, List, [],
  ◌∷◌, ◌++◌, All, get_or,
}
use mathlib.Core.List.{Mem, mem-cons, mem-cons_of_mem}
use mathlib.Core.Logic.Or
use autocim_agent.Prelude.Float.{Float}
use autocim_agent.State.{CandidateEntry}
use autocim_agent.Search.Pareto.{compute_pareto_rank}
use autocim_agent.Search.Pareto.Laws.{Undominated}
use autocim_agent.Search.Pareto.Front.{Ranked, compute_pareto_rank_front}
use autocim_agent.Session.{rank_one, persist_candidates}

All-mono :
    {A : Type 0} (P Q : A → Type 0) (xs : List A) → ((a : A) → P a → Q a) → All P xs → All Q xs
All-mono P Q [] f h = tt
All-mono P Q (x ∷ xs) f h = (f x h.0, All-mono P Q xs f h.1)

module _ {F : Type 0} ⦃fl : Float F⦄ (union : List (CandidateEntry F)) (ranked : Ranked union) where
  abbrev Kept : List (CandidateEntry F) → List (CandidateEntry F) → Type 0
  Kept entries front =
      All (λ c. Mem c entries) front
      × All (λ c. Undominated c union) front
      × All (λ c. Undominated c union → Mem c front) entries

  rank_one-keep :
      (c : CandidateEntry F) (entries : List (CandidateEntry F))
      → (compute_pareto_rank c union == 1) ≡ true
      → rank_one union (c ∷ entries) ≡ c ∷ rank_one union entries
  unfolding rank_one
  rank_one-keep c entries h = rw (h) refl

  rank_one-skip :
      (c : CandidateEntry F) (entries : List (CandidateEntry F))
      → (compute_pareto_rank c union == 1) ≡ false
      → rank_one union (c ∷ entries) ≡ rank_one union entries
  unfolding rank_one
  rank_one-skip c entries h = rw (h) refl

  rank_one-Kept : (entries : List (CandidateEntry F)) → Kept entries (rank_one union entries)
  unfolding rank_one
  rank_one-Kept [] = (tt, tt, tt)
  rank_one-Kept (c ∷ entries) =
      let (inside, sound, complete) = rank_one-Kept entries in
      let later = All-mono _ _ (rank_one union entries) (λ a. mem-cons_of_mem c) inside in
      let front = compute_pareto_rank_front c union ranked in
      elim (Bool-cases (compute_pareto_rank c union == 1)) [
        | inl h ↦ subst (Kept (c ∷ entries)) (sym (rank_one-keep c entries h)) (
          (mem-cons.1 (Or.inl refl), later),
          (front.0 ((==_iff _ _).0 h), sound),
          (
            λ u. mem-cons.1 (Or.inl refl),
            All-mono _ _ entries (λ a m u. mem-cons_of_mem c (m u)) complete,
          ),
        )
        | inr h ↦
            subst (Kept (c ∷ entries)) (sym (rank_one-skip c entries h))
              (later, sound, (λ u. cc (h, (==_iff _ _).1 (front.1 u)), complete))
      ]

module _ {F : Type 0} ⦃fl : Float F⦄ where
  -- When a run that has found candidates ends, the store holds only stored and new candidates that
  -- none of the stored and the new ones dominates, and it holds all of these; so a stored candidate is
  -- dropped only when it is dominated. The entries have been ranked.
  pub persist_candidates_front :
      (stored : Option (List (CandidateEntry F))) (c : CandidateEntry F)
      (found : List (CandidateEntry F))
      → Ranked (get_or stored [] ++ (c ∷ found))
      → (front : List (CandidateEntry F)) × (persist_candidates stored (c ∷ found) ≡ some front)
        × All (λ a. Mem a (get_or stored [] ++ (c ∷ found))) front
        × All (λ a. Undominated a (get_or stored [] ++ (c ∷ found))) front
        × All
            (λ a. Undominated a (get_or stored [] ++ (c ∷ found)) → Mem a front)
            (get_or stored [] ++ (c ∷ found))
  unfolding persist_candidates
  persist_candidates_front stored c found ranked =
      let (inside, sound, complete) = rank_one-Kept (get_or stored [] ++ (c ∷ found)) ranked _ in
      (_, refl, inside, sound, complete)
