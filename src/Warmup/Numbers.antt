-- ===== src/Warmup/Numbers.antt =====
-- The numbers of the iterations that the warm-up gives to its candidates.
use autocim_agent.Prelude.{
  ℕ, suc, ◌+◌, ◌≡◌, ◌≤◌, ◌<◌, ap, refl, not, is_empty, ◌&&◌, Option, none, some, List, [], ◌∷◌,
  ◌++◌, length, All, arith, ok, >>=-eq-ok, ok-injective, subst,
}
use autocim_agent.Prelude.Float.{Float}
use autocim_agent.State.{Metrics, CandidateEntry, FailureEntry}
use autocim_agent.Nodes.{OutputSchemas, data_of, value_at, truthy_datum}
use autocim_agent.Nodes.Evaluator.{build_candidate_entry, validate_metrics}
use autocim_agent.Nodes.Evaluator.Candidate.{build_candidate_entry-Made}
use autocim_agent.Warmup.{filed, collect, warmup_failure}
use autocim_agent.Warmup.Ranks.{Found, total, entries_of, RankedInTurn, collect-entries}

module _ {F : Type 0} where
  -- The numbers ascend, from above the first bound to at most the second one.
  abbrev pub Ascending : ℕ → List (CandidateEntry F) → ℕ → Type 0
  Ascending low [] high = low ≤ high
  Ascending low (c ∷ cs) high = (low < c.iteration) × Ascending c.iteration cs high

  Ascending-mono :
      (low : ℕ) (cs : List (CandidateEntry F)) (m n : ℕ)
      → m ≤ n
      → Ascending low cs m
      → Ascending low cs n
  Ascending-mono low [] m n l a = omega (arith, l, a)
  Ascending-mono low (c ∷ cs) m n l (b, a) = (b, Ascending-mono c.iteration cs m n l a)

  Ascending-snoc :
      (low : ℕ) (cs : List (CandidateEntry F)) (m : ℕ) (c : CandidateEntry F)
      → m < c.iteration
      → Ascending low cs m
      → Ascending low (cs ++ (c ∷ [])) c.iteration
  Ascending-snoc low [] m c l a = (omega (arith, l, a), omega arith)
  Ascending-snoc low (d ∷ cs) m c l (b, a) = (b, Ascending-snoc d.iteration cs m c l a)

  Ascending-le :
      (low : ℕ) (cs : List (CandidateEntry F)) (high : ℕ) → Ascending low cs high → low ≤ high
  Ascending-le low [] high a = a
  Ascending-le low (c ∷ cs) high (b, a) = omega (arith, b, Ascending-le c.iteration cs high a)

  -- Each of them is at most the last bound.
  pub Ascending-All :
      (low : ℕ) (cs : List (CandidateEntry F)) (high : ℕ)
      → Ascending low cs high
      → All (λ c. c.iteration ≤ high) cs
  Ascending-All low [] high a = tt
  Ascending-All low (c ∷ cs) high (b, a) =
      (Ascending-le c.iteration cs high a, Ascending-All c.iteration cs high a)

  filed-Ascending :
      (entry : Option (CandidateEntry F)) (failure : FailureEntry) (found : Found F) (i : ℕ)
      → ((c : CandidateEntry F) → entry ≡ some c → c.iteration ≡ i + 1)
      → Ascending 0 found.0 i
      → Ascending 0 (filed entry failure found).0 (i + 1)
  filed-Ascending (some c) failure found i h a =
      let number = h c refl in
      subst (Ascending 0 (found.0 ++ (c ∷ []))) number
        (Ascending-snoc 0 found.0 i c (omega (arith, number)) a)
  filed-Ascending none failure found i h a = Ascending-mono 0 found.0 i (i + 1) (omega arith) a

module _ {F : Type 0} ⦃fl : Float F⦄ (schema : OutputSchemas F) where
  collect-Ascending :
      (results : List (Metrics F)) (i : ℕ) (before after : Found F)
      → Ascending 0 before.0 i
      → collect schema i results before ≡ ok after
      → Ascending 0 after.0 (i + length results)
  unfolding collect
  collect-Ascending [] i before after a h =
      subst (λ found. Ascending 0 found.0 (i + 0)) (ok-injective _ _ h)
        (Ascending-mono 0 before.0 i (i + 0) (omega arith) a)
  collect-Ascending (metrics ∷ results) i before after a h =
      let (vd, _, h1) = >>=-eq-ok (data_of metrics "verifier") _ h in
      let errors = validate_metrics schema metrics in
      let verified = is_empty errors && truthy_datum (value_at vd "is_converged") in
      let build = build_candidate_entry before.0 metrics (i + 1) verified (not (is_empty errors)) in
      let failure = warmup_failure schema (i + 1) errors in
      let (entry, e, h2) =
        >>=-eq-ok build (λ x. collect schema (suc i) results (filed x failure before)) h1 in
      let filed_here : Ascending 0 (filed entry failure before).0 (i + 1) =
        filed-Ascending entry failure before i
          (λ c q.
            (build_candidate_entry-Made before.0 metrics (i + 1) verified (not (is_empty errors)) c
              (subst (λ x. build ≡ ok x) q e)).0)
          a in
      let next =
        collect-Ascending results (suc i) (filed entry failure before) after
          (subst (Ascending 0 (filed entry failure before).0) (omega arith) filed_here) h2 in
      subst (Ascending 0 after.0) (omega arith) next

  -- A pass over all warm-up results that returns has put every result into the candidates or the
  -- failures: there is one entry in all for each result, and for each number between 1 and the number of
  -- results exactly one entry has it. Every candidate carries its Pareto rank over the candidates
  -- before it, and the numbers of the candidates ascend. Where no result has failed, none of them
  -- exceeds the number of candidates, from which the planner goes on counting.
  pub collect-numbers :
      (results : List (Metrics F)) (found : Found F)
      → collect schema 0 results ([], []) ≡ ok found
      → (total found ≡ length results)
        × ((k : ℕ) → 1 ≤ k → k ≤ length results → entries_of k found ≡ 1)
        × RankedInTurn [] found.0
        × Ascending 0 found.0 (length results)
        × (found.1 ≡ [] → All (λ c. c.iteration ≤ length found.0) found.0)
  collect-numbers results found h =
      let numbers = collect-Ascending results 0 ([], []) found (omega arith) h in
      let (sum, entries, ranks) = collect-entries schema results 0 ([], []) found tt h in
      let low : Ascending 0 found.0 (length results) =
        subst (Ascending 0 found.0) (omega arith) numbers in
      (
        omega (arith, sum),
        λ k above below. ground (arith, entries k, above, below),
        ranks,
        low,
        λ none_failed.
            let all_kept : length results ≡ length found.0 =
              omega (arith, sum, ap length none_failed) in
            Ascending-All 0 found.0 (length found.0) (subst (Ascending 0 found.0) all_kept low),
      )
