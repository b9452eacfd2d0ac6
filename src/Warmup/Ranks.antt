-- ===== src/Warmup/Ranks.antt =====
-- The pass over the warm-up results ranks every candidate, and files each result once.
use autocim_agent.Prelude.{
  ℕ, suc, ◌+◌, ◌≡◌, ◌==◌, refl, not, is_empty, ◌&&◌, Option, none, some, List, [], ◌∷◌, ◌++◌,
  length, length-append, count-append, count, sym, leb, if◌then◌else◌, arith, ok, >>=-eq-ok,
  ok-injective, subst,
}
use mathlib.Core.List.{append-nil, append_assoc}
use autocim_agent.Prelude.Float.{Float}
use autocim_agent.State.{Metrics, CandidateEntry, FailureEntry}
use autocim_agent.Nodes.{OutputSchemas, data_of, value_at, truthy_datum}
use autocim_agent.Nodes.Evaluator.{build_candidate_entry, validate_metrics}
use autocim_agent.Nodes.Evaluator.Candidate.{RankedOver, Made, build_candidate_entry-Made}
use autocim_agent.Warmup.{filed, collect, warmup_failure}

-- The two lists of the pass.
abbrev pub Found : Type 0 → Type 0
Found F = List (CandidateEntry F) × List FailureEntry

abbrev once : ℕ → ℕ → ℕ
once n k = if n == k then 1 else 0

-- How many of the numbers after `i`, `n` of them, are `k`.
abbrev pub one_of : ℕ → ℕ → ℕ → ℕ
one_of i n k = if leb (i + 1) k && leb k (i + n) then 1 else 0

module _ {F : Type 0} where
  -- How many entries of the two lists have the number `k`.
  abbrev pub entries_of : ℕ → Found F → ℕ
  entries_of k found =
      count (λ (c : CandidateEntry F). c.iteration == k) found.0
      + count (λ (f : FailureEntry). f.iteration == k) found.1

  abbrev pub total : Found F → ℕ
  total found = length found.0 + length found.1

  filed-total :
      (entry : Option (CandidateEntry F)) (failure : FailureEntry) (found : Found F)
      → total (filed entry failure found) ≡ total found + 1
  filed-total (some c) failure found = omega (arith, length-append found.0 (c ∷ []))
  filed-total none failure found = omega (arith, length-append found.1 (failure ∷ []))

  filed-entries :
      (entry : Option (CandidateEntry F)) (failure : FailureEntry) (found : Found F) (n k : ℕ)
      → ((c : CandidateEntry F) → entry ≡ some c → c.iteration ≡ n)
      → failure.iteration ≡ n
      → entries_of k (filed entry failure found) ≡ entries_of k found + once n k
  filed-entries (some c) failure found n k h e =
      ground (
        arith,
        h c refl,
        count-append (λ (c : CandidateEntry F). c.iteration == k) found.0 (c ∷ []),
      )
  filed-entries none failure found n k h e =
      ground
        (arith, e, count-append (λ (f : FailureEntry). f.iteration == k) found.1 (failure ∷ []))

module _ {F : Type 0} ⦃fl : Float F⦄ where
  -- Each candidate carries its rank over those before it.
  abbrev pub RankedInTurn : List (CandidateEntry F) → List (CandidateEntry F) → Type 0
  RankedInTurn before [] = Unit
  RankedInTurn before (c ∷ cs) = RankedOver before c × RankedInTurn (before ++ (c ∷ [])) cs

  RankedInTurn-snoc :
      (before cs : List (CandidateEntry F)) (c : CandidateEntry F)
      → RankedInTurn before cs
      → RankedOver (before ++ cs) c
      → RankedInTurn before (cs ++ (c ∷ []))
  RankedInTurn-snoc before [] c r h = (subst (λ l. RankedOver l c) (append-nil before) h, tt)
  RankedInTurn-snoc before (d ∷ cs) c (q, r) h = (
    q,
    RankedInTurn-snoc (before ++ (d ∷ [])) cs c r
        (subst (λ l. RankedOver l c) (sym (append_assoc before (d ∷ []) cs)) h),
  )

  filed-RankedInTurn :
      (entry : Option (CandidateEntry F)) (failure : FailureEntry) (found : Found F)
      → ((c : CandidateEntry F) → entry ≡ some c → RankedOver found.0 c)
      → RankedInTurn [] found.0
      → RankedInTurn [] (filed entry failure found).0
  filed-RankedInTurn (some c) failure found h r = RankedInTurn-snoc [] found.0 c r (h c refl)
  filed-RankedInTurn none failure found h r = r

module _ {F : Type 0} ⦃fl : Float F⦄ (schema : OutputSchemas F) where
  -- A pass that returns has put one entry for every result into the two lists, under its number, and
  -- every candidate carries its rank over those before it if that holds at the start.
  pub collect-entries :
      (results : List (Metrics F)) (i : ℕ) (before after : Found F)
      → RankedInTurn [] before.0
      → collect schema i results before ≡ ok after
      → (total after ≡ total before + length results)
        × ((k : ℕ) → entries_of k after ≡ entries_of k before + one_of i (length results) k)
        × RankedInTurn [] after.0
  unfolding collect warmup_failure
  collect-entries [] i before after r h =
      let same = ok-injective _ _ h in
      subst
        (λ a.
          (total a ≡ total before + 0)
          × ((k : ℕ) → entries_of k a ≡ entries_of k before + one_of i 0 k)
          × RankedInTurn [] a.0)
        same (omega arith, λ k. ground arith, r)
  collect-entries (metrics ∷ results) i before after r h =
      let (vd, _, h1) = >>=-eq-ok (data_of metrics "verifier") _ h in
      let errors = validate_metrics schema metrics in
      let verified = is_empty errors && truthy_datum (value_at vd "is_converged") in
      let build = build_candidate_entry before.0 metrics (i + 1) verified (not (is_empty errors)) in
      let failure = warmup_failure schema (i + 1) errors in
      let (entry, e, h2) =
        >>=-eq-ok build (λ x. collect schema (suc i) results (filed x failure before)) h1 in
      let made : (c : CandidateEntry F) → entry ≡ some c → Made before.0 (i + 1) c = λ c q.
        build_candidate_entry-Made before.0 metrics (i + 1) verified (not (is_empty errors)) c
          (subst (λ x. build ≡ ok x) q e) in
      let (sum, entries, ranks) =
        collect-entries results (suc i) (filed entry failure before) after
          (filed-RankedInTurn entry failure before (λ c q. (made c q).1) r) h2 in
      (
        omega (arith, sum, filed-total entry failure before),
        λ k.
            let here = filed-entries entry failure before (i + 1) k (λ c q. (made c q).0) refl in
            ground (arith, entries k, here),
        ranks,
      )
