-- ===== src/Nodes/Evaluator/Candidate.antt =====
-- A candidate that is built carries its rank and the number of its iteration.
use autocim_agent.Prelude.{
  ℕ, ◌≡◌, refl, Bool, true, false, Option, none, some, List, ok, >>=-eq-ok, ok-injective, subst,
}
use autocim_agent.Prelude.Float.{Float}
use autocim_agent.Schemas.{LayerBitConfig}
use autocim_agent.State.{Metrics, CandidateEntry}
use autocim_agent.Search.Pareto.{compute_pareto_rank}
use autocim_agent.Nodes.{data_of, number_at}
use autocim_agent.Nodes.Evaluator.{layers_at, build_candidate_entry, ranked}

some-injective : {A : Type 0} (a b : A) → some a ≡ some b → a ≡ b
some-injective a b h = cc

module _ {F : Type 0} ⦃fl : Float F⦄ where
  -- The candidate carries its rank over the history, computed before it had one.
  abbrev pub RankedOver : List (CandidateEntry F) → CandidateEntry F → Type 0
  RankedOver history c =
      c.pareto_rank ≡ some (compute_pareto_rank (record c { pareto_rank = none }) history)

  abbrev pub Made : List (CandidateEntry F) → ℕ → CandidateEntry F → Type 0
  Made history n c = (c.iteration ≡ n) × RankedOver history c

  ranked-Made :
      (history : List (CandidateEntry F)) (n : ℕ) (converged : Bool)
      (configs : Option (List (LayerBitConfig F))) (b p a e l : Option F) (c : CandidateEntry F)
      → ranked history n converged configs b p a e l ≡ some c
      → Made history n c
  unfolding ranked
  ranked-Made history n converged configs (some b) (some p) (some a) (some e) (some l) c h =
      subst (Made history n) (some-injective _ _ h) (refl, refl)
  ranked-Made history n converged configs none p a e l c h = cc h
  ranked-Made history n converged configs (some b) none a e l c h = cc h
  ranked-Made history n converged configs (some b) (some p) none e l c h = cc h
  ranked-Made history n converged configs (some b) (some p) (some a) none l c h = cc h
  ranked-Made history n converged configs (some b) (some p) (some a) (some e) none c h = cc h

  -- A candidate that `build_candidate_entry` returns has the given number and its rank over the given
  -- history.
  pub build_candidate_entry-Made :
      (history : List (CandidateEntry F)) (metrics : Metrics F) (n : ℕ) (converged errors : Bool)
      (c : CandidateEntry F)
      → build_candidate_entry history metrics n converged errors ≡ ok (some c)
      → Made history n c
  unfolding build_candidate_entry
  build_candidate_entry-Made history metrics n converged true c h = cc h
  build_candidate_entry-Made history metrics n converged false c h =
      let (td, _, h1) = >>=-eq-ok (data_of metrics "tuner") _ h in
      let (vd, _, h2) = >>=-eq-ok (data_of metrics "verifier") _ h1 in
      let (b, _, h3) = >>=-eq-ok (number_at td "avg_weight_bits") _ h2 in
      let (p, _, h4) = >>=-eq-ok (number_at td "avg_column_pruning_ratio") _ h3 in
      let (l, _, h5) = >>=-eq-ok (layers_at td "layer_configs") _ h4 in
      let (a, _, h6) = >>=-eq-ok (number_at td "accuracy") _ h5 in
      let (e, _, h7) = >>=-eq-ok (number_at vd "energy_pj") _ h6 in
      let (t, _, h8) = >>=-eq-ok (number_at vd "noc_latency_ms") _ h7 in
      ranked-Made history n converged l b p a e t c (ok-injective _ _ h8)
