-- ===== src/Search/Propose/Bounded.antt =====
-- The proposal stays in the search space.
use autocim_agent.Prelude.{
  ℕ, ◌≡◌, refl, true, String, Option, none, some, List, [], ◌∷◌, length, All, arith, Exc, ok,
}
use autocim_agent.Prelude.Float.{Float, Rng, IsRng}
use autocim_agent.State.{CandidateEntry}
use autocim_agent.Search.{Bounds, StagePoint}
use autocim_agent.Search.Lhs.{pairs}
use autocim_agent.Search.Lhs.Shape.{All-get_elem?}
use autocim_agent.Search.Propose.{
  Problem, Optimiser, alternate, surrogate_problem, uniform_points, choose,
  propose_stage_candidates_via_surrogate,
}

module _ {F : Type 0} ⦃fl : Float F⦄ where
  abbrev pub InRange : Bounds F → F → Type 0
  InRange bounds x = (fl.le bounds.0 x ≡ true) × (fl.le x bounds.1 ≡ true)

  -- One pair for each stage name, each number within its bounds.
  abbrev pub InSpace : Bounds F → Bounds F → List String → StagePoint F → Type 0
  InSpace bb pb [] [] = Unit
  InSpace bb pb [] (x ∷ point) = ⊥
  InSpace bb pb (name ∷ names) [] = ⊥
  InSpace bb pb (name ∷ names) ((bits, pruning) ∷ point) =
      InRange bb bits × InRange pb pruning × InSpace bb pb names point

  -- A row of as many variables as the bounds, each between its own two.
  abbrev pub Within : List F → List F → List F → Type 0
  Within [] [] [] = Unit
  Within (l ∷ ls) (u ∷ us) (x ∷ xs) = (fl.le l x ≡ true) × (fl.le x u ≡ true) × Within ls us xs
  Within _ _ _ = ⊥

  -- What pymoo documents: every solution has its variables within the problem's bounds.
  pub record RespectsBounds (nsga2 : Optimiser F) : Type 0 where
    pub within :
        (p : Problem F) (pop gens seed : ℕ) (rows : List (List F))
        → nsga2 p pop gens seed ≡ some rows
        → All (Within p.xl p.xu) rows

  pairs-InSpace :
      (bb pb : Bounds F) (names : List String) (row : List F)
      → Within (alternate bb.0 pb.0 (length names)) (alternate bb.1 pb.1 (length names)) row
      → InSpace bb pb names (pairs row)
  unfolding pairs
  pairs-InSpace bb pb [] [] w = tt
  pairs-InSpace bb pb [] (x ∷ row) w = elim w [ ]
  pairs-InSpace bb pb (name ∷ names) [] w = elim w [ ]
  pairs-InSpace bb pb (name ∷ names) (x ∷ []) w = elim w.2 [ ]
  pairs-InSpace bb pb (name ∷ names) (x ∷ y ∷ row) w =
      ((w.0, w.1), (w.2.0, w.2.1), pairs-InSpace bb pb names row w.2.2)

module _ {F G : Type 0} ⦃fl : Float F⦄ (rg : Rng F G) (law : IsRng fl rg) where
  uniform_points-InSpace :
      (bb pb : Bounds F) (names : List String) (g : G) (nsga2 : Optimiser F)
      → fl.le bb.0 bb.1 ≡ true
      → fl.le pb.0 pb.1 ≡ true
      → InSpace bb pb names (uniform_points rg nsga2 bb pb names g)
  unfolding uniform_points
  uniform_points-InSpace bb pb [] g nsga2 b p = tt
  uniform_points-InSpace bb pb (name ∷ names) g nsga2 b p = (
    (law.uniform_ge _ _ g b, law.uniform_le _ _ g b),
    (law.uniform_ge _ _ _ p, law.uniform_le _ _ _ p),
    uniform_points-InSpace bb pb names _ nsga2 b p,
  )

  module _ (nsga2 : Optimiser F) (bb pb : Bounds F) (names : List String) where
    abbrev Proposed : Exc (StagePoint F) → Type 0
    Proposed r = (point : StagePoint F) × (r ≡ ok point) × InSpace bb pb names point

    choose-InSpace :
        (g : G) (found : Option (List (List F)))
        → fl.le bb.0 bb.1 ≡ true
        → fl.le pb.0 pb.1 ≡ true
        → ((rows : List (List F))
            → found ≡ some rows
            → All
                (Within (alternate bb.0 pb.0 (length names)) (alternate bb.1 pb.1 (length names)))
                rows)
        → Proposed (choose rg nsga2 bb pb names g found)
    unfolding choose
    choose-InSpace g none b p h = (_, refl, uniform_points-InSpace bb pb names g nsga2 b p)
    choose-InSpace g (some []) b p h = (_, refl, uniform_points-InSpace bb pb names g nsga2 b p)
    choose-InSpace g (some (row ∷ rows)) b p h =
        let (chosen, found, w) =
          All-get_elem?
            (Within (alternate bb.0 pb.0 (length names)) (alternate bb.1 pb.1 (length names)))
            (row ∷ rows) _ (h _ refl) (law.randrange-lt (length (row ∷ rows)) g (omega arith)) in
        (pairs chosen, rw (found, choose), pairs-InSpace bb pb names chosen w)

    -- With bounds in order and an optimiser that keeps to the problem's bounds, a proposal is made,
    -- on every path, and it has one pair for each stage, each number within its bounds.
    pub propose_stage_candidates-InSpace :
        RespectsBounds nsga2
        → fl.le bb.0 bb.1 ≡ true
        → fl.le pb.0 pb.1 ≡ true
        → (history : List (CandidateEntry F)) (seed pop : ℕ) (weight : F) (gens : ℕ)
        → (point : StagePoint F) × (propose_stage_candidates_via_surrogate rg nsga2 history names bb
              pb seed pop weight gens
            ≡ ok point)
          × InSpace bb pb names point
    unfolding propose_stage_candidates_via_surrogate surrogate_problem
    propose_stage_candidates-InSpace keeps b p history seed pop weight gens =
        choose-InSpace (rg.seeded seed) _ b p (λ rows e. keeps.within _ pop gens seed rows e)
