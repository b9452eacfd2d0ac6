-- ===== src/Search/Surrogate/Scan.antt =====
-- The scan of the grid finds a point that no other point beats.
use autocim_agent.Prelude.{
  ℕ, suc, ◌≡◌, refl, sym, subst, inl, inr, true, false, List, [], ◌∷◌, arith, ok, All, Bool-cases,
}
use mathlib.Core.List.{Mem, Mem-prop, mem-cons, mem-cons_of_mem}
use mathlib.Core.Logic.Or
use autocim_agent.Prelude.Float.{Float, IsOrder, IsTotal}
use autocim_agent.State.{CandidateEntry}
use autocim_agent.Search.{Bounds}
use autocim_agent.Search.Surrogate.{
  scan, grid_row, grid_rows, grid_value, acquisition, best_on_grid, propose_via_surrogate,
}

mem-insert :
    {A : Type 0} (p q : A) {r : A} {points : List A} → Mem r (p ∷ points) → Mem r (p ∷ q ∷ points)
mem-insert p q m =
    Or.elim Mem-prop (mem-cons.0 m) (λ e. mem-cons.1 (Or.inl e))
      (λ k. mem-cons_of_mem p (mem-cons_of_mem q k))

module _ {F : Type 0} ⦃fl : Float F⦄ (law : IsOrder fl) (total : IsTotal fl)
    (score : F × F → F) where
  -- No point of the list scores more than `r`.
  abbrev pub Maximal : F × F → List (F × F) → Type 0
  Maximal r = All (λ q. fl.lt (score r) (score q) ≡ false)

  scan-better :
      (best : F) (p q : F × F) (points : List (F × F))
      → fl.lt best (score q) ≡ true
      → scan score best p (q ∷ points) ≡ scan score (score q) q points
  unfolding scan
  scan-better best p q points h = rw (h, scan)

  scan-worse :
      (best : F) (p q : F × F) (points : List (F × F))
      → fl.lt best (score q) ≡ false
      → scan score best p (q ∷ points) ≡ scan score best p points
  unfolding scan
  scan-worse best p q points h = rw (h, scan)

  -- The result is among the start and the points, and none of these beats it.
  abbrev IsBest : F × F → List (F × F) → F × F → Type 0
  IsBest p points r = Mem r (p ∷ points) × Maximal r points × (fl.lt (score r) (score p) ≡ false)

  better-IsBest :
      (p q r : F × F) (points : List (F × F))
      → fl.lt (score p) (score q) ≡ true
      → IsBest q points r
      → IsBest p (q ∷ points) r
  better-IsBest p q r points h (m, least, first) = (
    mem-cons_of_mem p m,
    (first, least),
    ground
        (arith, law.lt_of_lt_of_le (score r) (score p) (score q), law.le_of_lt (score p) (score q)),
  )

  worse-IsBest :
      (p q r : F × F) (points : List (F × F))
      → fl.lt (score p) (score q) ≡ false
      → IsBest p points r
      → IsBest p (q ∷ points) r
  worse-IsBest p q r points h (m, least, first) = (
    mem-insert p q m,
    (
      ground (
        arith,
        law.lt_of_lt_of_le (score r) (score q) (score p),
        total.le_of_not_lt (score p) (score q),
      ),
      least,
    ),
    first,
  )

  scan-IsBest :
      (p : F × F) (points : List (F × F)) → IsBest p points (scan score (score p) p points)
  unfolding scan
  scan-IsBest p [] = (mem-cons.1 (Or.inl refl), tt, law.lt-irrefl (score p))
  scan-IsBest p (q ∷ points) = elim (Bool-cases (fl.lt (score p) (score q))) [
    | inl h ↦
        subst (IsBest p (q ∷ points)) (sym (scan-better (score p) p q points h))
          (better-IsBest p q _ points h (scan-IsBest q points))
    | inr h ↦
        subst (IsBest p (q ∷ points)) (sym (scan-worse (score p) p q points h))
          (worse-IsBest p q _ points h (scan-IsBest p points))
  ]

  -- Once the first point beats the initial score, the result is a point of the list that none beats.
  scan_from :
      (best : F) (start p : F × F) (points : List (F × F))
      → fl.lt best (score p) ≡ true
      → let r = scan score best start (p ∷ points) in Mem r (p ∷ points) × Maximal r (p ∷ points)
  scan_from best start p points h =
      subst (λ r. Mem r (p ∷ points) × Maximal r (p ∷ points))
        (sym (scan-better best start p points h))
        (let (m, least, first) = scan-IsBest p points in (m, (first, least)))

module _ {F : Type 0} ⦃fl : Float F⦄ (law : IsOrder fl) (total : IsTotal fl) where
  -- On a grid of at least two points a side, the code returns a point of the grid, and no point of the
  -- grid has a higher acquisition value; for comparable values, and a corner that scores above minus
  -- infinity.
  pub propose_via_surrogate_max :
      (history : List (CandidateEntry F)) (bit_bounds pruning_bounds : Bounds F) (n : ℕ)
      (weight : F)
      → let score = acquisition history bit_bounds pruning_bounds weight in
        let size = suc (suc n) in
        let grid = grid_rows size bit_bounds pruning_bounds size 0 in
        fl.lt fl.neg_inf (score (grid_value size bit_bounds 0, grid_value size pruning_bounds 0))
          ≡ true
        → (r : F × F) × (propose_via_surrogate history bit_bounds pruning_bounds size weight ≡ ok r)
          × Mem r grid
          × All (λ q. fl.lt (score r) (score q) ≡ false) grid
  unfolding propose_via_surrogate best_on_grid grid_rows grid_row
  propose_via_surrogate_max history bit_bounds pruning_bounds n weight h =
      let (member, best) =
        scan_from law total (acquisition history bit_bounds pruning_bounds weight) fl.neg_inf _ _ _
          h in
      (_, refl, member, best)
