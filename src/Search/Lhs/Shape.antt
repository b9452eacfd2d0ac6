-- ===== src/Search/Lhs/Shape.antt =====
-- The warm-up candidates exist: as many as asked for, each with one pair for every stage.
use mathlib.Core.List.{Perm, Permᴰ}
use mathlib.Core.Logic.{∥∥₁_elim}
use native.Mathlib.Nat.{ℕ_set}
use autocim_agent.Prelude.{
  ℕ, zero, suc, ◌+◌, ◌%◌, ◌<◌, ◌≡◌, refl, ap, ◌∙◌, some, List, [], ◌∷◌, arith, length, All, ok,
  subst, get_elem?, map,
}
use autocim_agent.Prelude.Float.{Float, Rng, IsRng}
use autocim_agent.Search.{Bounds, StagePoint}
use autocim_agent.Search.Lhs.{
  cyclic, shuffled_strata, stage_dims, heads, tails, zip_from, zip_rows, pairs,
  latin_hypercube_stage_candidates, warmup_stage_candidate,
}
use autocim_agent.Search.Lhs.Strata.{length-draw_strata, latin_hypercube_1d-ok}

module _ {ℓ} {A : Type ℓ} where
  length-permᴰ : {xs ys : List A} → Permᴰ xs ys → length xs ≡ length ys
  length-permᴰ Permᴰ.nil = refl
  length-permᴰ (Permᴰ.cons e p) = ap suc (length-permᴰ p)
  length-permᴰ (Permᴰ.swap e f) = refl
  length-permᴰ (Permᴰ.trans p q) = length-permᴰ p ∙ length-permᴰ q

  length-perm : {xs ys : List A} → Perm xs ys → length xs ≡ length ys
  length-perm p = ∥∥₁_elim p (ℕ_set _ _) length-permᴰ

abbrev HasLength : {A : Type 0} → ℕ → List A → Type 0
HasLength n xs = length xs ≡ n

module _ {F : Type 0} where
  heads-tails :
      (n : ℕ) (columns : List (List F))
      → All (HasLength (suc n)) columns
      → (row : List F) × (heads columns ≡ some row)
        × (length row ≡ length columns)
        × (length (tails columns) ≡ length columns)
        × All (HasLength n) (tails columns)
  unfolding heads
  heads-tails n [] h = ([], refl, refl, refl, tt)
  heads-tails n ([] ∷ columns) h = absurd (omega (arith, h.0))
  heads-tails n ((x ∷ xs) ∷ columns) h =
      let (row, e, l, t, a) = heads-tails n columns h.1 in
      (x ∷ row, rw (e, heads), ap suc l, ap suc t, (omega (arith, h.0), a))

  zip_from_shape :
      (n k : ℕ) (columns : List (List F))
      → length columns ≡ k
      → All (HasLength n) columns
      → (length (zip_from n columns) ≡ n) × All (HasLength k) (zip_from n columns)
  unfolding zip_from
  zip_from_shape zero k columns e h = (refl, tt)
  zip_from_shape (suc n) k columns e h =
      let (row, f, l, t, a) = heads-tails n columns h in
      let (len, rows) = zip_from_shape n k (tails columns) (t ∙ e) a in
      rw (f, zip_from) (ap suc len, (l ∙ e, rows))

  length-pairs : (s : ℕ) (row : List F) → length row ≡ s + s → length (pairs row) ≡ s
  unfolding pairs
  length-pairs zero [] h = refl
  length-pairs zero (x ∷ []) h = absurd (omega arith)
  length-pairs zero (x ∷ y ∷ row) h = absurd (omega arith)
  length-pairs (suc s) [] h = absurd (omega arith)
  length-pairs (suc s) (x ∷ []) h = absurd (omega arith)
  length-pairs (suc s) (x ∷ y ∷ row) h = ap suc (length-pairs s row (omega arith))

  map-pairs_shape :
      (s : ℕ) (rows : List (List F))
      → All (HasLength (s + s)) rows
      → (length (map pairs rows) ≡ length rows) × All (HasLength s) (map pairs rows)
  map-pairs_shape s [] h = (refl, tt)
  map-pairs_shape s (row ∷ rows) h =
      let (len, all) = map-pairs_shape s rows h.1 in (ap suc len, (length-pairs s row h.0, all))

module _ {A : Type 0} (P : A → Type 0) where
  pub All-get_elem? :
      (xs : List A) (i : ℕ) → All P xs → i < length xs → (x : A) × (get_elem? xs i ≡ some x) × P x
  All-get_elem? [] i h lt = elim lt [ ]
  All-get_elem? (x ∷ xs) zero h lt = (x, refl, h.0)
  All-get_elem? (x ∷ xs) (suc i) h lt = All-get_elem? xs i h.1 (omega arith)

module _ {F G : Type 0} ⦃fl : Float F⦄ (rg : Rng F G) (law : IsRng fl rg) where
  length-shuffled_strata :
      (n : ℕ) (bounds : Bounds F) (seed : ℕ) → length (shuffled_strata rg n bounds seed) ≡ n
  unfolding shuffled_strata
  length-shuffled_strata n bounds seed =
      length-perm (law.shuffle-perm _ _) ∙ length-draw_strata rg n bounds n 0 _

  stage_dims_shape :
      (n : ℕ) (bb pb : Bounds F) (seed k d : ℕ)
      → 0 < n
      → (dims : List (List F)) × (stage_dims rg n bb pb seed k d ≡ ok dims)
        × (length dims ≡ k + k)
        × All (HasLength n) dims
  unfolding stage_dims
  stage_dims_shape n bb pb seed zero d pos = ([], refl, refl, tt)
  stage_dims_shape n bb pb seed (suc k) d pos =
      let (dims, returned, len, all) = stage_dims_shape n bb pb seed k (d + 2) pos in
      (
        shuffled_strata rg n bb (seed + d) ∷ shuffled_strata rg n pb (seed + (d + 1)) ∷ dims,
        rw
            (
              latin_hypercube_1d-ok rg n bb (seed + d) pos,
              latin_hypercube_1d-ok rg n pb (seed + (d + 1)) pos,
              returned,
            )
            refl,
        omega (arith, len),
        (length-shuffled_strata n bb _, (length-shuffled_strata n pb _, all)),
      )

  zip_rows_shape :
      (n k : ℕ) (columns : List (List F))
      → length columns ≡ suc k
      → All (HasLength n) columns
      → (length (zip_rows n columns) ≡ n) × All (HasLength (suc k)) (zip_rows n columns)
  unfolding zip_rows
  zip_rows_shape n k [] e h = absurd (omega (arith, e))
  zip_rows_shape n k (column ∷ columns) e h = zip_from_shape n (suc k) (column ∷ columns) e h

  -- For at least one sample and one stage there are `n` candidates, each with one pair for each stage.
  pub stage_candidates_shape :
      (n s : ℕ) (bb pb : Bounds F) (seed : ℕ)
      → 0 < n
      → 0 < s
      → (points : List (StagePoint F)) × (latin_hypercube_stage_candidates rg n s bb pb seed
          ≡ ok points)
        × (length points ≡ n)
        × All (HasLength s) points
  unfolding latin_hypercube_stage_candidates
  stage_candidates_shape n zero bb pb seed many pos = elim pos [ ]
  stage_candidates_shape n (suc k) bb pb seed many pos =
      let (dims, returned, width, columns) = stage_dims_shape n bb pb seed (suc k) 0 many in
      let (len, rows) = zip_rows_shape n (k + suc k) dims (omega (arith, width)) columns in
      let (same, points) =
        map-pairs_shape (suc k) (zip_rows n dims)
          (subst (λ m. All (HasLength m) (zip_rows n dims)) (omega arith) rows) in
      (map pairs (zip_rows n dims), rw (returned) refl, same ∙ len, points)

  -- For at least one sample and at least one stage: for every index a warm-up candidate is returned,
  -- with one pair for each stage, so no index is out of range.
  pub warmup_stage_candidate_total :
      (index n s : ℕ) (bb pb : Bounds F) (seed : ℕ)
      → 0 < n
      → 0 < s
      → (point : StagePoint F) × (warmup_stage_candidate rg index n s bb pb seed ≡ ok point)
        × (length point ≡ s)
  unfolding warmup_stage_candidate cyclic
  warmup_stage_candidate_total index zero s bb pb seed pn ps = elim pn [ ]
  warmup_stage_candidate_total index (suc n) s bb pb seed pn ps =
      let (points, returned, len, all) = stage_candidates_shape (suc n) s bb pb seed pn ps in
      let (point, e, l) =
        All-get_elem? (HasLength s) points (index % suc n) all (omega (arith, len)) in
      (point, rw (returned, e) refl, l)
