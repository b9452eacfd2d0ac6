-- ===== src/Dashboard/Table.antt =====
-- The table of a report shows every row of the report once, in the order of the iterations.
use autocim_agent.Prelude.{
  ℕ, zero, suc, ◌≤◌, ◌≡◌, refl, sym, ◌∙◌, ap, subst, Bool, true, leb, Bool-cases, inl, inr, arith,
  List, [], ◌∷◌, ◌++◌, length, All, count,
}
use autocim_agent.Dashboard.{
  Row, iteration_of, insert_row, ordered, TagPatterns, Block, single, warmup_group, is_warmup_row,
  warmup_run, grouped, table_blocks, table_rows,
}

module _ {F : Type 0} where
  -- The rows of a block, and those of a table.
  abbrev pub block_rows : Block F → List (Row F)
  block_rows (single r) = r ∷ []
  block_rows (warmup_group rows) = rows

  abbrev pub shown : List (Block F) → List (Row F)
  shown [] = []
  shown (b ∷ blocks) = block_rows b ++ shown blocks

  -- No iteration before a smaller one.
  abbrev pub AtMost : ℕ → List (Row F) → Type 0
  AtMost i rows = All (λ r. i ≤ iteration_of r) rows

  abbrev pub InOrder : List (Row F) → Type 0
  InOrder [] = Unit
  InOrder (r ∷ rows) = AtMost (iteration_of r) rows × InOrder rows

  count-insert_row :
      (test : Row F → Bool) (r : Row F) (rows : List (Row F))
      → count test (insert_row r rows) ≡ count test (r ∷ rows)
  unfolding insert_row
  count-insert_row test r [] = refl
  count-insert_row test r (s ∷ rows) = ground (arith, count-insert_row test r rows)

  count-ordered :
      (test : Row F → Bool) (rows : List (Row F)) → count test (ordered rows) ≡ count test rows
  unfolding ordered
  count-ordered test [] = refl
  count-ordered test (r ∷ rows) =
      count-insert_row test r (ordered rows) ∙ ground (arith, count-ordered test rows)

  AtMost-insert_row :
      (i : ℕ) (r : Row F) (rows : List (Row F))
      → i ≤ iteration_of r
      → AtMost i rows
      → AtMost i (insert_row r rows)
  unfolding insert_row
  AtMost-insert_row i r [] l h = (l, tt)
  AtMost-insert_row i r (s ∷ rows) l h = elim (Bool-cases (leb (iteration_of r) (iteration_of s))) [
    | inl e ↦ rw (e) (l, h)
    | inr e ↦ rw (e) (h.0, AtMost-insert_row i r rows l h.1)
  ]

  AtMost-lower : (i j : ℕ) (rows : List (Row F)) → i ≤ j → AtMost j rows → AtMost i rows
  AtMost-lower i j [] l h = tt
  AtMost-lower i j (r ∷ rows) l h = (omega (arith, l, h.0), AtMost-lower i j rows l h.1)

  insert_row-InOrder :
      (r : Row F) (rows : List (Row F)) → InOrder rows → InOrder (insert_row r rows)
  unfolding insert_row
  insert_row-InOrder r [] h = (tt, tt)
  insert_row-InOrder r (s ∷ rows) h = elim (Bool-cases (leb (iteration_of r) (iteration_of s))) [
    | inl e ↦
        let l : iteration_of r ≤ iteration_of s = ground (arith, e) in
        rw (e) ((l, AtMost-lower (iteration_of r) (iteration_of s) rows l h.0), h)
    | inr e ↦
        let l : iteration_of s ≤ iteration_of r = ground (arith, e) in
        rw (e) (AtMost-insert_row (iteration_of s) r rows l h.0, insert_row-InOrder r rows h.1)
  ]

  ordered-InOrder : (rows : List (Row F)) → InOrder (ordered rows)
  unfolding ordered
  ordered-InOrder [] = tt
  ordered-InOrder (r ∷ rows) = insert_row-InOrder r (ordered rows) (ordered-InOrder rows)

module _ {F : Type 0} (patterns : TagPatterns) where
  -- A batch has at least two rows, and all of them are of the warm-up.
  abbrev pub Collapsed : Block F → Type 0
  Collapsed (single r) = Unit
  Collapsed (warmup_group rows) =
      (2 ≤ length rows) × All (λ r. is_warmup_row patterns r ≡ true) rows

  abbrev RunOf : List (Row F) → List (Row F) × List (Row F) → Type 0
  RunOf rows (run, rest) =
      (run ++ rest ≡ rows)
      × (length rest ≤ length rows)
      × All (λ r. is_warmup_row patterns r ≡ true) run

  warmup_run-RunOf : (rows : List (Row F)) → RunOf rows (warmup_run patterns rows)
  unfolding warmup_run
  warmup_run-RunOf [] = (refl, omega arith, tt)
  warmup_run-RunOf (r ∷ rows) =
      let (whole, shorter, warm) = warmup_run-RunOf rows in
      elim (Bool-cases (is_warmup_row patterns r)) [
        | inl e ↦ rw (e) (ap (λ t. r ∷ t) whole, omega (arith, shorter), (e, warm))
        | inr e ↦ rw (e) (refl, omega arith, tt)
      ]

  abbrev Good : List (Row F) → List (Block F) → Type 0
  Good rows blocks = (shown blocks ≡ rows) × All Collapsed blocks

  grouped-Good :
      (r : Row F) (run rest : List (Row F)) (blocks : List (Block F))
      → is_warmup_row patterns r ≡ true
      → All (λ s. is_warmup_row patterns s ≡ true) run
      → Good rest blocks
      → Good (r ∷ (run ++ rest)) (grouped patterns r run ∷ blocks)
  unfolding grouped
  grouped-Good r [] rest blocks w h (e, c) = (ap (λ t. r ∷ t) e, (tt, c))
  grouped-Good r (s ∷ run) rest blocks w h (e, c) =
      (ap (λ t. r ∷ (s ∷ (run ++ t))) e, ((omega arith, (w, h)), c))

  table_blocks-Good :
      (turns : ℕ) (rows : List (Row F))
      → length rows ≤ turns
      → Good rows (table_blocks patterns turns rows)
  unfolding table_blocks
  table_blocks-Good zero [] l = (refl, tt)
  table_blocks-Good zero (r ∷ rows) l = absurd (omega (arith, l))
  table_blocks-Good (suc turns) [] l = (refl, tt)
  table_blocks-Good (suc turns) (r ∷ rows) l =
      let (whole, shorter, warm) = warmup_run-RunOf rows in
      let (run, rest) = warmup_run patterns rows in
      elim (Bool-cases (is_warmup_row patterns r)) [
        | inl e ↦
            rw (e, table_blocks)
              (subst (λ t. Good (r ∷ t) (grouped patterns r run ∷ table_blocks patterns turns rest))
                whole
                (grouped-Good r run rest (table_blocks patterns turns rest) e warm
                  (table_blocks-Good turns rest (omega (arith, l, shorter)))))
        | inr e ↦
            let (same, good) = table_blocks-Good turns rows (omega (arith, l)) in
            rw (e, table_blocks) (ap (λ t. r ∷ t) same, (tt, good))
      ]

  -- Over any rows: the table shows every row as often as it is given, so none is lost or doubled; it
  -- shows them in the order of their iterations; and a batch that is collapsed has at least two rows,
  -- all of them of the warm-up.
  pub table_rows-shown :
      (rows : List (Row F))
      → InOrder (shown (table_rows patterns rows))
        × ((test : Row F → Bool) → count test (shown (table_rows patterns rows)) ≡ count test rows)
        × All Collapsed (table_rows patterns rows)
  unfolding table_rows
  table_rows-shown rows =
      let (same, collapsed) =
        table_blocks-Good (length (ordered rows)) (ordered rows) (omega arith) in
      (
        subst InOrder (sym same) (ordered-InOrder rows),
        λ test. ap (count test) same ∙ count-ordered test rows,
        collapsed,
      )
