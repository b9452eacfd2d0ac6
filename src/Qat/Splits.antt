-- ===== src/Qat/Splits.antt =====
-- The images of the three loaders: their numbers, and that no image trains and validates.
use autocim_agent.Prelude.{
  ℕ, zero, suc, ◌+◌, ◌-◌, ◌≤◌, ◌≡◌, refl, ◌∙◌, ap, ltb, arith, List, [], ◌∷◌, ◌++◌, length, take,
  drop, length-drop, if◌then◌else◌, ok, raise, ok-injective, subst,
}
use autocim_agent.Prelude.Int.{ℤ, pos}
use autocim_agent.Qat.{
  SplitSize, images, full_split, exceeds, train_size_of, test_size_of, resolve_split_sizes, loaders,
}

module _ {A : Type 0} where
  take-drop : (n : ℕ) (xs : List A) → take n xs ++ drop n xs ≡ xs
  take-drop zero xs = refl
  take-drop (suc n) [] = refl
  take-drop (suc n) (x ∷ xs) = ap (λ t. x ∷ t) (take-drop n xs)

  -- A list in three parts.
  segments : (n m : ℕ) (xs : List A) → n ≤ m → take n xs ++ (drop n (take m xs) ++ drop m xs) ≡ xs
  segments zero m xs h = take-drop m xs
  segments (suc n) zero xs h = absurd (omega (arith, h))
  segments (suc n) (suc m) [] h = refl
  segments (suc n) (suc m) (x ∷ xs) h = ap (λ t. x ∷ t) (segments n m xs (omega (arith, h)))

  length-take : (n : ℕ) (xs : List A) → n ≤ length xs → length (take n xs) ≡ n
  length-take zero xs h = refl
  length-take (suc n) [] h = absurd (omega (arith, h))
  length-take (suc n) (x ∷ xs) h = omega (arith, length-take n xs (omega (arith, h)))

  length-segment : (n m : ℕ) (xs : List A) → m ≤ length xs → length (drop n (take m xs)) ≡ m - n
  length-segment n m xs h = length-drop n (take m xs) ∙ ap (λ k. k - n) (length-take m xs h)

-- The number of images to train on.
abbrev pub training_images : SplitSize → ℕ → ℕ → ℕ
training_images (images k) val_size available = k
training_images full_split val_size available = available - val_size

train_size_of-pos :
    (size : SplitSize) (val_size available : ℕ)
    → val_size ≤ available
    → train_size_of size val_size available ≡ pos (training_images size val_size available)
train_size_of-pos (images k) val_size available l = refl
train_size_of-pos full_split val_size available l = ground (arith, l)

checked :
    (train test val_size train_available test_available : ℕ) (sizes : ℤ × ℕ)
    → (if ltb train_available (train + val_size)
        then raise "ValueError"
        else if ltb test_available test
        then raise "ValueError"
        else ok (pos train, test))
      ≡ ok sizes
    → ((pos train, test) ≡ sizes) × (train + val_size ≤ train_available) × (test ≤ test_available)
checked train test val_size train_available test_available sizes h =
    ground (arith, h, ok-injective (pos train, test) sizes)

-- The sizes that are resolved fit the splits.
module _ (train_size test_size : SplitSize) (val_size train_available test_available : ℕ) where
  resolve_split_sizes-fit :
      (sizes : ℤ × ℕ)
      → val_size ≤ train_available
      → resolve_split_sizes train_size val_size test_size train_available test_available ≡ ok sizes
      → ((
        pos (training_images train_size val_size train_available),
        test_size_of test_size test_available,
      )
          ≡ sizes)
        × (training_images train_size val_size train_available + val_size ≤ train_available)
        × (test_size_of test_size test_available ≤ test_available)
  unfolding resolve_split_sizes
  resolve_split_sizes-fit sizes l h =
      checked (training_images train_size val_size train_available)
        (test_size_of test_size test_available) val_size train_available test_available sizes
        (subst
          (λ z.
            (if exceeds z val_size train_available
              then raise "ValueError"
              else if ltb test_available (test_size_of test_size test_available)
              then raise "ValueError"
              else ok (z, test_size_of test_size test_available))
            ≡ ok sizes)
          (train_size_of-pos train_size val_size train_available l) h)

  -- Where the validation images do not exceed the training split, and the sizes are resolved: the
  -- training and the validation indices are two successive parts of the permutation, so no image is
  -- in both; there are as many as were asked for, for a full split all that are left; and as many
  -- test indices as were asked for.
  pub loaders-split :
      (train_val_idx test_perm : List ℕ) (sizes : ℤ × ℕ)
      → length train_val_idx ≡ train_available
      → length test_perm ≡ test_available
      → val_size ≤ train_available
      → resolve_split_sizes train_size val_size test_size train_available test_available ≡ ok sizes
      → let l = loaders train_val_idx test_perm val_size sizes in
        ((rest : List ℕ) × (l.train_idx ++ (l.val_idx ++ rest) ≡ train_val_idx))
        × (length l.train_idx ≡ training_images train_size val_size train_available)
        × (length l.val_idx ≡ val_size)
        × (length l.test_idx ≡ test_size_of test_size test_available)
  unfolding loaders
  loaders-split train_val_idx test_perm sizes a b l h =
      let n = training_images train_size val_size train_available in
      let (same, fits, tests) = resolve_split_sizes-fit sizes l h in
      subst
        (λ z.
          let l = loaders train_val_idx test_perm val_size z in
          ((rest : List ℕ) × (l.train_idx ++ (l.val_idx ++ rest) ≡ train_val_idx))
          × (length l.train_idx ≡ n)
          × (length l.val_idx ≡ val_size)
          × (length l.test_idx ≡ test_size_of test_size test_available))
        same
        (
          (
            drop (n + val_size) train_val_idx,
            segments n (n + val_size) train_val_idx (omega arith),
          ),
          length-take n train_val_idx (omega (arith, a, fits)),
          length-segment n (n + val_size) train_val_idx (omega (arith, a, fits)) ∙ omega arith,
          length-take (test_size_of test_size test_available) test_perm (omega (arith, b, tests)),
        )
