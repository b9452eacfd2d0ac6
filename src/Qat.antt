-- ===== src/Qat.antt =====
-- tools/qat.py, as far as it does not train: the stage of a layer, the sizes of the data sets out of
-- the environment, and the images that the three loaders get. The random permutations are torch's.
pub mod Splits
use autocim_agent.Prelude.{
  ℕ, zero, suc, ◌+◌, ◌-◌, String, str_eq, ltb, Bool, true, false, ◌&&◌, Option, none, some, List,
  [], ◌∷◌, length, take, drop, get_or, if◌then◌else◌, Exc, ok, raise,
}
use autocim_agent.Prelude.Int.{ℤ, pos, negsuc, sub_ℕ}
use autocim_agent.Prelude.Dict.{Dict, lookup}

-- `os.environ`, Python's `int(text)` (`none` is a ValueError), `str.strip` and `str.lower`.
pub record QatEnv : Type 0 where
  pub variables : Dict String
  pub parse_int : String → Option ℤ
  pub strip : String → String
  pub lower : String → String

-- A size as it is configured: a number of images, or the whole split.
pub data SplitSize : Type 0 where
  images : ℕ → SplitSize
  full_split : SplitSize

-- `value if value > 0 else default`
abbrev pub positive_or : ℕ → Option ℤ → ℕ
positive_or default none = default
positive_or default (some (pos zero)) = default
positive_or default (some (pos (suc n))) = suc n
positive_or default (some (negsuc n)) = default

module _ (env : QatEnv) where
  abbrev pub size_of : ℕ → Bool → Option String → SplitSize
  size_of default allow_full none = images default
  size_of default allow_full (some raw) =
      if str_eq raw ""
      then images default
      else if allow_full && str_eq (env.lower (env.strip raw)) "full"
      then full_split
      else images (positive_or default (env.parse_int raw))

  unfoldable pub resolve_size_env : String → ℕ → Bool → SplitSize
  resolve_size_env name default allow_full = size_of default allow_full (lookup name env.variables)

  abbrev pub int_of : ℕ → Option String → ℕ
  int_of default none = default
  int_of default (some raw) =
      if str_eq raw "" then default else positive_or default (env.parse_int raw)

  unfoldable pub resolve_int_env : String → ℕ → ℕ
  resolve_int_env name default = int_of default (lookup name env.variables)

-- `z + n`
abbrev pub plus : ℤ → ℕ → ℤ
plus (pos m) n = pos (m + n)
plus (negsuc m) n = sub_ℕ n (suc m)

-- `z + n > m`
abbrev pub exceeds : ℤ → ℕ → ℕ → Bool
exceeds (pos k) n m = ltb m (k + n)
exceeds (negsuc k) n m = ltb (m + suc k) n

abbrev pub train_size_of : SplitSize → ℕ → ℕ → ℤ
train_size_of full_split val_size available = sub_ℕ available val_size
train_size_of (images k) val_size available = pos k

abbrev pub test_size_of : SplitSize → ℕ → ℕ
test_size_of full_split available = available
test_size_of (images k) available = k

unfoldable pub resolve_split_sizes :
    (train_size : SplitSize) (val_size : ℕ) (test_size : SplitSize)
    (train_available test_available : ℕ)
    → Exc (ℤ × ℕ)
resolve_split_sizes train_size val_size test_size train_available test_available =
    let train = train_size_of train_size val_size train_available in
    let test = test_size_of test_size test_available in
    if exceeds train val_size train_available
    then raise "ValueError"
    else if ltb test_available test
    then raise "ValueError"
    else ok (train, test)

-- The end of a slice: a negative one counts from the end of the list.
abbrev pub bound : ℕ → ℤ → ℕ
bound n (pos k) = k
bound n (negsuc k) = n - suc k

module _ {A : Type 0} where
  -- `xs[lo:hi]`
  abbrev pub slice : List A → ℤ → ℤ → List A
  slice xs lo hi = drop (bound (length xs) lo) (take (bound (length xs) hi) xs)

-- The indices of the three loaders.
pub record Loaders : Type 0 where
  pub train_idx : List ℕ
  pub val_idx : List ℕ
  pub test_idx : List ℕ

-- The split in `_build_cifar10_loaders`, over the two permutations.
unfoldable pub loaders : List ℕ → List ℕ → ℕ → ℤ × ℕ → Loaders
loaders train_val_idx test_perm val_size (train_size, test_size) = record {
  train_idx = slice train_val_idx (pos 0) train_size;
  val_idx = slice train_val_idx train_size (plus train_size val_size);
  test_idx = take test_size test_perm;
}

-- `parts[: index + 1]` up to the first numeric part.
abbrev pub stage_parts : (String → Bool) → List String → Option (List String)
stage_parts is_digit [] = none
stage_parts is_digit (part ∷ parts) = elim (is_digit part) [
  | true ↦ some (part ∷ [])
  | false ↦ elim (stage_parts is_digit parts) [ none ↦ none | some stage ↦ some (part ∷ stage) ]
]

-- `_stage_of`, on the parts of a dotted name: the parts of its stage.
unfoldable pub stage_of : (String → Bool) → List String → List String
stage_of is_digit parts = get_or (stage_parts is_digit parts) (take 1 parts)
