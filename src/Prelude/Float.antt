-- ===== src/Prelude/Float.antt =====
-- Python numbers of type `float`. The arithmetic of the machine is a parameter: the operations that
-- the program uses, and the order laws that hold of its comparisons (NaN included where no law
-- says otherwise). Whole numbers and decimal literals enter by `of_nat` and `decimal`.
use Prim.Native.Nat.{ℕ, suc, ◌<◌, ◌≤◌}
use Prim.Native.String.{String}
use mathlib.Core.Path.{◌≡◌}
use mathlib.Core.Bool.{Bool, true, false, not, ◌&&◌}
use mathlib.Core.List.{List, Perm, foldl}
use autocim_agent.Prelude.Tests.{if◌then◌else◌}
use autocim_agent.Prelude.Int.{ℤ, pos, negsuc, max_ℤ}

pub record Float (F : Type 0) : Type 0 where
  -- `a < b` and `a <= b`
  pub lt : F → F → Bool
  pub le : F → F → Bool
  pub add : F → F → F
  pub sub : F → F → F
  pub mul : F → F → F
  pub div : F → F → F
  pub neg : F → F
  pub sqrt : F → F
  -- `math.hypot`
  pub hypot : F → F → F
  pub log2 : F → F
  -- `decimal m e` is the literal m * 10 ** -e
  pub decimal : ℕ → ℕ → F
  pub of_nat : ℕ → F
  -- `-math.inf`
  pub neg_inf : F
  -- `round(x)` and `round(x, n)`
  pub nearest : F → ℤ
  pub round_to : F → ℕ → F
  -- `str(x)`
  pub show : F → String

-- `random.Random` of the standard library: a generator of numbers with its state.
pub record Rng (F G : Type 0) : Type 0 where
  pub seeded : ℕ → G
  pub uniform : F → F → G → F × G
  pub shuffle : List F → G → List F × G
  pub randrange : ℕ → G → ℕ × G

module _ {F : Type 0} ⦃fl : Float F⦄ where
  abbrev pub zero_f : F
  zero_f = fl.of_nat 0

  -- Python's `max(a, b)` and `min(a, b)`: the first argument unless the second beats it.
  abbrev pub max_f : F → F → F
  max_f a b = if fl.lt a b then b else a

  abbrev pub min_f : F → F → F
  min_f a b = if fl.lt b a then b else a

  -- `sum(xs)`
  abbrev pub sum_f : List F → F
  sum_f = foldl fl.add zero_f

  -- A whole number as a float.
  abbrev pub of_int : ℤ → F
  of_int (pos n) = fl.of_nat n
  of_int (negsuc n) = fl.neg (fl.of_nat (suc n))

  -- `bool(x)`: everything but zero is true, NaN included.
  abbrev pub truthy : F → Bool
  truthy x = not (fl.le x zero_f && fl.le zero_f x)

-- The laws of `<` and `<=` that comparisons of floats obey, NaN included.
pub record IsOrder {F : Type 0} (fl : Float F) : Type 0 where
  pub lt-irrefl : (a : F) → fl.lt a a ≡ false
  pub le_of_lt : (a b : F) → fl.lt a b ≡ true → fl.le a b ≡ true
  pub le_trans : (a b c : F) → fl.le a b ≡ true → fl.le b c ≡ true → fl.le a c ≡ true
  pub lt_of_lt_of_le : (a b c : F) → fl.lt a b ≡ true → fl.le b c ≡ true → fl.lt a c ≡ true
  pub lt_of_le_of_lt : (a b c : F) → fl.le a b ≡ true → fl.lt b c ≡ true → fl.lt a c ≡ true

-- The values at hand are comparable, which excludes NaN.
pub record IsTotal {F : Type 0} (fl : Float F) : Type 0 where
  pub le_of_not_lt : (a b : F) → fl.lt a b ≡ false → fl.le b a ≡ true
  pub not_lt_of_le : (a b : F) → fl.le a b ≡ true → fl.lt b a ≡ false

-- What the documentation of `random` promises: a sample lies between its ends, a shuffle permutes,
-- and an index is in range.
pub record IsRng {F G : Type 0} (fl : Float F) (rg : Rng F G) : Type 0 where
  pub uniform_ge : (a b : F) (g : G) → fl.le a b ≡ true → fl.le a (rg.uniform a b g).0 ≡ true
  pub uniform_le : (a b : F) (g : G) → fl.le a b ≡ true → fl.le (rg.uniform a b g).0 b ≡ true
  pub shuffle-perm : (xs : List F) (g : G) → Perm (rg.shuffle xs g).0 xs
  pub randrange-lt : (n : ℕ) (g : G) → 0 < n → (rg.randrange n g).0 < n

-- What holds of `round` at the numbers that the program rounds to: it is monotone, it keeps 0 and
-- one half, and a number at most `n` rounds to at most `n`.
pub record IsRounding {F : Type 0} (fl : Float F) : Type 0 where
  pub round_mono :
      (a b : F) (n : ℕ) → fl.le a b ≡ true → fl.le (fl.round_to a n) (fl.round_to b n) ≡ true
  pub round_zero : (n : ℕ) → fl.round_to (fl.of_nat 0) n ≡ fl.of_nat 0
  pub round_half : fl.round_to (fl.decimal 5 1) 4 ≡ fl.decimal 5 1
  pub zero_le_half : fl.le (fl.of_nat 0) (fl.decimal 5 1) ≡ true
  pub half_lt_one : fl.lt (fl.decimal 5 1) (fl.of_nat 1) ≡ true
  pub nearest-le : (x : F) (n : ℕ) → fl.le x (fl.of_nat n) ≡ true → max_ℤ 0 (fl.nearest x) ≤ n
