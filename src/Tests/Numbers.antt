-- ===== src/Tests/Numbers.antt =====
-- A concrete arithmetic for the tests, with its laws: the numbers are natural, counted in millionths.
-- It serves to show that the named hypotheses on floats and on random numbers can hold together.
use autocim_agent.Prelude.{ℕ, ◌+◌, ◌-◌, ◌*◌, ◌/◌, ◌^◌, refl, arith, ltb, leb}
use mathlib.Core.List.Perm
use autocim_agent.Prelude.Int.{pos}
use autocim_agent.Prelude.Float.{Float, Rng, IsOrder, IsTotal, IsRng, IsRounding}

abbrev pub million : ℕ
million = 1000000

instance abbrev pub micro_float : Float ℕ
micro_float = record {
  lt = ltb;
  le = leb;
  add = λ a b. a + b;
  sub = λ a b. a - b;
  mul = λ a b. a * b / million;
  div = λ a b. a * million / b;
  neg = λ a. 0;
  sqrt = λ a. a;
  hypot = λ a b. a + b;
  log2 = λ a. a;
  decimal = λ m e. m * 10 ^ (6 - e);
  of_nat = λ n. n * million;
  neg_inf = 0;
  nearest = λ a. pos ((a + 500000) / million);
  round_to = λ a n. a;
  show = λ a. "a number";
}

-- The lowest sample, no change of the order, and the first index.
abbrev pub low_rng : Rng ℕ ℕ
low_rng = record {
  seeded = λ seed. seed;
  uniform = λ a b g. (a, g);
  shuffle = λ xs g. (xs, g);
  randrange = λ n g. (0, g);
}

pub micro_float-IsOrder : IsOrder micro_float
micro_float-IsOrder = record {
  lt-irrefl = λ a. ground arith;
  le_of_lt = λ a b h. ground arith;
  le_trans = λ a b c h k. ground arith;
  lt_of_lt_of_le = λ a b c h k. ground arith;
  lt_of_le_of_lt = λ a b c h k. ground arith;
}

pub micro_float-IsTotal : IsTotal micro_float
micro_float-IsTotal = record {
  le_of_not_lt = λ a b h. ground arith;
  not_lt_of_le = λ a b h. ground arith;
}

pub low_rng-IsRng : IsRng micro_float low_rng
low_rng-IsRng = record {
  uniform_ge = λ a b g h. ground arith;
  uniform_le = λ a b g h. h;
  shuffle-perm = λ xs g. Perm.refl xs;
  randrange-lt = λ n g h. h;
}

pub micro_float-IsRounding : IsRounding micro_float
micro_float-IsRounding = record {
  round_mono = λ a b n h. h;
  round_zero = λ n. refl;
  round_half = refl;
  zero_le_half = refl;
  half_lt_one = refl;
  nearest-le = λ x n h. ground arith;
}
