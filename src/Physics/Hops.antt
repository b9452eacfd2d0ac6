-- ===== src/Physics/Hops.antt =====
-- The hop count is a distance on the tiles that the network has.
use native.Mathlib.Nat.{div-add-mod, mod-lt}
use autocim_agent.Prelude.{
  ℕ, zero, suc, ◌+◌, ◌-◌, ◌*◌, ◌/◌, ◌%◌, ◌≤◌, ◌<◌, ◌≡◌, ◌≢◌, refl, min, false, arith, leb, ◌==◌,
  Bool-cases, inl, inr, ◌⊎◌, ==_iff,
}
use autocim_agent.Prelude.Int.{ℤ, pos, negsuc, ◌+ℤ◌}
use autocim_agent.Schemas.{NocTopology, mesh, torus, ring, crossbar_bus}
use autocim_agent.Physics.{
  dist, least_root, grid_dim, wrap_around, grid_distance, apart_distance, hop_distance,
}

dist_comm : (i j : ℕ) → dist i j ≡ dist j i
dist_comm i j = ground arith

apart_distance_comm :
    (t : NocTopology) (i j size : ℕ) → apart_distance t i j size ≡ apart_distance t j i size
unfolding apart_distance
apart_distance_comm crossbar_bus i j size = refl
apart_distance_comm ring i j size = rw (dist_comm i j)
apart_distance_comm mesh i j size = rw (
  dist_comm (i / grid_dim size) (j / grid_dim size),
  dist_comm (i % grid_dim size) (j % grid_dim size),
)
apart_distance_comm torus i j size = rw (
  dist_comm (i / grid_dim size) (j / grid_dim size),
  dist_comm (i % grid_dim size) (j % grid_dim size),
)

-- The hop count is the same in both directions, on every topology and for every pair of tiles.
pub hop_distance_comm :
    (t : NocTopology) (i j size : ℕ) → hop_distance t i j size ≡ hop_distance t j i size
unfolding hop_distance
hop_distance_comm t i j size = ground (arith, apart_distance_comm t i j size)

-- The search stops at a number whose square reaches `n`.
least_root-square :
    (n fuel k : ℕ) → n ≤ k + fuel → 0 < k + fuel → n ≤ least_root n fuel k * least_root n fuel k
unfolding least_root
least_root-square n zero k h some_left = grind arith
least_root-square n (suc fuel) k h some_left = elim (Bool-cases (leb n (k * k))) [
  | inl e ↦ rw (e, least_root) (ground arith)
  | inr e ↦ rw (e, least_root) (least_root-square n fuel (suc k) (omega arith) (omega arith))
]

-- All `n` tiles fit on the grid.
grid_dim-square : (n : ℕ) → n ≤ grid_dim n * grid_dim n
unfolding grid_dim
grid_dim-square zero = omega arith
grid_dim-square (suc n) =
    grind (arith, least_root-square (suc n) (suc n) 0 (omega arith) (omega arith))

grid_dim_pos : (n : ℕ) → 0 < grid_dim n
unfolding grid_dim
grid_dim_pos n = omega arith

-- A hop count that is a number, and is 0 for no two different tiles.
abbrev pub IsPositive : ℤ → Type 0
IsPositive (pos n) = 0 < n
IsPositive (negsuc n) = ⊥

-- A row index of a tile on the grid.
row-lt : (i g : ℕ) → i < g * g → i / g < g
row-lt i g h = grind (arith, div-add-mod i g)

dist_pos : (i j : ℕ) → i ≢ j → 0 < dist i j
dist_pos i j h = ground arith

-- Two tiles with the same coordinates are one.
eq_of_coordinates : (i j g : ℕ) → i / g ≡ j / g → i % g ≡ j % g → i ≡ j
eq_of_coordinates i j g p q = grind (arith, div-add-mod i g, div-add-mod j g)

-- Two numbers of which one is folded: zero only if the distance is.
wrap_around_lt : (g d : ℕ) → d < g → (n : ℕ) × (wrap_around g d ≡ pos n) × (0 < d → 0 < n)
unfolding wrap_around
wrap_around_lt g d h = (min d (g - d), ground arith, λ p. omega arith)

dist-lt : (i j n : ℕ) → i < n → j < n → dist i j < n
dist-lt i j n h k = ground arith

sum-IsPositive : (n m : ℕ) → (0 < n) ⊎ (0 < m) → IsPositive (pos n +ℤ pos m)
unfolding ◌+ℤ◌
sum-IsPositive n m (inl p) = ground arith
sum-IsPositive n m (inr p) = ground arith

either : {A B C D : Type 0} → A ⊎ B → (A → C) → (B → D) → C ⊎ D
either (inl a) f g = inl (f a)
either (inr b) f g = inr (g b)

torus-IsPositive :
    (g a b c d : ℕ)
    → a < g
    → b < g
    → c < g
    → d < g
    → (0 < dist a c) ⊎ (0 < dist b d)
    → IsPositive (grid_distance torus g (a, b) (c, d))
unfolding grid_distance ◌+ℤ◌
torus-IsPositive g a b c d ha hb hc hd apart =
    let (n, e, p) = wrap_around_lt g (dist a c) (dist-lt a c g ha hc) in
    let (m, f, q) = wrap_around_lt g (dist b d) (dist-lt b d g hb hd) in
    rw (e, f) (sum-IsPositive n m (either apart p q))

coordinates_differ : (i j g : ℕ) → i ≢ j → (0 < dist (i / g) (j / g)) ⊎ (0 < dist (i % g) (j % g))
coordinates_differ i j g h = elim (Bool-cases (i / g == j / g)) [
  | inl e ↦ inr (dist_pos _ _ (λ q. h (eq_of_coordinates i j g ((==_iff _ _).0 e) q)))
  | inr e ↦ inl (dist_pos _ _ (ground arith))
]

ring-IsPositive : (size d : ℕ) → 0 < d → d < size → IsPositive (wrap_around size d)
unfolding wrap_around
ring-IsPositive size d h k = ground arith

mesh-IsPositive : (a b c d : ℕ) → (0 < dist a c) ⊎ (0 < dist b d) → 0 < dist a c + dist b d
mesh-IsPositive a b c d (inl p) = omega arith
mesh-IsPositive a b c d (inr p) = omega arith

-- On every topology, two different tiles of the network are a positive number of hops apart.
pub hop_distance_pos :
    (t : NocTopology) (i j size : ℕ)
    → i ≢ j
    → i < size
    → j < size
    → IsPositive (hop_distance t i j size)
unfolding hop_distance
hop_distance_pos t i j size ne hi hj = rw (differ, hop_distance) (apart t)
  where
    differ : (i == j) ≡ false
    differ = ground arith

    g : ℕ
    g = grid_dim size

    pos_g : 0 < g
    pos_g = grid_dim_pos size

    fits : size ≤ g * g
    fits = grid_dim-square size

    apart : (t' : NocTopology) → IsPositive (apart_distance t' i j size)
    apart crossbar_bus = omega arith
    apart ring = ring-IsPositive size (dist i j) (dist_pos i j ne) (dist-lt i j size hi hj)
    apart mesh = mesh-IsPositive (i / g) (i % g) (j / g) (j % g) (coordinates_differ i j g ne)
    apart torus =
        torus-IsPositive g (i / g) (i % g) (j / g) (j % g) (row-lt i g (omega (arith, fits)))
          (mod-lt i pos_g) (row-lt j g (omega (arith, fits))) (mod-lt j pos_g)
          (coordinates_differ i j g ne)
