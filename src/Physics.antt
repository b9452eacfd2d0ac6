-- ===== src/Physics.antt =====
-- tools/cim_physics.py: hop counts on the network of tiles, and the analytical models.
pub mod Hops
use autocim_agent.Prelude.{
  ℕ, zero, suc, ◌+◌, ◌-◌, ◌*◌, ◌/◌, ◌%◌, ◌^◌, min, max, true, false, List, [], ◌∷◌, ◌==◌, ltb, leb,
  length, if◌then◌else◌, get_or,
}
use autocim_agent.Prelude.Int.{ℤ, pos, negsuc, ◌+ℤ◌}
use autocim_agent.Prelude.Float.{Float, zero_f, min_f, of_int, truthy}
use autocim_agent.Schemas.{NocTopology, torus, ring, crossbar_bus, HwConfig, LayerBitConfig}

-- `abs(i - j)`
abbrev pub dist : ℕ → ℕ → ℕ
dist i j = if ltb i j then j - i else i - j

-- `math.ceil(math.sqrt(n))`: the search from `k` on for the first number whose square reaches `n`.
least_root : ℕ → ℕ → ℕ → ℕ
least_root n zero k = k
least_root n (suc fuel) k = elim (leb n (k * k)) [ true ↦ k | false ↦ least_root n fuel (suc k) ]

unfoldable pub grid_dim : ℕ → ℕ
unfolding least_root
grid_dim n = max 1 (least_root n n 0)

-- `_tile_coordinates`
abbrev pub tile_coordinates : ℕ → ℕ → ℕ × ℕ
tile_coordinates index dim = (index / dim, index % dim)

-- `min(direct, size - direct)`, where the difference may be negative.
unfoldable pub wrap_around : ℕ → ℕ → ℤ
wrap_around size direct =
    if leb direct size then pos (min direct (size - direct)) else negsuc (direct - size - 1)

-- The distance of two different tiles on the grid.
unfoldable pub grid_distance : NocTopology → ℕ → ℕ × ℕ → ℕ × ℕ → ℤ
unfolding ◌+ℤ◌ wrap_around
grid_distance torus dim (xi, yi) (xj, yj) =
    wrap_around dim (dist xi xj) +ℤ wrap_around dim (dist yi yj)
grid_distance _ dim (xi, yi) (xj, yj) = pos (dist xi xj + dist yi yj)

-- The branches on the topology, for two different tiles.
unfoldable pub apart_distance : NocTopology → ℕ → ℕ → ℕ → ℤ
unfolding grid_distance wrap_around
apart_distance crossbar_bus i j size = pos 1
apart_distance ring i j size = wrap_around size (dist i j)
apart_distance topology i j size =
    let dim = grid_dim size in
    grid_distance topology dim (tile_coordinates i dim) (tile_coordinates j dim)

unfoldable pub hop_distance : NocTopology → ℕ → ℕ → ℕ → ℤ
unfolding apart_distance
hop_distance topology i j size = if i == j then pos 0 else apart_distance topology i j size

-- `CIMTechParams`
pub record CimTechParams (F : Type 0) : Type 0 where
  pub adc_ref_energy_fj : F
  pub dac_ref_energy_fj : F
  pub crossbar_ref_energy_fj : F
  pub adc_cycle_time_ns : F
  pub dac_settle_time_ns : F
  pub router_flit_header_bits : ℕ

pub record NocMapping (F : Type 0) : Type 0 where
  pub noc_latency_ms : F
  pub buffer_delay_ms : F
  pub tile_utilization : F
  pub tiles_needed : ℕ

pub record CimProfile (F : Type 0) : Type 0 where
  pub energy_pj : F
  pub latency_ns : F

module _ {F : Type 0} ⦃fl : Float F⦄ where
  abbrev pub cim_tech_params : CimTechParams F
  cim_tech_params = record {
    adc_ref_energy_fj = fl.decimal 2 1;
    dac_ref_energy_fj = fl.decimal 5 2;
    crossbar_ref_energy_fj = fl.decimal 1 2;
    adc_cycle_time_ns = fl.decimal 1 1;
    dac_settle_time_ns = fl.decimal 5 2;
    router_flit_header_bits = 32;
  }

  -- The loop from index `idx` on, over the layers that are left.
  noc_loop : HwConfig F → CimTechParams F → ℕ → List (LayerBitConfig F) → F → F
  noc_loop hw params idx [] total = total
  noc_loop hw params idx (lc ∷ layers) total =
      let hops = hop_distance hw.noc_topology (idx - 1) idx hw.num_tiles in
      let payload_bits = hw.crossbar_cols * lc.activation_bits in
      let serialization_ns = fl.div (fl.of_nat payload_bits) hw.noc_link_bandwidth_gbps in
      let header_ns =
        fl.div (fl.mul (of_int hops) (fl.of_nat params.router_flit_header_bits))
          hw.noc_link_bandwidth_gbps in
      noc_loop hw params (suc idx) layers (fl.add total (fl.add serialization_ns header_ns))

  -- The loop starts at the second layer.
  noc_latency_ns : HwConfig F → CimTechParams F → List (LayerBitConfig F) → F
  noc_latency_ns hw params [] = zero_f
  noc_latency_ns hw params (lc ∷ layers) = noc_loop hw params 1 layers zero_f

  unfoldable pub simulate_noc_mapping :
      HwConfig F → List (LayerBitConfig F) → CimTechParams F → NocMapping F
  unfolding noc_loop noc_latency_ns
  simulate_noc_mapping hw layer_configs params =
      let buffer_bits =
        fl.mul (fl.mul (get_or hw.sram_buffer_kb zero_f) (fl.of_nat 8)) (fl.of_nat 1024) in
      let buffer_delay_ns =
        if truthy buffer_bits then fl.div buffer_bits hw.noc_link_bandwidth_gbps else zero_f in
      record {
        noc_latency_ms =
            fl.round_to (fl.div (noc_latency_ns hw params layer_configs) (fl.of_nat (10 ^ 6))) 6;
        buffer_delay_ms = fl.round_to (fl.div buffer_delay_ns (fl.of_nat (10 ^ 6))) 6;
        tile_utilization =
            fl.round_to
              (min_f (fl.of_nat 1)
                (fl.div (fl.of_nat (length layer_configs)) (fl.of_nat hw.num_tiles)))
              4;
        tiles_needed = length layer_configs;
      }

  -- The energy of one layer.
  unfoldable pub layer_energy_fj : HwConfig F → CimTechParams F → LayerBitConfig F → F
  layer_energy_fj hw params lc =
      let adc =
        fl.mul (fl.mul params.adc_ref_energy_fj (fl.of_nat (2 ^ hw.adc_bits)))
          (fl.of_nat hw.crossbar_cols) in
      let dac =
        fl.mul (fl.mul params.dac_ref_energy_fj (fl.of_nat hw.dac_bits))
          (fl.of_nat hw.crossbar_rows) in
      let crossbar =
        fl.mul
          (fl.mul (fl.mul params.crossbar_ref_energy_fj (fl.of_nat hw.crossbar_rows))
            (fl.of_nat hw.crossbar_cols))
          (fl.of_nat lc.weight_bits) in
      fl.add (fl.add adc dac) crossbar

  unfoldable pub layer_latency_ns : HwConfig F → CimTechParams F → F
  layer_latency_ns hw params =
      fl.add (fl.mul (fl.of_nat hw.adc_bits) params.adc_cycle_time_ns)
        (fl.mul (fl.of_nat hw.dac_bits) params.dac_settle_time_ns)

  unfoldable pub profile_loop :
      HwConfig F → CimTechParams F → List (LayerBitConfig F) → F → F → F × F
  profile_loop hw params [] energy latency = (energy, latency)
  profile_loop hw params (lc ∷ layers) energy latency =
      profile_loop hw params layers (fl.add energy (layer_energy_fj hw params lc))
        (fl.add latency (layer_latency_ns hw params))

  unfoldable pub simulate_cim_profile :
      HwConfig F → List (LayerBitConfig F) → CimTechParams F → CimProfile F
  simulate_cim_profile hw layer_configs params =
      let (energy, latency) = profile_loop hw params layer_configs zero_f zero_f in
      record {
        energy_pj = fl.round_to (fl.div energy (fl.of_nat 1000)) 6;
        latency_ns = fl.round_to latency 6;
      }
