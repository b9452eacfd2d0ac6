-- ===== src/Nodes/Planner/Bounds.antt =====
-- The search stays within the resolution of converters of at least three bits, whatever a
-- researcher overrides.
use autocim_agent.Prelude.{
  ◌≡◌, ◌≤◌, min, ok, String, true, Option, none, some, arith, is_empty, Bool-cases, inl, inr,
}
use autocim_agent.Prelude.Dict.{Dict}
use autocim_agent.Prelude.Float.{zero_f, Float, IsOrder, IsTotal}
use autocim_agent.State.{Override, number, other}
use autocim_agent.Middleware.{Registry, get_hw_config}
use autocim_agent.Schemas.{HwConfig}
use autocim_agent.Search
use autocim_agent.Nodes.Planner.{
  raised, lowered, clamp_bounds, search_bounds, bits_max, bits_ceiling,
}

module _ {F : Type 0} ⦃fl : Float F⦄ where
  -- The inner range is not empty and lies inside the outer one.
  abbrev pub Inside : Search.Bounds F → Search.Bounds F → Type 0
  Inside inner outer =
      (fl.le outer.0 inner.0 ≡ true)
      × (fl.le inner.0 inner.1 ≡ true)
      × (fl.le inner.1 outer.1 ≡ true)

module _ {F : Type 0} ⦃fl : Float F⦄ (law : IsOrder fl) (total : IsTotal fl) where
  le_refl : (a : F) → fl.le a a ≡ true
  le_refl a = total.le_of_not_lt a a (law.lt-irrefl a)

  raised-ge : (lo : F) (o : Option (Override F)) → fl.le lo (raised lo o) ≡ true
  unfolding raised
  raised-ge lo (some (number x)) = ground (arith, le_refl lo, law.le_of_lt lo x)
  raised-ge lo (some (other t)) = le_refl lo
  raised-ge lo none = le_refl lo

  lowered-le : (hi : F) (o : Option (Override F)) → fl.le (lowered hi o) hi ≡ true
  unfolding lowered
  lowered-le hi (some (number x)) = ground (arith, le_refl hi, law.le_of_lt x hi)
  lowered-le hi (some (other t)) = le_refl hi
  lowered-le hi none = le_refl hi

  clamp_bounds-Inside :
      (outer : Search.Bounds F) (lo hi : Option (Override F))
      → fl.le outer.0 outer.1 ≡ true
      → Inside (clamp_bounds outer lo hi) outer
  unfolding clamp_bounds
  clamp_bounds-Inside (a, b) lo hi h = ground (
    arith,
    le_refl a,
    le_refl b,
    raised-ge a lo,
    lowered-le b hi,
    total.le_of_not_lt (lowered b hi) (raised a lo),
  )

  ceiling :
      (registry : Registry F) (hw_spec_id : String) (hw : HwConfig F)
      → get_hw_config hw_spec_id registry ≡ ok hw
      → 3 ≤ hw.adc_bits
      → 3 ≤ hw.dac_bits
      → bits_max registry hw_spec_id ≡ min 8 (min hw.adc_bits hw.dac_bits)
  unfolding bits_max bits_ceiling
  ceiling registry hw_spec_id hw found adc dac = rw (found) (omega (arith, adc, dac))

  -- Whatever the overrides, for a registered specification whose converters have at least three bits:
  -- the range of the bit widths is not empty and lies between 2 and the least of 8 and the resolutions
  -- of both converters, and the range of the pruning ratios is not empty and lies between 0 and 0.5;
  -- for comparable numbers, where these two outer ranges are in order.
  pub search_bounds-Inside :
      (registry : Registry F) (hw_spec_id : String) (overrides : Dict (Override F))
      (hw : HwConfig F)
      → get_hw_config hw_spec_id registry ≡ ok hw
      → 3 ≤ hw.adc_bits
      → 3 ≤ hw.dac_bits
      → fl.le (fl.of_nat 2) (fl.of_nat (min 8 (min hw.adc_bits hw.dac_bits))) ≡ true
      → fl.le zero_f (fl.decimal 5 1) ≡ true
      → Inside
          (search_bounds registry hw_spec_id overrides).0
          (fl.of_nat 2, fl.of_nat (min 8 (min hw.adc_bits hw.dac_bits)))
        × Inside (search_bounds registry hw_spec_id overrides).1 (zero_f, fl.decimal 5 1)
  unfolding search_bounds
  search_bounds-Inside registry hw_spec_id overrides hw found adc dac bits pruning =
      let top = ceiling registry hw_spec_id hw found adc dac in
      elim (Bool-cases (is_empty overrides)) [
        | inl e ↦ rw (e, top) ((le_refl _, bits, le_refl _), (le_refl _, pruning, le_refl _))
        | inr e ↦ rw (e, top) (clamp_bounds-Inside _ _ _ bits, clamp_bounds-Inside _ _ _ pruning)
      ]
