-- ===== src/Tests/Session.antt =====
-- What the theorems on calibration, the store and the end of a run say of concrete inputs.
use autocim_agent.Prelude.{
  ℕ, ◌≡◌, refl, str_eq, false, none, some, List, [], ◌∷◌, All, arith, get_or,
}
use mathlib.Core.List.{Mem}
use mathlib.Core.Option
use autocim_agent.Prelude.Dict.{Dict, lookup, later}
use autocim_agent.Schemas.{HwConfig}
use autocim_agent.State.{CandidateEntry}
use autocim_agent.Search.Pareto.Laws.{Undominated}
use autocim_agent.Calibration.{
  CalibrationReference, find_matching_reference, find_nearest_reference, min_by, reference_distance,
}
use autocim_agent.Calibration.References.{known_references}
use autocim_agent.Calibration.Nearest.{Least, find_nearest_reference-Least}
use autocim_agent.Store.{Buckets, in_memory, get_calibration_factors, put_calibration_factors}
use autocim_agent.Store.Laws.{in_memory-IsStore, get-put_calibration_factors}
use autocim_agent.Session.{persist_candidates}
use autocim_agent.Session.Front.{persist_candidates_front}
use autocim_agent.Tests.Numbers.{micro_float, micro_float-IsOrder, micro_float-IsTotal}
use autocim_agent.Tests.Fixtures.{hw, candidate}

-- The first published data point, which the test hardware matches.
abbrev neurosim : CalibrationReference ℕ
neurosim = elim (find_nearest_reference known_references hw) [ some (r, d) ↦ r | none ↦ nothing ]
  where
    nothing : CalibrationReference ℕ
    nothing = record {
      crossbar_rows = 1;
      crossbar_cols = 1;
      adc_bits = 1;
      weight_bits = 1;
      reference_energy_pj_per_mac = 0;
      source = "";
      note = none;
    }

nearest_found : find_nearest_reference known_references hw ≡ some (neurosim, 0)
unfolding find_nearest_reference min_by reference_distance
nearest_found = refl

match_found : find_matching_reference known_references hw ≡ some neurosim
unfolding find_matching_reference find_nearest_reference min_by reference_distance
match_found = refl

find_nearest_reference-Least_example :
    (0 ≡ reference_distance hw neurosim)
    × Least micro_float-IsOrder micro_float-IsTotal
        (reference_distance hw)
        neurosim
        known_references
find_nearest_reference-Least_example =
    find_nearest_reference-Least micro_float-IsOrder micro_float-IsTotal known_references hw
      neurosim 0 nearest_found

-- A distance of 0 without a match: as many cells, in another shape.
abbrev reshaped : HwConfig ℕ
reshaped = record hw { crossbar_rows = 256; crossbar_cols = 64 }

reshaped_distance : reference_distance reshaped neurosim ≡ 0
unfolding find_nearest_reference min_by reference_distance
reshaped_distance = refl

reshaped_unmatched : find_matching_reference {F = ℕ} known_references reshaped ≡ none
unfolding find_matching_reference
reshaped_unmatched = refl

abbrev data_before : Buckets (Dict ℕ)
data_before =
    ("autocim" ∷ "hw" ∷ "hw" ∷ [], ("calibration_factors", ("hw", 1000000) ∷ []) ∷ []) ∷ []

get-put_calibration_factors_example :
    (Option.map (lookup "hw") (
        get_calibration_factors in_memory
          (put_calibration_factors in_memory data_before "hw" (("hw", 1100000) ∷ []))
          "hw")
      ≡ some (
          later
            (lookup "hw" (get_or (get_calibration_factors in_memory data_before "hw") []))
            (lookup "hw" (("hw", 1100000) ∷ []))))
    × (str_eq "hw" "other" ≡ false
        → get_calibration_factors in_memory
            (put_calibration_factors in_memory data_before "hw" (("hw", 1100000) ∷ []))
            "other"
          ≡ get_calibration_factors in_memory data_before "other")
unfolding lookup
get-put_calibration_factors_example =
    get-put_calibration_factors in_memory in_memory-IsStore data_before "hw" "other"
      (("hw", 1100000) ∷ []) "hw" (refl, tt)

abbrev old : CandidateEntry ℕ
old = candidate 900000 3000000 2000000 (some 1)

abbrev new : CandidateEntry ℕ
new = candidate 950000 2000000 1000000 (some 1)

persist_candidates_front_example :
    (front : List (CandidateEntry ℕ)) × (persist_candidates (some (old ∷ [])) (new ∷ [])
      ≡ some front)
    × All (λ a. Mem a (old ∷ new ∷ [])) front
    × All (λ a. Undominated a (old ∷ new ∷ [])) front
    × All (λ a. Undominated a (old ∷ new ∷ []) → Mem a front) (old ∷ new ∷ [])
persist_candidates_front_example =
    persist_candidates_front (some (old ∷ [])) new [] (omega arith, (omega arith, tt))
