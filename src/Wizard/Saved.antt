-- ===== src/Wizard/Saved.antt =====
-- A specification that is saved is loaded again as it was, and a save that succeeds overwrites no file.
use autocim_agent.Prelude.{
  ℕ, ◌≤◌, ◌<◌, ◌≡◌, ◌≢◌, refl, sym, ◌∙◌, ap, String, str_eq, eq_iff, Bool, true, false, Bool-cases,
  inl, inr, arith, Option, none, some, ok, ok-injective,
}
use autocim_agent.Prelude.Dict.{Dict, lookup}
use autocim_agent.Prelude.Int.{ℤ, pos}
use autocim_agent.Prelude.Float.{Float}
use autocim_agent.Schemas.{HwConfig, NocTopology, mesh, torus, ring, crossbar_bus}
use autocim_agent.Wizard.{
  Value, text, int, real, Coerce, built, positive, given, float_over, optional_over, over_zero,
  from_zero, int_field, text_field, topology_of, topology_text, build, built_or, construct_hw,
  FileContent, no_file, not_json, json_object, other_json, loaded, of_built, read_config,
  load_hw_config, dump_hw, real_or_unset, is_there, saved_path, write_file, save_custom_hw_config,
}
use autocim_agent.Wizard.Valid.{MeetsSchema, Passes}

-- Values of the right type are read as they are.
pub record IsFaithful {F : Type 0} (c : Coerce F) : Type 0 where
  pub reads_text : (t : String) → c.as_text (text t) ≡ some t
  pub reads_int : (z : ℤ) → c.as_int (int z) ≡ some z
  pub reads_float : (x : F) → c.as_float (real x) ≡ some x

positive-none : (n : ℕ) → 0 < n → positive none (pos n) ≡ some n
unfolding positive
positive-none n h = ground arith

positive-some : (cap n : ℕ) → 0 < n → n ≤ cap → positive (some cap) (pos n) ≡ some n
unfolding positive
positive-some cap n h l = ground arith

not_there : {F : Type 0} (content : FileContent F) → is_there content ≡ false → content ≡ no_file
not_there no_file h = refl
not_there not_json h = cc h
not_there (json_object values) h = cc h
not_there other_json h = cc h

topology_of-text : (t : NocTopology) → topology_of (topology_text t) ≡ some t
unfolding topology_of topology_text
topology_of-text mesh = refl
topology_of-text torus = refl
topology_of-text ring = refl
topology_of-text crossbar_bus = refl

module _ {F : Type 0} ⦃fl : Float F⦄ (c : Coerce F) (faithful : IsFaithful c)
    (values : Dict (Value F)) where
  int_field-read :
      (cap : Option ℕ) (name : String) (n : ℕ)
      → lookup name values ≡ some (int (pos n))
      → positive cap (pos n) ≡ some n
      → int_field c values cap name ≡ some n
  unfolding int_field
  int_field-read cap name n found fits = rw (found, faithful.reads_int (pos n), fits) refl

  text_field-read :
      (name : String) (t : String)
      → lookup name values ≡ some (text t)
      → text_field c values name ≡ some t
  unfolding text_field
  text_field-read name t found = rw (found, faithful.reads_text t) refl

  float_over-read :
      (test : F → Bool) (name : String) (x : F)
      → lookup name values ≡ some (real x)
      → test x ≡ true
      → float_over c values test name ≡ some x
  unfolding float_over
  float_over-read test name x found passes = rw (found, faithful.reads_float x, passes) refl

  optional_over-read :
      (test : F → Bool) (name : String) (o : Option F)
      → lookup name values ≡ some (real_or_unset o)
      → Passes test o
      → optional_over c values test name ≡ some o
  unfolding optional_over given float_over
  optional_over-read test name none found passes = rw (found) refl
  optional_over-read test name (some x) found passes =
      rw (found, faithful.reads_float x, passes) refl

module _ {F : Type 0} ⦃fl : Float F⦄ (can_write : String → Bool)
    (files after : String → FileContent F) (hw : HwConfig F) where
  -- Whatever specification is saved, where the save does not raise an exception, a file that stands
  -- anywhere, at its own path too, is left as it was.
  pub save_custom_hw_config-kept :
      save_custom_hw_config can_write files hw ≡ ok after
      → (path : String) → files path ≢ no_file
      → after path ≡ files path
  unfolding save_custom_hw_config
  save_custom_hw_config-kept h path there =
      let target = saved_path hw.hw_spec_id in
      elim (Bool-cases (is_there (files target))) [
        | inl t ↦
            let same : files ≡ after = ok-injective _ _ (rw t at h) in
            ap (λ disk. disk path) (sym same)
        | inr f ↦ elim (Bool-cases (can_write target)) [
          | inl w ↦
              let h2 = rw (f, w) at h in
              let same : write_file files target (json_object (dump_hw hw)) ≡ after =
                ok-injective _ _ h2 in
              elim (Bool-cases (str_eq target path)) [
                | inl q ↦
                    absurd (
                      there
                        (ap files (sym ((eq_iff target path).0 q)) ∙ not_there (files target) f))
                | inr q ↦ ap (λ disk. disk path) (sym same) ∙ rw (q) refl
              ]
          | inr w ↦ cc (rw (f, w) at h)
        ]
      ]

module _ {F : Type 0} ⦃fl : Float F⦄ (c : Coerce F) (faithful : IsFaithful c) where
  build-dump : (hw : HwConfig F) → MeetsSchema hw → build c (dump_hw hw) ≡ ok hw
  unfolding build dump_hw lookup
  build-dump hw valid =
      let d = dump_hw hw in
      let whole = valid.whole in
      rw
        (
          text_field-read c faithful d "hw_spec_id" hw.hw_spec_id refl,
          int_field-read c faithful d none "crossbar_rows" hw.crossbar_rows refl
              (positive-none _ whole.rows_pos),
          int_field-read c faithful d none "crossbar_cols" hw.crossbar_cols refl
              (positive-none _ whole.cols_pos),
          int_field-read c faithful d none "num_tiles" hw.num_tiles refl
              (positive-none _ whole.tiles_pos),
          int_field-read c faithful d (some 16) "adc_bits" hw.adc_bits refl
              (positive-some 16 _ whole.adc_pos whole.adc_le),
          int_field-read c faithful d (some 16) "dac_bits" hw.dac_bits refl
              (positive-some 16 _ whole.dac_pos whole.dac_le),
          text_field-read c faithful d "noc_topology" (topology_text hw.noc_topology) refl,
          topology_of-text hw.noc_topology,
          float_over-read c faithful d over_zero "noc_link_bandwidth_gbps"
              hw.noc_link_bandwidth_gbps refl valid.bandwidth_pos,
          optional_over-read c faithful d from_zero "wire_resistance_ohm_per_um"
              hw.wire_resistance_ohm_per_um refl valid.resistance_nonneg,
          optional_over-read c faithful d from_zero "device_noise_sigma" hw.device_noise_sigma refl
              valid.sigma_nonneg,
          optional_over-read c faithful d over_zero "sram_buffer_kb" hw.sram_buffer_kb refl
              valid.buffer_pos,
        )
        refl

  construct_hw-dump : (hw : HwConfig F) → MeetsSchema hw → construct_hw c (dump_hw hw) ≡ built hw
  unfolding construct_hw built_or
  construct_hw-dump hw valid = rw (build-dump hw valid) refl

  -- Where no file stands at its path and one can be written there, a specification that meets the
  -- schema is saved, and loading that file gives the same specification again.
  pub load-save :
      (can_write : String → Bool) (files : String → FileContent F) (hw : HwConfig F)
      → MeetsSchema hw
      → files (saved_path hw.hw_spec_id) ≡ no_file
      → can_write (saved_path hw.hw_spec_id) ≡ true
      → (after : String → FileContent F) × (save_custom_hw_config can_write files hw ≡ ok after)
        × (load_hw_config c after (some (saved_path hw.hw_spec_id)) ≡ ok (loaded hw))
  unfolding save_custom_hw_config load_hw_config read_config of_built
  load-save can_write files hw valid absent writable =
      let path = saved_path hw.hw_spec_id in
      (
        write_file files path (json_object (dump_hw hw)),
        rw (absent, writable) refl,
        rw ((eq_iff path path).1 refl) (rw (construct_hw-dump hw valid) refl),
      )
