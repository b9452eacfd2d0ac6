-- ===== src/Wizard.antt =====
-- main.py: hardware specifications from files and from typed answers. The checks are those of
-- `HWConfig`; what pydantic makes of a single value is given by `Coerce`.
pub mod Valid
pub mod Saved
pub mod Prompts
pub mod Steps
pub mod Run
pub mod Result
use autocim_agent.Prelude.{
  ℕ, ◌<>◌, String, str_eq, Bool, true, false, ◌&&◌, Option, none, some, List, [], ◌∷◌, ◌++◌, leb,
  ltb, if◌then◌else◌, Exc, ok, raise, ◌>>=◌,
}
use autocim_agent.Prelude.Dict.{Dict, lookup}
use autocim_agent.Prelude.Int.{ℤ, pos, negsuc}
use autocim_agent.Prelude.Float.{Float, zero_f}
use autocim_agent.Schemas.{HwConfig, NocTopology, mesh, torus, ring, crossbar_bus}

-- A typed answer, or a value of a JSON object. `unset` is `None`.
pub data Value (F : Type 0) : Type 0 where
  text : String → Value F
  int : ℤ → Value F
  real : F → Value F
  unset : Value F

-- What pydantic reads a value as.
pub record Coerce (F : Type 0) : Type 0 where
  pub as_text : Value F → Option String
  pub as_int : Value F → Option ℤ
  pub as_float : Value F → Option F

-- `HWConfig(**values)`: a specification, or the fields that are refused.
pub data Built (F : Type 0) : Type 0 where
  built : HwConfig F → Built F
  refused : List String → Built F

built_or : {F : Type 0} → List String → Exc (HwConfig F) → Built F
built_or fields (raise e) = refused fields
built_or fields (ok hw) = built hw

abbrev pub required : {A : Type 0} → Option A → Exc A
required none = raise "ValidationError"
required (some a) = ok a

-- A whole number with `gt=0`, and with `le=cap` where there is a cap.
unfoldable pub positive : Option ℕ → ℤ → Option ℕ
positive cap (negsuc n) = none
positive none (pos n) = if ltb 0 n then some n else none
positive (some cap) (pos n) = if ltb 0 n && leb n cap then some n else none

topology_of : String → Option NocTopology
topology_of t =
    if str_eq t "mesh"
    then some mesh
    else if str_eq t "torus"
    then some torus
    else if str_eq t "ring"
    then some ring
    else if str_eq t "crossbar_bus"
    then some crossbar_bus
    else none

-- Whether the read value is there, and if so what the check makes of it.
abbrev pub checked : {A B : Type 0} → (A → Option B) → Option A → Option B
checked check none = none
checked check (some a) = check a

module _ {F : Type 0} where
  -- `answers.get(name) is not None`
  unfoldable pub given : Option (Value F) → Bool
  given none = false
  given (some unset) = false
  given (some (text t)) = true
  given (some (int z)) = true
  given (some (real x)) = true

module _ {F : Type 0} ⦃fl : Float F⦄ where
  abbrev over_zero : F → Bool
  over_zero x = fl.lt zero_f x

  abbrev from_zero : F → Bool
  from_zero x = fl.le zero_f x

module _ {F : Type 0} ⦃fl : Float F⦄ (c : Coerce F) (values : Dict (Value F)) where
  int_field : Option ℕ → String → Option ℕ
  int_field cap name = checked (positive cap) (checked c.as_int (lookup name values))

  text_field : String → Option String
  text_field name = checked c.as_text (lookup name values)

  -- A float with `gt=0` (or `ge=0`).
  float_over : (F → Bool) → String → Option F
  float_over test name =
      checked (λ (x : F). if test x then some x else none) (checked c.as_float (lookup name values))

  -- An optional float: a missing value and `None` are accepted as no value.
  optional_over : (F → Bool) → String → Option (Option F)
  unfolding given float_over
  optional_over test name =
      if given (lookup name values)
      then checked (λ (x : F). some (some x)) (float_over test name)
      else some none

  build : Exc (HwConfig F)
  unfolding int_field text_field float_over optional_over topology_of positive
  build = do
    hw_spec_id ← required (text_field "hw_spec_id")
    rows ← required (int_field none "crossbar_rows")
    cols ← required (int_field none "crossbar_cols")
    tiles ← required (int_field none "num_tiles")
    adc ← required (int_field (some 16) "adc_bits")
    dac ← required (int_field (some 16) "dac_bits")
    topology ← required (checked topology_of (text_field "noc_topology"))
    bandwidth ← required (float_over over_zero "noc_link_bandwidth_gbps")
    resistance ← required (optional_over from_zero "wire_resistance_ohm_per_um")
    sigma ← required (optional_over from_zero "device_noise_sigma")
    buffer ← required (optional_over over_zero "sram_buffer_kb")
    ok (record {
      hw_spec_id = hw_spec_id;
      crossbar_rows = rows;
      crossbar_cols = cols;
      num_tiles = tiles;
      adc_bits = adc;
      dac_bits = dac;
      noc_topology = topology;
      noc_link_bandwidth_gbps = bandwidth;
      wire_resistance_ohm_per_um = resistance;
      device_noise_sigma = sigma;
      sram_buffer_kb = buffer;
    })

  flagged : {A : Type 0} → String → Option A → List String
  flagged name none = name ∷ []
  flagged name (some a) = []

  -- The fields that the error names.
  bad_fields : List String
  unfolding int_field text_field float_over optional_over topology_of positive flagged
  bad_fields =
      flagged "hw_spec_id" (text_field "hw_spec_id")
      ++ (flagged "crossbar_rows" (int_field none "crossbar_rows")
          ++ (flagged "crossbar_cols" (int_field none "crossbar_cols")
              ++ (flagged "num_tiles" (int_field none "num_tiles")
                  ++ (flagged "adc_bits" (int_field (some 16) "adc_bits")
                      ++ (flagged "dac_bits" (int_field (some 16) "dac_bits")
                          ++ (flagged "noc_topology"
                                (checked topology_of (text_field "noc_topology"))
                              ++ (flagged "noc_link_bandwidth_gbps"
                                    (float_over over_zero "noc_link_bandwidth_gbps")
                                  ++ (flagged "wire_resistance_ohm_per_um"
                                        (optional_over from_zero "wire_resistance_ohm_per_um")
                                      ++ (flagged "device_noise_sigma"
                                            (optional_over from_zero "device_noise_sigma")
                                          ++ flagged "sram_buffer_kb"
                                              (optional_over over_zero "sram_buffer_kb"))))))))))

  unfoldable pub construct_hw : Built F
  unfolding build bad_fields built_or
  construct_hw = built_or bad_fields build

-- `DEFAULT_HW_CONFIG`
abbrev pub default_hw_config : {F : Type 0} ⦃fl : Float F⦄ → HwConfig F
default_hw_config ⦃fl⦄ = record {
  hw_spec_id = "cim_v1_128x128";
  crossbar_rows = 128;
  crossbar_cols = 128;
  num_tiles = 16;
  adc_bits = 8;
  dac_bits = 4;
  noc_topology = mesh;
  noc_link_bandwidth_gbps = fl.decimal 100 1;
  wire_resistance_ohm_per_um = some (fl.decimal 5 2);
  device_noise_sigma = some (fl.decimal 5 2);
  sram_buffer_kb = some (fl.decimal 640 1);
}

-- What stands at a path.
pub data FileContent (F : Type 0) : Type 0 where
  no_file : FileContent F
  not_json : FileContent F
  json_object : Dict (Value F) → FileContent F
  other_json : FileContent F

-- `HWConfigError`, or a specification.
pub data Loaded (F : Type 0) : Type 0 where
  loaded : HwConfig F → Loaded F
  hw_config_error : String → Loaded F

module _ {F : Type 0} where
  of_built : String → Built F → Loaded F
  of_built path (built hw) = loaded hw
  of_built path (refused fields) =
      hw_config_error ("--hw-config file " <> (path <> " doesn't match HWConfig's schema"))

module _ {F : Type 0} ⦃fl : Float F⦄ (c : Coerce F) (files : String → FileContent F) where
  read_config : String → FileContent F → Exc (Loaded F)
  unfolding of_built
  read_config path no_file = ok (hw_config_error ("--hw-config file not found: " <> path))
  read_config path not_json =
      ok (hw_config_error ("--hw-config file " <> (path <> " is not valid JSON")))
  read_config path other_json = raise "TypeError: argument after ** must be a mapping"
  read_config path (json_object values) = ok (of_built path (construct_hw c values))

  unfoldable pub load_hw_config : Option String → Exc (Loaded F)
  unfolding read_config
  load_hw_config none = ok (loaded default_hw_config)
  load_hw_config (some path) = read_config path (files path)

-- The path of a saved specification.
abbrev pub saved_path : String → String
saved_path hw_spec_id = "examples/hw_configs/" <> (hw_spec_id <> ".json")

topology_text : NocTopology → String
topology_text mesh = "mesh"
topology_text torus = "torus"
topology_text ring = "ring"
topology_text crossbar_bus = "crossbar_bus"

module _ {F : Type 0} where
  abbrev real_or_unset : Option F → Value F
  real_or_unset none = unset
  real_or_unset (some x) = real x

  -- `hw_config.model_dump(mode="json")`
  unfoldable pub dump_hw : HwConfig F → Dict (Value F)
  unfolding topology_text
  dump_hw hw =
      ("hw_spec_id", text hw.hw_spec_id)
      ∷ ("crossbar_rows", int (pos hw.crossbar_rows))
      ∷ ("crossbar_cols", int (pos hw.crossbar_cols))
      ∷ ("num_tiles", int (pos hw.num_tiles))
      ∷ ("adc_bits", int (pos hw.adc_bits))
      ∷ ("dac_bits", int (pos hw.dac_bits))
      ∷ ("noc_topology", text (topology_text hw.noc_topology))
      ∷ ("noc_link_bandwidth_gbps", real hw.noc_link_bandwidth_gbps)
      ∷ ("wire_resistance_ohm_per_um", real_or_unset hw.wire_resistance_ohm_per_um)
      ∷ ("device_noise_sigma", real_or_unset hw.device_noise_sigma)
      ∷ ("sram_buffer_kb", real_or_unset hw.sram_buffer_kb)
      ∷ []

  abbrev is_there : FileContent F → Bool
  is_there no_file = false
  is_there _ = true

  abbrev pub write_file : (String → FileContent F) → String → FileContent F → String → FileContent F
  write_file files path content p = if str_eq path p then content else files p

  -- `_save_custom_hw_config`; `can_write` says at which paths a file can be written.
  unfoldable pub save_custom_hw_config :
      (can_write : String → Bool)
      → (String → FileContent F)
      → HwConfig F
      → Exc (String → FileContent F)
  save_custom_hw_config can_write files hw =
      let path = saved_path hw.hw_spec_id in
      if is_there (files path)
      then ok files
      else if can_write path
      then ok (write_file files path (json_object (dump_hw hw)))
      else raise "OSError"
