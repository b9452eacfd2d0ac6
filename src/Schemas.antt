-- ===== src/Schemas.antt =====
-- schemas/config.py and schemas/tools.py. The numbers of a record are checked by pydantic at its
-- construction; the checks stand in the predicates `IsValid…`.
use autocim_agent.Prelude.{ℕ, ◌≤◌, ◌<◌, String, ◌≡◌, Bool, true, Option, none, some, List, [], ◌∷◌}
use autocim_agent.Prelude.Dict.{Dict}
use autocim_agent.Prelude.Float.{Float}

pub data NocTopology : Type 0 where
  mesh torus ring crossbar_bus : NocTopology

pub record HwConfig (F : Type 0) : Type 0 where
  pub hw_spec_id : String
  pub crossbar_rows : ℕ
  pub crossbar_cols : ℕ
  pub num_tiles : ℕ
  pub adc_bits : ℕ
  pub dac_bits : ℕ
  pub noc_topology : NocTopology
  pub noc_link_bandwidth_gbps : F
  pub wire_resistance_ohm_per_um : Option F
  pub device_noise_sigma : Option F
  pub sram_buffer_kb : Option F

-- The bounds that pydantic enforces on the whole numbers of an `HWConfig`.
pub record IsValidHw {F : Type 0} (hw : HwConfig F) : Type 0 where
  pub rows_pos : 0 < hw.crossbar_rows
  pub cols_pos : 0 < hw.crossbar_cols
  pub tiles_pos : 0 < hw.num_tiles
  pub adc_pos : 0 < hw.adc_bits
  pub adc_le : hw.adc_bits ≤ 16
  pub dac_pos : 0 < hw.dac_bits
  pub dac_le : hw.dac_bits ≤ 16

pub record ExecutionContext : Type 0 where
  pub session_id : String
  pub model_id : String
  pub hw_spec_id : String
  pub iteration_count : ℕ
  pub user_id : Option String

pub data ToolStatus : Type 0 where
  success failed : ToolStatus

pub record LayerBitConfig (F : Type 0) : Type 0 where
  pub layer_name : String
  pub weight_bits : ℕ
  pub activation_bits : ℕ
  pub column_pruning_ratio : F

-- The bounds that pydantic enforces on a `LayerBitConfig`.
pub record IsValidLayer {F : Type 0} (fl : Float F) (lc : LayerBitConfig F) : Type 0 where
  pub weight_pos : 0 < lc.weight_bits
  pub weight_le : lc.weight_bits ≤ 32
  pub activation_pos : 0 < lc.activation_bits
  pub activation_le : lc.activation_bits ≤ 32
  pub ratio_nonneg : fl.le (fl.of_nat 0) lc.column_pruning_ratio ≡ true
  pub ratio_lt_one : fl.lt lc.column_pruning_ratio (fl.of_nat 1) ≡ true

-- A value in a tool's `data`: what the tools of tools/simulators.py put there.
pub data Datum (F : Type 0) : Type 0 where
  null : Datum F
  flag : Bool → Datum F
  num : F → Datum F
  text : String → Datum F
  texts : List String → Datum F
  layers : List (LayerBitConfig F) → Datum F
  factors : Dict F → Datum F

pub record ToolResult (F : Type 0) : Type 0 where
  pub status : ToolStatus
  pub data_ : Option (Dict (Datum F))
  pub error : Option String

-- A member of a dumped `ToolResult`.
pub data Member (F : Type 0) : Type 0 where
  no_member : Member F
  text_member : String → Member F
  data_member : Dict (Datum F) → Member F

status_text : ToolStatus → String
status_text success = "SUCCESS"
status_text failed = "FAILED"

data_text : {F : Type 0} → Option (Dict (Datum F)) → Member F
data_text none = no_member
data_text (some d) = data_member d

error_text : {F : Type 0} → Option String → Member F
error_text none = no_member
error_text (some e) = text_member e

-- `result.model_dump(mode="json")`
unfoldable pub model_dump : {F : Type 0} → ToolResult F → Dict (Member F)
unfolding status_text data_text error_text
model_dump r =
    ("status", text_member (status_text r.status))
    ∷ ("data", data_text r.data_)
    ∷ ("error", error_text r.error)
    ∷ []
