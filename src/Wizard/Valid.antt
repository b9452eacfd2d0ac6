-- ===== src/Wizard/Valid.antt =====
-- A specification that is built from answers or loaded from a file meets the schema.
use autocim_agent.Prelude.{
  ℕ, ◌≤◌, ◌<◌, ◌≡◌, refl, subst, String, Bool, true, false, if◌then◌else◌, arith, Option, none,
  some, List, Exc, ok, raise, >>=-eq-ok, ok-injective,
}
use autocim_agent.Prelude.Dict.{Dict, lookup}
use autocim_agent.Prelude.Int.{ℤ, pos, negsuc}
use autocim_agent.Prelude.Float.{Float, zero_f}
use autocim_agent.Schemas.{HwConfig, IsValidHw}
use autocim_agent.Wizard.{
  Value, Coerce, Built, built, refused, required, positive, checked, given, float_over,
  optional_over, over_zero, from_zero, int_field, text_field, topology_of, build, built_or,
  construct_hw, default_hw_config, FileContent, no_file, not_json, json_object, other_json, loaded,
  of_built, read_config, load_hw_config,
}

-- A value that is there passes a test.
abbrev pub Passes : {F : Type 0} → (F → Bool) → Option F → Type 0
Passes test none = Unit
Passes test (some x) = test x ≡ true

module _ {F : Type 0} ⦃fl : Float F⦄ where
  -- The bounds that pydantic enforces on an `HWConfig`, those of its floats included.
  pub record MeetsSchema (hw : HwConfig F) : Type 0 where
    pub whole : IsValidHw hw
    pub bandwidth_pos : fl.lt zero_f hw.noc_link_bandwidth_gbps ≡ true
    pub resistance_nonneg : Passes (λ x. fl.le zero_f x) hw.wire_resistance_ohm_per_um
    pub sigma_nonneg : Passes (λ x. fl.le zero_f x) hw.device_noise_sigma
    pub buffer_pos : Passes (λ x. fl.lt zero_f x) hw.sram_buffer_kb

required-some : {A : Type 0} (o : Option A) (a : A) → required o ≡ ok a → o ≡ some a
required-some none a h = cc h
required-some (some b) a h = cc h

positive_bound : (cap : ℕ) (z : ℤ) (n : ℕ) → positive (some cap) z ≡ some n → (0 < n) × (n ≤ cap)
unfolding positive
positive_bound cap (negsuc k) n h = cc h
positive_bound cap (pos k) n h = ground arith

positive_pos : (z : ℤ) (n : ℕ) → positive none z ≡ some n → 0 < n
unfolding positive
positive_pos (negsuc k) n h = cc h
positive_pos (pos k) n h = ground arith

checked-some :
    {A B : Type 0} (check : A → Option B) (o : Option A) (b : B)
    → checked check o ≡ some b
    → (a : A) × (check a ≡ some b)
checked-some check none b h = cc h
checked-some check (some a) b h = (a, h)

kept_if :
    {F : Type 0} (x y : F) (b : Bool) → (if b then some x else none) ≡ some y → (x ≡ y) × (b ≡ true)
kept_if x y true h = (cc h, refl)
kept_if x y false h = cc h

tested :
    {F : Type 0} (test : F → Bool) (x y : F)
    → (if test x then some x else none) ≡ some y
    → test y ≡ true
tested test x y h =
    let (same, passed) = kept_if x y (test x) h in subst (λ z. test z ≡ true) same passed

optional_cases :
    {F : Type 0} (test : F → Bool) (there : Bool) (read : Option F) (o : Option F)
    → ((x : F) → read ≡ some x → test x ≡ true)
    → (if there then checked (λ (x : F). some (some x)) read else some none) ≡ some o
    → Passes test o
optional_cases test false read none h e = tt
optional_cases test false read (some x) h e = cc e
optional_cases test true none o h e = cc e
optional_cases test true (some y) none h e = cc e
optional_cases test true (some y) (some x) h e = h x (cc e)

built_or-ok :
    {F : Type 0} (fields : List String) (m : Exc (HwConfig F)) (hw : HwConfig F)
    → built_or fields m ≡ built hw
    → m ≡ ok hw
unfolding built_or
built_or-ok fields (raise e) hw h = cc h
built_or-ok fields (ok k) hw h = cc h

module _ {F : Type 0} ⦃fl : Float F⦄ (c : Coerce F) (values : Dict (Value F)) where
  int_field_bound :
      (cap : ℕ) (name : String) (n : ℕ)
      → required (int_field c values (some cap) name) ≡ ok n
      → (0 < n) × (n ≤ cap)
  unfolding int_field
  int_field_bound cap name n h =
      let (z, e) = checked-some (positive (some cap)) _ n (required-some _ n h) in
      positive_bound cap z n e

  int_field_pos : (name : String) (n : ℕ) → required (int_field c values none name) ≡ ok n → 0 < n
  unfolding int_field
  int_field_pos name n h =
      let (z, e) = checked-some (positive none) _ n (required-some _ n h) in positive_pos z n e

  float_over_passes :
      (test : F → Bool) (name : String) (x : F)
      → float_over c values test name ≡ some x
      → test x ≡ true
  unfolding float_over
  float_over_passes test name x h =
      let (y, e) = checked-some (λ (x : F). if test x then some x else none) _ x h in
      tested test y x e

  optional_over-Passes :
      (test : F → Bool) (name : String) (o : Option F)
      → required (optional_over c values test name) ≡ ok o
      → Passes test o
  unfolding optional_over
  optional_over-Passes test name o h =
      optional_cases test (given (lookup name values)) (float_over c values test name) o
        (float_over_passes test name) (required-some _ o h)

  build-MeetsSchema : (hw : HwConfig F) → build c values ≡ ok hw → MeetsSchema hw
  unfolding build
  build-MeetsSchema hw h0 =
      let (i, _, h1) = >>=-eq-ok (required (text_field c values "hw_spec_id")) _ h0 in
      let (rows, r, h2) = >>=-eq-ok (required (int_field c values none "crossbar_rows")) _ h1 in
      let (cols, l, h3) = >>=-eq-ok (required (int_field c values none "crossbar_cols")) _ h2 in
      let (tiles, t, h4) = >>=-eq-ok (required (int_field c values none "num_tiles")) _ h3 in
      let (adc, a, h5) = >>=-eq-ok (required (int_field c values (some 16) "adc_bits")) _ h4 in
      let (dac, d, h6) = >>=-eq-ok (required (int_field c values (some 16) "dac_bits")) _ h5 in
      let (topology, _, h7) =
        >>=-eq-ok (required (checked topology_of (text_field c values "noc_topology"))) _ h6 in
      let (bandwidth, b, h8) =
        >>=-eq-ok (required (float_over c values over_zero "noc_link_bandwidth_gbps")) _ h7 in
      let (resistance, w, h9) =
        >>=-eq-ok (required (optional_over c values from_zero "wire_resistance_ohm_per_um")) _ h8 in
      let (sigma, s, h10) =
        >>=-eq-ok (required (optional_over c values from_zero "device_noise_sigma")) _ h9 in
      let (buffer, k, h11) =
        >>=-eq-ok (required (optional_over c values over_zero "sram_buffer_kb")) _ h10 in
      subst MeetsSchema (ok-injective _ hw h11) (record {
        whole = record {
          rows_pos = int_field_pos "crossbar_rows" rows r;
          cols_pos = int_field_pos "crossbar_cols" cols l;
          tiles_pos = int_field_pos "num_tiles" tiles t;
          adc_pos = (int_field_bound 16 "adc_bits" adc a).0;
          adc_le = (int_field_bound 16 "adc_bits" adc a).1;
          dac_pos = (int_field_bound 16 "dac_bits" dac d).0;
          dac_le = (int_field_bound 16 "dac_bits" dac d).1;
        };
        bandwidth_pos =
            float_over_passes over_zero "noc_link_bandwidth_gbps" bandwidth (required-some _ _ b);
        resistance_nonneg =
            optional_over-Passes from_zero "wire_resistance_ohm_per_um" resistance w;
        sigma_nonneg = optional_over-Passes from_zero "device_noise_sigma" sigma s;
        buffer_pos = optional_over-Passes over_zero "sram_buffer_kb" buffer k;
      })

  pub construct_hw-MeetsSchema :
      (hw : HwConfig F) → construct_hw c values ≡ built hw → MeetsSchema hw
  unfolding construct_hw
  construct_hw-MeetsSchema hw h = build-MeetsSchema hw (built_or-ok _ (build c values) hw h)

module _ {F : Type 0} ⦃fl : Float F⦄ (c : Coerce F) (files : String → FileContent F) where
  of_built-loaded :
      (path : String) (b : Built F) (hw : HwConfig F) → of_built path b ≡ loaded hw → b ≡ built hw
  unfolding of_built
  of_built-loaded path (built k) hw h = cc h
  of_built-loaded path (refused fields) hw h = cc h

  read_config-MeetsSchema :
      (path : String) (content : FileContent F) (hw : HwConfig F)
      → read_config c files path content ≡ ok (loaded hw)
      → MeetsSchema hw
  unfolding read_config
  read_config-MeetsSchema path no_file hw h = cc h
  read_config-MeetsSchema path not_json hw h = cc h
  read_config-MeetsSchema path other_json hw h = cc h
  read_config-MeetsSchema path (json_object values) hw h =
      construct_hw-MeetsSchema c values hw
        (of_built-loaded path (construct_hw c values) hw (ok-injective _ _ h))

  -- Every specification that is loaded meets the schema of `HWConfig`, its floats included, if the
  -- default one does.
  pub load_hw_config-MeetsSchema :
      (path : Option String) (hw : HwConfig F)
      → MeetsSchema {F = F} default_hw_config
      → load_hw_config c files path ≡ ok (loaded hw)
      → MeetsSchema hw
  unfolding load_hw_config
  load_hw_config-MeetsSchema none hw d h =
      let same : default_hw_config ≡ hw = cc h in subst MeetsSchema same d
  load_hw_config-MeetsSchema (some path) hw d h = read_config-MeetsSchema path (files path) hw h
