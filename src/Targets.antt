-- ===== src/Targets.antt =====
-- tools/targets.py
pub mod Laws
use autocim_agent.Prelude.{
  String, ◌<>◌, Bool, true, false, Option, none, some, List, [], ◌∷◌, ◌++◌, if◌then◌else◌,
}
use autocim_agent.Prelude.Float.{Float}

module _ {F : Type 0} ⦃fl : Float F⦄ where
  -- `str(x)` of an optional number
  abbrev pub show_option : Option F → String
  show_option none = "None"
  show_option (some x) = fl.show x

  -- `target is not None and (value is None or value < target)`
  unfoldable pub misses_floor : Option F → Option F → Bool
  misses_floor value none = false
  misses_floor none (some target) = true
  misses_floor (some value) (some target) = fl.lt value target

  -- `target is not None and (value is None or value > target)`
  unfoldable pub misses_ceiling : Option F → Option F → Bool
  misses_ceiling value none = false
  misses_ceiling none (some target) = true
  misses_ceiling (some value) (some target) = fl.lt target value

  unfoldable pub check_targets :
      Option F → Option F → Option F → Option F → Option F → Option F → List String
  unfolding misses_floor misses_ceiling
  check_targets accuracy energy latency target_accuracy target_energy target_latency =
      (if misses_floor accuracy target_accuracy
        then ("accuracy "
            <> (show_option accuracy <> (" below target " <> show_option target_accuracy)))
          ∷ []
        else [])
      ++ ((if misses_ceiling energy target_energy
            then ("energy_pj "
                <> (show_option energy <> (" above target " <> show_option target_energy)))
              ∷ []
            else [])
          ++ (if misses_ceiling latency target_latency
              then ("noc_latency_ms "
                  <> (show_option latency <> (" above target " <> show_option target_latency)))
                ∷ []
              else []))
