-- ===== src/Targets/Laws.antt =====
-- When tools/targets.py reports no reason.
use autocim_agent.Prelude.{◌≡◌, ◌↔◌, false, Option, none, some, [], arith}
use autocim_agent.Prelude.Float.{Float}
use autocim_agent.Targets.{check_targets}

module _ {F : Type 0} ⦃fl : Float F⦄ where
  -- A target that is set is met by a value that is there and not below it.
  abbrev pub MeetsFloor : Option F → Option F → Type 0
  MeetsFloor value none = Unit
  MeetsFloor none (some target) = ⊥
  MeetsFloor (some value) (some target) = fl.lt value target ≡ false

  -- A target that is set is met by a value that is there and not above it.
  abbrev pub MeetsCeiling : Option F → Option F → Type 0
  MeetsCeiling value none = Unit
  MeetsCeiling none (some target) = ⊥
  MeetsCeiling (some value) (some target) = fl.lt target value ≡ false

  -- `check_targets` gives no reason exactly when every configured target is met by a value that is
  -- present: accuracy from below, energy and latency from above.
  pub check_targets-eq-nil :
      (a e l ta te tl : Option F)
      → (check_targets a e l ta te tl ≡ [])
        ↔ (MeetsFloor a ta × MeetsCeiling e te × MeetsCeiling l tl)
  unfolding check_targets
  check_targets-eq-nil a e l ta te tl = ground arith
