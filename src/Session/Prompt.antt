-- ===== src/Session/Prompt.antt =====
-- main.py: the questions that a paused run puts to the researcher, and the rule that answers them
-- when nobody is there. A dialogue reads its lines from a list; the end of the list stands for the
-- end of the input, or for Ctrl-C.
pub mod Offered
use autocim_agent.Prelude.{
  ℕ, ◌+◌, String, str_eq, Bool, ◌||◌, Option, none, some, List, [], ◌∷◌, leb, Exc, ok, ◌>>=◌,
  if◌then◌else◌,
}
use autocim_agent.Prelude.Dict.{Dict}
use autocim_agent.Prelude.Float.{Float}
use autocim_agent.State.{CimState, Override}
use autocim_agent.Middleware.{Registry}
use autocim_agent.Session.{TextOps, suggest_override_bounds}

-- What `json.loads` makes of a text.
pub data Json (F : Type 0) : Type 0 where
  not_json : Json F
  not_object : Json F
  object : Dict (Override F) → Json F

-- `str.strip`, `str.lower` and `json.loads`.
pub record Console (F : Type 0) : Type 0 where
  pub strip : String → String
  pub lower : String → String
  pub loads : String → Json F

-- `raw.lower() in _BACK_COMMANDS`
abbrev pub is_back : String → Bool
is_back lowered = str_eq lowered "b" || (str_eq lowered "back" || str_eq lowered "뒤로")

-- What a line at the prompt for bounds leads to: another try, the menu, or bounds.
pub data Manual (F : Type 0) : Type 0 where
  retry : Manual F
  to_menu : Manual F
  entered : Dict (Override F) → Manual F

-- What a line at the menu leads to: the menu again, the prompt for bounds, a resume with bounds, or
-- the end of the run.
pub data Choice (F : Type 0) : Type 0 where
  invalid : Choice F
  ask_manual : Choice F
  use_bounds : Dict (Override F) → Choice F
  stop : Choice F

-- How a dialogue ends, with the lines that are left.
pub data Reply (F : Type 0) : Type 0 where
  new_bounds : Dict (Override F) → List String → Reply F
  no_override : List String → Reply F
  no_input : Reply F

pub data Screen : Type 0 where
  menu manual : Screen

module _ {F : Type 0} (console : Console F) where
  of_json : Json F → Manual F
  of_json not_json = retry
  of_json not_object = retry
  of_json (object bounds) = entered bounds

  -- The body of the loop of `_prompt_manual_override`, on a stripped line.
  unfoldable pub read_manual : String → Manual F
  unfolding of_json
  read_manual raw =
      if is_back (console.lower raw)
      then to_menu
      else if str_eq raw ""
      then entered []
      else of_json (console.loads raw)

  suggested : Option (Dict (Override F)) → Choice F
  suggested none = invalid
  suggested (some bounds) = use_bounds bounds

  -- The body of the loop of `prompt_for_override`, on a stripped line.
  unfoldable pub read_choice : Option (Dict (Override F)) → String → Choice F
  unfolding suggested
  read_choice suggestion choice =
      if str_eq choice "1"
      then suggested suggestion
      else if str_eq choice "2"
      then ask_manual
      else if str_eq choice "3"
      then stop
      else invalid

-- How the loops go on after a line, given the rest of the dialogue from each of the two prompts.
abbrev pub after_choice : {F : Type 0} → (Screen → Reply F) → List String → Choice F → Reply F
after_choice rest lines invalid = rest menu
after_choice rest lines ask_manual = rest manual
after_choice rest lines (use_bounds bounds) = new_bounds bounds lines
after_choice rest lines stop = no_override lines

abbrev pub after_manual : {F : Type 0} → (Screen → Reply F) → List String → Manual F → Reply F
after_manual rest lines retry = rest manual
after_manual rest lines to_menu = rest menu
after_manual rest lines (entered bounds) = new_bounds bounds lines

module _ {F : Type 0} (console : Console F) where
  -- The two loops, the second inside the first, over the lines that are typed.
  unfoldable pub prompt_for_override : Option (Dict (Override F)) → Screen → List String → Reply F
  prompt_for_override suggestion screen [] = no_input
  prompt_for_override suggestion menu (line ∷ lines) =
      after_choice (λ screen. prompt_for_override suggestion screen lines) lines
        (read_choice console suggestion (console.strip line))
  prompt_for_override suggestion manual (line ∷ lines) =
      after_manual (λ screen. prompt_for_override suggestion screen lines) lines
        (read_manual console (console.strip line))

-- What `resolve_override` keeps between two interrupts, with the lines still to come.
pub record Desk : Type 0 where
  pub auto_hitl : Bool
  pub auto_hitl_max_rounds : ℕ
  pub auto_hitl_rounds_used : ℕ
  pub dashboard_out : Option String
  pub lines : List String

-- An override to resume with, the decision to stop, or no input.
pub data Resolution (F : Type 0) : Type 0 where
  resume_with : Dict (Override F) → Resolution F
  declined : Resolution F
  unheard : Resolution F

-- A run that is stopped by choice gets a report even if none was asked for.
abbrev pub or_default : String → Option String → Option String
or_default path none = some path
or_default path (some out) = some out

module _ {F : Type 0} where
  -- What the researcher's reply does to the desk.
  unfoldable pub heard : String → Desk → Reply F → Resolution F × Desk
  heard report_path desk (new_bounds bounds lines) =
      (resume_with bounds, record desk { lines = lines })
  heard report_path desk (no_override lines) = (
    declined,
    record desk { dashboard_out = or_default report_path desk.dashboard_out; lines = lines },
  )
  heard report_path desk no_input = (unheard, record desk { lines = [] })

  -- A suggestion taken without asking uses up a round.
  unfoldable pub auto_resolve_override : Desk → Option (Dict (Override F)) → Resolution F × Desk
  auto_resolve_override desk none = (declined, desk)
  auto_resolve_override desk (some bounds) =
      (resume_with bounds, record desk { auto_hitl_rounds_used = desk.auto_hitl_rounds_used + 1 })

module _ {F : Type 0} ⦃fl : Float F⦄ (console : Console F) (ops : TextOps) (registry : Registry F)
    (report_path : String) where
  -- `resolve_override`; `report_path` is where the report of a stopped run goes by default.
  unfoldable pub resolve_override : CimState F → Desk → Exc (Resolution F × Desk)
  unfolding heard auto_resolve_override
  resolve_override s desk =
      let suggestion = suggest_override_bounds ops registry s in
      if desk.auto_hitl
      then (if leb desk.auto_hitl_max_rounds desk.auto_hitl_rounds_used
          then ok (declined, desk)
          else (suggestion >>= (λ bounds. ok (auto_resolve_override desk bounds))))
      else (suggestion >>= (λ bounds.
          ok (heard report_path desk (prompt_for_override console bounds menu desk.lines))))
