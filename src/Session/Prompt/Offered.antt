-- ===== src/Session/Prompt/Offered.antt =====
-- What a dialogue resumes a run with has been offered or typed, and every dialogue uses up a line or
-- a round.
use autocim_agent.Prelude.{
  ℕ, ◌-◌, ◌≤◌, ◌<◌, ◌≡◌, ◌⊎◌, inl, inr, refl, subst, String, Bool, true, false, Option, none, some,
  List, [], ◌∷◌, length, leb, arith, if◌then◌else◌, Exc, ok, ◌>>=◌, >>=-eq-ok, ok-injective,
}
use autocim_agent.Prelude.Dict.{Dict}
use autocim_agent.Prelude.Float.{Float}
use autocim_agent.State.{CimState, Override}
use autocim_agent.Middleware.{Registry}
use autocim_agent.Session.{TextOps, suggest_override_bounds}
use autocim_agent.Session.Prompt.{
  Console, Json, object, not_json, not_object, Manual, retry, to_menu, entered, Choice, invalid,
  ask_manual, use_bounds, stop, Reply, new_bounds, no_override, no_input, Screen, menu, manual,
  read_manual, of_json, suggested, after_choice, after_manual, read_choice, prompt_for_override,
  Desk, Resolution, resume_with, declined, unheard, heard, auto_resolve_override, resolve_override,
}

module _ {F : Type 0} (console : Console F) where
  -- One of the lines holds these bounds.
  abbrev pub TypedIn : Dict (Override F) → List String → Type 0
  TypedIn bounds [] = ⊥
  TypedIn bounds (line ∷ lines) =
      (console.loads (console.strip line) ≡ object bounds) ⊎ TypedIn bounds lines

  -- The bounds are the suggested ones, or empty, or those of a line.
  abbrev pub Offered : Option (Dict (Override F)) → Dict (Override F) → List String → Type 0
  Offered suggestion bounds lines =
      (suggestion ≡ some bounds) ⊎ (bounds ≡ []) ⊎ TypedIn bounds lines

  abbrev pub OfferedBy : Option (Dict (Override F)) → List String → Reply F → Type 0
  OfferedBy suggestion lines (new_bounds bounds rest) =
      Offered suggestion bounds lines × (length rest < length lines)
  OfferedBy suggestion lines (no_override rest) = length rest < length lines
  OfferedBy suggestion lines no_input = Unit

  more_lines :
      (suggestion : Option (Dict (Override F))) (line : String) (lines : List String)
      (reply : Reply F)
      → OfferedBy suggestion lines reply
      → OfferedBy suggestion (line ∷ lines) reply
  more_lines suggestion line lines (new_bounds bounds rest) (inl e, l) = (inl e, omega (arith, l))
  more_lines suggestion line lines (new_bounds bounds rest) (inr (inl e), l) =
      (inr (inl e), omega (arith, l))
  more_lines suggestion line lines (new_bounds bounds rest) (inr (inr t), l) =
      (inr (inr (inr t)), omega (arith, l))
  more_lines suggestion line lines (no_override rest) l = omega (arith, l)
  more_lines suggestion line lines no_input l = tt

  of_json-typed :
      (json : Json F) (bounds : Dict (Override F))
      → of_json console json ≡ entered bounds
      → json ≡ object bounds
  unfolding of_json
  of_json-typed not_json bounds h = cc h
  of_json-typed not_object bounds h = cc h
  of_json-typed (object b) bounds h = cc h

  read_manual-typed :
      (raw : String) (bounds : Dict (Override F))
      → read_manual console raw ≡ entered bounds
      → (bounds ≡ []) ⊎ (console.loads raw ≡ object bounds)
  unfolding read_manual
  read_manual-typed raw bounds h = ground (arith, of_json-typed (console.loads raw) bounds)

  read_choice-suggested :
      (suggestion : Option (Dict (Override F))) (raw : String) (bounds : Dict (Override F))
      → read_choice console suggestion raw ≡ use_bounds bounds
      → suggestion ≡ some bounds
  unfolding read_choice suggested
  read_choice-suggested none raw bounds h = ground arith
  read_choice-suggested (some b) raw bounds h = ground arith

  typed_or_blank :
      (suggestion : Option (Dict (Override F))) (line : String) (lines : List String)
      (bounds : Dict (Override F))
      → (bounds ≡ []) ⊎ (console.loads (console.strip line) ≡ object bounds)
      → Offered suggestion bounds (line ∷ lines)
  typed_or_blank suggestion line lines bounds (inl e) = inr (inl e)
  typed_or_blank suggestion line lines bounds (inr e) = inr (inr (inl e))

  module _ (suggestion : Option (Dict (Override F))) (line : String) (lines : List String)
      (rest : Screen → Reply F)
      (ih : (screen : Screen) → OfferedBy suggestion lines (rest screen)) where
    after_choice-Offered :
        (choice : Choice F)
        → ((bounds : Dict (Override F)) → choice ≡ use_bounds bounds → suggestion ≡ some bounds)
        → OfferedBy suggestion (line ∷ lines) (after_choice rest lines choice)
    after_choice-Offered invalid h = more_lines suggestion line lines (rest menu) (ih menu)
    after_choice-Offered ask_manual h = more_lines suggestion line lines (rest manual) (ih manual)
    after_choice-Offered (use_bounds bounds) h = (inl (h bounds refl), omega arith)
    after_choice-Offered stop h = omega arith

    after_manual-Offered :
        (answer : Manual F)
        → ((bounds : Dict (Override F))
            → answer ≡ entered bounds
            → (bounds ≡ []) ⊎ (console.loads (console.strip line) ≡ object bounds))
        → OfferedBy suggestion (line ∷ lines) (after_manual rest lines answer)
    after_manual-Offered retry h = more_lines suggestion line lines (rest manual) (ih manual)
    after_manual-Offered to_menu h = more_lines suggestion line lines (rest menu) (ih menu)
    after_manual-Offered (entered bounds) h =
        (typed_or_blank suggestion line lines bounds (h bounds refl), omega arith)

  -- Over any lines: a dialogue that ends with bounds to resume with has read at least a line, and the
  -- bounds are those it suggested, empty, or the ones that a line read as JSON stands for; and it
  -- never has more lines left than it was given.
  pub prompt_for_override-Offered :
      (suggestion : Option (Dict (Override F))) (screen : Screen) (lines : List String)
      → OfferedBy suggestion lines (prompt_for_override console suggestion screen lines)
  unfolding prompt_for_override
  prompt_for_override-Offered suggestion screen [] = tt
  prompt_for_override-Offered suggestion menu (line ∷ lines) =
      after_choice-Offered suggestion line lines
        (λ screen. prompt_for_override console suggestion screen lines)
        (λ screen. prompt_for_override-Offered suggestion screen lines)
        (read_choice console suggestion (console.strip line))
        (read_choice-suggested suggestion (console.strip line))
  prompt_for_override-Offered suggestion manual (line ∷ lines) =
      after_manual-Offered suggestion line lines
        (λ screen. prompt_for_override console suggestion screen lines)
        (λ screen. prompt_for_override-Offered suggestion screen lines)
        (read_manual console (console.strip line)) (read_manual-typed (console.strip line))

-- The rounds or the lines that are left: what bounds the number of resumes.
abbrev pub patience : Desk → ℕ
patience desk =
    if desk.auto_hitl
    then desk.auto_hitl_max_rounds - desk.auto_hitl_rounds_used
    else length desk.lines

abbrev pub SameRounds : Desk → Desk → Type 0
SameRounds desk after =
    (after.auto_hitl_max_rounds ≡ desk.auto_hitl_max_rounds)
    × (after.auto_hitl_rounds_used ≡ desk.auto_hitl_rounds_used)

-- What a resolution leaves: the cap, no more rounds than it allows, and, if the run is to resume, less
-- patience.
abbrev pub Spent : {F : Type 0} → Desk → Resolution F × Desk → Type 0
Spent desk (resume_with bounds, after) =
    (patience after < patience desk)
    × (after.auto_hitl_max_rounds ≡ desk.auto_hitl_max_rounds)
    × (desk.auto_hitl_rounds_used ≤ desk.auto_hitl_max_rounds
        → after.auto_hitl_rounds_used ≤ desk.auto_hitl_max_rounds)
Spent desk (declined, after) = SameRounds desk after
Spent desk (unheard, after) = SameRounds desk after

-- The three ways through `resolve_override`.
branches :
    {A : Type 0} (P : A → Type 0) (auto_hitl capped : Bool) (at_cap by_rule by_hand : Exc A)
    (out : A)
    → (auto_hitl ≡ true → capped ≡ true → at_cap ≡ ok out → P out)
    → (auto_hitl ≡ true → capped ≡ false → by_rule ≡ ok out → P out)
    → (auto_hitl ≡ false → by_hand ≡ ok out → P out)
    → (if auto_hitl then (if capped then at_cap else by_rule) else by_hand) ≡ ok out
    → P out
branches P true true at_cap by_rule by_hand out f g k h = f refl refl h
branches P true false at_cap by_rule by_hand out f g k h = g refl refl h
branches P false capped at_cap by_rule by_hand out f g k h = k refl h

module _ {F : Type 0} where
  auto-Spent :
      (desk : Desk) (suggestion : Option (Dict (Override F)))
      → desk.auto_hitl ≡ true
      → leb desk.auto_hitl_max_rounds desk.auto_hitl_rounds_used ≡ false
      → Spent desk (auto_resolve_override desk suggestion)
  unfolding auto_resolve_override
  auto-Spent desk none a l = (refl, refl)
  auto-Spent desk (some bounds) a l = ground arith

  heard-Spent :
      (console : Console F) (report_path : String) (desk : Desk)
      (suggestion : Option (Dict (Override F))) (reply : Reply F)
      → desk.auto_hitl ≡ false
      → OfferedBy console suggestion desk.lines reply
      → Spent desk (heard report_path desk reply)
  unfolding heard
  heard-Spent console report_path desk suggestion (new_bounds bounds rest) a (o, l) = ground arith
  heard-Spent console report_path desk suggestion (no_override rest) a l = (refl, refl)
  heard-Spent console report_path desk suggestion no_input a l = (refl, refl)

module _ {F : Type 0} ⦃fl : Float F⦄ (console : Console F) (ops : TextOps) (registry : Registry F)
    (report_path : String) where
  pub resolve_override-Spent :
      (s : CimState F) (desk : Desk) (out : Resolution F × Desk)
      → resolve_override console ops registry report_path s desk ≡ ok out
      → Spent desk out
  unfolding resolve_override
  resolve_override-Spent s desk out =
      let suggestion = suggest_override_bounds ops registry s in
      branches (Spent desk) desk.auto_hitl
        (leb desk.auto_hitl_max_rounds desk.auto_hitl_rounds_used) (ok (declined, desk))
        (suggestion >>= (λ bounds. ok (auto_resolve_override desk bounds)))
        (suggestion >>= (λ bounds.
          ok (heard report_path desk (prompt_for_override console bounds menu desk.lines))))
        out (λ a l e. subst (Spent desk) (ok-injective _ _ e) (refl, refl))
        (λ a l e.
          let (bounds, _, e') = >>=-eq-ok suggestion _ e in
          subst (Spent desk) (ok-injective _ _ e') (auto-Spent desk bounds a l))
        (λ a e.
          let (bounds, _, e') = >>=-eq-ok suggestion _ e in
          subst (Spent desk) (ok-injective _ _ e') (
            heard-Spent console report_path desk bounds _ a
              (prompt_for_override-Offered console bounds menu desk.lines)))
