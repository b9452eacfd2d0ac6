-- ===== src/Store/Sqlite/Keys.antt =====
-- The joined keys of the two memories' namespaces tell them apart.
use autocim_agent.Prelude.{◌≡◌, sym, ◌∙◌, ap, String, ◌<>◌, str_eq, eq_iff, Bool, true, arith}
use text.Mathlib.TextLemmas.{append_cancel_left, head-eq_of_cons-eq, cons-append}
use Prim.Native.Char.{Char, code}
use autocim_agent.Store.{Namespace, same_namespace, model_namespace, hw_namespace}
use autocim_agent.Store.Laws.{same_namespace_refl, same_namespace_eq}
use autocim_agent.Store.Sqlite.{namespace_key}

-- The namespaces that the two memories use.
pub data Used : Namespace → Type 0 where
  of_model : (id : String) → Used (model_namespace id)
  of_hw : (id : String) → Used (hw_namespace id)

model_key-inj :
    (x y : String) → namespace_key (model_namespace x) ≡ namespace_key (model_namespace y) → x ≡ y
unfolding namespace_key
model_key-inj x y e = append_cancel_left "/" x y (
    append_cancel_left "model" ("/" <> x) ("/" <> y) (
      append_cancel_left "/" ("model" <> ("/" <> x)) ("model" <> ("/" <> y)) (
        append_cancel_left "autocim" ("/" <> ("model" <> ("/" <> x)))
          ("/" <> ("model" <> ("/" <> y))) e)))

hw_key-inj :
    (x y : String) → namespace_key (hw_namespace x) ≡ namespace_key (hw_namespace y) → x ≡ y
unfolding namespace_key
hw_key-inj x y e = append_cancel_left "/" x y (
    append_cancel_left "hw" ("/" <> x) ("/" <> y) (
      append_cancel_left "/" ("hw" <> ("/" <> x)) ("hw" <> ("/" <> y)) (
        append_cancel_left "autocim" ("/" <> ("hw" <> ("/" <> x))) ("/" <> ("hw" <> ("/" <> y)))
          e)))

model-hw-apart :
    (x y : String) → namespace_key (model_namespace x) ≡ namespace_key (hw_namespace y) → ⊥
unfolding namespace_key
model-hw-apart x y e =
    let rest = append_cancel_left "/" ("model" <> ("/" <> x)) ("hw" <> ("/" <> y)) (
      append_cancel_left "autocim" ("/" <> ("model" <> ("/" <> x))) ("/" <> ("hw" <> ("/" <> y)))
        e) in
    let heads : ◌≡◌ {A = Char} "m" "h" =
      head-eq_of_cons-eq
        (sym (cons-append "m" "odel" ("/" <> x)) ∙ (rest ∙ cons-append "h" "w" ("/" <> y))) in
    absurd (omega (arith, ap code heads))

key-inj : (a b : Namespace) → Used a → Used b → namespace_key a ≡ namespace_key b → a ≡ b
key-inj a b (of_model x) (of_model y) e = ap model_namespace (model_key-inj x y e)
key-inj a b (of_hw x) (of_hw y) e = ap hw_namespace (hw_key-inj x y e)
key-inj a b (of_model x) (of_hw y) e = absurd (model-hw-apart x y e)
key-inj a b (of_hw x) (of_model y) e = absurd (model-hw-apart y x (sym e))

bool_ext : (a b : Bool) → (a ≡ true → b ≡ true) → (b ≡ true → a ≡ true) → a ≡ b
bool_ext a b f g = ground (arith, f, g)

pub namespace_key-apart :
    (a b : Namespace)
    → Used a
    → Used b
    → str_eq (namespace_key a) (namespace_key b) ≡ same_namespace a b
namespace_key-apart a b u v =
    bool_ext _ _
      (λ e.
        ap (λ n. same_namespace a n) (sym (key-inj a b u v ((eq_iff _ _).0 e)))
        ∙ same_namespace_refl a)
      (λ e. (eq_iff _ _).1 (ap namespace_key (same_namespace_eq a b e)))
