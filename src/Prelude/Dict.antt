-- ===== src/Prelude/Dict.antt =====
-- Python dicts with string keys, in insertion order.
use Prim.Native.String.{String}
use mathlib.Core.Path.{◌≡◌, refl}
use mathlib.Core.Option.{Option, none, some}
use mathlib.Core.List.{List, [], ◌∷◌}
use native.Mathlib.Omega.{arith}
use text.Mathlib.Text.{◌==◌ as str_eq}
use text.Mathlib.TextEquality.{eq_iff}
use autocim_agent.Prelude.Tests.{if◌then◌else◌}

abbrev pub Dict {ℓ} : Type ℓ → Type ℓ
Dict V = List (String × V)

-- The value on the right where there is one, and else the one on the left.
abbrev pub later {ℓ} : {V : Type ℓ} → Option V → Option V → Option V
later old none = old
later old (some v) = some v

module _ {ℓ} {V : Type ℓ} where
  -- `d.get(k)`
  unfoldable pub lookup : String → Dict V → Option V
  lookup k [] = none
  lookup k ((j, v) ∷ d) = if str_eq j k then some v else lookup k d

  -- `d[k] = v`
  unfoldable pub insert : String → V → Dict V → Dict V
  insert k v [] = (k, v) ∷ []
  insert k v ((j, w) ∷ d) = if str_eq j k then (j, v) ∷ d else (j, w) ∷ insert k v d

  -- `d.update(e)`
  unfoldable pub update : Dict V → Dict V → Dict V
  update d [] = d
  update d ((k, v) ∷ e) = update (insert k v d) e

  -- What every Python dict satisfies: no key stands twice.
  abbrev pub NodupKeys : Dict V → Type ℓ
  NodupKeys [] = Unit
  NodupKeys ((k, v) ∷ d) = (lookup k d ≡ none) × NodupKeys d

  pub lookup-nil : (k : String) → lookup k [] ≡ none
  unfolding lookup
  lookup-nil k = refl

  pub lookup-cons :
      (k j : String) (v : V) (d : Dict V)
      → lookup j ((k, v) ∷ d) ≡ (if str_eq k j then some v else lookup j d)
  unfolding lookup
  lookup-cons k j v d = refl

  pub lookup-insert :
      (k j : String) (v : V) (d : Dict V)
      → lookup j (insert k v d) ≡ (if str_eq k j then some v else lookup j d)
  unfolding lookup insert
  lookup-insert k j v [] = refl
  lookup-insert k j v ((i, w) ∷ d) =
      ground (arith, eq_iff k j, eq_iff i k, eq_iff i j, lookup-insert k j v d)

  pub lookup-update :
      (d e : Dict V) (j : String)
      → NodupKeys e
      → lookup j (update d e) ≡ later (lookup j d) (lookup j e)
  unfolding update
  lookup-update d [] j u = ground (arith, lookup-nil j)
  lookup-update d ((k, v) ∷ e) j u = ground (
    arith,
    lookup-cons k j v e,
    lookup-insert k j v d,
    lookup-update (insert k v d) e j u.1,
    eq_iff k j,
  )

  pub insert-NodupKeys : (k : String) (v : V) (d : Dict V) → NodupKeys d → NodupKeys (insert k v d)
  unfolding insert
  insert-NodupKeys k v [] u = (lookup-nil k, tt)
  insert-NodupKeys k v ((j, w) ∷ d) u =
      ground (arith, insert-NodupKeys k v d u.1, lookup-insert k j v d, eq_iff j k, eq_iff k j)

  pub update-NodupKeys : (d e : Dict V) → NodupKeys d → NodupKeys (update d e)
  unfolding update
  update-NodupKeys d [] u = u
  update-NodupKeys d ((k, v) ∷ e) u = update-NodupKeys (insert k v d) e (insert-NodupKeys k v d u)
