-- ===== src/Prelude/Exceptions.antt =====
-- Python code that may raise: a value, or the exception's text.
use mathlib.Core.Path.{◌≡◌, refl}
use Prim.Native.String.{String}

pub data Exc {ℓ} (A : Type ℓ) : Type ℓ where
  raise : (exception : String) → Exc A
  ok : (value : A) → Exc A

-- The rest of a block runs on the value; an exception ends the block.
infixl 5 ◌>>=◌
abbrev pub ◌>>=◌ {ℓ κ} : {V : Type ℓ} {W : Type κ} (block : Exc V) (rest : V → Exc W) → Exc W
raise exception >>= rest = raise exception
ok value >>= rest = rest value

-- A block that returns has run its first part to a value, and its rest on that.
pub >>=-eq-ok {ℓ κ} :
    {V : Type ℓ} {W : Type κ} (block : Exc V) (rest : V → Exc W) {result : W}
    → (block >>= rest) ≡ ok result
    → (value : V) × (block ≡ ok value) × (rest value ≡ ok result)
>>=-eq-ok (raise exception) rest h = cc
>>=-eq-ok (ok value) rest h = (value, refl, h)

pub ok-injective {ℓ} : {A : Type ℓ} (a b : A) → ok a ≡ ok b → a ≡ b
ok-injective a b h = cc

-- The code returns a value, and does not raise.
abbrev pub Returns {ℓ} : {A : Type ℓ} → Exc A → Type ℓ
Returns {A} m = (a : A) × (m ≡ ok a)

pub bind-Returns {ℓ κ} :
    {A : Type ℓ} {B : Type κ} (m : Exc A) (f : A → Exc B) (a : A)
    → m ≡ ok a
    → Returns (f a)
    → Returns (m >>= f)
bind-Returns (ok b) f a e (c, r) = (c, rw (ok-injective b a e) r)
bind-Returns (raise x) f a e r = cc
