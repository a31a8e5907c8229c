-- ===== src/Prelude/Results.antt =====
-- What throws: a value, or an error of a type of the component's own. `m >>= f` goes on with the
-- value.
use mathlib.Core.Path.{◌≡◌, refl, ap, Path}
use mathlib.Core.Option.{Option, none, some}

pub data Result {ℓ} (E : Type 0) (A : Type ℓ) : Type ℓ where
  err : E → Result E A
  ok : A → Result E A

module _ {ℓ} {E : Type 0} {A : Type ℓ} where
  -- The value of `o`, or else the error.
  abbrev pub or_raise : Option A → E → Result E A
  or_raise (some a) e = ok a
  or_raise none e = err e

module _ {ℓ κ} {E : Type 0} {A : Type ℓ} {B : Type κ} where
  infixl 5 ◌>>=◌
  abbrev pub ◌>>=◌ : Result E A → (A → Result E B) → Result E B
  err e >>= f = err e
  ok a >>= f = f a

module _ {κ} {E : Type 0} {B : Type κ} where
  -- A check that throws or does nothing, and then the rest.
  infixl 5 ◌>>◌
  abbrev pub ◌>>◌ : Result E (Unit {0}) → Result E B → Result E B
  err e >> n = err e
  ok _ >> n = n

pub ok-injective {ℓ} : {E : Type 0} {A : Type ℓ} (x y : A) → Path (Result E A) (ok x) (ok y) → x ≡ y
ok-injective x y h = ap (λ r. elim r [ err _ ↦ x | ok z ↦ z ]) h

pub or_raise-ok {ℓ} :
    {E : Type 0} {A : Type ℓ} (o : Option A) (e : E) (x : A) → or_raise o e ≡ ok x → o ≡ some x
or_raise-ok none e x h = cc
or_raise-ok (some y) e x h = ap some (ok-injective y x h)

-- A computation with a step that gives a value has a step that gives one.
pub Result-bind {ℓ κ} :
    {E : Type 0} {A : Type ℓ} {B : Type κ} (m : Result E A) (f : A → Result E B) (b : B)
    → (m >>= f) ≡ ok b
    → (a : A) × (m ≡ ok a) × (f a ≡ ok b)
Result-bind (err e) f b h = cc
Result-bind (ok a) f b h = (a, refl, h)
