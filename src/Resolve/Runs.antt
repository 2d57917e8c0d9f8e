-- ===== src/Resolve/Runs.antt =====
-- The outcome of code with `while` loops: a value, an error, or not enough fuel for a loop.
use mathlib.Core.Path.{◌≡◌, refl}
use cinquain.Matrix.{Error, Result, ok, err}

pub data Run {ℓ} (A : Type ℓ) : Type ℓ where
  done : A → Run A
  failed : Error → Run A
  out_of_fuel : Run A

infixl 5 ◌>>=◌
abbrev pub ◌>>=◌ {ℓ κ} : {A : Type ℓ} {B : Type κ} → Run A → (A → Run B) → Run B
done a >>= f = f a
failed e >>= f = failed e
out_of_fuel >>= f = out_of_fuel

abbrev pub lift {ℓ} : {A : Type ℓ} → Result A → Run A
lift (ok a) = done a
lift (err e) = failed e

pub >>=-eq-done {ℓ κ} :
    {A : Type ℓ} {B : Type κ} (m : Run A) (f : A → Run B) {b : B}
    → (m >>= f) ≡ done b
    → (a : A) × (m ≡ done a) × (f a ≡ done b)
>>=-eq-done (done a) f h = (a, refl, h)
>>=-eq-done (failed e) f h = cc
>>=-eq-done out_of_fuel f h = cc

pub lift-eq-done {ℓ} : {A : Type ℓ} (r : Result A) (a : A) → lift r ≡ done a → r ≡ ok a
lift-eq-done (ok b) a h = cc
lift-eq-done (err e) a h = cc

pub done-injective {ℓ} : {A : Type ℓ} {a b : A} → done a ≡ done b → a ≡ b
done-injective h = cc
