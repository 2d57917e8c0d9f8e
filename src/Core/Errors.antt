-- ===== src/Core/Errors.antt =====
-- Errors of the crate `core` (src/core/error/mod.rs), by the variants that the modelled code
-- returns; their messages are left out. `panicked` stands for a failed `expect` or a `panic!`, `unhandled`
-- for the macro of that name (src/database/util.rs).
use mathlib.Core.Path.{◌≡◌, refl}
use mathlib.Core.Logic.{◌⊎◌, inl, inr}
use mathlib.Core.Option.{Option, none, some}

pub data Fault : Type 0 where
  arithmetic database bad_database serde_de serde_ser utf8 not_found forbidden invite_blocked
        unhandled panicked :
      Fault

pub data Try {ℓ} (A : Type ℓ) : Type ℓ where
  good : A → Try A
  fault : Fault → Try A

infixl 5 ◌>>=◌
abbrev pub ◌>>=◌ {ℓ κ} : {A : Type ℓ} {B : Type κ} → Try A → (A → Try B) → Try B
good a >>= f = f a
fault x >>= f = fault x

abbrev pub good_or {ℓ} : {A : Type ℓ} → Fault → Option A → Try A
good_or x none = fault x
good_or x (some a) = good a

-- Inversion of a chain that ends well.
pub >>=-eq-good {ℓ κ} :
    {Value : Type ℓ} {Next : Type κ} (first : Try Value) (rest : Value → Try Next) {last : Next}
    → (first >>= rest) ≡ good last
    → (value : Value) × (first ≡ good value) × (rest value ≡ good last)
>>=-eq-good (good value) rest e = (value, refl, e)
>>=-eq-good (fault x) rest e = cc

pub Try-cases {ℓ} :
    {Value : Type ℓ} (t : Try Value) → ((v : Value) × (t ≡ good v)) ⊎ ((x : Fault) × (t ≡ fault x))
Try-cases (good v) = inl (v, refl)
Try-cases (fault x) = inr (x, refl)

pub good-injective {ℓ} : {A : Type ℓ} {a b : A} → good a ≡ good b → a ≡ b
good-injective h = cc
