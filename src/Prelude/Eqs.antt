-- ===== src/Prelude/Eqs.antt =====
-- Equality of keys as an interface, and membership by it.
use Prim.Native.Nat.{ℕ}
use Prim.Native.String.{String}
use mathlib.Core.Path.{◌≡◌, refl}
use mathlib.Core.Logic.{◌↔◌}
use mathlib.Core.Bool.{Bool, true, false, ◌&&◌, ◌||◌, not}
use mathlib.Core.Option.{Option, none, some}
use mathlib.Core.List.{List, [], ◌∷◌, ◌++◌}
use native.Mathlib.Omega.{arith}
use text.Mathlib.Text.{◌==◌ as str_eq}
use text.Mathlib.TextEquality.{eq_iff}
use cinquain.Prelude.Int.{ℤ, leℤ}
use cinquain.Prelude.Lists.{all}
use cinquain.Prelude.Tests.{nat_beq, nat_beq_iff, if◌then◌else◌}

-- `PartialEq` and `Eq` of a Rust type: a test, and that it decides equality.
pub record Eq {ℓ} (Key : Type ℓ) : Type ℓ where
  pub beq : Key → Key → Bool
  pub beq_iff : (j k : Key) → (beq j k ≡ true) ↔ (j ≡ k)

instance abbrev pub nat_eq : Eq ℕ
nat_eq = record { beq = nat_beq; beq_iff = nat_beq_iff }

instance abbrev pub string_eq : Eq String
string_eq = record { beq = str_eq; beq_iff = eq_iff }

infix 50 ◌==◌
abbrev pub ◌==◌ {ℓ} : {Key : Type ℓ} ⦃by_key : Eq Key⦄ → Key → Key → Bool
◌==◌ ⦃by_key⦄ j k = by_key.beq j k

abbrev pub int_beq : ℤ → ℤ → Bool
int_beq a b = leℤ a b && leℤ b a

pub int_beq_iff : (a b : ℤ) → (int_beq a b ≡ true) ↔ (a ≡ b)
int_beq_iff a b = ground arith

instance abbrev pub int_eq : Eq ℤ
int_eq = record { beq = int_beq; beq_iff = int_beq_iff }

abbrev pub option_beq {ℓ} : {A : Type ℓ} ⦃e : Eq A⦄ → Option A → Option A → Bool
option_beq none none = true
option_beq ⦃e⦄ (some a) (some b) = e.beq a b
option_beq _ _ = false

pub option_beq_iff {ℓ} :
    {A : Type ℓ} ⦃e : Eq A⦄ (o p : Option A) → (option_beq o p ≡ true) ↔ (o ≡ p)
option_beq_iff none none = ground arith
option_beq_iff none (some b) = ground arith
option_beq_iff (some a) none = ground arith
option_beq_iff ⦃e⦄ (some a) (some b) = ground (arith, e.beq_iff a b)

instance abbrev pub option_eq {ℓ} : {A : Type ℓ} ⦃e : Eq A⦄ → Eq (Option A)
option_eq ⦃e⦄ = record { beq = option_beq; beq_iff = option_beq_iff }

abbrev pub pair_beq {ℓ} : {A B : Type ℓ} → Eq A → Eq B → A × B → A × B → Bool
pair_beq e f (a, b) (c, d) = e.beq a c && f.beq b d

pub pair_beq_iff {ℓ} :
    {A B : Type ℓ} (e : Eq A) (f : Eq B) (p q : A × B) → (pair_beq e f p q ≡ true) ↔ (p ≡ q)
pair_beq_iff e f (a, b) (c, d) = (
  (λ h. ground (arith, e.beq_iff a c, f.beq_iff b d)),
  (λ h. ground (arith, e.beq_iff a c, f.beq_iff b d)),
)

instance abbrev pub pair_eq {ℓ} : {A B : Type ℓ} ⦃e : Eq A⦄ ⦃f : Eq B⦄ → Eq (A × B)
pair_eq ⦃e⦄ ⦃f⦄ = record { beq = pair_beq e f; beq_iff = pair_beq_iff e f }

module _ {ℓ} {A : Type ℓ} ⦃e : Eq A⦄ where
  pub beq_refl : (a : A) → (a == a) ≡ true
  beq_refl a = (e.beq_iff a a).1 refl

  pub beq-eq : (a b : A) → (a == b) ≡ true → a ≡ b
  beq-eq a b h = (e.beq_iff a b).0 h

  pub beq_sym : (a b : A) → (a == b) ≡ (b == a)
  beq_sym a b = ground (arith, e.beq_iff a b, e.beq_iff b a)

  -- `contains` of slices and sets.
  unfoldable pub contains : List A → A → Bool
  contains [] a = false
  contains (x ∷ xs) a = x == a || contains xs a

  -- `HashSet::insert`, in the order of insertion.
  unfoldable pub insert_new : A → List A → List A
  insert_new a xs = if contains xs a then xs else a ∷ xs

  -- `HashSet::remove`.
  unfoldable pub remove : A → List A → List A
  remove a [] = []
  remove a (x ∷ xs) = let rest = remove a xs in if x == a then rest else x ∷ rest

  pub contains-append :
      (xs ys : List A) (a : A) → contains (xs ++ ys) a ≡ (contains xs a || contains ys a)
  unfolding contains
  contains-append [] ys a = refl
  contains-append (x ∷ xs) ys a = ground (arith, contains-append xs ys a)

  pub contains-insert_new :
      (a b : A) (xs : List A) → contains (insert_new a xs) b ≡ (a == b || contains xs b)
  unfolding contains insert_new
  contains-insert_new a b xs = ground (arith, e.beq_iff a b)

  pub contains-remove :
      (a b : A) (xs : List A) → contains (remove a xs) b ≡ (not (a == b) && contains xs b)
  unfolding contains remove
  contains-remove a b [] = ground arith
  contains-remove a b (x ∷ xs) =
      ground (arith, contains-remove a b xs, e.beq_iff x a, e.beq_iff x b, e.beq_iff a b)

module _ {ℓ} {A : Type ℓ} ⦃e : Eq A⦄ where
  -- No element stands twice.
  unfoldable pub distinct : List A → Bool
  unfolding contains
  distinct [] = true
  distinct (x ∷ xs) = not (contains xs x) && distinct xs

  pub distinct-snoc :
      (xs : List A) (a : A)
      → distinct xs ≡ true
      → contains xs a ≡ false
      → distinct (xs ++ a ∷ []) ≡ true
  unfolding distinct contains
  distinct-snoc [] a h k = refl
  distinct-snoc (x ∷ xs) a h k =
      ground
        (arith, distinct-snoc xs a, contains-append xs (a ∷ []) x, e.beq_iff x a, e.beq_iff a x)

  pub distinct-insert_new :
      (a : A) (xs : List A) → distinct xs ≡ true → distinct (insert_new a xs) ≡ true
  unfolding distinct insert_new
  distinct-insert_new a xs h = ground arith

  pub distinct-remove : (a : A) (xs : List A) → distinct xs ≡ true → distinct (remove a xs) ≡ true
  unfolding distinct remove
  distinct-remove a [] h = refl
  distinct-remove a (x ∷ xs) h = ground (arith, distinct-remove a xs, contains-remove a x xs)

  pub contains-snoc_new :
      (a b : A) (xs : List A)
      → contains (if contains xs a then xs else xs ++ a ∷ []) b ≡ (a == b || contains xs b)
  unfolding contains
  contains-snoc_new a b xs = ground (arith, contains-append xs (a ∷ []) b, e.beq_iff a b)

  -- A `BTreeSet` or `HashSet` collected from a sequence.
  unfoldable pub to_set : List A → List A
  unfolding insert_new
  to_set [] = []
  to_set (x ∷ xs) = insert_new x (to_set xs)

  pub contains-to_set : (xs : List A) (a : A) → contains (to_set xs) a ≡ contains xs a
  unfolding to_set contains
  contains-to_set [] a = refl
  contains-to_set (x ∷ xs) a =
      ground (arith, contains-to_set xs a, contains-insert_new x a (to_set xs))

  pub all_elim :
      (p : A → Bool) (xs : List A) (a : A) → all p xs ≡ true → contains xs a ≡ true → p a ≡ true
  unfolding all contains
  all_elim p [] a h k = cc
  all_elim p (x ∷ xs) a h k = ground (arith, all_elim p xs a, e.beq_iff x a)

  pub all_intro :
      (p : A → Bool) (xs : List A) → ((a : A) → contains xs a ≡ true → p a ≡ true) → all p xs ≡ true
  unfolding all contains
  all_intro p [] h = refl
  all_intro p (x ∷ xs) h =
      ground (arith, h x, beq_refl x, all_intro p xs (λ a k. h a (ground arith)))
