-- ===== src/Prelude/Order.antt =====
-- Total orders as an interface (Rust's `Ord`), with the orders of numbers and of texts.
use Prim.Native.Nat.{ℕ}
use Prim.Native.Char.{code}
use Prim.Native.String.{String}
use mathlib.Core.Path.{◌≡◌, refl, ap₂}
use mathlib.Core.Bool.{Bool, true, false}
use native.Mathlib.Omega.{arith}
use text.Mathlib.TextEquality.{Char-path}
use cinquain.Prelude.Tests.{leb, ltb, if◌then◌else◌}
use cinquain.Prelude.Int.{ℤ, leℤ, leℤ_antisym, leℤ_total, leℤ_trans}

pub record Ord {ℓ} (A : Type ℓ) : Type ℓ where
  pub le : A → A → Bool
  pub antisym : (a b : A) → le a b ≡ true → le b a ≡ true → a ≡ b
  pub total : (a b : A) → le a b ≡ false → le b a ≡ true
  pub trans : (a b c : A) → le a b ≡ true → le b c ≡ true → le a c ≡ true

pub nat_antisym : (a b : ℕ) → leb a b ≡ true → leb b a ≡ true → a ≡ b
nat_antisym a b h k = ground arith

pub nat_total : (a b : ℕ) → leb a b ≡ false → leb b a ≡ true
nat_total a b h = ground arith

pub nat_trans : (a b c : ℕ) → leb a b ≡ true → leb b c ≡ true → leb a c ≡ true
nat_trans a b c h k = ground arith

instance abbrev pub nat_ord : Ord ℕ
nat_ord = record { le = leb; antisym = nat_antisym; total = nat_total; trans = nat_trans }

instance abbrev pub int_ord : Ord ℤ
int_ord = record { le = leℤ; antisym = leℤ_antisym; total = leℤ_total; trans = leℤ_trans }

-- The order of `str`: by code points, which is the order of the UTF-8 bytes.
unfoldable pub text_le : String → String → Bool
text_le String.[] t = true
text_le (String.◌∷◌ c s) String.[] = false
text_le (String.◌∷◌ c s) (String.◌∷◌ d t) =
    let rest = text_le s t in
    if ltb (code c) (code d) then true else if ltb (code d) (code c) then false else rest

pub text_antisym : (s t : String) → text_le s t ≡ true → text_le t s ≡ true → s ≡ t
unfolding text_le
text_antisym String.[] String.[] h k = refl
text_antisym String.[] (String.◌∷◌ d t) h k = absurd (ground arith)
text_antisym (String.◌∷◌ c s) String.[] h k = absurd (ground arith)
text_antisym (String.◌∷◌ c s) (String.◌∷◌ d t) h k =
    ap₂ String.◌∷◌ (Char-path c d (ground arith)) (text_antisym s t (ground arith) (ground arith))

pub text_total : (s t : String) → text_le s t ≡ false → text_le t s ≡ true
unfolding text_le
text_total String.[] t h = absurd (ground arith)
text_total (String.◌∷◌ c s) String.[] h = refl
text_total (String.◌∷◌ c s) (String.◌∷◌ d t) h = ground (arith, text_total s t)

pub text_trans : (s t u : String) → text_le s t ≡ true → text_le t u ≡ true → text_le s u ≡ true
unfolding text_le
text_trans String.[] t u h k = refl
text_trans (String.◌∷◌ c s) String.[] u h k = absurd (ground arith)
text_trans (String.◌∷◌ c s) (String.◌∷◌ d t) String.[] h k = absurd (ground arith)
text_trans (String.◌∷◌ c s) (String.◌∷◌ d t) (String.◌∷◌ e u) h k = ground (arith, text_trans s t u)

instance abbrev pub text_ord : Ord String
unfolding text_le
text_ord = record { le = text_le; antisym = text_antisym; total = text_total; trans = text_trans }
