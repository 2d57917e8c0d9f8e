-- ===== src/Core/Bytes.antt =====
-- Byte strings and big endian integers (src/core/utils/bytes.rs, and what `to_be_bytes`,
-- `from_be_bytes`, `starts_with` and `splitn` of the language's library do).
use Prim.Native.Nat.{◌/◌, ◌%◌, ◌^◌}
use cinquain.Prelude.{
  ℕ, zero, suc, ◌+◌, ◌*◌, ◌<◌, ◌≡◌, ◌↔◌, refl, sym, ◌∙◌, Bool, true, false, ◌&&◌, ◌||◌, Option,
  none, some, List, [], ◌∷◌, ◌++◌, Eq, ◌==◌, contains, nat_eq, nat_beq_iff, if◌then◌else◌, ltb,
  length, length-append, arith,
}

abbrev pub Bytes : Type 0
Bytes = List ℕ

unfoldable pub to_be_bytes : ℕ → ℕ → Bytes
to_be_bytes zero n = []
to_be_bytes (suc width) n = to_be_bytes width (n / 256) ++ (n % 256) ∷ []

unfoldable pub from_be_bytes : ℕ → Bytes → ℕ
from_be_bytes high [] = high
from_be_bytes high (b ∷ bytes) = from_be_bytes (high * 256 + b) bytes

from_be_bytes-append :
    (high : ℕ) (bytes : Bytes) (b : ℕ)
    → from_be_bytes high (bytes ++ b ∷ []) ≡ from_be_bytes high bytes * 256 + b
unfolding from_be_bytes
from_be_bytes-append high [] b = refl
from_be_bytes-append high (c ∷ bytes) b = from_be_bytes-append (high * 256 + c) bytes b

pub from_be_bytes-to_be_bytes :
    (width n : ℕ) → n < 256 ^ width → from_be_bytes 0 (to_be_bytes width n) ≡ n
unfolding to_be_bytes from_be_bytes
from_be_bytes-to_be_bytes zero n l = omega arith
from_be_bytes-to_be_bytes (suc width) n l = omega (
  arith,
  from_be_bytes-append 0 (to_be_bytes width (n / 256)) (n % 256),
  from_be_bytes-to_be_bytes width (n / 256) (omega arith),
)

pub length-to_be_bytes : (width n : ℕ) → length (to_be_bytes width n) ≡ width
unfolding to_be_bytes
length-to_be_bytes zero n = refl
length-to_be_bytes (suc width) n = omega (
  arith,
  length-append (to_be_bytes width (n / 256)) ((n % 256) ∷ []),
  length-to_be_bytes width (n / 256),
)

unfoldable pub starts_with : Bytes → Bytes → Bool
starts_with bytes [] = true
starts_with [] (p ∷ prefix) = false
starts_with (b ∷ bytes) (p ∷ prefix) = b == p && starts_with bytes prefix

-- The lexicographic order of the keys of a table.
unfoldable pub comes_before : Bytes → Bytes → Bool
comes_before [] [] = false
comes_before [] (c ∷ key) = true
comes_before (b ∷ bytes) [] = false
comes_before (b ∷ bytes) (c ∷ key) = ltb b c || (b == c && comes_before bytes key)

abbrev pub bytes_beq : Bytes → Bytes → Bool
bytes_beq [] [] = true
bytes_beq (b ∷ bytes) (c ∷ other) = b == c && bytes_beq bytes other
bytes_beq _ _ = false

pub bytes_beq_iff : (a b : Bytes) → (bytes_beq a b ≡ true) ↔ (a ≡ b)
bytes_beq_iff [] [] = ground arith
bytes_beq_iff [] (c ∷ other) = ground arith
bytes_beq_iff (b ∷ bytes) [] = ground arith
bytes_beq_iff (b ∷ bytes) (c ∷ other) = ground (arith, nat_beq_iff b c, bytes_beq_iff bytes other)

instance abbrev pub bytes_eq : Eq Bytes
bytes_eq = record { beq = bytes_beq; beq_iff = bytes_beq_iff }

-- `splitn(2, 0xFF)`: the part before the first separator, and the rest where there is one.
unfoldable pub split_once : Bytes → Bytes × Option Bytes
split_once [] = ([], none)
split_once (b ∷ bytes) =
    let rest = split_once bytes in if b == 255 then ([], some bytes) else (b ∷ rest.0, rest.1)

pub split_once-append :
    (part rest : Bytes)
    → contains part 255 ≡ false
    → split_once (part ++ 255 ∷ rest) ≡ (part, some rest)
unfolding split_once contains
split_once-append [] rest h = refl
split_once-append (b ∷ part) rest h = ground (arith, split_once-append part rest)

-- A part that ends with a separator starts another such only where the parts are equal.
pub starts_with-part :
    (part other rest more : Bytes)
    → contains part 255 ≡ false
    → contains other 255 ≡ false
    → starts_with (part ++ 255 ∷ rest) (other ++ 255 ∷ more)
      ≡ (part == other && starts_with rest more)
unfolding starts_with contains
starts_with-part [] [] rest more h k = refl
starts_with-part [] (c ∷ other) rest more h k = ground (arith, nat_beq_iff c 255, nat_beq_iff 255 c)
starts_with-part (b ∷ part) [] rest more h k = ground (arith, nat_beq_iff b 255)
starts_with-part (b ∷ part) (c ∷ other) rest more h k =
    ground (arith, starts_with-part part other rest more)

-- What starts with another byte than a part does not start with the part, nor the reverse.
pub starts_with-other :
    (part more bytes : Bytes) (b : ℕ)
    → (b == 255) ≡ false
    → starts_with part (b ∷ []) ≡ false
    → starts_with (b ∷ bytes) (part ++ 255 ∷ more) ≡ false
unfolding starts_with
starts_with-other [] more bytes b n h = ground arith
starts_with-other (c ∷ part) more bytes b n h = ground (arith, nat_beq_iff b c, nat_beq_iff c b)

pub other-starts_with :
    (part rest prefix : Bytes) (b : ℕ)
    → (255 == b) ≡ false
    → starts_with part (b ∷ []) ≡ false
    → starts_with (part ++ 255 ∷ rest) (b ∷ prefix) ≡ false
unfolding starts_with
other-starts_with [] rest prefix b n h = ground arith
other-starts_with (c ∷ part) rest prefix b n h = ground arith

-- The order of the bytes of numbers is the order of the numbers.
pub comes_before-append :
    (a b c d : Bytes)
    → length a ≡ length b
    → comes_before (a ++ c) (b ++ d) ≡ (comes_before a b || (a == b && comes_before c d))
unfolding comes_before
comes_before-append [] [] c d l = refl
comes_before-append [] (y ∷ b) c d l = absurd (omega arith)
comes_before-append (x ∷ a) [] c d l = absurd (omega arith)
comes_before-append (x ∷ a) (y ∷ b) c d l =
    ground (arith, comes_before-append a b c d (omega arith), nat_beq_iff x y)

pub to_be_bytes-beq :
    (width a b : ℕ)
    → a < 256 ^ width
    → b < 256 ^ width
    → (to_be_bytes width a == to_be_bytes width b) ≡ (a == b)
to_be_bytes-beq width a b k l = ground (
  arith,
  nat_beq_iff a b,
  bytes_beq_iff (to_be_bytes width a) (to_be_bytes width b),
  from_be_bytes-to_be_bytes width a k,
  from_be_bytes-to_be_bytes width b l,
)

pub comes_before-to_be_bytes :
    (width a b : ℕ)
    → a < 256 ^ width
    → b < 256 ^ width
    → comes_before (to_be_bytes width a) (to_be_bytes width b) ≡ ltb a b
unfolding to_be_bytes comes_before
comes_before-to_be_bytes zero a b k l = ground arith
comes_before-to_be_bytes (suc width) a b k l =
    let below : a / 256 < 256 ^ width = omega arith in
    let under : b / 256 < 256 ^ width = omega arith in
    let lengths = length-to_be_bytes width (a / 256) ∙ sym (length-to_be_bytes width (b / 256)) in
    let last =
      comes_before-append (to_be_bytes width (a / 256)) (to_be_bytes width (b / 256))
        ((a % 256) ∷ []) ((b % 256) ∷ []) lengths in
    last
    ∙ rw
        (
          comes_before-to_be_bytes width (a / 256) (b / 256) below under,
          to_be_bytes-beq width (a / 256) (b / 256) below under,
        )
        (ground (arith, nat_beq_iff (a / 256) (b / 256)))
