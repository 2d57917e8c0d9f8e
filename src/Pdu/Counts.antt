-- ===== src/Pdu/Counts.antt =====
-- `Count` of src/core/matrix/pdu/count.rs. An `i64` is an integer from `signed_min` to `signed_max`;
-- the assertions of debug builds are left out.
use mathlib.Core.Path.{subst}
use Prim.Native.Nat.{min}
use cinquain.Prelude.{
  ℕ, zero, suc, ◌+◌, ◌-◌, ◌<◌, ◌≡◌, refl, sym, Bool, true, ◌&&◌, ℤ, pos, negsuc, pos_part, neg_part,
  leℤ, ltℤ, leb, ltb, if◌then◌else◌, arith,
}
use cinquain.Core.Errors.{Try, good, fault, arithmetic, ◌>>=◌}
use cinquain.Core.Words.{u64_end, checked}

pub data Count : Type 0 where
  normal : ℕ → Count
  backfilled : ℤ → Count

pub data Direction : Type 0 where
  forward backward : Direction

-- 2 ^ 63.
abbrev pub half : ℕ
half = 9223372036854775808

abbrev pub signed_min : ℤ
signed_min = negsuc 9223372036854775807

abbrev pub signed_max : ℤ
signed_max = pos 9223372036854775807

-- The casts `as i64` and `as u64`.
unfoldable pub as_signed : ℕ → ℤ
as_signed n = if ltb n half then pos n else negsuc ((u64_end - n) - 1)

unfoldable pub as_unsigned : ℤ → ℕ
as_unsigned (pos n) = n
as_unsigned (negsuc n) = u64_end - suc n

unfoldable pub signed_difference : ℕ → ℕ → ℤ
signed_difference p n = if leb n p then pos (p - n) else negsuc ((n - p) - 1)

unfoldable pub add : ℤ → ℤ → ℤ
add a b = signed_difference (pos_part a + pos_part b) (neg_part a + neg_part b)

unfoldable pub sub : ℤ → ℤ → ℤ
sub a b = signed_difference (pos_part a + neg_part b) (neg_part a + pos_part b)

unfoldable pub checked_signed : ℤ → Try ℤ
checked_signed i = if leℤ signed_min i && leℤ i signed_max then good i else fault arithmetic

unfoldable pub saturated_signed : ℤ → ℤ
saturated_signed i =
    if ltℤ i signed_min then signed_min else if ltℤ signed_max i then signed_max else i

unfoldable pub from_signed : ℤ → Count
from_signed signed = if leℤ signed (pos 0) then backfilled signed else normal (as_unsigned signed)

unfoldable pub from_unsigned : ℕ → Count
from_unsigned unsigned = from_signed (as_signed unsigned)

unfoldable pub into_unsigned : Count → ℕ
into_unsigned (normal i) = i
into_unsigned (backfilled i) = as_unsigned i

unfoldable pub into_signed : Count → ℤ
into_signed (normal i) = as_signed i
into_signed (backfilled i) = i

unfoldable pub into_normal : Count → Count
into_normal (normal i) = normal i
into_normal (backfilled i) = normal 0

unfoldable pub checked_add : Count → ℕ → Try Count
checked_add (normal i) n = checked (i + n) >>= λ sum. good (normal sum)
checked_add (backfilled i) n = checked_signed (add i (as_signed n)) >>= λ sum. good (backfilled sum)

unfoldable pub checked_sub : Count → ℕ → Try Count
checked_sub (normal i) n = if leb n i then good (normal (i - n)) else fault arithmetic
checked_sub (backfilled i) n =
    checked_signed (sub i (as_signed n)) >>= λ rest. good (backfilled rest)

unfoldable pub checked_inc : Count → Direction → Try Count
checked_inc count forward = checked_add count 1
checked_inc count backward = checked_sub count 1

unfoldable pub saturating_add : Count → ℕ → Count
saturating_add (normal i) n = normal (min (i + n) 18446744073709551615)
saturating_add (backfilled i) n = backfilled (saturated_signed (add i (as_signed n)))

unfoldable pub saturating_sub : Count → ℕ → Count
saturating_sub (normal i) n = normal (i - n)
saturating_sub (backfilled i) n = backfilled (saturated_signed (sub i (as_signed n)))

unfoldable pub saturating_inc : Count → Direction → Count
saturating_inc count forward = saturating_add count 1
saturating_inc count backward = saturating_sub count 1

-- `Ord::cmp`, as a test.
unfoldable pub is_less : Count → Count → Bool
is_less a b = ltℤ (into_signed a) (into_signed b)

-- The counts of events: a positive i64, or one that is not positive.
abbrev pub IsValid : Count → Type 0
IsValid (normal i) = (0 < i) × (i < half)
IsValid (backfilled i) = (leℤ signed_min i ≡ true) × (leℤ i (pos 0) ≡ true)

pub from_unsigned-into_unsigned :
    (count : Count) → IsValid count → from_unsigned (into_unsigned count) ≡ count
unfolding from_unsigned into_unsigned from_signed as_signed as_unsigned
from_unsigned-into_unsigned (normal i) v = ground arith
from_unsigned-into_unsigned (backfilled (pos n)) v = ground arith
from_unsigned-into_unsigned (backfilled (negsuc n)) v = ground arith

pub from_signed-into_signed :
    (count : Count) → IsValid count → from_signed (into_signed count) ≡ count
unfolding into_signed from_signed as_signed as_unsigned
from_signed-into_signed (normal i) v = ground arith
from_signed-into_signed (backfilled i) v = ground arith

forward-normal :
    (i : ℕ) (next : Count)
    → i < half
    → checked_inc (normal i) forward ≡ good next
    → next ≡ normal (suc i)
unfolding checked_inc checked_add checked
forward-normal i next l e = ground arith

forward-pos :
    (n : ℕ) (next : Count)
    → checked_inc (backfilled (pos n)) forward ≡ good next
    → next ≡ backfilled (pos (suc n))
unfolding checked_inc checked_add checked_signed add as_signed signed_difference
forward-pos n next e = ground arith

forward-zero :
    (next : Count)
    → checked_inc (backfilled (negsuc 0)) forward ≡ good next
    → next ≡ backfilled (pos 0)
unfolding checked_inc checked_add checked_signed add as_signed signed_difference
forward-zero next e = ground arith

forward-negsuc :
    (n : ℕ) (next : Count)
    → checked_inc (backfilled (negsuc (suc n))) forward ≡ good next
    → next ≡ backfilled (negsuc n)
unfolding checked_inc checked_add checked_signed add as_signed signed_difference
forward-negsuc n next e = ground arith

-- What a step forward from a count to the next has to satisfy.
abbrev pub IsNext : Count → Count → Type 0
IsNext count next = (is_less count next ≡ true) × (checked_inc next backward ≡ good count)

normal-IsNext : (i : ℕ) → suc i < half → IsNext (normal i) (normal (suc i))
unfolding checked_inc checked_sub is_less into_signed as_signed
normal-IsNext i l = (ground arith, ground arith)

zero-IsNext : IsNext (backfilled (negsuc 0)) (backfilled (pos 0))
unfolding checked_inc checked_sub is_less into_signed as_signed checked_signed sub signed_difference
zero-IsNext = (refl, refl)

negsuc-IsNext :
    (n : ℕ) → suc n < half → IsNext (backfilled (negsuc (suc n))) (backfilled (negsuc n))
unfolding checked_inc checked_sub is_less into_signed as_signed checked_signed sub signed_difference
negsuc-IsNext n l = (ground arith, ground arith)

-- Where both are valid, a step forward leads to a greater count, and a step backward from there leads
-- back.
pub checked_inc-IsNext :
    (count next : Count)
    → IsValid count
    → IsValid next
    → checked_inc count forward ≡ good next
    → IsNext count next
checked_inc-IsNext (normal i) next v w e =
    let q = forward-normal i next v.1 e in
    subst (λ c. IsNext (normal i) c) (sym q) (normal-IsNext i (ground arith))
checked_inc-IsNext (backfilled (pos n)) next v w e = absurd (ground (arith, forward-pos n next e))
checked_inc-IsNext (backfilled (negsuc zero)) next v w e =
    subst (λ c. IsNext (backfilled (negsuc 0)) c) (sym (forward-zero next e)) zero-IsNext
checked_inc-IsNext (backfilled (negsuc (suc n))) next v w e =
    subst (λ c. IsNext (backfilled (negsuc (suc n))) c) (sym (forward-negsuc n next e))
      (negsuc-IsNext n (ground arith))
