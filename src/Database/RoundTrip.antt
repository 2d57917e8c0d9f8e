-- ===== src/Database/RoundTrip.antt =====
-- That a tuple is read back as it was written.
use cinquain.Prelude.{
  append-nil, ℕ, suc, ◌+◌, ◌<◌, ◌≡◌, refl, ap, sym, ◌∙◌, Bool, true, false, Option, List, [], ◌∷◌,
  ◌++◌, map, ◌==◌, nat_eq, contains, ℤ, pos, negsuc, leℤ, length, is_empty, arith, Bool-cases, inl,
  inr,
}
use mathlib.Core.Path.{subst}
use cinquain.Core.Errors.{good, good-injective}
use cinquain.Core.Words.{u64_end}
use cinquain.Core.Bytes.{
  Bytes, to_be_bytes, from_be_bytes-to_be_bytes, length-to_be_bytes, split_once, split_once-append,
}
use cinquain.Pdu.Counts.{as_signed, as_unsigned, signed_min, signed_max}
use cinquain.Database.Ser.{
  Value, text, raw, unsigned, signed, boolean, nothing, interfix, separator, other, serialize_tuple,
}
use cinquain.Database.De.{
  drop_bytes, take_bytes, inc_pos, record_next, record_start, read_value, read_fields, from_slice,
}
use cinquain.Database.Written.{
  kind_of, IsReadable, written, behind, IsReadable-rest, serialize_tuple-written,
}

drop-append : (a b : Bytes) → drop_bytes (length a) (a ++ b) ≡ b
unfolding drop_bytes
drop-append [] b = refl
drop-append (x ∷ a) b = drop-append a b

take-append : (a b : Bytes) → take_bytes (length a) (a ++ b) ≡ a
unfolding take_bytes
take-append [] b = refl
take-append (x ∷ a) b = ap (λ bs. x ∷ bs) (take-append a b)

split_once-whole : (bytes : Bytes) → contains bytes 255 ≡ false → (split_once bytes).0 ≡ bytes
unfolding split_once contains
split_once-whole [] h = refl
split_once-whole (b ∷ bytes) h = ground (arith, split_once-whole bytes)

take-eight : (n : ℕ) (rest : Bytes) → take_bytes 8 (to_be_bytes 8 n ++ rest) ≡ to_be_bytes 8 n
take-eight n rest =
    ap (λ k. take_bytes k (to_be_bytes 8 n ++ rest)) (sym (length-to_be_bytes 8 n))
    ∙ take-append (to_be_bytes 8 n) rest

drop-eight : (n : ℕ) (rest : Bytes) → drop_bytes 8 (to_be_bytes 8 n ++ rest) ≡ rest
drop-eight n rest =
    ap (λ k. drop_bytes k (to_be_bytes 8 n ++ rest)) (sym (length-to_be_bytes 8 n))
    ∙ drop-append (to_be_bytes 8 n) rest

drop-whole : (bytes : Bytes) → drop_bytes (length bytes) bytes ≡ []
unfolding drop_bytes
drop-whole [] = refl
drop-whole (b ∷ bytes) = drop-whole bytes

as_signed-as_unsigned :
    (i : ℤ) → leℤ signed_min i ≡ true → leℤ i signed_max ≡ true → as_signed (as_unsigned i) ≡ i
unfolding as_signed as_unsigned
as_signed-as_unsigned (pos n) h k = ground arith
as_signed-as_unsigned (negsuc n) h k = ground arith

as_unsigned-fits :
    (i : ℤ) → leℤ signed_min i ≡ true → leℤ i signed_max ≡ true → as_unsigned i < u64_end
unfolding as_unsigned
as_unsigned-fits (pos n) h k = ground arith
as_unsigned-fits (negsuc n) h k = ground arith

split-behind :
    (bytes : Bytes) (fields : List Value)
    → contains bytes 255 ≡ false
    → (split_once (bytes ++ behind fields)).0 ≡ bytes
split-behind bytes [] h = rw (append-nil bytes) (split_once-whole bytes h)
split-behind bytes (value ∷ fields) h =
    ap (λ (p : Bytes × Option Bytes). p.0)
      (split_once-append bytes (written value ++ behind fields) h)

read_value-written :
    (is_string : Bytes → Bool) (value : Value) (fields : List Value) (at rec : ℕ)
    → IsReadable is_string (value ∷ fields)
    → (end : ℕ) × (read_value is_string
          (kind_of value)
          (record { rest = written value ++ behind fields; pos = at; rec = rec })
        ≡ good (value, record { rest = behind fields; pos = end; rec = rec }))
unfolding read_value inc_pos record_next drop_bytes
read_value-written is_string (text bytes) fields at rec r = (
  at + length bytes,
  rw (split-behind bytes fields r.0, r.1, drop-append bytes (behind fields)) refl,
)
read_value-written is_string (raw bytes) [] at rec r =
    (at + length bytes, rw (append-nil bytes, drop-whole bytes) refl)
read_value-written is_string (raw bytes) (field ∷ fields) at rec r = absurd r
read_value-written is_string (unsigned n) fields at rec r = (
  at + 8,
  rw
      (
        take-eight n (behind fields),
        length-to_be_bytes 8 n,
        drop-eight n (behind fields),
        from_be_bytes-to_be_bytes 8 n r.0,
      )
      refl,
)
read_value-written is_string (signed i) fields at rec r = (
  at + 8,
  rw
      (
        take-eight (as_unsigned i) (behind fields),
        length-to_be_bytes 8 (as_unsigned i),
        drop-eight (as_unsigned i) (behind fields),
        from_be_bytes-to_be_bytes 8 (as_unsigned i) (as_unsigned-fits i r.0 r.1),
        as_signed-as_unsigned i r.0 r.1,
      )
      refl,
)
read_value-written is_string (boolean true) fields at rec r = (at + 1, refl)
read_value-written is_string (boolean false) fields at rec r = (at + 1, refl)
read_value-written is_string nothing fields at rec r = absurd r
read_value-written is_string interfix fields at rec r = absurd r
read_value-written is_string separator fields at rec r = absurd r
read_value-written is_string other fields at rec r = absurd r

record_start-behind :
    (bytes : Bytes) (at rec : ℕ)
    → record_start (record { rest = 255 ∷ bytes; pos = at; rec = suc rec })
      ≡ record { rest = bytes; pos = at + 1; rec = suc (suc rec) }
unfolding record_start inc_pos drop_bytes
record_start-behind bytes at rec = elim (Bool-cases (at == 0)) [
  | inl q ↦ rw q (ground arith)
  | inr q ↦ rw q (ground arith)
]

read_fields-behind :
    (is_string : Bytes → Bool) (fields : List Value) (at rec : ℕ)
    → IsReadable is_string fields
    → read_fields is_string
        (map kind_of fields)
        (record { rest = behind fields; pos = at; rec = suc rec })
      ≡ good fields
unfolding read_fields
read_fields-behind is_string [] at rec r = refl
read_fields-behind is_string (value ∷ fields) at rec r =
    let (end, q) = read_value-written is_string value fields (at + 1) (suc (suc rec)) r in
    rw
      (
        record_start-behind (written value ++ behind fields) at rec,
        q,
        read_fields-behind is_string fields end (suc rec)
            (IsReadable-rest is_string value fields r),
      )
      refl

from_slice-written :
    (is_string : Bytes → Bool) (value : Value) (fields : List Value)
    → IsReadable is_string (value ∷ fields)
    → is_empty (written value ++ behind fields) ≡ false
    → from_slice is_string (map kind_of (value ∷ fields)) (written value ++ behind fields)
      ≡ good (value ∷ fields)
unfolding from_slice read_fields record_start inc_pos drop_bytes
from_slice-written is_string value fields r n =
    let (end, q) = read_value-written is_string value fields 0 1 r in
    rw (n, q, read_fields-behind is_string fields end 0 (IsReadable-rest is_string value fields r))
      refl

-- A tuple of at least one field that can be read back, and that is not written as no bytes at all, is
-- read as it was written.
pub from_slice-serialize_tuple :
    (is_string : Bytes → Bool) (value : Value) (fields : List Value) (out : Bytes)
    → IsReadable is_string (value ∷ fields)
    → serialize_tuple (value ∷ fields) ≡ good out
    → is_empty out ≡ false
    → from_slice is_string (map kind_of (value ∷ fields)) out ≡ good (value ∷ fields)
from_slice-serialize_tuple is_string value fields out r q n =
    let same : written value ++ behind fields ≡ out =
      good-injective (sym (serialize_tuple-written is_string value fields r) ∙ q) in
    subst
      (λ bytes. from_slice is_string (map kind_of (value ∷ fields)) bytes ≡ good (value ∷ fields))
      same (from_slice-written is_string value fields r (rw same n))
