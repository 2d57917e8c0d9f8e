-- ===== src/Database/Written.antt =====
-- The bytes that the fields of a tuple are written as.
use cinquain.Prelude.{
  append-nil, append_assoc, ◌<◌, ◌≡◌, refl, ap, sym, Bool, true, false, List, [], ◌∷◌, ◌++◌, nat_eq,
  contains, leℤ,
}
use cinquain.Core.Errors.{good}
use cinquain.Core.Words.{u64_end}
use cinquain.Core.Bytes.{Bytes, to_be_bytes}
use cinquain.Pdu.Counts.{as_unsigned, signed_min, signed_max}
use cinquain.Database.Ser
use cinquain.Database.Ser.{
  Value, text, raw, unsigned, signed, boolean, nothing, interfix, separator, other, sep_byte,
  serialize_value, serialize_fields, serialize_tuple,
}
use cinquain.Database.De.{
  Kind, text_kind, raw_kind, unsigned_kind, signed_kind, boolean_kind, other_kind,
}

-- The kind that a value is read as.
abbrev pub kind_of : Value → Kind
kind_of (text bytes) = text_kind
kind_of (raw bytes) = raw_kind
kind_of (unsigned n) = unsigned_kind
kind_of (signed i) = signed_kind
kind_of (boolean b) = boolean_kind
kind_of value = other_kind

-- Values that can be read back: strings without a separator, numbers of 64 bits, and raw bytes only as
-- the last of the tuple.
abbrev pub IsReadable : (Bytes → Bool) → List Value → Type 0
IsReadable is_string [] = Unit
IsReadable is_string (text bytes ∷ fields) =
    (contains bytes 255 ≡ false) × (is_string bytes ≡ true) × IsReadable is_string fields
IsReadable is_string (raw bytes ∷ []) = Unit
IsReadable is_string (raw bytes ∷ field ∷ fields) = ⊥
IsReadable is_string (unsigned n ∷ fields) = (n < u64_end) × IsReadable is_string fields
IsReadable is_string (signed i ∷ fields) =
    (leℤ signed_min i ≡ true) × (leℤ i signed_max ≡ true) × IsReadable is_string fields
IsReadable is_string (boolean b ∷ fields) = IsReadable is_string fields
IsReadable is_string (value ∷ fields) = ⊥

-- The bytes of a value, and of the fields behind one.
abbrev pub written : Value → Bytes
written (text bytes) = bytes
written (raw bytes) = bytes
written (unsigned n) = to_be_bytes 8 n
written (signed i) = to_be_bytes 8 (as_unsigned i)
written (boolean true) = 1 ∷ []
written (boolean false) = 0 ∷ []
written separator = 255 ∷ []
written value = []

abbrev pub behind : List Value → Bytes
behind [] = []
behind (value ∷ fields) = 255 ∷ (written value ++ behind fields)

pub serialize_value-written :
    (is_string : Bytes → Bool) (value : Value) (fields : List Value) (out : Bytes)
    → IsReadable is_string (value ∷ fields)
    → serialize_value value out ≡ good (out ++ written value)
unfolding serialize_value
serialize_value-written is_string (text bytes) fields out r = refl
serialize_value-written is_string (raw bytes) fields out r = refl
serialize_value-written is_string (unsigned n) fields out r = refl
serialize_value-written is_string (signed i) fields out r = refl
serialize_value-written is_string (boolean true) fields out r = refl
serialize_value-written is_string (boolean false) fields out r = refl
serialize_value-written is_string nothing fields out r = absurd r
serialize_value-written is_string interfix fields out r = absurd r
serialize_value-written is_string separator fields out r = absurd r
serialize_value-written is_string other fields out r = absurd r

pub IsReadable-rest :
    (is_string : Bytes → Bool) (value : Value) (fields : List Value)
    → IsReadable is_string (value ∷ fields)
    → IsReadable is_string fields
IsReadable-rest is_string (text bytes) fields r = r.2
IsReadable-rest is_string (raw bytes) [] r = tt
IsReadable-rest is_string (raw bytes) (field ∷ fields) r = absurd r
IsReadable-rest is_string (unsigned n) fields r = r.1
IsReadable-rest is_string (signed i) fields r = r.2
IsReadable-rest is_string (boolean b) fields r = r
IsReadable-rest is_string nothing fields r = absurd r
IsReadable-rest is_string interfix fields r = absurd r
IsReadable-rest is_string separator fields r = absurd r
IsReadable-rest is_string other fields r = absurd r

pub serialize_fields-behind :
    (is_string : Bytes → Bool) (fields : List Value) (out : Bytes)
    → IsReadable is_string fields
    → serialize_fields true fields out ≡ good (out ++ behind fields)
unfolding serialize_fields Ser.record_start
serialize_fields-behind is_string [] out r = ap (λ bs. good bs) (sym (append-nil out))
serialize_fields-behind is_string (value ∷ fields) out r =
    rw
      (
        serialize_value-written is_string value fields (out ++ 255 ∷ []) r,
        serialize_fields-behind is_string fields ((out ++ 255 ∷ []) ++ written value)
            (IsReadable-rest is_string value fields r),
        append_assoc (out ++ 255 ∷ []) (written value) (behind fields),
        append_assoc out (255 ∷ []) (written value ++ behind fields),
      )
      refl

pub serialize_tuple-written :
    (is_string : Bytes → Bool) (value : Value) (fields : List Value)
    → IsReadable is_string (value ∷ fields)
    → serialize_tuple (value ∷ fields) ≡ good (written value ++ behind fields)
unfolding serialize_tuple serialize_fields Ser.record_start
serialize_tuple-written is_string value fields r =
    rw
      (
        serialize_value-written is_string value fields [] r,
        serialize_fields-behind is_string fields (written value)
            (IsReadable-rest is_string value fields r),
      )
      refl
