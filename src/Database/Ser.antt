-- ===== src/Database/Ser.antt =====
-- The serializer of src/database/ser.rs, for tuples of plain values. What it tracks in debug builds
-- only, the depth and the finalization, is left out.
use cinquain.Prelude.{ℕ, Bool, true, false, List, [], ◌∷◌, ◌++◌, ℤ, if◌then◌else◌}
use cinquain.Core.Errors.{Try, good, fault, unhandled, ◌>>=◌}
use cinquain.Core.Bytes.{Bytes, to_be_bytes}
use cinquain.Pdu.Counts.{as_unsigned}

-- The values that a tuple holds; `other` is of a type that is refused (a float, a map, a struct, an
-- enum, an integer of another width).
pub data Value : Type 0 where
  text : Bytes → Value
  raw : Bytes → Value
  unsigned : ℕ → Value
  signed : ℤ → Value
  boolean : Bool → Value
  nothing : Value
  interfix : Value
  separator : Value
  other : Value

abbrev pub sep_byte : ℕ
sep_byte = 255

unfoldable pub serialize_value : Value → Bytes → Try Bytes
serialize_value (text bytes) out = good (out ++ bytes)
serialize_value (raw bytes) out = good (out ++ bytes)
serialize_value (unsigned n) out = good (out ++ to_be_bytes 8 n)
serialize_value (signed i) out = good (out ++ to_be_bytes 8 (as_unsigned i))
serialize_value (boolean true) out = good (out ++ 1 ∷ [])
serialize_value (boolean false) out = good (out ++ 0 ∷ [])
serialize_value nothing out = good out
serialize_value interfix out = good out
serialize_value separator out = good (out ++ sep_byte ∷ [])
serialize_value other out = fault unhandled

-- `record_start`: every record but the first is behind a separator.
unfoldable pub record_start : Bool → Bytes → Bytes
record_start sep out = if sep then out ++ sep_byte ∷ [] else out

unfoldable pub serialize_fields : Bool → List Value → Bytes → Try Bytes
serialize_fields sep [] out = good out
serialize_fields sep (value ∷ fields) out =
    serialize_value value (record_start sep out) >>= λ written. serialize_fields true fields written

unfoldable pub serialize_tuple : List Value → Try Bytes
serialize_tuple fields = serialize_fields false fields []
