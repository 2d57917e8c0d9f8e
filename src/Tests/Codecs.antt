-- ===== src/Tests/Codecs.antt =====
-- Instances of the theorems on the bytes of tuples and of ids of events.
use cinquain.Prelude.{
  ℕ, ◌<◌, ◌≡◌, refl, Bool, true, false, List, [], ◌∷◌, ◌++◌, ℤ, pos, negsuc, map, arith,
}
use cinquain.Core.Errors.{good}
use cinquain.Core.Bytes.{Bytes, comes_before, to_be_bytes}
use cinquain.Database.Ser.{Value, text, unsigned, boolean, serialize_tuple}
use cinquain.Database.De.{from_slice}
use cinquain.Database.Written.{kind_of}
use cinquain.Database.RoundTrip.{from_slice-serialize_tuple}
use cinquain.Pdu.Counts.{normal, backfilled, is_less}
use cinquain.Pdu.Ids.{PduId, as_bytes, raw_from_id, id_from_raw}
use cinquain.Pdu.Keys.{id_from_raw-raw_from_id}
use cinquain.Pdu.Ordering.{comes_before-is_less}

abbrev every_string : Bytes → Bool
every_string bytes = true

-- A text, a number that has a byte like the separator, and a flag.
abbrev fields : List Value
fields = unsigned 255 ∷ boolean true ∷ []

from_slice-serialize_tuple_example :
    from_slice every_string
      (map kind_of (text (b'a' ∷ b'b' ∷ []) ∷ fields))
      (b'a' ∷ b'b' ∷ 255 ∷ 0 ∷ 0 ∷ 0 ∷ 0 ∷ 0 ∷ 0 ∷ 0 ∷ 255 ∷ 255 ∷ 1 ∷ [])
    ≡ good (text (b'a' ∷ b'b' ∷ []) ∷ fields)
unfolding cinquain.Prelude.contains serialize_tuple cinquain.Database.Ser.serialize_fields
    cinquain.Database.Ser.serialize_value cinquain.Database.Ser.record_start to_be_bytes
from_slice-serialize_tuple_example =
    from_slice-serialize_tuple every_string (text (b'a' ∷ b'b' ∷ [])) fields
      (b'a' ∷ b'b' ∷ 255 ∷ 0 ∷ 0 ∷ 0 ∷ 0 ∷ 0 ∷ 0 ∷ 0 ∷ 255 ∷ 255 ∷ 1 ∷ [])
      (refl, refl, (omega arith, tt)) refl refl

abbrev old_event : PduId
old_event = record { shortroomid = 7; shorteventid = backfilled (negsuc 4) }

id_from_raw-raw_from_id_example : id_from_raw (raw_from_id old_event) ≡ old_event
id_from_raw-raw_from_id_example = id_from_raw-raw_from_id old_event (omega arith) (refl, refl)

comes_before-is_less_example :
    comes_before
      (as_bytes (raw_from_id old_event))
      (as_bytes (raw_from_id (record { shortroomid = 7; shorteventid = normal 3 })))
    ≡ is_less (backfilled (negsuc 4)) (normal 3)
comes_before-is_less_example =
    comes_before-is_less 7 (backfilled (negsuc 4)) (normal 3) (omega arith) (refl, refl)
      (omega arith, omega arith)
