-- ===== src/Pdu/Ids.antt =====
-- `Id` and `RawId` of src/core/matrix/pdu/{id,raw_id}.rs. A raw id is the list of its bytes.
use cinquain.Prelude.{ℕ, zero, suc, [], ◌∷◌, ◌++◌, ◌==◌, nat_eq, if◌then◌else◌, length}
use cinquain.Core.Errors.{Try, good, fault, panicked}
use cinquain.Core.Bytes.{Bytes, to_be_bytes, from_be_bytes}
use cinquain.Pdu.Counts.{Count, normal, backfilled, as_unsigned, from_unsigned}

pub record PduId : Type 0 where
  pub shortroomid : ℕ
  pub shorteventid : Count

pub data RawId : Type 0 where
  raw_normal : Bytes → RawId
  raw_backfilled : Bytes → RawId

-- The slice of `n` bytes from an offset.
unfoldable pub slice : ℕ → ℕ → Bytes → Bytes
slice offset n [] = []
slice (suc offset) n (b ∷ bytes) = slice offset n bytes
slice zero zero (b ∷ bytes) = []
slice zero (suc n) (b ∷ bytes) = b ∷ slice zero n bytes

unfoldable pub as_bytes : RawId → Bytes
as_bytes (raw_normal raw) = raw
as_bytes (raw_backfilled raw) = raw

unfoldable pub shortroomid_of : RawId → Bytes
shortroomid_of (raw_normal raw) = slice 0 8 raw
shortroomid_of (raw_backfilled raw) = slice 0 8 raw

unfoldable pub shorteventid_of : RawId → Bytes
shorteventid_of (raw_normal raw) = slice 8 8 raw
shorteventid_of (raw_backfilled raw) = slice 16 8 raw

-- `From<Id> for RawId`, `From<RawId> for Id` and `From<&[u8]> for RawId`.
unfoldable pub raw_from_id : PduId → RawId
raw_from_id pdu_id = elim pdu_id.shorteventid [
  | normal i ↦ raw_normal (to_be_bytes 8 pdu_id.shortroomid ++ to_be_bytes 8 i)
  | backfilled i ↦
      raw_backfilled
        (to_be_bytes 8 pdu_id.shortroomid ++ (to_be_bytes 8 0 ++ to_be_bytes 8 (as_unsigned i)))
]

unfoldable pub id_from_raw : RawId → PduId
id_from_raw raw = record {
  shortroomid = from_be_bytes 0 (shortroomid_of raw);
  shorteventid = from_unsigned (from_be_bytes 0 (shorteventid_of raw));
}

unfoldable pub raw_from_bytes : Bytes → Try RawId
raw_from_bytes bytes =
    if length bytes == 16
    then good (raw_normal (slice 0 16 bytes))
    else if length bytes == 24
    then good (raw_backfilled (slice 0 24 bytes))
    else fault panicked

unfoldable pub pdu_count : RawId → Count
pdu_count raw = (id_from_raw raw).shorteventid
