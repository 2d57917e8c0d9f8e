-- ===== src/Pdu/Keys.antt =====
-- Raw ids: that they are read back as the id, and that their bytes are in the order of the counts.
use cinquain.Prelude.{
  ℕ, suc, ◌+◌, ◌<◌, ◌≡◌, refl, ap, sym, ◌∙◌, [], ◌∷◌, ◌++◌, nat_eq, ℤ, pos, negsuc, length, arith,
}
use cinquain.Core.Words.{u64_end}
use cinquain.Core.Bytes.{
  Bytes, to_be_bytes, from_be_bytes, from_be_bytes-to_be_bytes, length-to_be_bytes,
}
use cinquain.Pdu.Counts.{
  Count, normal, backfilled, as_unsigned, into_unsigned, from_unsigned-into_unsigned, IsValid,
}
use cinquain.Pdu.Ids.{PduId, slice, shortroomid_of, shorteventid_of, raw_from_id, id_from_raw}

slice-all : (bytes rest : Bytes) → slice 0 (length bytes) (bytes ++ rest) ≡ bytes
unfolding slice
slice-all [] [] = refl
slice-all [] (b ∷ rest) = refl
slice-all (b ∷ bytes) rest = ap (λ bs. b ∷ bs) (slice-all bytes rest)

slice-behind :
    (bytes rest : Bytes) (offset n : ℕ)
    → slice (length bytes + offset) n (bytes ++ rest) ≡ slice offset n rest
unfolding slice
slice-behind [] rest offset n =
    let same : 0 + offset ≡ offset = omega arith in ap (λ k. slice k n rest) same
slice-behind (b ∷ bytes) rest offset n =
    let same : suc (length bytes) + offset ≡ suc (length bytes + offset) = omega arith in
    ap (λ k. slice k n (b ∷ (bytes ++ rest))) same ∙ slice-behind bytes rest offset n

slice-whole : (bytes : Bytes) → slice 0 (length bytes) bytes ≡ bytes
unfolding slice
slice-whole [] = refl
slice-whole (b ∷ bytes) = ap (λ bs. b ∷ bs) (slice-whole bytes)

abbrev be : ℕ → Bytes
be n = to_be_bytes 8 n

be-first : (a : ℕ) (rest : Bytes) → slice 0 8 (be a ++ rest) ≡ be a
be-first a rest =
    ap (λ k. slice 0 k (be a ++ rest)) (sym (length-to_be_bytes 8 a)) ∙ slice-all (be a) rest

be-behind :
    (a offset : ℕ) (rest : Bytes) → slice (8 + offset) 8 (be a ++ rest) ≡ slice offset 8 rest
be-behind a offset rest =
    ap (λ k. slice (k + offset) 8 (be a ++ rest)) (sym (length-to_be_bytes 8 a))
    ∙ slice-behind (be a) rest offset 8

be-last : (a : ℕ) → slice 0 8 (be a) ≡ be a
be-last a = ap (λ k. slice 0 k (be a)) (sym (length-to_be_bytes 8 a)) ∙ slice-whole (be a)

be-read : (a : ℕ) → a < u64_end → from_be_bytes 0 (be a) ≡ a
be-read a l = from_be_bytes-to_be_bytes 8 a l

into_unsigned-fits : (count : Count) → IsValid count → into_unsigned count < u64_end
unfolding into_unsigned as_unsigned
into_unsigned-fits (normal i) v = omega arith
into_unsigned-fits (backfilled (pos n)) v = ground arith
into_unsigned-fits (backfilled (negsuc n)) v = ground arith

round-normal :
    (room i : ℕ)
    → room < u64_end
    → IsValid (normal i)
    → id_from_raw (raw_from_id (record { shortroomid = room; shorteventid = normal i }))
      ≡ record { shortroomid = room; shorteventid = normal i }
unfolding id_from_raw raw_from_id shortroomid_of shorteventid_of into_unsigned
round-normal room i l v =
    rw
      (
        be-first room (be i),
        be-behind room 0 (be i),
        be-last i,
        be-read room l,
        be-read i (into_unsigned-fits (normal i) v),
        from_unsigned-into_unsigned (normal i) v,
      )
      refl

round-backfilled :
    (room : ℕ) (i : ℤ)
    → room < u64_end
    → IsValid (backfilled i)
    → id_from_raw (raw_from_id (record { shortroomid = room; shorteventid = backfilled i }))
      ≡ record { shortroomid = room; shorteventid = backfilled i }
unfolding id_from_raw raw_from_id shortroomid_of shorteventid_of into_unsigned
round-backfilled room i l v =
    rw
      (
        be-first room (be 0 ++ be (as_unsigned i)),
        be-behind room 8 (be 0 ++ be (as_unsigned i)),
        be-behind 0 0 (be (as_unsigned i)),
        be-last (as_unsigned i),
        be-read room l,
        be-read (as_unsigned i) (into_unsigned-fits (backfilled i) v),
        from_unsigned-into_unsigned (backfilled i) v,
      )
      refl

round-count :
    (room : ℕ) (count : Count)
    → room < u64_end
    → IsValid count
    → id_from_raw (raw_from_id (record { shortroomid = room; shorteventid = count }))
      ≡ record { shortroomid = room; shorteventid = count }
round-count room (normal i) l v = round-normal room i l v
round-count room (backfilled i) l v = round-backfilled room i l v

-- An id whose short room id is a u64 and whose count is valid is read back from its raw id.
pub id_from_raw-raw_from_id :
    (pdu_id : PduId)
    → pdu_id.shortroomid < u64_end
    → IsValid pdu_id.shorteventid
    → id_from_raw (raw_from_id pdu_id) ≡ pdu_id
id_from_raw-raw_from_id pdu_id l v = round-count pdu_id.shortroomid pdu_id.shorteventid l v
