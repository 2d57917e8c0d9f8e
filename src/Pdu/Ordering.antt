-- ===== src/Pdu/Ordering.antt =====
-- The keys of the timeline's table sort the events of a room by their counts.
use cinquain.Prelude.{
  append-nil, ℕ, ◌<◌, ◌≡◌, refl, ap, sym, ◌∙◌, ◌&&◌, ◌||◌, [], ◌++◌, ◌==◌, nat_beq_iff, nat_eq, pos,
  negsuc, ltb, length, arith,
}
use cinquain.Core.Words.{u64_end}
use cinquain.Core.Bytes.{
  Bytes, bytes_eq, to_be_bytes, length-to_be_bytes, comes_before, comes_before-append,
  comes_before-to_be_bytes, to_be_bytes-beq,
}
use cinquain.Pdu.Counts.{
  Count, normal, backfilled, as_unsigned, as_signed, into_signed, IsValid, is_less,
}
use cinquain.Pdu.Ids.{as_bytes, raw_from_id}

-- Valid counts of events that have a key of their own: all but the backfilled 0.
abbrev pub HasKey : Count → Type 0
HasKey (normal i) = IsValid (normal i)
HasKey (backfilled (pos n)) = ⊥
HasKey (backfilled (negsuc n)) = IsValid (backfilled (negsuc n))

abbrev be : ℕ → Bytes
be n = to_be_bytes 8 n

be-lengths : (a b : ℕ) → length (be a) ≡ length (be b)
be-lengths a b = length-to_be_bytes 8 a ∙ sym (length-to_be_bytes 8 b)

be-comes_before :
    (a b : ℕ) (rest other : Bytes)
    → a < u64_end
    → b < u64_end
    → comes_before (be a ++ rest) (be b ++ other) ≡ (ltb a b || (a == b && comes_before rest other))
be-comes_before a b rest other k l =
    comes_before-append (be a) (be b) rest other (be-lengths a b)
    ∙ rw (comes_before-to_be_bytes 8 a b k l, to_be_bytes-beq 8 a b k l) refl

same-comes_before :
    (a : ℕ) (rest other : Bytes)
    → a < u64_end
    → comes_before (be a ++ rest) (be a ++ other) ≡ comes_before rest other
same-comes_before a rest other l =
    be-comes_before a a rest other l l ∙ ground (arith, nat_beq_iff a a)

-- Keys of the same room sort by the counts.
pub comes_before-is_less :
    (room : ℕ) (a b : Count)
    → room < u64_end
    → HasKey a
    → HasKey b
    → comes_before
        (as_bytes (raw_from_id (record { shortroomid = room; shorteventid = a })))
        (as_bytes (raw_from_id (record { shortroomid = room; shorteventid = b })))
      ≡ is_less a b
unfolding as_bytes raw_from_id is_less into_signed as_signed as_unsigned comes_before
comes_before-is_less room (normal i) (normal j) l v w =
    same-comes_before room (be i) (be j) l
    ∙ comes_before-to_be_bytes 8 i j (omega arith) (omega arith)
    ∙ ground arith
comes_before-is_less room (normal i) (backfilled (negsuc n)) l v w =
    same-comes_before room (be i) (be 0 ++ be (as_unsigned (negsuc n))) l
    ∙ ap (λ bs. comes_before bs (be 0 ++ be (as_unsigned (negsuc n)))) (sym (append-nil (be i)))
    ∙ be-comes_before i 0 [] (be (as_unsigned (negsuc n))) (omega arith) (omega arith)
    ∙ ground (arith, nat_beq_iff i 0)
comes_before-is_less room (backfilled (negsuc n)) (normal j) l v w =
    same-comes_before room (be 0 ++ be (as_unsigned (negsuc n))) (be j) l
    ∙ ap (λ bs. comes_before (be 0 ++ be (as_unsigned (negsuc n))) bs) (sym (append-nil (be j)))
    ∙ be-comes_before 0 j (be (as_unsigned (negsuc n))) [] (omega arith) (omega arith)
    ∙ ground arith
comes_before-is_less room (backfilled (negsuc n)) (backfilled (negsuc m)) l v w =
    same-comes_before room (be 0 ++ be (as_unsigned (negsuc n)))
      (be 0 ++ be (as_unsigned (negsuc m))) l
    ∙ same-comes_before 0 (be (as_unsigned (negsuc n))) (be (as_unsigned (negsuc m))) (omega arith)
    ∙ comes_before-to_be_bytes 8 (as_unsigned (negsuc n)) (as_unsigned (negsuc m)) (omega arith)
        (omega arith)
    ∙ ground arith
comes_before-is_less room (backfilled (pos n)) b l v w = absurd v
comes_before-is_less room (normal i) (backfilled (pos n)) l v w = absurd w
comes_before-is_less room (backfilled (negsuc m)) (backfilled (pos n)) l v w = absurd w
