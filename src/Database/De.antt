-- ===== src/Database/De.antt =====
-- The deserializer of src/database/de.rs, for tuples of plain values.
use cinquain.Prelude.{
  ℕ, zero, suc, ◌+◌, Bool, not, ◌||◌, Option, none, some, List, [], ◌∷◌, ◌==◌, nat_eq,
  if◌then◌else◌, length, is_empty, ltb,
}
use cinquain.Core.Errors.{Try, good, fault, serde_de, utf8, unhandled, ◌>>=◌}
use cinquain.Core.Bytes.{Bytes, from_be_bytes, split_once}
use cinquain.Pdu.Counts.{as_signed}
use cinquain.Database.Ser.{Value, text, raw, unsigned, signed, boolean, nothing}

-- The types that a tuple is read as; `ignore` and `ignore_all` are directives.
pub data Kind : Type 0 where
  text_kind raw_kind unsigned_kind signed_kind boolean_kind ignore ignore_all other_kind : Kind

-- The buffer from the position on, the position, and the number of records started.
pub record Deserializer : Type 0 where
  pub rest : Bytes
  pub pos : ℕ
  pub rec : ℕ

unfoldable pub drop_bytes : ℕ → Bytes → Bytes
drop_bytes zero bytes = bytes
drop_bytes (suc n) [] = []
drop_bytes (suc n) (b ∷ bytes) = drop_bytes n bytes

unfoldable pub take_bytes : ℕ → Bytes → Bytes
take_bytes zero bytes = []
take_bytes (suc n) [] = []
take_bytes (suc n) (b ∷ bytes) = b ∷ take_bytes n bytes

unfoldable pub inc_pos : ℕ → Deserializer → Deserializer
inc_pos n d = record { rest = drop_bytes n d.rest; pos = d.pos + n; rec = d.rec }

-- The slice that `record_next` returns, before the position moves behind it.
unfoldable pub record_next : Deserializer → Bytes
record_next d = (split_once d.rest).0

unfoldable pub record_start : Deserializer → Deserializer
record_start d =
    let started = not (d.pos == 0) || ltb 0 d.rec in
    let moved = inc_pos (if started then 1 else 0) d in
    record { rest = moved.rest; pos = moved.pos; rec = moved.rec + 1 }

abbrev first_byte : Bytes → Option ℕ
first_byte [] = none
first_byte (b ∷ bytes) = some b

module _ (is_string : Bytes → Bool) where
  unfoldable pub read_value : Kind → Deserializer → Try (Value × Deserializer)
  read_value text_kind d =
      if is_string (record_next d)
      then good (text (record_next d), inc_pos (length (record_next d)) d)
      else fault utf8
  read_value raw_kind d = good (raw d.rest, inc_pos (length d.rest) d)
  read_value unsigned_kind d =
      if ltb (length (take_bytes 8 d.rest)) 8
      then fault serde_de
      else good (unsigned (from_be_bytes 0 (take_bytes 8 d.rest)), inc_pos 8 d)
  read_value signed_kind d =
      if ltb (length (take_bytes 8 d.rest)) 8
      then fault serde_de
      else good (signed (as_signed (from_be_bytes 0 (take_bytes 8 d.rest))), inc_pos 8 d)
  read_value boolean_kind d = elim (first_byte d.rest) [
    | none ↦ fault serde_de
    | some b ↦ good (boolean (not (b == 0)), inc_pos 1 d)
  ]
  read_value ignore d = good (nothing, inc_pos (length (record_next d)) d)
  read_value ignore_all d = good (nothing, inc_pos (length d.rest) d)
  read_value other_kind d = fault unhandled

  -- The elements of a tuple; one that is missing is an error of the visitor.
  unfoldable pub read_fields : List Kind → Deserializer → Try (List Value)
  read_fields [] d = good []
  read_fields (kind ∷ kinds) d =
      if is_empty d.rest
      then fault serde_de
      else (read_value kind (record_start d) >>= λ read.
          read_fields kinds read.1 >>= λ values. good (read.0 ∷ values))

  unfoldable pub from_slice : List Kind → Bytes → Try (List Value)
  from_slice kinds buf = read_fields kinds (record { rest = buf; pos = 0; rec = 0 })
