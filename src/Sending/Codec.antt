-- ===== src/Sending/Codec.antt =====
-- The keys of requests: that a row parses to the request that it was queued for, and that the prefix
-- of a destination starts the keys of its own rows only.
use cinquain.Prelude.{
  ℕ, ◌≡◌, refl, ap, ◌⊎◌, inl, inr, true, false, [], ◌∷◌, ◌++◌, ◌==◌, nat_eq, contains, is_empty,
  length, arith, nat_beq_iff,
}
use cinquain.Core.Errors.{good}
use cinquain.Core.Bytes.{
  Bytes, to_be_bytes, starts_with, split_once-append, starts_with-part, bytes_eq, starts_with-other,
  other-starts_with,
}
use cinquain.Sending.Keys.{
  Destination, appservice, push, federation, SendingEvent, pdu, edu, flush, Parsers, get_prefix,
  request_key, request_value, event_from, parse_appservice, parse_push, parse_federation,
  parse_servercurrentevent,
}
use cinquain.Sending.Destinations.{destination_beq}

-- The destinations that the rest of the server names: their strings are valid and hold no
-- separator, and a server's name does not start like the key of another kind.
abbrev pub IsProper : Parsers → Destination → Type 0
IsProper parsers (appservice server) =
    (contains server 255 ≡ false) × (parsers.is_string server ≡ true)
IsProper parsers (push user pushkey) =
    (contains user 255 ≡ false)
    × (contains pushkey 255 ≡ false)
    × (parsers.is_string user ≡ true)
    × (parsers.is_user_id user ≡ true)
    × (parsers.is_string pushkey ≡ true)
IsProper parsers (federation server) =
    (contains server 255 ≡ false)
    × (parsers.is_string server ≡ true)
    × (parsers.is_server_name server ≡ true)
    × (starts_with server (b'+' ∷ []) ≡ false)
    × (starts_with server (b'$' ∷ []) ≡ false)

-- The events that are queued: an id has one of two lengths, and an EDU is not empty.
abbrev pub IsQueued : SendingEvent → Type 0
IsQueued (pdu value) = (length value ≡ 16) ⊎ (length value ≡ 24)
IsQueued (edu value) = is_empty value ≡ false
IsQueued flush = ⊥

-- What stands behind the prefix in a key.
abbrev pub suffix : SendingEvent → ℕ → Bytes
suffix (pdu value) count = value
suffix event count = to_be_bytes 8 count

part-append :
    (part between rest : Bytes) → (part ++ 255 ∷ between) ++ rest ≡ part ++ 255 ∷ (between ++ rest)
part-append [] between rest = refl
part-append (b ∷ part) between rest = ap (λ bytes. b ∷ bytes) (part-append part between rest)

request_key-suffix :
    (dest : Destination) (event : SendingEvent) (count : ℕ)
    → request_key dest event count ≡ get_prefix dest ++ suffix event count
unfolding request_key
request_key-suffix dest (pdu value) count = refl
request_key-suffix dest (edu value) count = refl
request_key-suffix dest flush count = refl

event_from-request_value :
    (event : SendingEvent) (count : ℕ)
    → IsQueued event
    → event_from (suffix event count) (request_value event) ≡ good event
unfolding event_from request_value
event_from-request_value (pdu value) count (inl h) = ground (arith, nat_beq_iff (length value) 16)
event_from-request_value (pdu value) count (inr h) =
    ground (arith, nat_beq_iff (length value) 16, nat_beq_iff (length value) 24)
event_from-request_value (edu value) count h = ground arith
event_from-request_value flush count h = absurd h

starts_with-first :
    (part rest : Bytes) (b : ℕ)
    → (255 == b) ≡ false
    → starts_with (part ++ 255 ∷ rest) (b ∷ []) ≡ starts_with part (b ∷ [])
unfolding starts_with
starts_with-first [] rest b h = ground arith
starts_with-first (c ∷ part) rest b h = ground arith

module _ (parsers : Parsers) where
  parse-get_prefix :
      (dest : Destination) (rest value : Bytes) (event : SendingEvent)
      → IsProper parsers dest
      → event_from rest value ≡ good event
      → parse_servercurrentevent parsers (get_prefix dest ++ rest) value ≡ good (dest, event)
  unfolding parse_servercurrentevent get_prefix parse_appservice parse_push parse_federation
      starts_with
  parse-get_prefix (appservice server) rest value event h e =
      ground (arith, part-append server [] rest, split_once-append server rest)
  parse-get_prefix (push user pushkey) rest value event h e = ground (
    arith,
    part-append user (pushkey ++ 255 ∷ []) rest,
    part-append pushkey [] rest,
    split_once-append user (pushkey ++ 255 ∷ rest),
    split_once-append pushkey rest,
  )
  parse-get_prefix (federation server) rest value event h e = ground (
    arith,
    part-append server [] rest,
    split_once-append server rest,
    starts_with-first server rest b'+',
    starts_with-first server rest b'$',
  )

  -- The row that is queued for a proper destination parses to that destination and event.
  pub request_key-parses :
      (dest : Destination) (event : SendingEvent) (count : ℕ)
      → IsProper parsers dest
      → IsQueued event
      → parse_servercurrentevent parsers (request_key dest event count) (request_value event)
        ≡ good (dest, event)
  request_key-parses dest event count h q = rw (request_key-suffix dest event count) (
      parse-get_prefix dest (suffix event count) (request_value event) event h
        (event_from-request_value event count q))

  -- The prefix of a proper destination starts the keys of that destination, and of no other proper one.
  pub get_prefix-starts :
      (dest other : Destination) (rest : Bytes)
      → IsProper parsers dest
      → IsProper parsers other
      → starts_with (get_prefix dest ++ rest) (get_prefix other) ≡ destination_beq dest other
  unfolding get_prefix starts_with
  get_prefix-starts (appservice a) (appservice b) rest h k =
      ground (arith, part-append a [] rest, starts_with-part a b rest [])
  get_prefix-starts (appservice a) (push u l) rest h k = refl
  get_prefix-starts (appservice a) (federation b) rest h k =
      starts_with-other b [] ((a ++ 255 ∷ []) ++ rest) b'+' refl (ground arith)
  get_prefix-starts (push u l) (appservice b) rest h k = refl
  get_prefix-starts (push u l) (push v m) rest h k = ground (
    arith,
    part-append u (l ++ 255 ∷ []) rest,
    part-append l [] rest,
    starts_with-part u v (l ++ 255 ∷ rest) (m ++ 255 ∷ []),
    starts_with-part l m rest [],
  )
  get_prefix-starts (push u l) (federation b) rest h k =
      starts_with-other b [] ((u ++ 255 ∷ (l ++ 255 ∷ [])) ++ rest) b'$' refl (ground arith)
  get_prefix-starts (federation a) (appservice b) rest h k =
      rw (part-append a [] rest) (other-starts_with a rest (b ++ 255 ∷ []) b'+' refl (ground arith))
  get_prefix-starts (federation a) (push v m) rest h k =
      rw (part-append a [] rest)
        (other-starts_with a rest (v ++ 255 ∷ (m ++ 255 ∷ [])) b'$' refl (ground arith))
  get_prefix-starts (federation a) (federation b) rest h k =
      ground (arith, part-append a [] rest, starts_with-part a b rest [])
