-- ===== src/Sending/Keys.antt =====
-- Destinations and the keys of their requests: `Destination::get_prefix`
-- (src/service/sending/dest.rs), `queue_requests` and `parse_servercurrentevent`
-- (src/service/sending/data.rs).
use cinquain.Prelude.{
  ℕ, Bool, true, false, [], ◌∷◌, ◌++◌, ◌==◌, nat_eq, if◌then◌else◌, length, is_empty,
}
use cinquain.Core.Errors.{Try, good, fault, bad_database, panicked, ◌>>=◌, good_or}
use cinquain.Core.Bytes.{Bytes, to_be_bytes, starts_with, split_once}

-- A string is the list of its bytes.
pub data Destination : Type 0 where
  appservice : Bytes → Destination
  push : Bytes → Bytes → Destination
  federation : Bytes → Destination

pub data SendingEvent : Type 0 where
  pdu : Bytes → SendingEvent
  edu : Bytes → SendingEvent
  flush : SendingEvent

unfoldable pub get_prefix : Destination → Bytes
get_prefix (federation server) = server ++ 255 ∷ []
get_prefix (appservice server) = b'+' ∷ server ++ 255 ∷ []
get_prefix (push user pushkey) = b'$' ∷ user ++ 255 ∷ (pushkey ++ 255 ∷ [])

-- The key and the value of a queued request; `count` is what `next_count` returned.
unfoldable pub request_key : Destination → SendingEvent → ℕ → Bytes
request_key dest (pdu value) count = get_prefix dest ++ value
request_key dest event count = get_prefix dest ++ to_be_bytes 8 count

unfoldable pub request_value : SendingEvent → Bytes
request_value (edu value) = value
request_value event = []

-- `RawPduId::from` panics on a slice that has the length of no id.
unfoldable pub event_from : Bytes → Bytes → Try SendingEvent
event_from event value =
    if is_empty value
    then (if length event == 16
        then good (pdu event)
        else if length event == 24
        then good (pdu event)
        else fault panicked)
    else good (edu value)

abbrev pub rest_of : Bytes → Bytes
rest_of [] = []
rest_of (b ∷ bytes) = bytes

-- What the tests of strings, user ids and server names accept: `from_utf8`, `UserId::parse` and
-- `ServerName::parse`.
pub record Parsers : Type 0 where
  pub is_string : Bytes → Bool
  pub is_user_id : Bytes → Bool
  pub is_server_name : Bytes → Bool

abbrev pub valid_or_bad : Bool → Bytes → Try Bytes
valid_or_bad true text = good text
valid_or_bad false text = fault bad_database

module _ (parsers : Parsers) where
  unfoldable pub parse_appservice : Bytes → Bytes → Try (Destination × SendingEvent)
  parse_appservice key value = do
    event ← good_or bad_database (split_once key).1
    server ← valid_or_bad (parsers.is_string (split_once key).0) (split_once key).0
    sending ← event_from event value
    good (appservice server, sending)

  unfoldable pub parse_push : Bytes → Bytes → Try (Destination × SendingEvent)
  parse_push key value = do
    user_string ← valid_or_bad (parsers.is_string (split_once key).0) (split_once key).0
    user ← valid_or_bad (parsers.is_user_id user_string) user_string
    rest ← good_or bad_database (split_once key).1
    pushkey ← valid_or_bad (parsers.is_string (split_once rest).0) (split_once rest).0
    event ← good_or bad_database (split_once rest).1
    sending ← event_from event value
    good (push user pushkey, sending)

  unfoldable pub parse_federation : Bytes → Bytes → Try (Destination × SendingEvent)
  parse_federation key value = do
    event ← good_or bad_database (split_once key).1
    text ← valid_or_bad (parsers.is_string (split_once key).0) (split_once key).0
    server ← valid_or_bad (parsers.is_server_name text) text
    sending ← event_from event value
    good (federation server, sending)

  unfoldable pub parse_servercurrentevent : Bytes → Bytes → Try (Destination × SendingEvent)
  parse_servercurrentevent key value =
      if starts_with key (b'+' ∷ [])
      then parse_appservice (rest_of key) value
      else if starts_with key (b'$' ∷ [])
      then parse_push (rest_of key) value
      else parse_federation key value
