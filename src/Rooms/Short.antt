-- ===== src/Rooms/Short.antt =====
-- Short ids: src/service/rooms/short/mod.rs. The ids are byte strings; a stored short id is always eight
-- bytes, so that reading it back does not fail.
pub mod Inverse
pub mod Growth
pub mod Runs
pub mod Batches
use cinquain.Prelude.{ℕ, Bool, true, false, Option, none, some, List, [], ◌∷◌, pair_eq, nat_eq, map}
use cinquain.Prelude.Map
use cinquain.Core.Errors.{Try, good, fault, not_found, database, good_or}
use cinquain.Core.Bytes.{Bytes, bytes_eq}
use cinquain.Rooms.Counter.{next_count}

-- An event type and a state key.
abbrev pub StateKey : Type 0
StateKey = Bytes × Bytes

-- Short ids of some kind of key, and the keys of the short ids.
pub record Pair (Key : Type 0) : Type 0 where
  pub short_of : List (Key × ℕ)
  pub key_of : List (ℕ × Key)

pub record Data : Type 0 where
  pub eventids : Pair Bytes  -- eventid_shorteventid, shorteventid_eventid
  pub statekeys : Pair StateKey  -- statekey_shortstatekey, shortstatekey_statekey
  pub roomid_shortroomid : List (Bytes × ℕ)
  pub statehash_shortstatehash : List (Bytes × ℕ)
  pub counter : ℕ

unfoldable pub get_shorteventid : Bytes → Data → Try ℕ
get_shorteventid event_id d = good_or not_found (Map.get event_id d.eventids.short_of)

unfoldable pub create_shorteventid : Bytes → Data → ℕ × Data
create_shorteventid event_id d =
    let short = next_count d.counter in
    (
      short,
      record {
        eventids = record {
          short_of = Map.insert event_id short d.eventids.short_of;
          key_of = Map.insert short event_id d.eventids.key_of;
        };
        statekeys = d.statekeys;
        roomid_shortroomid = d.roomid_shortroomid;
        statehash_shortstatehash = d.statehash_shortstatehash;
        counter = short;
      },
    )

abbrev pub or_create : Try ℕ → Data → (Data → ℕ × Data) → ℕ × Data
or_create (good short) d create = (short, d)
or_create (fault x) d create = create d

unfoldable pub get_or_create_shorteventid : Bytes → Data → ℕ × Data
get_or_create_shorteventid event_id d =
    or_create (get_shorteventid event_id d) d (create_shorteventid event_id)

unfoldable pub get_shortstatekey : Bytes → Bytes → Data → Try ℕ
get_shortstatekey event_type state_key d =
    good_or not_found (Map.get (event_type, state_key) d.statekeys.short_of)

unfoldable pub create_shortstatekey : StateKey → Data → ℕ × Data
create_shortstatekey key d =
    let short = next_count d.counter in
    (
      short,
      record {
        eventids = d.eventids;
        statekeys = record {
          short_of = Map.insert key short d.statekeys.short_of;
          key_of = Map.insert short key d.statekeys.key_of;
        };
        roomid_shortroomid = d.roomid_shortroomid;
        statehash_shortstatehash = d.statehash_shortstatehash;
        counter = short;
      },
    )

unfoldable pub get_or_create_shortstatekey : Bytes → Bytes → Data → ℕ × Data
get_or_create_shortstatekey event_type state_key d =
    or_create (get_shortstatekey event_type state_key d) d
      (create_shortstatekey (event_type, state_key))

unfoldable pub get_eventid_from_short : ℕ → Data → Try Bytes
get_eventid_from_short shorteventid d = good_or database (Map.get shorteventid d.eventids.key_of)

unfoldable pub get_statekey_from_short : ℕ → Data → Try StateKey
get_statekey_from_short shortstatekey d =
    good_or database (Map.get shortstatekey d.statekeys.key_of)

unfoldable pub create_shortstatehash : Bytes → Data → ℕ × Data
create_shortstatehash state_hash d =
    let short = next_count d.counter in
    (
      short,
      record {
        eventids = d.eventids;
        statekeys = d.statekeys;
        roomid_shortroomid = d.roomid_shortroomid;
        statehash_shortstatehash = Map.insert state_hash short d.statehash_shortstatehash;
        counter = short;
      },
    )

-- The test is whether the hash was there.
unfoldable pub hash_or_create : Option ℕ → Bytes → Data → (ℕ × Bool) × Data
hash_or_create (some short) state_hash d = ((short, true), d)
hash_or_create none state_hash d =
    let created = create_shortstatehash state_hash d in ((created.0, false), created.1)

unfoldable pub get_or_create_shortstatehash : Bytes → Data → (ℕ × Bool) × Data
get_or_create_shortstatehash state_hash d =
    hash_or_create (Map.get state_hash d.statehash_shortstatehash) state_hash d

unfoldable pub get_shortroomid : Bytes → Data → Try ℕ
get_shortroomid room_id d = good_or not_found (Map.get room_id d.roomid_shortroomid)

unfoldable pub create_shortroomid : Bytes → Data → ℕ × Data
create_shortroomid room_id d =
    let short = next_count d.counter in
    (
      short,
      record {
        eventids = d.eventids;
        statekeys = d.statekeys;
        roomid_shortroomid = Map.insert room_id short d.roomid_shortroomid;
        statehash_shortstatehash = d.statehash_shortstatehash;
        counter = short;
      },
    )

unfoldable pub get_or_create_shortroomid : Bytes → Data → ℕ × Data
get_or_create_shortroomid room_id d =
    or_create (get_shortroomid room_id d) d (create_shortroomid room_id)

-- The results of the lookups of a chunk, which are made before the stream goes on, beside its ids.
unfoldable pub zip_create : List Bytes → List (Try ℕ) → Data → List ℕ × Data
zip_create [] results d = ([], d)
zip_create (event_id ∷ event_ids) [] d = ([], d)
zip_create (event_id ∷ event_ids) (result ∷ results) d =
    let first = or_create result d (create_shorteventid event_id) in
    let rest = zip_create event_ids results first.1 in (first.0 ∷ rest.0, rest.1)

-- On as many ids as one chunk holds.
unfoldable pub multi_get_or_create_shorteventid : List Bytes → Data → List ℕ × Data
multi_get_or_create_shorteventid event_ids d =
    zip_create event_ids (map (λ event_id. get_shorteventid event_id d) event_ids) d

unfoldable pub multi_get_eventid_from_short : List ℕ → Data → List (Try Bytes)
multi_get_eventid_from_short shorts d =
    map (λ short. good_or not_found (Map.get short d.eventids.key_of)) shorts

unfoldable pub multi_get_statekey_from_short : List ℕ → Data → List (Try StateKey)
multi_get_statekey_from_short shorts d =
    map (λ short. good_or not_found (Map.get short d.statekeys.key_of)) shorts

unfoldable pub zip_state : List (Try StateKey) → List (Try Bytes) → List (Try (StateKey × Bytes))
zip_state [] events = []
zip_state (key ∷ keys) [] = []
zip_state (good state_key ∷ keys) (good event_id ∷ events) =
    good (state_key, event_id) ∷ zip_state keys events
zip_state (good state_key ∷ keys) (fault x ∷ events) = fault x ∷ zip_state keys events
zip_state (fault x ∷ keys) (event ∷ events) = fault x ∷ zip_state keys events

unfoldable pub multi_get_state_from_short : List (ℕ × ℕ) → Data → List (Try (StateKey × Bytes))
multi_get_state_from_short short_state d =
    zip_state (multi_get_statekey_from_short (map (λ s. s.0) short_state) d)
      (multi_get_eventid_from_short (map (λ s. s.1) short_state) d)
