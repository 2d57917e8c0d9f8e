-- ===== src/Lib.antt =====
-- A Matrix homeserver: state resolution and event authorisation (core/matrix/state_res), the storage of
-- room states, the sending of events, and the formats and helpers that these stand on.
--
-- The program is a Matrix homeserver. Servers of a room see its events in different orders, and so
-- hold different state sets. `resolve` merges them: `separate` splits what all sets agree on from
-- what is in conflict; the conflicting events and the difference of their auth chains are split into
-- power events and others; the power events are sorted topologically and authorised one by one, the
-- others are sorted by the mainline of the resolved power levels and authorised after them. Each
-- authorisation is `auth_check`, which the server also runs on every event that it receives.
-- A resolved state is stored by the state compressor as a stack of differences to earlier states. What
-- the server has to tell other servers, appservices and push gateways is queued in a table by
-- destination; the workers of the sending service move it to a table of active requests while a
-- transaction with it is in flight, and try again with a growing delay where one fails. The membership
-- tables hold who is joined, invited, has left or knocks, by user and by room; events, state keys, states and
-- rooms have short ids, counted upwards, in the tables and the bytes of room states. Tables have
-- tuples as keys, which the database serialiser writes, and ids of events, which sort a timeline.
--
-- Files, and the sources that they model (paths from the repository's root):
--   Prelude/*        lists, maps, equality, orders and integers; no source.
--   Matrix/Errors    src/core/matrix/state_res/error.rs.
--   Matrix/Contents  the content structs that event_auth.rs and power_levels.rs deserialise.
--   Matrix/Events    the accessors of the trait in src/core/matrix/event.rs, and the rules of a
--                    room version.
--   Matrix/Foreign   what the code calls of ruma and serde, as the record `Ruma`; `room_id_or_hash`
--                    of src/core/matrix/pdu.rs.
--   Auth/Types       `auth_types_for_event` of src/core/matrix/state_res/event_auth.rs.
--   Auth/Levels      src/core/matrix/state_res/power_levels.rs and serde_backports.rs, with
--                    `get_send_level` and `can_send_event` of event_auth.rs.
--   Auth/PowerEvent  `check_power_levels` and `get_deserialize_levels` of event_auth.rs.
--   Auth/Membership  `valid_membership_change`, `is_creator`, `verify_third_party_invite`.
--   Auth/Check       `auth_check` and `check_redaction`.
--   Auth/Creators    who is a privileged creator, for the three functions that work it out.
--   Resolve/Separate  `separate` and `get_auth_chain_diff` of src/core/matrix/state_res/mod.rs.
--   Resolve/Subgraph  `calculate_conflicted_subgraph`.
--   Resolve/Sort      `lexicographical_topological_sort`.
--   Resolve/PowerSort `reverse_topological_power_sort`, `add_event_and_auth_chain_to_graph` and
--                     `get_power_level_for_sender`.
--   Resolve/Iterative `iterative_auth_check`.
--   Resolve/Mainline  `mainline_sort` and `get_mainline_depth`.
--   Resolve/Events    `is_power_event`, `is_power_event_id` and `is_type_and_key`.
--   Resolve           `resolve`.
--   Core/Errors      the variants of `Error` of src/core/error/mod.rs that the parts below return.
--   Core/Words       `checked!` of src/core/utils/math.rs.
--   Core/Bytes       big endian numbers, prefixes and the order of byte strings.
--   State/Layers     src/service/rooms/state_compressor/mod.rs: save_state, save_state_from_diff,
--                    new_shortstatehash_info; its child Format: get_statediff, save_statediff.
--   Rooms/Members    src/service/rooms/state_cache: mod.rs, with its children Updates (update.rs),
--                    Counts (update_joined_count and the streams) and Via (via.rs).
--   Rooms/Metadata   src/service/rooms/metadata/mod.rs.
--   Rooms/Short      src/service/rooms/short/mod.rs; Rooms/Counter is next_count of
--                    src/service/globals/data.rs.
--   Sending/Keys     src/service/sending/dest.rs, and queue_requests and parse_servercurrentevent of
--                    src/service/sending/data.rs.
--   Sending/Rows     `Data` of src/service/sending/data.rs.
--   Sending/Backoff  src/core/utils/time/exponential_backoff.rs.
--   Sending/Sender   src/service/sending/sender.rs, by the names of its functions.
--   Database/Ser, De src/database/ser.rs and src/database/de.rs.
--   Pdu/Counts, Ids  src/core/matrix/pdu/count.rs, id.rs and raw_id.rs.
--   Media            `Dim` and get_thumbnail of src/service/media/thumbnail.rs.
--   Typing           src/service/rooms/typing/mod.rs.
--   Utils/Sets       src/core/utils/set.rs.
--   Tests/*           runs at concrete events, and instances of the theorems.
-- A long function of the source is several definitions here, one for each of its sections, composed
-- in the order of the code; a file below a component's file holds theorems on it.
--
-- Representation. Identifiers, event types and state keys are texts. `Int` is an integer without
-- bounds: the code compares levels and never computes with them. Timestamps and counters are natural
-- numbers; the counters of `separate` do not saturate. A `HashMap` or `BTreeMap` is an association
-- list in the order of first insertion, a set a list without repetition. The order in which a hash
-- map is iterated is thereby fixed; the code sorts what it iterates, or looks it up by key.
-- The content of an event is not JSON text: `Content` holds what serde returns for it at each type
-- that the code deserialises it to. `Raw` is such a result as well. The closures that fetch events
-- are functions that return the same event each time. A failed `unwrap` or `expect` is the error
-- `panicked`. Sorting, the heap and binary search of the standard library are modelled by what they
-- return. `completion` is the order in which the concurrent fetches of a stream complete; everything
-- else about scheduling is left out.
-- In the parts outside state resolution, a table of the database is a list of rows in the order of the
-- keys, or a map; durations and instants are nanoseconds; a `u64` is a natural number, its wrap-around
-- and saturation written out; `Try` is a result with the variant of the error, and `panicked` stands for
-- a failed `expect` there too. A worker of the sending service is a state with its tables, statuses and
-- transactions in flight; `Step` is one round of its loop, a request or the answer to any transaction in
-- flight; rows that other tasks queue between the rounds are no step of it. The EDUs that `select_edus`
-- finds and what a transaction answers are arbitrary.
--
-- Fuel. The `while` loops over events (`mainline`, `get_mainline_depth`, `grow`, `walk`) take fuel and
-- return `out_of_fuel` when it ends, since nothing in the code keeps the events that a closure returns
-- from naming each other in a circle; for the mainline, a rank that falls along auth events bounds it.
-- The loop over the heap needs a round for each node of the graph
-- and one more, and is given as many. Loading a room state takes fuel for each layer; four is enough for
-- what save_state has stored. Reading a stored difference has one round for each byte of it and one more.
--
-- Not modelled: the texts of errors and logs, the third party invite that `auth_check` passes to
-- `verify_third_party_invite`, which ignores it; the cache in front of the differences of room states, the one of the appservices in a
-- room, what a change of membership does in other services; the contents of EDUs and the requests over the network; JSON and CBOR
-- values in the database; the files of media; and the rest of the server: RocksDB, the other services,
-- request handlers, admin commands and configuration.

pub mod Prelude
pub mod Matrix
pub mod Auth
pub mod Resolve
pub mod Core
pub mod State
pub mod Sending
pub mod Pdu
pub mod Database
pub mod Media
pub mod Rooms
pub mod Typing
pub mod Utils
mod Tests
