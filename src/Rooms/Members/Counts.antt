-- ===== src/Rooms/Members/Counts.antt =====
-- The streams of `state_cache` by prefix, and `update_joined_count`. A prefix that ends in `Interfix` is
-- that of the rows whose first id it is; `keys_raw_prefix` compares the bytes of the serialised key.
use cinquain.Prelude.{
  ℕ, ◌+◌, Bool, Option, none, some, List, [], ◌∷◌, ◌++◌, ◌==◌, contains, insert_new, remove,
  filter_map, length, ltb, any, pair_eq, option_eq, nat_eq, if◌then◌else◌,
}
use cinquain.Prelude.Map
use cinquain.Core.Bytes.{Bytes, bytes_eq, starts_with}
use cinquain.Core.Words.{u64_end}
use cinquain.Database.Ser.{sep_byte}
use cinquain.Rooms.Members.{Key, MemberTables, is_joined}

-- The second ids of the rows with some first id.
unfoldable pub keys_prefix : Bytes → List Key → List Bytes
keys_prefix first [] = []
keys_prefix first ((id, other) ∷ rows) =
    let rest = keys_prefix first rows in if id == first then other ∷ rest else rest

-- The second ids of the rows whose key starts with some bytes.
unfoldable pub keys_raw_prefix : Bytes → List Key → List Bytes
keys_raw_prefix prefix [] = []
keys_raw_prefix prefix ((id, other) ∷ rows) =
    let rest = keys_raw_prefix prefix rows in
    if starts_with (id ++ sep_byte ∷ other) prefix then other ∷ rest else rest

-- The rows of a room alone have no second id.
abbrev user_of : Bytes × Option Bytes → Option Key
user_of (room_id, none) = none
user_of (room_id, some user_id) = some (room_id, user_id)

-- `saturating_add` of a `u64`.
unfoldable pub add_saturating : ℕ → ℕ → ℕ
add_saturating a b = if ltb (a + b) u64_end then a + b else 18446744073709551615

module _ {Pdu Stripped : Type 0} where
  unfoldable pub room_members : Bytes → MemberTables Pdu Stripped → List Bytes
  room_members room_id t = keys_prefix room_id t.joined.roomuserid_joined

  unfoldable pub room_members_invited : Bytes → MemberTables Pdu Stripped → List Bytes
  room_members_invited room_id t = keys_prefix room_id (Map.keys t.invited.roomuserid_invitecount)

  unfoldable pub room_members_knocked : Bytes → MemberTables Pdu Stripped → List Bytes
  room_members_knocked room_id t =
      keys_prefix room_id (filter_map user_of (Map.keys t.knocked.roomuserid_knockedcount))

  unfoldable pub room_useroncejoined : Bytes → MemberTables Pdu Stripped → List Bytes
  room_useroncejoined room_id t = keys_prefix room_id t.roomuseroncejoinedids

  unfoldable pub room_servers : Bytes → MemberTables Pdu Stripped → List Bytes
  room_servers room_id t = keys_prefix room_id t.totals.roomserverids

  unfoldable pub server_rooms : Bytes → MemberTables Pdu Stripped → List Bytes
  server_rooms server t = keys_prefix server t.totals.serverroomids

  unfoldable pub server_in_room : Bytes → Bytes → MemberTables Pdu Stripped → Bool
  server_in_room server room_id t = contains t.totals.serverroomids (server, room_id)

  unfoldable pub rooms_joined : Bytes → MemberTables Pdu Stripped → List Bytes
  rooms_joined user_id t = keys_raw_prefix user_id t.joined.userroomid_joined

  unfoldable pub server_sees_user : Bytes → Bytes → MemberTables Pdu Stripped → Bool
  server_sees_user server user_id t =
      any (λ room_id. is_joined user_id room_id t) (server_rooms server t)

  unfoldable pub room_joined_count : Bytes → MemberTables Pdu Stripped → Option ℕ
  room_joined_count room_id t = Map.get room_id t.totals.roomid_joinedcount

  unfoldable pub room_invited_count : Bytes → MemberTables Pdu Stripped → Option ℕ
  room_invited_count room_id t = Map.get room_id t.totals.roomid_invitedcount

module _ (server_name : Bytes → Bytes) where
  -- The servers and the number of the joined members.
  unfoldable pub count_joined : List Bytes → List Bytes × ℕ → List Bytes × ℕ
  count_joined [] counted = counted
  count_joined (joined ∷ members) (joined_servers, joinedcount) =
      count_joined members
        (insert_new (server_name joined) joined_servers, add_saturating joinedcount 1)

-- The servers that were in the room: those that still are leave `joined_servers`, the others leave
-- the tables.
unfoldable pub drop_servers :
    Bytes → List Bytes → List Bytes × List Key × List Key → List Bytes × List Key × List Key
drop_servers room_id [] state = state
drop_servers room_id (old ∷ olds) (joined_servers, roomserverids, serverroomids) =
    drop_servers room_id olds (
      if contains joined_servers old
      then (remove old joined_servers, roomserverids, serverroomids)
      else (
        joined_servers,
        remove (room_id, old) roomserverids,
        remove (old, room_id) serverroomids,
      ))

unfoldable pub add_servers : Bytes → List Bytes → List Key × List Key → List Key × List Key
add_servers room_id [] state = state
add_servers room_id (server ∷ servers) (roomserverids, serverroomids) =
    add_servers room_id servers
      (insert_new (room_id, server) roomserverids, insert_new (server, room_id) serverroomids)

unfoldable pub update_servers :
    Bytes → List Bytes → List Bytes → List Key × List Key → List Key × List Key
update_servers room_id olds joined_servers (roomserverids, serverroomids) =
    let dropped = drop_servers room_id olds (joined_servers, roomserverids, serverroomids) in
    add_servers room_id dropped.0 (dropped.1, dropped.2)

module _ {Pdu Stripped : Type 0} (server_name : Bytes → Bytes) where
  unfoldable pub update_joined_count : Bytes → MemberTables Pdu Stripped → MemberTables Pdu Stripped
  update_joined_count room_id t =
      let counted = count_joined server_name (room_members room_id t) ([], 0) in
      let invitedcount = add_saturating 0 (length (room_members_invited room_id t)) in
      let knockedcount = add_saturating 0 (length (room_members_knocked room_id t)) in
      let servers =
        update_servers room_id (room_servers room_id t) counted.0
          (t.totals.roomserverids, t.totals.serverroomids) in
      record {
        joined = t.joined;
        invited = t.invited;
        left = t.left;
        knocked = record {
          userroomid_knockedstate = t.knocked.userroomid_knockedstate;
          roomuserid_knockedcount =
              Map.insert (room_id, none) knockedcount t.knocked.roomuserid_knockedcount;
        };
        roomuseroncejoinedids = t.roomuseroncejoinedids;
        totals = record {
          roomid_joinedcount = Map.insert room_id counted.1 t.totals.roomid_joinedcount;
          roomid_invitedcount = Map.insert room_id invitedcount t.totals.roomid_invitedcount;
          roomserverids = servers.0;
          serverroomids = servers.1;
          appservice_in_room_cache = Map.delete room_id t.totals.appservice_in_room_cache;
        };
        roomid_inviteviaservers = t.roomid_inviteviaservers;
        counter = t.counter;
      }
