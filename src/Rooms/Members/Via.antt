-- ===== src/Rooms/Members/Via.antt =====
-- The servers that an invite names: src/service/rooms/state_cache/via.rs. The joined bytes of a row are
-- the list of its servers.
use cinquain.Prelude.{Option, none, some, List, [], ◌∷◌, ◌++◌, ◌==◌, if◌then◌else◌}
use cinquain.Prelude.Map
use cinquain.Core.Errors.{Try, good, fault, panicked, ◌>>=◌}
use cinquain.Core.Bytes.{Bytes, bytes_eq, starts_with, comes_before}
use cinquain.Rooms.Members.{MemberTables}

-- `Vec::pop`.
unfoldable pub last : List Bytes → Option Bytes
last [] = none
last (server ∷ []) = some server
last (server ∷ next ∷ servers) = last (next ∷ servers)

-- `servers.pop().expect("at least one server")`.
unfoldable pub pop_server : Option Bytes → Try Bytes
pop_server none = fault panicked
pop_server (some server) = good server

unfoldable pub via_rows : Bytes → List (Bytes × List Bytes) → Try (List Bytes)
via_rows room_id [] = good []
via_rows room_id ((key, servers) ∷ rows) =
    let rest = via_rows room_id rows in
    if starts_with key room_id
    then (pop_server (last servers) >>= λ server. rest >>= λ others. good (server ∷ others))
    else rest

-- One place of `sort_unstable` and `dedup`.
unfoldable pub put_sorted : Bytes → List Bytes → List Bytes
put_sorted server [] = server ∷ []
put_sorted server (next ∷ servers) =
    let rest = put_sorted server servers in
    if server == next
    then next ∷ servers
    else if comes_before server next
    then server ∷ next ∷ servers
    else next ∷ rest

unfoldable pub sort_dedup : List Bytes → List Bytes
sort_dedup [] = []
sort_dedup (server ∷ servers) = put_sorted server (sort_dedup servers)

module _ {Pdu Stripped : Type 0} where
  unfoldable pub servers_invite_via : Bytes → MemberTables Pdu Stripped → Try (List Bytes)
  servers_invite_via room_id t = via_rows room_id t.roomid_inviteviaservers

  unfoldable pub put_via :
      Bytes → List Bytes → MemberTables Pdu Stripped → MemberTables Pdu Stripped
  put_via room_id servers t = record {
    joined = t.joined;
    invited = t.invited;
    left = t.left;
    knocked = t.knocked;
    roomuseroncejoinedids = t.roomuseroncejoinedids;
    totals = t.totals;
    roomid_inviteviaservers = Map.insert room_id servers t.roomid_inviteviaservers;
    counter = t.counter;
  }

  unfoldable pub add_servers_invite_via :
      Bytes → List Bytes → MemberTables Pdu Stripped → Try (MemberTables Pdu Stripped)
  add_servers_invite_via room_id servers t = servers_invite_via room_id t >>= λ stored.
      good (put_via room_id (sort_dedup (stored ++ servers)) t)
