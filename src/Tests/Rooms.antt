-- ===== src/Tests/Rooms.antt =====
-- Instances of the theorems on memberships and short ids.
use cinquain.Prelude.{
  ◌≡◌, ◌↔◌, refl, true, false, none, some, List, [], ◌∷◌, ◌++◌, ◌==◌, nat_eq, contains, distinct,
  all, if◌then◌else◌, arith, pair_eq,
}
use cinquain.Core.Errors.{good}
use cinquain.Core.Bytes.{comes_before, Bytes, bytes_eq, starts_with}
use cinquain.Database.Ser.{sep_byte}
use cinquain.Matrix.{Membership}
use cinquain.Rooms.Members.{MemberTables, user_membership, once_joined}
use cinquain.Rooms.Members.Status.{Status}
use cinquain.Rooms.Members.Counts.{server_in_room, update_joined_count, rooms_joined}
use cinquain.Rooms.Members.Updates.{Services, FilterLevel}
use cinquain.Rooms.Members.Replay.{Call, act, run, replay, Represents, new, no_past}
use cinquain.Rooms.Members.Runs.{run-Represents}
use cinquain.Rooms.Members.Views.{new-Represents, user_membership-replay}
use cinquain.Rooms.Members.Presence.{server_in_room-joined}
use cinquain.Rooms.Members.Via.{add_servers_invite_via, servers_invite_via, put_via}
use cinquain.Rooms.Members.Lookups.{rooms_joined-prefix, add_servers_invite_via-one}
use cinquain.Rooms.Short.{
  get_shorteventid, get_eventid_from_short, multi_get_or_create_shorteventid,
}
use cinquain.Rooms.Short.Runs
use cinquain.Rooms.Short.Runs.{
  perform, perform-again, get_shorteventid_iff, empty, empty-IsConsistent,
}
use cinquain.Rooms.Short.Batches.{multi_get_or_create_shorteventid-one_by_one, one_by_one}

-- What stands behind the first colon.
abbrev behind_colon : Bytes → Bytes
behind_colon [] = []
behind_colon (b ∷ bytes) = let rest = behind_colon bytes in if b == 58 then bytes else rest

-- @a:h, @a:ho, @b:h and !r.
abbrev user_h : Bytes
user_h = 64 ∷ 97 ∷ 58 ∷ 104 ∷ []

abbrev user_ho : Bytes
user_ho = 64 ∷ 97 ∷ 58 ∷ 104 ∷ 111 ∷ []

abbrev other_h : Bytes
other_h = 64 ∷ 98 ∷ 58 ∷ 104 ∷ []

abbrev room_r : Bytes
room_r = 33 ∷ 114 ∷ []

-- A server whose events are their memberships, on which nobody is local.
abbrev services : Services Membership Unit
services = record {
  server_name = behind_colon;
  user_is_local = λ user. false;
  forget_forced_upon_leave = false;
  metadata = record { disabledroomids = []; bannedroomids = []; roomid_mindepth = [] };
  invite_filter_level = λ sender user. FilterLevel.allow;
  get_content = λ pdu. good pdu;
  sender = λ pdu. user_h;
  summary_stripped = λ pdu room user. [];
  copy_predecessor_data = λ room user. good tt;
}

abbrev calls : List (Call Membership Unit)
calls =
    Call.event user_h room_r Membership.invite false
    ∷ Call.event user_ho room_r Membership.join true
    ∷ Call.knocked other_h room_r none
    ∷ []

run-Represents_example : Represents (run services calls new) (replay services calls no_past)
run-Represents_example = run-Represents services calls new no_past new-Represents

user_membership-replay_example :
    user_membership user_h room_r (run services calls new) ≡ some Membership.invite
unfolding replay act
user_membership-replay_example = user_membership-replay services calls user_h room_r

server_in_room-joined_example :
    (server_in_room
        (104 ∷ 111 ∷ [])
        room_r
        (update_joined_count behind_colon room_r (run services calls new))
      ≡ true)
    ↔ ((user : Bytes) × ((replay services calls no_past user room_r).0 ≡ Status.joined)
        × (behind_colon user ≡ 104 ∷ 111 ∷ []))
server_in_room-joined_example = server_in_room-joined services calls room_r (104 ∷ 111 ∷ [])

rooms_joined-prefix_example :
    (contains (rooms_joined user_h (run services calls new)) room_r ≡ true) ↔ (
      (other : Bytes) × ((replay services calls no_past other room_r).0 ≡ Status.joined)
      × (starts_with (other ++ sep_byte ∷ room_r) user_h ≡ true))
rooms_joined-prefix_example = rooms_joined-prefix services calls user_h room_r

-- The invited user is listed to have joined, as the longer id has.
listed_by_prefix : contains (rooms_joined user_h (run services calls new)) room_r ≡ true
unfolding replay act starts_with
listed_by_prefix = (rooms_joined-prefix services calls user_h room_r).1 (user_ho, refl, refl)

abbrev servers : List Bytes
servers = (104 ∷ []) ∷ (104 ∷ 111 ∷ []) ∷ []

add_servers_invite_via-one_example :
    (after : MemberTables Membership Unit) × (server : Bytes) × (add_servers_invite_via room_r
        servers new
      ≡ good after)
    × (servers_invite_via room_r after ≡ good (server ∷ []))
    × (contains servers server ≡ true)
    × ((other : Bytes) → contains servers other ≡ true → comes_before server other ≡ false)
unfolding distinct all servers_invite_via cinquain.Rooms.Members.Via.via_rows
add_servers_invite_via-one_example =
    add_servers_invite_via-one room_r servers [] new refl refl refl refl

abbrev asked : List Runs.Call
asked = Runs.Call.event user_h ∷ Runs.Call.room room_r ∷ Runs.Call.event other_h ∷ []

perform-again_example :
    (let first = perform (Runs.Call.event user_ho) empty in
      let later = Runs.run asked first.1 in
      perform (Runs.Call.event user_ho) later ≡ (first.0, later))
perform-again_example =
    perform-again (Runs.Call.event user_ho) asked empty empty-IsConsistent (omega arith)

get_shorteventid_iff_example :
    (get_shorteventid other_h (Runs.run asked empty) ≡ good 3)
    ↔ (get_eventid_from_short 3 (Runs.run asked empty) ≡ good other_h)
get_shorteventid_iff_example = get_shorteventid_iff asked other_h 3 (omega arith)

multi_get_or_create_shorteventid-one_by_one_example :
    multi_get_or_create_shorteventid (user_h ∷ other_h ∷ []) empty
    ≡ one_by_one (user_h ∷ other_h ∷ []) empty
unfolding distinct contains
multi_get_or_create_shorteventid-one_by_one_example =
    multi_get_or_create_shorteventid-one_by_one (user_h ∷ other_h ∷ []) empty refl
