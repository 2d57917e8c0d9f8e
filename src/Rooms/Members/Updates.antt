-- ===== src/Rooms/Members/Updates.antt =====
-- Changes of a membership: `mark_as_left`, `mark_as_invited` and `update_membership` of
-- src/service/rooms/state_cache/update.rs. What a function returns stands beside the tables that it
-- leaves, after an error too. Of other services: `copy_predecessor_data` copies tags and the direct chat
-- flag and may fail; a remote user is recorded and a sync loop woken outside of these tables.
use cinquain.Prelude.{
  Bool, true, false, ◌&&◌, ◌||◌, Option, none, some, List, [], is_empty, pair_eq, option_eq,
  if◌then◌else◌,
}
use cinquain.Prelude.Map
use cinquain.Core.Errors.{Try, good, fault, invite_blocked}
use cinquain.Core.Bytes.{Bytes, bytes_eq}
use cinquain.Matrix.{Membership}
use cinquain.Rooms.Counter.{next_count}
use cinquain.Rooms.Metadata.{Metadata, is_banned, is_disabled}
use cinquain.Rooms.Members.{
  MemberTables, remove_joined, remove_left, remove_knocked, mark_as_joined, put_left, forget,
  once_joined, mark_as_once_joined,
}
use cinquain.Rooms.Members.Counts.{update_joined_count}
use cinquain.Rooms.Members.Via.{add_servers_invite_via}

-- A result without a value.
abbrev pub Done : Type 0
Done = Try {0} Unit

-- The levels of the invite filter of a user.
pub data FilterLevel : Type 0 where
  allow ignore block : FilterLevel

abbrev pub is_block : FilterLevel → Bool
is_block FilterLevel.block = true
is_block _ = false

-- What the tables need of the other services.
pub record Services (Pdu Stripped : Type 0) : Type 0 where
  pub server_name : Bytes → Bytes
  pub user_is_local : Bytes → Bool
  pub forget_forced_upon_leave : Bool
  pub metadata : Metadata
  pub invite_filter_level : Bytes → Bytes → FilterLevel
  pub get_content : Pdu → Try Membership
  pub sender : Pdu → Bytes
  pub summary_stripped : Pdu → Bytes → Bytes → List Stripped
  pub copy_predecessor_data : Bytes → Bytes → Done

module _ {Pdu Stripped : Type 0} where
  -- `mark_as_invited` up to the servers of the invite.
  unfoldable pub put_invited :
      Bytes → Bytes → Bytes → List Stripped → MemberTables Pdu Stripped → MemberTables Pdu Stripped
  put_invited user_id room_id sender_user last_state t = record {
    joined = remove_joined user_id room_id t.joined;
    invited = record {
      userroomid_invitestate =
          Map.insert (user_id, room_id) last_state t.invited.userroomid_invitestate;
      roomuserid_invitecount =
          Map.insert (room_id, user_id) (next_count t.counter) t.invited.roomuserid_invitecount;
      userroomid_invitesender =
          Map.insert (user_id, room_id) sender_user t.invited.userroomid_invitesender;
    };
    left = remove_left user_id room_id t.left;
    knocked = remove_knocked user_id room_id t.knocked;
    roomuseroncejoinedids = t.roomuseroncejoinedids;
    totals = t.totals;
    roomid_inviteviaservers = t.roomid_inviteviaservers;
    counter = next_count t.counter;
  }

  abbrev pub if_added :
      MemberTables Pdu Stripped → Try (MemberTables Pdu Stripped) → Done × MemberTables Pdu Stripped
  if_added before (fault x) = (fault x, before)
  if_added before (good after) = (good tt, after)

  abbrev pub add_via :
      Bytes → Option (List Bytes) → MemberTables Pdu Stripped → Done × MemberTables Pdu Stripped
  add_via room_id none t = (good tt, t)
  add_via room_id (some servers) t =
      if is_empty servers
      then (good tt, t)
      else if_added t (add_servers_invite_via room_id servers t)

  -- Goes on with the tables if there was no error.
  abbrev pub and_then :
      Done × MemberTables Pdu Stripped
      → (MemberTables Pdu Stripped → MemberTables Pdu Stripped)
      → Done × MemberTables Pdu Stripped
  and_then (fault x, t) next = (fault x, t)
  and_then (good u, t) next = (good tt, next t)

  module _ (services : Services Pdu Stripped) where
    unfoldable pub mark_as_left :
        Bytes → Bytes → Option Pdu → MemberTables Pdu Stripped → MemberTables Pdu Stripped
    mark_as_left user_id room_id leave_pdu t =
        let left = put_left user_id room_id leave_pdu t in
        if services.user_is_local user_id
          && (services.forget_forced_upon_leave
              || is_banned room_id services.metadata
              || is_disabled room_id services.metadata)
        then forget room_id user_id left
        else left

    unfoldable pub mark_as_invited :
        Bytes
        → Bytes
        → Bytes
        → List Stripped
        → Option (List Bytes)
        → MemberTables Pdu Stripped
        → Done × MemberTables Pdu Stripped
    mark_as_invited user_id room_id sender_user last_state invite_via t =
        if is_block (services.invite_filter_level sender_user user_id)
        then (fault invite_blocked, t)
        else add_via room_id invite_via (put_invited user_id room_id sender_user last_state t)

    -- The arm of a join.
    unfoldable pub update_join :
        Bytes → Bytes → MemberTables Pdu Stripped → Done × MemberTables Pdu Stripped
    update_join room_id user_id t =
        let once = mark_as_once_joined user_id room_id t in
        and_then
          (if once_joined user_id room_id t
            then (good tt, t)
            else if services.user_is_local user_id
            then (services.copy_predecessor_data room_id user_id, once)
            else (good tt, once))
          (mark_as_joined user_id room_id)

    unfoldable pub update_arm :
        Membership
        → Bytes
        → Bytes
        → Pdu
        → MemberTables Pdu Stripped
        → Done × MemberTables Pdu Stripped
    update_arm Membership.join room_id user_id pdu t = update_join room_id user_id t
    update_arm Membership.invite room_id user_id pdu t =
        mark_as_invited user_id room_id (services.sender pdu)
          (if services.user_is_local user_id
            then services.summary_stripped pdu room_id user_id
            else [])
          none t
    update_arm Membership.leave room_id user_id pdu t =
        (good tt, mark_as_left user_id room_id (some pdu) t)
    update_arm Membership.ban room_id user_id pdu t =
        (good tt, mark_as_left user_id room_id (some pdu) t)
    update_arm Membership.knock room_id user_id pdu t = (good tt, t)
    update_arm Membership.custom room_id user_id pdu t = (good tt, t)

    abbrev pub update_if : Bool → Bytes → MemberTables Pdu Stripped → MemberTables Pdu Stripped
    update_if true room_id t = update_joined_count services.server_name room_id t
    update_if false room_id t = t

    abbrev pub update_content :
        Try Membership
        → Bytes
        → Bytes
        → Pdu
        → Bool
        → MemberTables Pdu Stripped
        → Done × MemberTables Pdu Stripped
    update_content (fault x) room_id user_id pdu count t = (fault x, t)
    update_content (good membership) room_id user_id pdu count t =
        and_then (update_arm membership room_id user_id pdu t) (update_if count room_id)

    unfoldable pub update_membership :
        Bytes → Bytes → Pdu → Bool → MemberTables Pdu Stripped → Done × MemberTables Pdu Stripped
    update_membership room_id user_id pdu count t =
        update_content (services.get_content pdu) room_id user_id pdu count t
