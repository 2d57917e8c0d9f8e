-- ===== src/Rooms/Members.antt =====
-- The membership tables of the service `state_cache`: src/service/rooms/state_cache/mod.rs and
-- update.rs. A key is the pair of the ids that it is serialised from; a table without values is the
-- set of its keys.
pub mod Status
pub mod Refines
pub mod Replay
pub mod Refinement
pub mod Runs
pub mod Servers
pub mod Views
pub mod Presence
pub mod Lookups
pub mod Counts
pub mod Updates
pub mod Via
pub mod Greatest
use cinquain.Prelude.{
  ℕ, Bool, true, false, ◌||◌, ◌&&◌, not, Option, none, some, List, [], ◌∷◌, Eq, ◌==◌, contains,
  insert_new, remove, pair_eq, option_eq, if◌then◌else◌,
}
use cinquain.Prelude.Map
use cinquain.Core.Errors.{Try, good, fault, forbidden}
use cinquain.Core.Bytes.{Bytes, bytes_eq}
use cinquain.Matrix.{Membership}
use cinquain.Rooms.Counter.{next_count}
use cinquain.Rooms.Metadata.{Metadata, is_banned, is_disabled}

abbrev pub Key : Type 0
Key = Bytes × Bytes

-- The tables of those who joined: (user, room) and (room, user).
pub record Joined : Type 0 where
  pub userroomid_joined : List Key
  pub roomuserid_joined : List Key

pub record Invited (Stripped : Type 0) : Type 0 where
  pub userroomid_invitestate : List (Key × List Stripped)
  pub roomuserid_invitecount : List (Key × ℕ)
  pub userroomid_invitesender : List (Key × Bytes)

pub record Left (Pdu : Type 0) : Type 0 where
  pub userroomid_leftstate : List (Key × Option Pdu)
  pub roomuserid_leftcount : List (Key × ℕ)

-- A key of `roomuserid_knockedcount` is a room and a user, or a room alone.
pub record Knocked (Stripped : Type 0) : Type 0 where
  pub userroomid_knockedstate : List (Key × List Stripped)
  pub roomuserid_knockedcount : List ((Bytes × Option Bytes) × ℕ)

-- The tables by room: its counts, its servers as (room, server) and (server, room), and the servers that
-- an invite named.
pub record Totals : Type 0 where
  pub roomid_joinedcount : List (Bytes × ℕ)
  pub roomid_invitedcount : List (Bytes × ℕ)
  pub roomserverids : List Key
  pub serverroomids : List Key
  pub appservice_in_room_cache : List (Bytes × List (Bytes × Bool))

pub record MemberTables (Pdu Stripped : Type 0) : Type 0 where
  pub joined : Joined
  pub invited : Invited Stripped
  pub left : Left Pdu
  pub knocked : Knocked Stripped
  pub roomuseroncejoinedids : List Key
  pub totals : Totals
  pub roomid_inviteviaservers : List (Bytes × List Bytes)
  pub counter : ℕ

unfoldable pub remove_joined : Bytes → Bytes → Joined → Joined
remove_joined user_id room_id t = record {
  userroomid_joined = remove (user_id, room_id) t.userroomid_joined;
  roomuserid_joined = remove (room_id, user_id) t.roomuserid_joined;
}

unfoldable pub remove_invited :
    {Stripped : Type 0} → Bytes → Bytes → Invited Stripped → Invited Stripped
remove_invited user_id room_id t = record {
  userroomid_invitestate = Map.delete (user_id, room_id) t.userroomid_invitestate;
  roomuserid_invitecount = Map.delete (room_id, user_id) t.roomuserid_invitecount;
  userroomid_invitesender = Map.delete (user_id, room_id) t.userroomid_invitesender;
}

unfoldable pub remove_left : {Pdu : Type 0} → Bytes → Bytes → Left Pdu → Left Pdu
remove_left user_id room_id t = record {
  userroomid_leftstate = Map.delete (user_id, room_id) t.userroomid_leftstate;
  roomuserid_leftcount = Map.delete (room_id, user_id) t.roomuserid_leftcount;
}

unfoldable pub remove_knocked :
    {Stripped : Type 0} → Bytes → Bytes → Knocked Stripped → Knocked Stripped
remove_knocked user_id room_id t = record {
  userroomid_knockedstate = Map.delete (user_id, room_id) t.userroomid_knockedstate;
  roomuserid_knockedcount = Map.delete (room_id, some user_id) t.roomuserid_knockedcount;
}

abbrev pub has {ℓ} : {K V : Type ℓ} ⦃e : Eq K⦄ → K → List (K × V) → Bool
has k m = contains (Map.keys m) k

abbrev pub or_no_events : {Item : Type 0} → Option (List Item) → List Item
or_no_events none = []
or_no_events (some items) = items

module _ {Pdu Stripped : Type 0} where
  unfoldable pub mark_as_joined :
      Bytes → Bytes → MemberTables Pdu Stripped → MemberTables Pdu Stripped
  mark_as_joined user_id room_id t = record {
    joined = record {
      userroomid_joined = insert_new (user_id, room_id) t.joined.userroomid_joined;
      roomuserid_joined = insert_new (room_id, user_id) t.joined.roomuserid_joined;
    };
    invited = remove_invited user_id room_id t.invited;
    left = remove_left user_id room_id t.left;
    knocked = remove_knocked user_id room_id t.knocked;
    roomuseroncejoinedids = t.roomuseroncejoinedids;
    totals = t.totals;
    roomid_inviteviaservers = Map.delete room_id t.roomid_inviteviaservers;
    counter = t.counter;
  }

  unfoldable pub forget : Bytes → Bytes → MemberTables Pdu Stripped → MemberTables Pdu Stripped
  forget room_id user_id t = record {
    joined = t.joined;
    invited = t.invited;
    left = remove_left user_id room_id t.left;
    knocked = t.knocked;
    roomuseroncejoinedids = t.roomuseroncejoinedids;
    totals = t.totals;
    roomid_inviteviaservers = t.roomid_inviteviaservers;
    counter = t.counter;
  }

  -- `mark_as_left` up to the forgetting of the room.
  unfoldable pub put_left :
      Bytes → Bytes → Option Pdu → MemberTables Pdu Stripped → MemberTables Pdu Stripped
  put_left user_id room_id leave_pdu t = record {
    joined = remove_joined user_id room_id t.joined;
    invited = remove_invited user_id room_id t.invited;
    left = record {
      userroomid_leftstate = Map.insert (user_id, room_id) leave_pdu t.left.userroomid_leftstate;
      roomuserid_leftcount =
          Map.insert (room_id, user_id) (next_count t.counter) t.left.roomuserid_leftcount;
    };
    knocked = remove_knocked user_id room_id t.knocked;
    roomuseroncejoinedids = t.roomuseroncejoinedids;
    totals = t.totals;
    roomid_inviteviaservers = Map.delete room_id t.roomid_inviteviaservers;
    counter = next_count t.counter;
  }

  unfoldable pub mark_as_knocked :
      Bytes → Bytes → Option (List Stripped) → MemberTables Pdu Stripped → MemberTables Pdu Stripped
  mark_as_knocked user_id room_id knocked_state t = record {
    joined = remove_joined user_id room_id t.joined;
    invited = remove_invited user_id room_id t.invited;
    left = remove_left user_id room_id t.left;
    knocked = record {
      userroomid_knockedstate =
          Map.insert (user_id, room_id) (or_no_events knocked_state)
            t.knocked.userroomid_knockedstate;
      roomuserid_knockedcount =
          Map.insert (room_id, some user_id) (next_count t.counter)
            t.knocked.roomuserid_knockedcount;
    };
    roomuseroncejoinedids = t.roomuseroncejoinedids;
    totals = t.totals;
    roomid_inviteviaservers = Map.delete room_id t.roomid_inviteviaservers;
    counter = next_count t.counter;
  }

  unfoldable pub mark_as_once_joined :
      Bytes → Bytes → MemberTables Pdu Stripped → MemberTables Pdu Stripped
  mark_as_once_joined user_id room_id t = record {
    joined = t.joined;
    invited = t.invited;
    left = t.left;
    knocked = t.knocked;
    roomuseroncejoinedids = insert_new (user_id, room_id) t.roomuseroncejoinedids;
    totals = t.totals;
    roomid_inviteviaservers = t.roomid_inviteviaservers;
    counter = t.counter;
  }

  unfoldable pub once_joined : Bytes → Bytes → MemberTables Pdu Stripped → Bool
  once_joined user_id room_id t = contains t.roomuseroncejoinedids (user_id, room_id)

  unfoldable pub is_joined : Bytes → Bytes → MemberTables Pdu Stripped → Bool
  is_joined user_id room_id t = contains t.joined.userroomid_joined (user_id, room_id)

  unfoldable pub is_knocked : Bytes → Bytes → MemberTables Pdu Stripped → Bool
  is_knocked user_id room_id t = has (user_id, room_id) t.knocked.userroomid_knockedstate

  unfoldable pub is_invited : Bytes → Bytes → MemberTables Pdu Stripped → Bool
  is_invited user_id room_id t = has (user_id, room_id) t.invited.userroomid_invitestate

  unfoldable pub is_left : Bytes → Bytes → MemberTables Pdu Stripped → Bool
  is_left user_id room_id t = has (user_id, room_id) t.left.userroomid_leftstate

  unfoldable pub user_membership : Bytes → Bytes → MemberTables Pdu Stripped → Option Membership
  user_membership user_id room_id t =
      if is_joined user_id room_id t
      then some Membership.join
      else if is_left user_id room_id t
      then some Membership.leave
      else if is_knocked user_id room_id t
      then some Membership.knock
      else if is_invited user_id room_id t
      then some Membership.invite
      else if once_joined user_id room_id t
      then some Membership.ban
      else none
