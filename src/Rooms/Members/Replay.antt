-- ===== src/Rooms/Members/Replay.antt =====
-- Sequences of calls on the membership tables refine a map from users and rooms to one membership each.
use cinquain.Prelude.{
  ◌≡◌, Bool, true, false, ◌||◌, ◌&&◌, Option, none, some, List, [], ◌∷◌, ◌==◌, pair_eq, option_eq,
  if◌then◌else◌,
}
use cinquain.Core.Errors.{Try, good, fault}
use cinquain.Core.Bytes.{Bytes, bytes_eq}
use cinquain.Matrix.{Membership}
use cinquain.Rooms.Metadata.{is_banned, is_disabled}
use cinquain.Rooms.Members.{MemberTables, mark_as_joined, forget, mark_as_knocked, once_joined}
use cinquain.Rooms.Members.Status.{Status, Holds}
use cinquain.Rooms.Members.Refines.{unless_left}
use cinquain.Rooms.Members.Counts.{update_joined_count}
use cinquain.Rooms.Members.Updates.{
  Services, is_block, Done, mark_as_left, mark_as_invited, update_membership,
}

-- The calls that change the tables.
pub data Call (Pdu Stripped : Type 0) : Type 0 where
  joined : Bytes → Bytes → Call Pdu Stripped
  left : Bytes → Bytes → Option Pdu → Call Pdu Stripped
  knocked : Bytes → Bytes → Option (List Stripped) → Call Pdu Stripped
  forgotten : Bytes → Bytes → Call Pdu Stripped
  invited : Bytes → Bytes → Bytes → List Stripped → Option (List Bytes) → Call Pdu Stripped
  event : Bytes → Bytes → Pdu → Bool → Call Pdu Stripped
  counted : Bytes → Call Pdu Stripped

-- A status, and whether the user has joined before.
abbrev pub Past : Type 0
Past = Status × Bool

abbrev pub joins : Done → Past → Past
joins (good u) (s, once) = (Status.joined, true)
joins (fault x) (s, once) = (s, true)

module _ {Pdu Stripped : Type 0} (services : Services Pdu Stripped) where
  unfoldable pub run :
      List (Call Pdu Stripped) → MemberTables Pdu Stripped → MemberTables Pdu Stripped
  run [] t = t
  run (Call.joined user room ∷ calls) t = run calls (mark_as_joined user room t)
  run (Call.left user room pdu ∷ calls) t = run calls (mark_as_left services user room pdu t)
  run (Call.knocked user room state ∷ calls) t = run calls (mark_as_knocked user room state t)
  run (Call.forgotten user room ∷ calls) t = run calls (forget room user t)
  run (Call.invited user room sender state via ∷ calls) t =
      run calls (mark_as_invited services user room sender state via t).1
  run (Call.event user room pdu count ∷ calls) t =
      run calls (update_membership services room user pdu count t).1
  run (Call.counted room ∷ calls) t = run calls (update_joined_count services.server_name room t)

  abbrev pub leaves : Bytes → Bytes → Past → Past
  leaves user room past =
      if services.user_is_local user
        && (services.forget_forced_upon_leave
            || is_banned room services.metadata
            || is_disabled room services.metadata)
      then (Status.absent, past.1)
      else (Status.left, past.1)

  abbrev pub is_invited_by : Bytes → Bytes → Past → Past
  is_invited_by sender user past =
      if is_block (services.invite_filter_level sender user) then past else (Status.invited, past.1)

  abbrev pub rejoins : Bytes → Bytes → Past → Past
  rejoins user room past =
      if past.1
      then (Status.joined, true)
      else if services.user_is_local user
      then joins (services.copy_predecessor_data room user) past
      else (Status.joined, true)

  abbrev pub changes : Try Membership → Bytes → Bytes → Pdu → Past → Past
  changes (fault x) user room pdu past = past
  changes (good Membership.join) user room pdu past = rejoins user room past
  changes (good Membership.invite) user room pdu past =
      is_invited_by (services.sender pdu) user past
  changes (good Membership.leave) user room pdu past = leaves user room past
  changes (good Membership.ban) user room pdu past = leaves user room past
  changes (good Membership.knock) user room pdu past = past
  changes (good Membership.custom) user room pdu past = past

  -- What a call makes of the past of a user in a room: it changes that of its own user and room only.
  unfoldable pub act : Call Pdu Stripped → Bytes → Bytes → Past → Past
  act (Call.joined user room) u r past =
      if user == u && room == r then (Status.joined, past.1) else past
  act (Call.left user room pdu) u r past =
      if user == u && room == r then leaves user room past else past
  act (Call.knocked user room state) u r past =
      if user == u && room == r then (Status.knocked, past.1) else past
  act (Call.forgotten user room) u r past =
      if user == u && room == r then (unless_left past.0, past.1) else past
  act (Call.invited user room sender state via) u r past =
      if user == u && room == r then is_invited_by sender user past else past
  act (Call.event user room pdu count) u r past =
      if user == u && room == r then changes (services.get_content pdu) user room pdu past else past
  act (Call.counted room) u r past = past

  unfoldable pub replay : List (Call Pdu Stripped) → (Bytes → Bytes → Past) → Bytes → Bytes → Past
  replay [] pasts = pasts
  replay (call ∷ calls) pasts = replay calls (λ u r. act call u r (pasts u r))

module _ {Pdu Stripped : Type 0} where
  -- The tables represent the past of one user in one room.
  abbrev pub IsPast : MemberTables Pdu Stripped → Bytes → Bytes → Past → Type 0
  IsPast t u r past = Holds t u r past.0 × (once_joined u r t ≡ past.1)

  abbrev pub Represents : MemberTables Pdu Stripped → (Bytes → Bytes → Past) → Type 0
  Represents t pasts = (u r : Bytes) → IsPast t u r (pasts u r)

  -- The tables of an empty database.
  abbrev pub new : MemberTables Pdu Stripped
  new = record {
    joined = record { userroomid_joined = []; roomuserid_joined = [] };
    invited = record {
      userroomid_invitestate = [];
      roomuserid_invitecount = [];
      userroomid_invitesender = [];
    };
    left = record { userroomid_leftstate = []; roomuserid_leftcount = [] };
    knocked = record { userroomid_knockedstate = []; roomuserid_knockedcount = [] };
    roomuseroncejoinedids = [];
    totals = record {
      roomid_joinedcount = [];
      roomid_invitedcount = [];
      roomserverids = [];
      serverroomids = [];
      appservice_in_room_cache = [];
    };
    roomid_inviteviaservers = [];
    counter = 0;
  }

-- The past of everyone in an empty database.
abbrev pub no_past : Bytes → Bytes → Past
no_past u r = (Status.absent, false)

-- The membership that is reported of a past.
abbrev pub reported : Past → Option Membership
reported (Status.joined, once) = some Membership.join
reported (Status.invited, once) = some Membership.invite
reported (Status.left, once) = some Membership.leave
reported (Status.knocked, once) = some Membership.knock
reported (Status.absent, once) = if once then some Membership.ban else none
