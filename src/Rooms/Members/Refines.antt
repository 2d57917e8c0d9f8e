-- ===== src/Rooms/Members/Refines.antt =====
-- Every operation on the membership tables acts on the status of each user in each room.
use cinquain.Prelude.{
  ◌&&◌, Option, none, some, List, ◌==◌, pair_eq, option_eq, contains-insert_new, if◌then◌else◌,
  arith, length,
}
use cinquain.Prelude.Map
use cinquain.Core.Bytes.{Bytes, bytes_eq}
use cinquain.Rooms.Counter.{next_count}
use cinquain.Rooms.Members.{
  MemberTables, or_no_events, mark_as_joined, put_left, forget, mark_as_knocked,
  mark_as_once_joined,
}
use cinquain.Rooms.Members.Status.{
  Status, in_joined, in_invited, in_left, in_knocked, Holds, JoinedIs-remove, InvitedIs-remove,
  LeftIs-remove, KnockedIs-remove,
}
use cinquain.Rooms.Members.Counts.{update_joined_count, add_saturating, room_members_knocked}
use cinquain.Rooms.Members.Via.{put_via}
use cinquain.Rooms.Members.Updates.{put_invited}

abbrev pub unless_left : Status → Status
unless_left Status.left = Status.absent
unless_left s = s

module _ {Pdu Stripped : Type 0} where
  -- The tables hold a view of all users and rooms.
  abbrev pub HoldsAll : MemberTables Pdu Stripped → (Bytes → Bytes → Status) → Type 0
  HoldsAll t view = (u r : Bytes) → Holds t u r (view u r)

  module _ (user room u r : Bytes) (t : MemberTables Pdu Stripped) (s : Status)
      (h : Holds t u r s) where
    pub Holds-mark_as_joined :
        Holds (mark_as_joined user room t) u r (if user == u && room == r then Status.joined else s)
    unfolding mark_as_joined
    Holds-mark_as_joined = record {
      joined = (
        ground
            (arith, h.joined.0, contains-insert_new (user, room) (u, r) t.joined.userroomid_joined),
        ground
            (arith, h.joined.1, contains-insert_new (room, user) (r, u) t.joined.roomuserid_joined),
      );
      invited = ground (arith, InvitedIs-remove user room u r t.invited (in_invited s) h.invited);
      left = ground (arith, LeftIs-remove user room u r t.left (in_left s) h.left);
      knocked = ground (arith, KnockedIs-remove user room u r t.knocked (in_knocked s) h.knocked);
    }

    pub Holds-forget :
        Holds (forget room user t) u r (if user == u && room == r then unless_left s else s)
    unfolding forget
    Holds-forget = record {
      joined = (ground (arith, h.joined.0), ground (arith, h.joined.1));
      invited =
          (ground (arith, h.invited.0), ground (arith, h.invited.1), ground (arith, h.invited.2));
      left = ground (arith, LeftIs-remove user room u r t.left (in_left s) h.left);
      knocked = (ground (arith, h.knocked.0), ground (arith, h.knocked.1));
    }

    pub Holds-put_left :
        (leave_pdu : Option Pdu)
        → Holds
            (put_left user room leave_pdu t)
            u
            r
            (if user == u && room == r then Status.left else s)
    unfolding put_left
    Holds-put_left leave_pdu = record {
      joined = ground (arith, JoinedIs-remove user room u r t.joined (in_joined s) h.joined);
      invited = ground (arith, InvitedIs-remove user room u r t.invited (in_invited s) h.invited);
      left = (
        ground (
          arith,
          h.left.0,
          Map.contains-keys-insert (user, room) (u, r) leave_pdu t.left.userroomid_leftstate,
        ),
        ground (
          arith,
          h.left.1,
          Map.contains-keys-insert (room, user) (r, u) (next_count t.counter)
              t.left.roomuserid_leftcount,
        ),
      );
      knocked = ground (arith, KnockedIs-remove user room u r t.knocked (in_knocked s) h.knocked);
    }

    pub Holds-mark_as_knocked :
        (state : Option (List Stripped))
        → Holds
            (mark_as_knocked user room state t)
            u
            r
            (if user == u && room == r then Status.knocked else s)
    unfolding mark_as_knocked
    Holds-mark_as_knocked state = record {
      joined = ground (arith, JoinedIs-remove user room u r t.joined (in_joined s) h.joined);
      invited = ground (arith, InvitedIs-remove user room u r t.invited (in_invited s) h.invited);
      left = ground (arith, LeftIs-remove user room u r t.left (in_left s) h.left);
      knocked = (
        ground (
          arith,
          h.knocked.0,
          Map.contains-keys-insert (user, room) (u, r) (or_no_events state)
              t.knocked.userroomid_knockedstate,
        ),
        ground (
          arith,
          h.knocked.1,
          Map.contains-keys-insert (room, some user) (r, some u) (next_count t.counter)
              t.knocked.roomuserid_knockedcount,
        ),
      );
    }

    pub Holds-put_invited :
        (sender : Bytes) (state : List Stripped)
        → Holds
            (put_invited user room sender state t)
            u
            r
            (if user == u && room == r then Status.invited else s)
    unfolding put_invited
    Holds-put_invited sender state = record {
      joined = ground (arith, JoinedIs-remove user room u r t.joined (in_joined s) h.joined);
      invited = (
        ground (
          arith,
          h.invited.0,
          Map.contains-keys-insert (user, room) (u, r) state t.invited.userroomid_invitestate,
        ),
        ground (
          arith,
          h.invited.1,
          Map.contains-keys-insert (room, user) (r, u) (next_count t.counter)
              t.invited.roomuserid_invitecount,
        ),
        ground (
          arith,
          h.invited.2,
          Map.contains-keys-insert (user, room) (u, r) sender t.invited.userroomid_invitesender,
        ),
      );
      left = ground (arith, LeftIs-remove user room u r t.left (in_left s) h.left);
      knocked = ground (arith, KnockedIs-remove user room u r t.knocked (in_knocked s) h.knocked);
    }

    pub Holds-mark_as_once_joined : Holds (mark_as_once_joined user room t) u r s
    unfolding mark_as_once_joined
    Holds-mark_as_once_joined = record {
      joined = h.joined;
      invited = h.invited;
      left = h.left;
      knocked = h.knocked;
    }

    pub Holds-put_via : (servers : List Bytes) → Holds (put_via room servers t) u r s
    unfolding put_via
    Holds-put_via servers = record {
      joined = h.joined;
      invited = h.invited;
      left = h.left;
      knocked = h.knocked;
    }

    pub Holds-update_joined_count :
        (server_name : Bytes → Bytes) → Holds (update_joined_count server_name room t) u r s
    unfolding update_joined_count
    Holds-update_joined_count server_name = record {
      joined = h.joined;
      invited = h.invited;
      left = h.left;
      knocked = (
        h.knocked.0,
        ground (
          arith,
          h.knocked.1,
          Map.contains-keys-insert (room, none) (r, some u)
              (add_saturating 0 (length (room_members_knocked room t)))
              t.knocked.roomuserid_knockedcount,
        ),
      );
    }
