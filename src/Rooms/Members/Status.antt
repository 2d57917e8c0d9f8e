-- ===== src/Rooms/Members/Status.antt =====
-- The membership of one user in one room, and when the tables hold it: in the tables of that membership
-- and in no others, under both orders of the key.
use cinquain.Prelude.{
  ◌≡◌, ◌↔◌, refl, Bool, true, false, ◌&&◌, not, some, ◌==◌, contains, pair_eq, option_eq,
  contains-remove, arith,
}
use cinquain.Prelude.Map
use cinquain.Core.Bytes.{Bytes, bytes_eq}
use cinquain.Rooms.Members.{
  Joined, Invited, Left, Knocked, MemberTables, has, remove_joined, remove_invited, remove_left,
  remove_knocked,
}

-- What the server holds of a user in a room: one membership, or none.
pub data Status : Type 0 where
  joined invited left knocked absent : Status

abbrev pub in_joined : Status → Bool
in_joined Status.joined = true
in_joined _ = false

pub in_joined_iff : (s : Status) → (in_joined s ≡ true) ↔ (s ≡ Status.joined)
in_joined_iff Status.joined = ((λ h. refl), (λ h. refl))
in_joined_iff Status.invited = ((λ h. cc), (λ h. cc))
in_joined_iff Status.left = ((λ h. cc), (λ h. cc))
in_joined_iff Status.knocked = ((λ h. cc), (λ h. cc))
in_joined_iff Status.absent = ((λ h. cc), (λ h. cc))

abbrev pub in_invited : Status → Bool
in_invited Status.invited = true
in_invited _ = false

abbrev pub in_left : Status → Bool
in_left Status.left = true
in_left _ = false

abbrev pub in_knocked : Status → Bool
in_knocked Status.knocked = true
in_knocked _ = false

-- The rows of a user and a room stand in all tables of a membership, or in none of them.
abbrev pub JoinedIs : Joined → Bytes → Bytes → Bool → Type 0
JoinedIs t user room b =
    (contains t.userroomid_joined (user, room) ≡ b)
    × (contains t.roomuserid_joined (room, user) ≡ b)

abbrev pub InvitedIs : {Stripped : Type 0} → Invited Stripped → Bytes → Bytes → Bool → Type 0
InvitedIs t user room b =
    (has (user, room) t.userroomid_invitestate ≡ b)
    × (has (room, user) t.roomuserid_invitecount ≡ b)
    × (has (user, room) t.userroomid_invitesender ≡ b)

abbrev pub LeftIs : {Pdu : Type 0} → Left Pdu → Bytes → Bytes → Bool → Type 0
LeftIs t user room b =
    (has (user, room) t.userroomid_leftstate ≡ b) × (has (room, user) t.roomuserid_leftcount ≡ b)

abbrev pub KnockedIs : {Stripped : Type 0} → Knocked Stripped → Bytes → Bytes → Bool → Type 0
KnockedIs t user room b =
    (has (user, room) t.userroomid_knockedstate ≡ b)
    × (has (room, some user) t.roomuserid_knockedcount ≡ b)

-- The tables hold one status of a user in a room.
pub record Holds {Pdu Stripped : Type 0} (t : MemberTables Pdu Stripped) (user room : Bytes)
    (s : Status) : Type 0 where
  pub joined : JoinedIs t.joined user room (in_joined s)
  pub invited : InvitedIs t.invited user room (in_invited s)
  pub left : LeftIs t.left user room (in_left s)
  pub knocked : KnockedIs t.knocked user room (in_knocked s)

module _ (user room u r : Bytes) where
  -- Whether a row is that of the user and the room.
  abbrev pub same : Bool
  same = user == u && room == r

  pub JoinedIs-remove :
      (t : Joined) (b : Bool)
      → JoinedIs t u r b
      → JoinedIs (remove_joined user room t) u r (not same && b)
  unfolding remove_joined
  JoinedIs-remove t b h = (
    ground (arith, h.0, contains-remove (user, room) (u, r) t.userroomid_joined),
    ground (arith, h.1, contains-remove (room, user) (r, u) t.roomuserid_joined),
  )

  pub InvitedIs-remove :
      {Stripped : Type 0} (t : Invited Stripped) (b : Bool)
      → InvitedIs t u r b
      → InvitedIs (remove_invited user room t) u r (not same && b)
  unfolding remove_invited
  InvitedIs-remove t b h = (
    ground (arith, h.0, Map.contains-keys-delete (user, room) (u, r) t.userroomid_invitestate),
    ground (arith, h.1, Map.contains-keys-delete (room, user) (r, u) t.roomuserid_invitecount),
    ground (arith, h.2, Map.contains-keys-delete (user, room) (u, r) t.userroomid_invitesender),
  )

  pub LeftIs-remove :
      {Pdu : Type 0} (t : Left Pdu) (b : Bool)
      → LeftIs t u r b
      → LeftIs (remove_left user room t) u r (not same && b)
  unfolding remove_left
  LeftIs-remove t b h = (
    ground (arith, h.0, Map.contains-keys-delete (user, room) (u, r) t.userroomid_leftstate),
    ground (arith, h.1, Map.contains-keys-delete (room, user) (r, u) t.roomuserid_leftcount),
  )

  pub KnockedIs-remove :
      {Stripped : Type 0} (t : Knocked Stripped) (b : Bool)
      → KnockedIs t u r b
      → KnockedIs (remove_knocked user room t) u r (not same && b)
  unfolding remove_knocked
  KnockedIs-remove t b h = (
    ground (arith, h.0, Map.contains-keys-delete (user, room) (u, r) t.userroomid_knockedstate),
    ground (
      arith,
      h.1,
      Map.contains-keys-delete (room, some user) (r, some u) t.roomuserid_knockedcount,
    ),
  )
