-- ===== src/Rooms/Members/Views.antt =====
-- What is read from the membership tables after any sequence of calls on an empty database.
use cinquain.Prelude.{◌≡◌, refl, List, contains, pair_eq, option_eq, arith}
use cinquain.Core.Bytes.{Bytes, bytes_eq}
use cinquain.Rooms.Members.{
  MemberTables, once_joined, user_membership, is_joined, is_left, is_invited, is_knocked,
}
use cinquain.Rooms.Members.Updates.{Services}
use cinquain.Rooms.Members.Replay.{
  Call, Past, run, replay, IsPast, Represents, new, no_past, reported,
}
use cinquain.Rooms.Members.Runs.{run-Represents}

module _ {Pdu Stripped : Type 0} where
  pub new-Represents : Represents {Pdu = Pdu} {Stripped = Stripped} new no_past
  unfolding once_joined contains
  new-Represents u r = (
    record {
      joined = (refl, refl);
      invited = (refl, refl, refl);
      left = (refl, refl);
      knocked = (refl, refl);
    },
    refl,
  )

  user_membership-reported :
      (t : MemberTables Pdu Stripped) (u r : Bytes) (p : Past)
      → IsPast t u r p
      → user_membership u r t ≡ reported p
  unfolding user_membership is_joined is_left is_invited is_knocked
  user_membership-reported t u r (s, once) h =
      ground (arith, h.0.joined.0, h.0.left.0, h.0.knocked.0, h.0.invited.0, h.1)

  module _ (services : Services Pdu Stripped) where
    -- After any sequence of calls on an empty database, the membership that is reported of a user in
    -- a room is that of the one past which the calls on this user and room make.
    pub user_membership-replay :
        (calls : List (Call Pdu Stripped)) (user room : Bytes)
        → user_membership user room (run services calls new)
          ≡ reported (replay services calls no_past user room)
    user_membership-replay calls user room =
        user_membership-reported _ user room _
          (run-Represents services calls new no_past new-Represents user room)
