-- ===== src/Auth/Membership/Findings.antt =====
-- Where the membership checks depart from the rules that they implement.
use cinquain.Prelude.{◌≡◌, true, false, none, some, arith, string_eq, ℤ, leℤ}
use cinquain.Prelude.Map
use cinquain.Matrix.{ok, Membership, is_join, RoomVersionRules, Ruma}
use cinquain.Auth.Membership.{
  Change, Inputs, ban_allowed, change_allowed, read_change, valid_membership_change, power_of,
  privileged,
}

-- Without privileged creators, a ban event compares the sender's level with the level that the
-- content lists for the target, and with nothing where it lists none: the default is not read.
read_change-powers :
    (ruma : Ruma) (rules : RoomVersionRules) (i : Inputs) (c : Change)
    → rules.authorization.explicitly_privilege_room_creators ≡ false
    → c.target_membership ≡ Membership.ban
    → read_change ruma rules i ≡ ok c
    → (c.target_power ≡ Map.get i.target_user c.power_levels.users)
      × (c.sender_power ≡ power_of c.power_levels i.sender (is_join c.sender_membership))
unfolding read_change privileged power_of
read_change-powers ruma rules i c e b r = ground arith

-- On events that can be read, in a room version that does not privilege creators, a joined sender
-- whom the power levels list with the power to ban may ban every user whom they do not list,
-- whatever the default level is, which is that user's.
pub ban_ignores_default :
    (ruma : Ruma) (rules : RoomVersionRules) (i : Inputs) (c : Change) (p : ℤ)
    → read_change ruma rules i ≡ ok c
    → rules.authorization.explicitly_privilege_room_creators ≡ false
    → c.target_membership ≡ Membership.ban
    → c.sender_membership ≡ Membership.join
    → Map.get i.sender c.power_levels.users ≡ some p
    → leℤ c.power_levels.ban p ≡ true
    → Map.get i.target_user c.power_levels.users ≡ none
    → valid_membership_change ruma rules i ≡ ok true
unfolding valid_membership_change change_allowed ban_allowed power_of
ban_ignores_default ruma rules i c p r e b j s reach t =
    ground (arith, read_change-powers ruma rules i c)
