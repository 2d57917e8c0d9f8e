-- ===== src/Tests/Members.antt =====
-- Instances of the theorems on membership changes: who joins, leaves, bans and invites.
use cinquain.Prelude.{
  String, ◌≡◌, ◌↔◌, refl, true, false, Option, none, some, [], ◌∷◌, string_eq, pos,
}
use cinquain.Prelude.Map
use cinquain.Matrix.{CreateFields, ok, Membership, JoinRule, PowerLevels, Content, Pdu, room_member}
use cinquain.Auth.Membership.{
  Change, Inputs, room_creators, is_creator, membership_of, power_of, privileged,
  authorising_levels, join_auth_is_valid, read_change, valid_membership_change,
}
use cinquain.Auth.Membership.Readings.{Describes}
use cinquain.Auth.Membership.Rules.{Permitted, valid_membership_change_iff}
use cinquain.Auth.Membership.Findings.{ban_ignores_default}
use cinquain.Tests.Data.{
  ruma, rules, default_levels, with_users, membership, event_of, create, alice, power, rules_event,
  levels_content,
}

abbrev bob_by : String → Content → Pdu
bob_by sender content =
    event_of "$bob" 6 room_member sender (some "@bob") ("$rules" ∷ []) ("$create" ∷ "$power" ∷ [])
      content

abbrev about_bob : Pdu → String → Option Pdu → Pdu → Inputs
about_bob event sender sender_event levels = record {
  target_user = "@bob";
  target_user_membership_event = none;
  sender = sender;
  sender_membership_event = sender_event;
  current_event = event;
  power_levels_event = some levels;
  join_rules_event = some rules_event;
  user_for_join_auth = none;
  user_for_join_auth_membership = Membership.leave;
  create_room = create;
}

abbrev bob_joins : Inputs
bob_joins = about_bob (bob_by "@bob" (membership Membership.join)) "@bob" none power

-- What is read of that join.
abbrev joining : Change
joining = record {
  sender = "@bob";
  target_user = "@bob";
  target_membership = Membership.join;
  has_third_party_invite = false;
  sender_membership = Membership.leave;
  target_current = Membership.leave;
  power_levels = with_users (("@alice", pos 100) ∷ []);
  sender_power = none;
  target_power = some (pos 0);
  join_rules = JoinRule.public;
  join_auth_valid = false;
  sender_creator = false;
  target_creator = false;
  prev_is_create = false;
}

read_change-bob_joins : read_change ruma rules bob_joins ≡ ok joining
unfolding read_change room_creators is_creator membership_of power_of privileged join_auth_is_valid
    authorising_levels Map.get
read_change-bob_joins = refl

valid_membership_change_iff_example :
    ((content : CreateFields) × Describes ruma rules bob_joins content joining)
    × ((valid_membership_change ruma rules bob_joins ≡ ok true)
        ↔ Permitted rules.authorization joining Membership.join)
valid_membership_change_iff_example =
    valid_membership_change_iff ruma rules bob_joins joining read_change-bob_joins

-- Everyone has level 100 by default.
abbrev high : PowerLevels
high = record default_levels { users = ("@alice", pos 100) ∷ []; users_default = pos 100 }

abbrev high_event : Pdu
high_event = record power { content = levels_content high }

abbrev alice_bans : Inputs
alice_bans =
    about_bob (bob_by "@alice" (membership Membership.ban)) "@alice" (some alice) high_event

abbrev banning : Change
banning = record {
  sender = "@alice";
  target_user = "@bob";
  target_membership = Membership.ban;
  has_third_party_invite = false;
  sender_membership = Membership.join;
  target_current = Membership.leave;
  power_levels = high;
  sender_power = some (pos 100);
  target_power = none;
  join_rules = JoinRule.public;
  join_auth_valid = false;
  sender_creator = false;
  target_creator = false;
  prev_is_create = false;
}

read_change-alice_bans : read_change ruma rules alice_bans ≡ ok banning
unfolding read_change room_creators is_creator membership_of power_of privileged join_auth_is_valid
    authorising_levels Map.get
read_change-alice_bans = refl

ban_ignores_default_example : valid_membership_change ruma rules alice_bans ≡ ok true
unfolding Map.get
ban_ignores_default_example =
    ban_ignores_default ruma rules alice_bans banning (pos 100) read_change-alice_bans refl refl
      refl refl refl refl

-- A stranger's invite with a third party invite that nobody signed is accepted.
abbrev mallory_invites : Inputs
mallory_invites =
    about_bob
      (bob_by "@mallory"
        (record (membership Membership.invite) { third_party_invite = ok (some (ok "token")) }))
      "@mallory" none power

mallory_may_invite : valid_membership_change ruma rules mallory_invites ≡ ok true
unfolding valid_membership_change read_change room_creators is_creator membership_of power_of
    privileged join_auth_is_valid authorising_levels Map.get cinquain.Auth.Membership.change_allowed
    cinquain.Auth.Membership.invite_allowed cinquain.Auth.Membership.verify_third_party_invite
    cinquain.Auth.Membership.allowed_as
mallory_may_invite = refl
