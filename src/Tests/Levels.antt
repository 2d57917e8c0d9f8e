-- ===== src/Tests/Levels.antt =====
-- Instances of the theorems on power levels and on the types of auth events.
use cinquain.Prelude.{
  String, ◌≡◌, ◌↔◌, ◌⊎◌, false, refl, true, some, List, [], ◌∷◌, string_eq, pair_eq, ℤ, pos,
  contains,
}
use cinquain.Matrix.{
  ok, Membership, Pdu, TypeStateKey, room_third_party_invite, room_member, room_create,
  room_power_levels, room_join_rules,
}
use cinquain.Auth.Types.{push_new, base_types, push_authoriser, member_types, auth_types_for_event}
use cinquain.Auth.Types.Selected.{ForTarget, ForEveryEvent, auth_types-selects}
use cinquain.Auth.Levels.{
  PowerLevelsContentFields, into_room_power_levels_content, deserialize_power_levels,
}
use cinquain.Auth.PowerEvent.{check_power_levels}
use cinquain.Auth.PowerEvent.Allowed.{Allowed, check_power_levels_iff}
use cinquain.Tests.Data.{ruma, rules, with_users, membership, power, levels_content, string_ne}

-- Alice lets Bob have half her level.
abbrev promoted : Pdu
promoted = record power {
  content = levels_content (with_users (("@alice", pos 100) ∷ ("@bob", pos 50) ∷ []));
}

check_power_levels_iff_example :
    (check_power_levels ruma rules promoted (some power) (pos 100) [] ≡ some true)
    ↔ Allowed ruma rules
        (with_users (("@alice", pos 100) ∷ []))
        (with_users (("@alice", pos 100) ∷ ("@bob", pos 50) ∷ []))
        "@alice"
        (pos 100)
        []
unfolding deserialize_power_levels into_room_power_levels_content
check_power_levels_iff_example =
    check_power_levels_iff ruma rules promoted power (with_users (("@alice", pos 100) ∷ []))
      (with_users (("@alice", pos 100) ∷ ("@bob", pos 50) ∷ [])) (pos 100) [] refl refl refl

-- Alice stands twice.
abbrev twice : List (String × ℤ)
twice = ("@alice", pos 100) ∷ ("@bob", pos 50) ∷ ("@alice", pos 7) ∷ []

abbrev twice_fields : PowerLevelsContentFields
twice_fields = record { users = ("@alice", pos 7) ∷ ("@bob", pos 50) ∷ []; users_default = pos 0 }

abbrev selected : List TypeStateKey
selected =
    (room_power_levels, "") ∷ (room_member, "@bob") ∷ (room_create, "") ∷ (room_join_rules, "") ∷ []

selected-eq :
    auth_types_for_event room_member "@bob" (some "@bob") (membership Membership.join) rules
    ≡ ok selected
unfolding auth_types_for_event base_types member_types push_authoriser push_new contains
selected-eq = refl

auth_types-selects_example :
    ((contains selected (room_join_rules, "") ≡ true) ↔ (
      ((room_member ≡ room_member)
        × ForTarget (some "@bob") (membership Membership.join).member_fields (room_join_rules, ""))
      ⊎ ForEveryEvent rules "@bob" (room_join_rules, "")))
    × (room_join_rules ≡ room_third_party_invite → contains selected (room_join_rules, "") ≡ false)
auth_types-selects_example =
    auth_types-selects room_member "@bob" (some "@bob") (membership Membership.join) rules selected
      (room_join_rules, "") (string_ne room_member room_create refl) selected-eq
