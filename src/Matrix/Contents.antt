-- ===== src/Matrix/Contents.antt =====
-- The content of an event, as what serde and ruma return when the code deserialises it. Each field
-- of `Content` is the result of one `from_json_str` at the type that the field's comment names.
use Prim.Native.String.{String}
use mathlib.Core.Bool.{Bool, true, false}
use mathlib.Core.Option.{Option}
use mathlib.Core.List.{List}
use cinquain.Prelude.Int.{ℤ}
use cinquain.Matrix.Errors.{Result, Raw, err, serde_json}

-- `MembershipState` and `JoinRule` of ruma.
pub data Membership : Type 0 where
  join invite leave ban knock custom : Membership

pub data JoinRule : Type 0 where
  invite knock knock_restricted restricted public other : JoinRule

abbrev pub is_join : Membership → Bool
is_join Membership.join = true
is_join _ = false

abbrev pub is_ban : Membership → Bool
is_ban Membership.ban = true
is_ban _ = false

-- `RoomMemberContentFields`.
pub record MemberFields : Type 0 where
  pub membership : Option (Raw Membership)
  pub join_authorised_via_users_server : Option (Raw String)

-- `RoomCreateContentFields`; of `creator` the code asks only whether it is there.
pub record CreateFields : Type 0 where
  pub room_version : Option (Raw String)
  pub has_creator : Bool
  pub additional_creators : Option (List (Raw String))
  pub federate : Bool

-- `RoomPowerLevelsEventContent`, and `IntRoomPowerLevelsEventContent` which has the same fields.
pub record PowerLevels : Type 0 where
  pub ban : ℤ
  pub events : List (String × ℤ)
  pub events_default : ℤ
  pub invite : ℤ
  pub kick : ℤ
  pub redact : ℤ
  pub state_default : ℤ
  pub users : List (String × ℤ)
  pub users_default : ℤ
  pub notifications_room : ℤ

-- The fields of `PowerLevelsContentFields`, `users` as the entries that the map visitor is handed.
pub record UserEntries : Type 0 where
  pub users : List (String × ℤ)
  pub users_default : ℤ

pub record Content : Type 0 where
  pub get_membership : Result Membership  -- GetMembership
  pub member_fields : Result MemberFields  -- RoomMemberContentFields
  pub member_content : Result Membership  -- RoomMemberEventContent
  pub third_party_invite : Result (Option (Raw String))  -- GetThirdPartyInvite
  pub create_fields : Result CreateFields  -- RoomCreateContentFields
  pub room_create : Result (Option String)  -- RoomCreateEventContent, its creator
  pub join_rule : Result JoinRule  -- RoomJoinRulesEventContent
  pub power_levels : Result PowerLevels  -- RoomPowerLevelsEventContent
  pub int_power_levels : Result PowerLevels  -- IntRoomPowerLevelsEventContent
  pub v1_users : Result UserEntries  -- PowerLevelsContentFields
  pub int_users : Result UserEntries  -- IntPowerLevelsContentFields
  pub v1_invite : Result ℤ  -- PowerLevelsContentInvite
  pub int_invite : Result ℤ  -- IntPowerLevelsContentInvite
  pub v1_redact : Result ℤ  -- PowerLevelsContentRedact
  pub int_redact : Result ℤ  -- IntPowerLevelsContentRedact

-- A content that nothing can be read from.
abbrev pub unreadable : Content
unreadable = record {
  get_membership = err serde_json;
  member_fields = err serde_json;
  member_content = err serde_json;
  third_party_invite = err serde_json;
  create_fields = err serde_json;
  room_create = err serde_json;
  join_rule = err serde_json;
  power_levels = err serde_json;
  int_power_levels = err serde_json;
  v1_users = err serde_json;
  int_users = err serde_json;
  v1_invite = err serde_json;
  int_invite = err serde_json;
  v1_redact = err serde_json;
  int_redact = err serde_json;
}
