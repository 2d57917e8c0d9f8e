-- ===== src/Matrix/Events.antt =====
-- Events and the rules of a room version. Identifiers, event types and state keys are texts.
use Prim.Native.Nat.{ℕ}
use Prim.Native.String.{String}
use mathlib.Core.Bool.{Bool}
use mathlib.Core.Option.{Option}
use mathlib.Core.List.{List}
use cinquain.Matrix.Contents.{Content}

-- What the trait `Event` lets the code read of an event (core/matrix/event.rs, core/matrix/pdu.rs).
pub record Pdu : Type 0 where
  pub event_id : String
  pub room_id : Option String
  pub sender : String
  pub origin_server_ts : ℕ
  pub kind : String
  pub state_key : Option String
  pub content : Content
  pub prev_events : List String
  pub auth_events : List String
  pub redacts : Option String

abbrev pub room_create : String
room_create = "m.room.create"

abbrev pub room_member : String
room_member = "m.room.member"

abbrev pub room_power_levels : String
room_power_levels = "m.room.power_levels"

abbrev pub room_join_rules : String
room_join_rules = "m.room.join_rules"

abbrev pub room_third_party_invite : String
room_third_party_invite = "m.room.third_party_invite"

abbrev pub room_redaction : String
room_redaction = "m.room.redaction"

abbrev pub room_aliases : String
room_aliases = "m.room.aliases"

-- `TypeStateKey` and `StateMap`.
abbrev pub TypeStateKey : Type 0
TypeStateKey = String × String

abbrev pub StateMap : Type 0 → Type 0
StateMap A = List (TypeStateKey × A)

-- The part of ruma's `RoomVersionRules` that the code reads.
pub record AuthorizationRules : Type 0 where
  pub special_case_room_aliases : Bool
  pub use_room_create_sender : Bool
  pub explicitly_privilege_room_creators : Bool
  pub knocking : Bool
  pub knock_restricted_join_rule : Bool
  pub integer_power_levels : Bool
  pub limit_notifications_power_levels : Bool
  pub special_case_room_redaction : Bool

pub data StateResolutionVersion : Type 0 where
  v1 : StateResolutionVersion
  v2 : Bool → StateResolutionVersion  -- consider_conflicted_state_subgraph

pub record RoomVersionRules : Type 0 where
  pub hashed_room_ids : Bool  -- room_id_format is V2
  pub state_res : StateResolutionVersion
  pub authorization : AuthorizationRules
