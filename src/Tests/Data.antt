-- ===== src/Tests/Data.antt =====
-- A small room, with what ruma and serde are taken to do on it.
use cinquain.Prelude.{
  ℕ, String, true, false, Option, none, some, List, [], ◌∷◌, if◌then◌else◌, ◌==◌, string_eq, ℤ, ◌≡◌,
  ◌≢◌, arith, pos,
}
use cinquain.Matrix.{
  ok, Membership, JoinRule, PowerLevels, Content, unreadable, Pdu, v2, RoomVersionRules, Ruma,
  room_create, room_member, room_power_levels, room_join_rules,
}

abbrev pub default_levels : PowerLevels
default_levels = record {
  ban = pos 50;
  events = [];
  events_default = pos 0;
  invite = pos 0;
  kick = pos 50;
  redact = pos 50;
  state_default = pos 50;
  users = [];
  users_default = pos 0;
  notifications_room = pos 50;
}

abbrev json_level : PowerLevels → String → Option ℤ
json_level levels name =
    if name == "ban" then some levels.ban else if name == "kick" then some levels.kick else none

-- All servers are one, and every text is an identifier.
abbrev pub ruma : Ruma
ruma = record {
  user_server = λ user. "example.org";
  room_server = λ room. some "example.org";
  event_server = λ event. some "example.org";
  parse_user = λ user. some user;
  parse_room = λ room. some room;
  parse_event = λ event. some event;
  default_levels = λ rules. default_levels;
  json_level = json_level;
}

abbrev pub rules : RoomVersionRules
rules = record {
  hashed_room_ids = false;
  state_res = v2 false;
  authorization = record {
    special_case_room_aliases = false;
    use_room_create_sender = true;
    explicitly_privilege_room_creators = false;
    knocking = true;
    knock_restricted_join_rule = true;
    integer_power_levels = true;
    limit_notifications_power_levels = true;
    special_case_room_redaction = false;
  };
}

abbrev pub event_of :
    String → ℕ → String → String → Option String → List String → List String → Content → Pdu
event_of id time kind sender key prev auth content = record {
  event_id = id;
  room_id = some "!room";
  sender = sender;
  origin_server_ts = time;
  kind = kind;
  state_key = key;
  content = content;
  prev_events = prev;
  auth_events = auth;
  redacts = none;
}

abbrev pub create : Pdu
create = event_of "$create" 1 room_create "@alice" (some "") [] [] (record unreadable {
  create_fields = ok (record {
    room_version = none;
    has_creator = false;
    additional_creators = none;
    federate = true;
  });
})

abbrev pub membership : Membership → Content
membership m = record unreadable {
  get_membership = ok m;
  member_content = ok m;
  third_party_invite = ok none;
  member_fields = ok (record { membership = some (ok m); join_authorised_via_users_server = none });
}

abbrev pub alice : Pdu
alice =
    event_of "$alice" 2 room_member "@alice" (some "@alice") ("$create" ∷ []) ("$create" ∷ [])
      (membership Membership.join)

abbrev pub levels_content : PowerLevels → Content
levels_content levels = record unreadable {
  power_levels = ok levels;
  int_power_levels = ok levels;
  int_users = ok (record { users = levels.users; users_default = levels.users_default });
  int_invite = ok levels.invite;
  int_redact = ok levels.redact;
}

-- `default_levels` with other users.
abbrev pub with_users : List (String × ℤ) → PowerLevels
with_users users = record default_levels { users = users }

abbrev pub power : Pdu
power =
    event_of "$power" 3 room_power_levels "@alice" (some "") ("$alice" ∷ [])
      ("$create" ∷ "$alice" ∷ []) (levels_content (with_users (("@alice", pos 100) ∷ [])))

abbrev pub rules_event : Pdu
rules_event =
    event_of "$rules" 4 room_join_rules "@alice" (some "") ("$power" ∷ [])
      ("$create" ∷ "$alice" ∷ "$power" ∷ []) (record unreadable { join_rule = ok JoinRule.public })

abbrev pub topic : Pdu
topic =
    event_of "$topic" 5 "m.room.topic" "@alice" (some "") ("$rules" ∷ [])
      ("$create" ∷ "$alice" ∷ "$power" ∷ []) unreadable

abbrev pub fetch : String → Option Pdu
fetch id =
    if id == "$create"
    then some create
    else if id == "$alice"
    then some alice
    else if id == "$power"
    then some power
    else if id == "$rules"
    then some rules_event
    else if id == "$topic"
    then some topic
    else none

-- The state before the topic.
abbrev pub fetch_state : String → String → Option Pdu
fetch_state kind key =
    if kind == room_create
    then some create
    else if kind == room_power_levels
    then some power
    else if kind == room_join_rules
    then some rules_event
    else if kind == room_member
    then (if key == "@alice" then some alice else none)
    else none

pub string_ne : (a b : String) → (a == b) ≡ false → a ≢ b
string_ne a b h = λ e. ground (arith, string_eq.beq_iff a b)
