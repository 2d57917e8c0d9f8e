-- ===== src/Auth/Check.antt =====
-- `auth_check`: whether an event is allowed by the state it is checked against
-- (core/matrix/state_res/event_auth.rs).
pub mod Standing
pub mod Gates
pub mod Kinds
use cinquain.Prelude.{
  String, Bool, true, false, ◌&&◌, ◌||◌, not, Option, none, some, List, [], ◌∷◌, if◌then◌else◌,
  ◌==◌, string_eq, option_eq, ℤ, pos, leℤ, ltℤ, contains, insert_new, any, is_empty,
}
use cinquain.Matrix.{
  Result, ok, err, Raw, panicked, invalid_pdu, ◌>>=◌, ok_or, to_option, is_err, Membership, is_join,
  MemberFields, CreateFields, Content, Pdu, AuthorizationRules, RoomVersionRules, Ruma,
  room_id_or_hash, room_create, room_member, room_power_levels, room_join_rules,
  room_third_party_invite, room_redaction, room_aliases,
}
use cinquain.Auth.Levels.{
  is_some, deserialize_power_levels_content_fields, deserialize_power_levels_content_invite,
  deserialize_power_levels_content_redact, user_level, can_send_event,
}
use cinquain.Auth.PowerEvent.{check_power_levels}
use cinquain.Auth.Membership.{Inputs, valid_membership_change, int_max}

-- `fetch_state`: the event of a state snapshot under a type and a state key.
abbrev pub FetchState : Type 0
FetchState = String → String → Option Pdu

-- `room_version.is_some_and(|v| v.deserialize().is_err())`.
abbrev pub is_unsupported : Option (Raw String) → Bool
is_unsupported none = false
is_unsupported (some v) = is_err v

-- The first checks of a create event, on its room id.
unfoldable pub create_room_id_passes : Ruma → Pdu → Bool
create_room_id_passes ruma ev = elim ev.room_id [
  | none ↦ true
  | some room_id ↦ elim (ruma.room_server room_id) [
    | none ↦ false
    | some server ↦ server == ruma.user_server ev.sender
  ]
]

-- The branch for `m.room.create`.
unfoldable pub check_create : Ruma → RoomVersionRules → Pdu → Result Bool
check_create ruma rules ev =
    if not (is_empty ev.prev_events)
    then ok false
    else if not (create_room_id_passes ruma ev)
    then ok false
    else ev.content.create_fields >>= λ content. ok (
        if is_unsupported content.room_version
        then false
        else if rules.hashed_room_ids && is_some ev.room_id
        then false
        else if not rules.authorization.use_room_create_sender
            && not rules.authorization.explicitly_privilege_room_creators
            && not content.has_creator
        then false
        else true)

-- `pe.room_id().unwrap() != expected_room_id`.
unfoldable pub in_room : Option Pdu → String → Result Bool
in_room none room_id = ok true
in_room (some pe) room_id = elim pe.room_id [ none ↦ err panicked | some r ↦ ok (r == room_id) ]

-- Whether the auth events name the create event as the room version wants it.
unfoldable pub names_create_event : RoomVersionRules → Pdu → Pdu → Bool
names_create_event rules ev create_event =
    if rules.hashed_room_ids
    then not (contains ev.auth_events create_event.event_id)
    else contains ev.auth_events create_event.event_id

unfoldable pub federation_passes : Ruma → CreateFields → Pdu → Pdu → Bool
federation_passes ruma content create_event ev =
    content.federate || ruma.user_server create_event.sender == ruma.user_server ev.sender

-- The checks that every event but a create event has to pass: `some` with the room's id.
unfoldable pub check_room :
    Ruma → RoomVersionRules → Pdu → Option Pdu → Pdu → Result (Option (CreateFields × String))
check_room ruma rules ev power_levels_event create_event = do
  content ← create_event.content.create_fields
  if is_unsupported content.room_version then ok none else do
    expected_room_id ← room_id_or_hash ruma create_event
    own ← ok_or panicked ev.room_id
    if not (own == expected_room_id && names_create_event rules ev create_event)
        then ok none
        else do
          levels_in_room ← in_room power_levels_event expected_room_id
          if not (levels_in_room && federation_passes ruma content create_event ev)
              then ok none
              else ok (some (content, expected_room_id))

-- `user_for_join_auth`.
abbrev pub join_authoriser : MemberFields → Option String
join_authoriser fields = elim fields.join_authorised_via_users_server [
  | some (ok user) ↦ some user
  | some (err e) ↦ none
  | none ↦ none
]

-- `user_for_join_auth_membership`.
abbrev pub authoriser_membership : FetchState → Option String → Membership
authoriser_membership fetch none = Membership.leave
authoriser_membership fetch (some user) = elim (fetch room_member user) [
  | none ↦ Membership.leave
  | some mem ↦ elim mem.content.get_membership [ ok m ↦ m | err e ↦ Membership.leave ]
]

abbrev pub has_membership : MemberFields → Bool
has_membership fields = elim fields.membership [
  | some (ok m) ↦ true
  | some (err e) ↦ false
  | none ↦ false
]

-- The branch for `m.room.member`.
unfoldable pub check_member :
    Ruma → RoomVersionRules → FetchState → Pdu → Option Pdu → Option Pdu → Pdu → Result Bool
check_member ruma rules fetch ev power_levels_event sender_member_event create_event =
    elim ev.state_key [
      | none ↦ ok false
      | some state_key ↦ ev.content.member_fields >>= λ fields.
          if not (has_membership fields)
          then ok false
          else (ok_or invalid_pdu (ruma.parse_user state_key) >>= λ target_user.
              valid_membership_change ruma rules (record {
                target_user = target_user;
                target_user_membership_event = fetch room_member target_user;
                sender = ev.sender;
                sender_membership_event = sender_member_event;
                current_event = ev;
                power_levels_event = power_levels_event;
                join_rules_event = fetch room_join_rules "";
                user_for_join_auth = join_authoriser fields;
                user_for_join_auth_membership =
                    authoriser_membership fetch (join_authoriser fields);
                create_room = create_event;
              }))
    ]

-- The sender has a readable membership event of the room, and whether it says `join`.
unfoldable pub sender_is_joined : Option Pdu → String → Result Bool
sender_is_joined none expected_room_id = ok false
sender_is_joined (some mem) expected_room_id = do
  room_id ← ok_or panicked mem.room_id
  if not (room_id == expected_room_id) then ok false else do
    fields ← mem.content.member_fields
    membership_state ← ok_or invalid_pdu fields.membership
    membership ← membership_state
    ok (is_join membership)

-- The creator of a room that has no power levels; a missing creator fails an `unwrap`.
unfoldable pub created_by : RoomVersionRules → Pdu → String → Result Bool
created_by rules create_event sender =
    if rules.authorization.use_room_create_sender
    then ok (create_event.sender == sender)
    else elim create_event.content.room_create [
      | ok (some creator) ↦ ok (creator == sender)
      | ok none ↦ err panicked
      | err e ↦ ok false
    ]

unfoldable pub listed_level : RoomVersionRules → Option Pdu → Pdu → String → Result ℤ
listed_level rules (some pl) create_event sender = do
  content ← deserialize_power_levels_content_fields pl.content rules
  ok (user_level content sender)
listed_level rules none create_event sender = do
  is_creator ← created_by rules create_event sender
  ok (if is_creator then pos 100 else pos 0)

abbrev pub names : String → Raw String → Bool
names sender (ok c) = c == sender
names sender (err e) = false

abbrev pub is_additional : Option (List (Raw String)) → String → Bool
is_additional none sender = false
is_additional (some creators) sender = any (names sender) creators

unfoldable pub is_privileged : RoomVersionRules → CreateFields → Pdu → String → Bool
is_privileged rules content create_event sender =
    rules.authorization.explicitly_privilege_room_creators
    && (sender == create_event.sender || is_additional content.additional_creators sender)

-- `sender_power_level`.
unfoldable pub sender_level : RoomVersionRules → Option Pdu → CreateFields → Pdu → String → Result ℤ
sender_level rules power_levels_event content create_event sender = do
  level ← listed_level rules power_levels_event create_event sender
  ok (if is_privileged rules content create_event sender then int_max else level)

unfoldable pub invite_level : RoomVersionRules → Option Pdu → Result ℤ
invite_level rules none = ok (pos 0)
invite_level rules (some pl) = deserialize_power_levels_content_invite pl.content rules

unfoldable pub redact_level : RoomVersionRules → Option Pdu → Result ℤ
redact_level rules none = ok (pos 50)
redact_level rules (some pl) = deserialize_power_levels_content_redact pl.content rules

-- The creators of an `m.room.power_levels` check; one that does not deserialise is an error.
unfoldable pub collect_creators : List (Raw String) → List String → Result (List String)
collect_creators [] creators = ok creators
collect_creators (ok c ∷ rest) creators = collect_creators rest (insert_new c creators)
collect_creators (err e ∷ rest) creators = err e

abbrev pub flatten_creators : Option (List (Raw String)) → List (Raw String)
flatten_creators none = []
flatten_creators (some creators) = creators

unfoldable pub power_event_creators : RoomVersionRules → CreateFields → Pdu → Result (List String)
power_event_creators rules content create_event =
    if rules.authorization.explicitly_privilege_room_creators
    then collect_creators (flatten_creators content.additional_creators) (create_event.sender ∷ [])
    else ok []

abbrev pub is_some_true : Option Bool → Bool
is_some_true (some true) = true
is_some_true _ = false

unfoldable pub check_power_event :
    Ruma → RoomVersionRules → CreateFields → Pdu → Pdu → Option Pdu → ℤ → Result Bool
check_power_event ruma rules content create_event ev power_levels_event level =
    if ev.kind == room_power_levels
    then (do
      creators ← power_event_creators rules content create_event
      ok (is_some_true (check_power_levels ruma rules ev power_levels_event level creators)))
    else ok true

abbrev pub redacted_server : Ruma → Option String → Option String
redacted_server ruma none = none
redacted_server ruma (some id) = ruma.event_server id

unfoldable pub check_redaction : Ruma → Pdu → ℤ → ℤ → Bool
check_redaction ruma redaction_event user_level redact_level =
    if leℤ redact_level user_level
    then true
    else if ruma.event_server redaction_event.event_id
        == redacted_server ruma redaction_event.redacts
    then true
    else false

unfoldable pub check_redaction_event : Ruma → RoomVersionRules → Pdu → Option Pdu → ℤ → Result Bool
check_redaction_event ruma rules ev power_levels_event level =
    if rules.authorization.special_case_room_redaction && ev.kind == room_redaction
    then (do
      needed ← redact_level rules power_levels_event
      ok (check_redaction ruma ev level needed))
    else ok true

-- The checks by power level, from the third party invites to the end.
unfoldable pub check_power :
    Ruma → RoomVersionRules → CreateFields → Pdu → Pdu → Option Pdu → ℤ → Result Bool
check_power ruma rules content create_event ev power_levels_event level =
    if ev.kind == room_third_party_invite
    then (do
      needed ← invite_level rules power_levels_event
      ok (if ltℤ level needed then false else true))
    else if not (can_send_event ev power_levels_event level)
    then ok false
    else (do
      allowed ← check_power_event ruma rules content create_event ev power_levels_event level
      if not allowed
          then ok false
          else check_redaction_event ruma rules ev power_levels_event level)

-- The part for the events that are neither create, aliases nor member events.
unfoldable pub check_other :
    Ruma
    → RoomVersionRules
    → CreateFields
    → String
    → Pdu
    → Pdu
    → Option Pdu
    → Option Pdu
    → Result Bool
check_other ruma rules content room_id create_event ev power_levels_event sender_member_event = do
  joined ← sender_is_joined sender_member_event room_id
  if not joined then ok false else do
    level ← sender_level rules power_levels_event content create_event ev.sender
    check_power ruma rules content create_event ev power_levels_event level

-- What follows the checks of the room, by the kind of the event.
unfoldable pub check_kind :
    Ruma → RoomVersionRules → FetchState → Pdu → Pdu → CreateFields × String → Result Bool
check_kind ruma rules fetch ev create_event (content, room_id) =
    let power_levels_event = fetch room_power_levels "" in
    let sender_member_event = fetch room_member ev.sender in
    if rules.authorization.special_case_room_aliases && ev.kind == room_aliases
    then ok (ev.state_key == some (ruma.user_server ev.sender))
    else if ev.kind == room_member
    then check_member ruma rules fetch ev power_levels_event sender_member_event create_event
    else check_other ruma rules content room_id create_event ev power_levels_event
        sender_member_event

unfoldable pub after_room :
    Ruma → RoomVersionRules → FetchState → Pdu → Pdu → Option (CreateFields × String) → Result Bool
after_room ruma rules fetch ev create_event none = ok false
after_room ruma rules fetch ev create_event (some found) =
    check_kind ruma rules fetch ev create_event found

-- `current_third_party_invite` goes only to `verify_third_party_invite`, which ignores it.
unfoldable pub auth_check : Ruma → RoomVersionRules → Pdu → FetchState → Pdu → Result Bool
auth_check ruma rules ev fetch create_event =
    if ev.kind == room_create then check_create ruma rules ev else (do
      passed ← check_room ruma rules ev (fetch room_power_levels "") create_event
      after_room ruma rules fetch ev create_event passed)
