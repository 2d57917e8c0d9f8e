-- ===== src/Auth/Check/Gates.antt =====
-- What an accepted event has passed.
use cinquain.Prelude.{
  String, ◌≡◌, ◌≢◌, inl, inr, true, false, not, Option, none, some, arith, ◌==◌, string_eq,
  option_eq, ℤ, contains, Option-cases,
}
use cinquain.Matrix.{
  ok, >>=-eq-ok, Result-cases, CreateFields, Pdu, RoomVersionRules, Ruma, room_id_or_hash,
  room_create, room_member, room_power_levels, room_third_party_invite, room_aliases,
}
use cinquain.Auth.Check.Standing.{
  HasJoined, sender_is_joined-HasJoined, LevelIs, sender_level-LevelIs, MaySend,
  can_send_event-MaySend,
}
use cinquain.Auth.Check.{
  FetchState, is_unsupported, names_create_event, federation_passes, check_room, sender_level,
  check_power, check_other, check_kind, auth_check, after_room,
}

module _ (ruma : Ruma) (rules : RoomVersionRules) (ev : Pdu) (fetch : FetchState)
    (create_event : Pdu) where
  -- What `check_room` has seen when it lets an event pass.
  pub record InRoom (content : CreateFields) (room_id : String) : Type 0 where
    pub readable : create_event.content.create_fields ≡ ok content
    pub supported : is_unsupported content.room_version ≡ false
    pub expected : room_id_or_hash ruma create_event ≡ ok room_id
    pub own : ev.room_id ≡ some room_id
    pub named : contains ev.auth_events create_event.event_id ≡ not rules.hashed_room_ids
    pub federates :
        content.federate ≡ false → ruma.user_server create_event.sender ≡ ruma.user_server ev.sender

  check_room-InRoom :
      (levels : Option Pdu) (content : CreateFields) (room_id : String)
      → check_room ruma rules ev levels create_event ≡ ok (some (content, room_id))
      → InRoom content room_id
  unfolding check_room names_create_event federation_passes
  check_room-InRoom levels content room_id h = elim (Option-cases ev.room_id) [
    | inl e ↦ absurd (ground arith)
    | inr (own, e) ↦ ground (
      arith,
      string_eq.beq_iff own room_id,
      string_eq.beq_iff (ruma.user_server create_event.sender) (ruma.user_server ev.sender),
    )
  ]

  unfoldable pub Passed : Type 0
  Passed =
      (content : CreateFields) × (room_id : String) × InRoom content room_id
      × (check_kind ruma rules fetch ev create_event (content, room_id) ≡ ok true)

  after_room-Passed :
      (p : Option (CreateFields × String))
      → check_room ruma rules ev (fetch room_power_levels "") create_event ≡ ok p
      → after_room ruma rules fetch ev create_event p ≡ ok true
      → Passed
  unfolding after_room Passed
  after_room-Passed none h k = cc
  after_room-Passed (some (content, room_id)) h k =
      (content, room_id, check_room-InRoom (fetch room_power_levels "") content room_id h, k)

  pub auth_check-Passed :
      (ev.kind == room_create) ≡ false
      → auth_check ruma rules ev fetch create_event ≡ ok true
      → Passed
  unfolding auth_check
  auth_check-Passed k h =
      let (p, found, rest) =
        >>=-eq-ok (check_room ruma rules ev (fetch room_power_levels "") create_event)
          (after_room ruma rules fetch ev create_event) (rw k at h) in
      after_room-Passed p found rest

  -- The sender is a joined member, whose level suffices for the event, and whose the state key is
  -- where it is a user's.
  pub record SenderMaySend (content : CreateFields) (room_id : String) : Type 0 where
    pub joined : HasJoined (fetch room_member ev.sender) room_id
    pub level : ℤ
    pub is_level : LevelIs rules create_event ev.sender (fetch room_power_levels "") content level
    pub may_send : MaySend ev (fetch room_power_levels "") level

  check_kind-MaySend :
      (content : CreateFields) (room_id : String)
      → (ev.kind == room_member) ≡ false
      → (ev.kind == room_aliases) ≡ false
      → (ev.kind == room_third_party_invite) ≡ false
      → check_kind ruma rules fetch ev create_event (content, room_id) ≡ ok true
      → SenderMaySend content room_id
  unfolding check_kind check_other check_power
  check_kind-MaySend content room_id m a t h =
      elim (Result-cases
        (sender_level rules (fetch room_power_levels "") content create_event ev.sender)) [
          | inl (level, e) ↦ record {
            joined =
                sender_is_joined-HasJoined (fetch room_member ev.sender) room_id (ground arith);
            level = level;
            is_level =
                sender_level-LevelIs rules create_event ev.sender (fetch room_power_levels "")
                  content level e;
            may_send = can_send_event-MaySend ev (fetch room_power_levels "") level (ground arith);
          }
          | inr (x, e) ↦ absurd (ground arith)
        ]

  -- Whatever is accepted but a create event belongs to the room: the create event is readable and of
  -- a known room version, the event carries the room's id, names the create event exactly if the
  -- room version wants it named, and comes from the creator's server where the room does not
  -- federate.
  pub auth_check-InRoom :
      ev.kind ≢ room_create
      → auth_check ruma rules ev fetch create_event ≡ ok true
      → (content : CreateFields) × (room_id : String) × InRoom content room_id
  unfolding Passed
  auth_check-InRoom n h =
      let (content, room_id, inside, rest) =
        auth_check-Passed (ground (arith, string_eq.beq_iff ev.kind room_create)) h in
      (content, room_id, inside)

  -- An accepted event that is no create, member, aliases or third party invite event was sent by a
  -- joined member of the event's room. The sender's level is 2^53 - 1 for a creator that the room
  -- privileges, and else the least that the power levels list, their default, or without power levels
  -- 100 for the creator and 0 for others. It is at least what the power levels ask for the event's
  -- type, or by default for its kind, and where they cannot be read 50 for state and 0 else. A state
  -- key that starts with @ is the sender.
  pub auth_check-MaySend :
      ev.kind ≢ room_create
      → ev.kind ≢ room_member
      → ev.kind ≢ room_aliases
      → ev.kind ≢ room_third_party_invite
      → auth_check ruma rules ev fetch create_event ≡ ok true
      → (content : CreateFields) × (room_id : String) × InRoom content room_id
        × SenderMaySend content room_id
  unfolding Passed
  auth_check-MaySend c m a t h =
      let (content, room_id, inside, rest) =
        auth_check-Passed (ground (arith, string_eq.beq_iff ev.kind room_create)) h in
      (
        content,
        room_id,
        inside,
        check_kind-MaySend content room_id (ground (arith, string_eq.beq_iff ev.kind room_member))
            (ground (arith, string_eq.beq_iff ev.kind room_aliases))
            (ground (arith, string_eq.beq_iff ev.kind room_third_party_invite)) rest,
      )
