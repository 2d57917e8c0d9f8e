-- ===== src/Auth/Check/Standing.antt =====
-- What a sender is in a room, described apart from `auth_check`: a joined member, with a level, who
-- may send an event.
use cinquain.Prelude.{
  String, ◌≡◌, ◌⊎◌, true, false, Option, none, some, string_eq, ℤ, pos, leℤ, if◌then◌else◌, arith,
  inl, inr, Option-cases, Bool-cases, refl,
}
use cinquain.Prelude.Map
use cinquain.Matrix.{
  ok, Result-cases, >>=-eq-ok, Membership, MemberFields, UserEntries, PowerLevels, CreateFields,
  Pdu, RoomVersionRules,
}
use cinquain.Auth.Levels.{
  can_send_event, get_send_level, is_foreign_user_key, level_for, level_without,
  deserialize_power_levels_content_fields, deserialize_fields, visit_map, user_level,
}
use cinquain.Auth.Levels.Users.{least_level, level_or, user_level-least}
use cinquain.Auth.Creators.{Privileged, is_privileged_iff}
use cinquain.Auth.Check.{sender_is_joined, created_by, listed_level, sender_level, is_privileged}
use mathlib.Core.Path.{subst}
use text.Mathlib.Text.{starts_with}

-- The event says that its sender's membership in the room is `join`.
pub record HasJoined (member_event : Option Pdu) (room_id : String) : Type 0 where
  pub event : Pdu
  pub fields : MemberFields
  pub found : member_event ≡ some event
  pub of_room : event.room_id ≡ some room_id
  pub readable : event.content.member_fields ≡ ok fields
  pub joins : fields.membership ≡ some (ok Membership.join)

pub sender_is_joined-HasJoined :
    (member_event : Option Pdu) (room_id : String)
    → sender_is_joined member_event room_id ≡ ok true
    → HasJoined member_event room_id
unfolding sender_is_joined
sender_is_joined-HasJoined none room_id h = cc
sender_is_joined-HasJoined (some event) room_id h = elim (Option-cases event.room_id) [
  | inl r ↦ absurd (ground arith)
  | inr (own, r) ↦ elim (Result-cases event.content.member_fields) [
    | inr (x, f) ↦ absurd (ground arith)
    | inl (fields, f) ↦ elim (Option-cases fields.membership) [
      | inl m ↦ absurd (ground arith)
      | inr (raw, m) ↦ record {
        event = event;
        fields = fields;
        found = refl;
        of_room = ground (arith, string_eq.beq_iff own room_id);
        readable = f;
        joins = ground arith;
      }
    ]
  ]
]

module _ (rules : RoomVersionRules) (create_event : Pdu) (sender : String) where
  -- The sender created the room.
  abbrev pub Created : Type 0
  Created =
      ((rules.authorization.use_room_create_sender ≡ true) × (create_event.sender ≡ sender))
      ⊎ ((rules.authorization.use_room_create_sender ≡ false)
          × (create_event.content.room_create ≡ ok (some sender)))

  -- The level that the power levels give the sender, or without power levels 100 for the creator.
  abbrev pub GivenLevel : Option Pdu → ℤ → Type 0
  GivenLevel none level = (Created × (level ≡ pos 100)) ⊎ ((¬ Created) × (level ≡ pos 0))
  GivenLevel (some levels) level =
      (entries : UserEntries) × ((if rules.authorization.integer_power_levels
          then levels.content.int_users
          else levels.content.v1_users)
        ≡ ok entries)
      × (level ≡ level_or entries.users_default (least_level sender entries.users))

  -- Privileged creators have the greatest level that is written in JSON, 2^53 - 1.
  abbrev pub LevelIs : Option Pdu → CreateFields → ℤ → Type 0
  LevelIs levels content level =
      (Privileged rules content create_event sender × (level ≡ pos 9007199254740991))
      ⊎ ((¬ Privileged rules content create_event sender) × GivenLevel levels level)

  created_by-Created : created_by rules create_event sender ≡ ok true → Created
  unfolding created_by
  created_by-Created h = elim (Result-cases create_event.content.room_create) [
    | inl (creator, e) ↦ elim (Option-cases creator) [
      | inl n ↦ ground (arith, string_eq.beq_iff create_event.sender sender)
      | inr (c, n) ↦
          ground (arith, string_eq.beq_iff create_event.sender sender, string_eq.beq_iff c sender)
    ]
    | inr (x, e) ↦ ground (arith, string_eq.beq_iff create_event.sender sender)
  ]

  created_by-other : created_by rules create_event sender ≡ ok false → ¬ Created
  unfolding created_by
  created_by-other h c =
      ground (arith, string_eq.beq_iff create_event.sender sender, string_eq.beq_iff sender sender)

  listed_level-GivenLevel :
      (levels : Option Pdu) (level : ℤ)
      → listed_level rules levels create_event sender ≡ ok level
      → GivenLevel levels level
  unfolding listed_level deserialize_power_levels_content_fields deserialize_fields
  listed_level-GivenLevel none level h =
      let (created, found, ends) =
        >>=-eq-ok (created_by rules create_event sender) (λ c. ok (if c then pos 100 else pos 0))
          h in
      elim (Bool-cases created) [
        | inl e ↦ inl (created_by-Created (ground arith), ground arith)
        | inr e ↦ inr (created_by-other (ground arith), ground arith)
      ]
  listed_level-GivenLevel (some levels) level h =
      let (fields, found, ends) =
        >>=-eq-ok (deserialize_power_levels_content_fields levels.content rules)
          (λ f. ok (user_level f sender)) h in
      let (entries, read, visited) =
        >>=-eq-ok
          (if rules.authorization.integer_power_levels
            then levels.content.int_users
            else levels.content.v1_users)
          (λ e. ok (record { users = visit_map e.users; users_default = e.users_default })) found in
      (
        entries,
        read,
        ground (arith, ends, user_level-least levels.content rules entries sender read found),
      )

  pub sender_level-LevelIs :
      (levels : Option Pdu) (content : CreateFields) (level : ℤ)
      → sender_level rules levels content create_event sender ≡ ok level
      → LevelIs levels content level
  unfolding sender_level
  sender_level-LevelIs levels content level h =
      let (listed, found, ends) =
        >>=-eq-ok (listed_level rules levels create_event sender)
          (λ l.
            ok
              (if is_privileged rules content create_event sender then pos 9007199254740991 else l))
          h in
      let iff = is_privileged_iff rules content create_event sender in
      elim (Bool-cases (is_privileged rules content create_event sender)) [
        | inl e ↦ inl (iff.0 e, ground arith)
        | inr e ↦ inr (
          (λ p. absurd (ground (arith, iff.1 p))),
          subst (GivenLevel levels) (ground arith) (listed_level-GivenLevel levels listed found),
        )
      ]

module _ (ev : Pdu) (levels : Option Pdu) (level : ℤ) where
  -- The power levels can be read.
  abbrev pub ReadAs : PowerLevels → Type 0
  ReadAs content = (event : Pdu) × (levels ≡ some event) × (event.content.power_levels ≡ ok content)

  -- The level suffices for the event, and its state key is no other user's id.
  pub record MaySend : Type 0 where
    pub listed :
        (content : PowerLevels) (needed : ℤ)
        → ReadAs content
        → Map.get ev.kind content.events ≡ some needed
        → leℤ needed level ≡ true
    pub state_default :
        (content : PowerLevels) (key : String)
        → ReadAs content
        → Map.get ev.kind content.events ≡ none
        → ev.state_key ≡ some key
        → leℤ content.state_default level ≡ true
    pub events_default :
        (content : PowerLevels)
        → ReadAs content
        → Map.get ev.kind content.events ≡ none
        → ev.state_key ≡ none
        → leℤ content.events_default level ≡ true
    pub unread_state :
        (key : String)
        → ((content : PowerLevels) → ¬ ReadAs content)
        → ev.state_key ≡ some key
        → leℤ (pos 50) level ≡ true
    pub unread_event :
        ((content : PowerLevels) → ¬ ReadAs content)
        → ev.state_key ≡ none
        → leℤ (pos 0) level ≡ true
    pub own_key :
        (key : String) → ev.state_key ≡ some key → starts_with key "@" ≡ true → key ≡ ev.sender

  reached :
      can_send_event ev levels level ≡ true
      → leℤ (get_send_level ev.kind ev.state_key levels) level ≡ true
  unfolding can_send_event
  reached h = ground arith

  needed_read :
      (content : PowerLevels)
      → ReadAs content
      → get_send_level ev.kind ev.state_key levels ≡ level_for ev.kind ev.state_key content
  unfolding get_send_level
  needed_read content (event, e, r) = ground arith

  needed_unread :
      ((content : PowerLevels) → ¬ ReadAs content)
      → get_send_level ev.kind ev.state_key levels ≡ level_without ev.state_key
  unfolding get_send_level
  needed_unread n = elim (Option-cases levels) [
    | inl e ↦ ground arith
    | inr (event, e) ↦ elim (Result-cases event.content.power_levels) [
      | inl (content, r) ↦ absurd (n content (event, e, r))
      | inr (x, r) ↦ ground arith
    ]
  ]

  pub can_send_event-MaySend : can_send_event ev levels level ≡ true → MaySend
  unfolding level_for level_without is_foreign_user_key can_send_event
  can_send_event-MaySend h = record {
    listed = λ content needed r g. ground (arith, reached h, needed_read content r);
    state_default = λ content key r g k. ground (arith, reached h, needed_read content r);
    events_default = λ content r g k. ground (arith, reached h, needed_read content r);
    unread_state = λ key n k. ground (arith, reached h, needed_unread n);
    unread_event = λ n k. ground (arith, reached h, needed_unread n);
    own_key = λ key k s. ground (arith, string_eq.beq_iff key ev.sender);
  }
