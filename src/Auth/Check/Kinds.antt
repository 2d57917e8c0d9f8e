-- ===== src/Auth/Check/Kinds.antt =====
-- What an accepted event of a special kind has passed: the checks of its kind.
use mathlib.Core.Path.{subst, sym}
use cinquain.Prelude.{
  String, ◌≡◌, ◌↔◌, contains, refl, inl, inr, true, false, some, List, arith, ◌==◌, string_eq, ℤ,
}
use cinquain.Matrix.{
  ok, Result-cases, CreateFields, Pdu, RoomVersionRules, Ruma, room_create, room_member,
  room_power_levels, room_third_party_invite, room_aliases,
}
use cinquain.Auth.PowerEvent.{check_power_levels}
use cinquain.Auth.PowerEvent.Allowed.{Accepted, check_power_levels-Accepted}
use cinquain.Auth.Creators.{Privileged, power_event_creators_iff}
use cinquain.Auth.Check.Standing.{LevelIs, sender_level-LevelIs}
use cinquain.Auth.Check.{
  FetchState, sender_level, power_event_creators, check_power_event, check_power, check_other,
  check_kind, auth_check,
}
use cinquain.Auth.Check.Gates.{InRoom, Passed, auth_check-Passed}

kind_ne : {kind a : String} (b : String) → kind ≡ a → (a == b) ≡ false → (kind == b) ≡ false
kind_ne b e h = subst (λ k. (k == b) ≡ false) (sym e) h

module _ (ruma : Ruma) (rules : RoomVersionRules) (ev : Pdu) (fetch : FetchState)
    (create_event : Pdu) where
  -- The change of power levels that was accepted, with the sender's level and the creators that the
  -- room privileges.
  pub record PowerChecked (content : CreateFields) : Type 0 where
    pub level : ℤ
    pub creators : List String
    pub is_level : LevelIs rules create_event ev.sender (fetch room_power_levels "") content level
    pub are_creators :
        (user : String)
        → (contains creators user ≡ true) ↔ Privileged rules content create_event user
    pub accepted : Accepted ruma rules ev (fetch room_power_levels "") level creators

  check_power_event-within :
      (content : CreateFields) (level : ℤ)
      → ev.kind ≡ room_power_levels
      → check_power_event ruma rules content create_event ev (fetch room_power_levels "") level
        ≡ ok true
      → (creators : List String) × (power_event_creators rules content create_event ≡ ok creators)
        × (check_power_levels ruma rules ev (fetch room_power_levels "") level creators ≡ some true)
  unfolding check_power_event
  check_power_event-within content level k h =
      elim (Result-cases (power_event_creators rules content create_event)) [
        | inl (creators, e) ↦
            (creators, e, ground (arith, string_eq.beq_iff ev.kind room_power_levels))
        | inr (x, e) ↦ absurd (ground (arith, string_eq.beq_iff ev.kind room_power_levels))
      ]

  check_kind-PowerChecked :
      (content : CreateFields) (room_id : String)
      → ev.kind ≡ room_power_levels
      → check_kind ruma rules fetch ev create_event (content, room_id) ≡ ok true
      → PowerChecked content
  unfolding check_kind check_other check_power
  check_kind-PowerChecked content room_id k h =
      elim (Result-cases
        (sender_level rules (fetch room_power_levels "") content create_event ev.sender)) [
          | inl (level, e) ↦
              let (creators, c, w) = check_power_event-within content level k (
                ground (
                  arith,
                  string_eq.beq_iff ev.kind room_power_levels,
                  kind_ne room_aliases k refl,
                  kind_ne room_member k refl,
                  kind_ne room_third_party_invite k refl,
                )) in
              record {
                level = level;
                creators = creators;
                is_level =
                    sender_level-LevelIs rules create_event ev.sender (fetch room_power_levels "")
                      content level e;
                are_creators =
                    λ user. power_event_creators_iff rules content create_event creators user c;
                accepted =
                    check_power_levels-Accepted ruma rules ev (fetch room_power_levels "") level
                      creators w;
              }
          | inr (x, e) ↦ absurd (
              ground (
                arith,
                string_eq.beq_iff ev.kind room_power_levels,
                kind_ne room_aliases k refl,
                kind_ne room_member k refl,
              ))
        ]

  -- An accepted power levels event belongs to the room, has an empty state key and a content that can
  -- be read. If the state has power levels, they can be read as well, the new content lists no creator
  -- that the room privileges, and the change is one that a sender may make of this level: 2^53 - 1 for
  -- such a creator, and else the level that the power levels give the sender.
  pub auth_check-PowerChecked :
      ev.kind ≡ room_power_levels
      → auth_check ruma rules ev fetch create_event ≡ ok true
      → (content : CreateFields) × (room_id : String) × InRoom ruma rules ev fetch create_event
          content room_id
        × PowerChecked content
  unfolding Passed
  auth_check-PowerChecked k h =
      let (content, room_id, inside, rest) =
        auth_check-Passed ruma rules ev fetch create_event (kind_ne room_create k refl) h in
      (content, room_id, inside, check_kind-PowerChecked content room_id k rest)
