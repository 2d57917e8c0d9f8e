-- ===== src/Tests/Auth.antt =====
-- Instances of the theorems on `auth_check`.
use cinquain.Prelude.{
  String, ◌≡◌, ◌≢◌, refl, true, false, Option, none, some, List, [], ◌∷◌, ◌==◌, string_eq, arith,
}
use cinquain.Matrix.{
  ok, CreateFields, room_id_or_hash, room_create, room_member, room_aliases,
  room_third_party_invite,
}
use cinquain.Auth.Check.{
  check_room, names_create_event, in_room, federation_passes, after_room, check_kind, check_other,
  sender_is_joined, sender_level, listed_level, is_privileged, check_power, check_power_event,
  check_redaction_event, auth_check,
}
use cinquain.Auth.Levels.{can_send_event}
use cinquain.Auth.Check.Gates.{InRoom, SenderMaySend, auth_check-InRoom, auth_check-MaySend}
use cinquain.Auth.Check.Kinds.{PowerChecked, auth_check-PowerChecked}
use cinquain.Tests.Data.{power, ruma, rules, topic, create, fetch_state, string_ne}

topic_passes : auth_check ruma rules topic fetch_state create ≡ ok true
unfolding auth_check check_room room_id_or_hash names_create_event cinquain.Prelude.contains in_room
    federation_passes after_room check_kind check_other sender_is_joined sender_level listed_level
    cinquain.Auth.Levels.deserialize_power_levels_content_fields check_power can_send_event
    is_privileged cinquain.Auth.Levels.user_level cinquain.Auth.Levels.deserialize_fields
    cinquain.Auth.Levels.visit_map cinquain.Auth.Levels.dedup cinquain.Auth.Levels.dedup_after
    cinquain.Auth.Levels.entry_le cinquain.Auth.Levels.insert_entry
    cinquain.Auth.Levels.sort_entries cinquain.Auth.Levels.get_user_power cinquain.Prelude.Map.get
    cinquain.Auth.Levels.get_send_level cinquain.Auth.Levels.is_foreign_user_key
    cinquain.Auth.Levels.level_for cinquain.Auth.Levels.level_without check_power_event
    check_redaction_event
topic_passes = refl

auth_check-InRoom_example :
    (content : CreateFields) × (room_id : String) × InRoom ruma rules topic fetch_state create
      content room_id
auth_check-InRoom_example =
    auth_check-InRoom ruma rules topic fetch_state create
      (string_ne "m.room.topic" room_create refl) topic_passes

auth_check-MaySend_example :
    (content : CreateFields) × (room_id : String) × InRoom ruma rules topic fetch_state create
      content room_id
    × SenderMaySend ruma rules topic fetch_state create content room_id
auth_check-MaySend_example =
    auth_check-MaySend ruma rules topic fetch_state create
      (string_ne "m.room.topic" room_create refl) (string_ne "m.room.topic" room_member refl)
      (string_ne "m.room.topic" room_aliases refl)
      (string_ne "m.room.topic" room_third_party_invite refl) topic_passes

power_passes : auth_check ruma rules power fetch_state create ≡ ok true
unfolding auth_check check_room room_id_or_hash names_create_event cinquain.Prelude.contains in_room
    federation_passes after_room check_kind check_other sender_is_joined sender_level listed_level
    cinquain.Auth.Levels.deserialize_power_levels_content_fields check_power can_send_event
    is_privileged cinquain.Auth.Levels.user_level cinquain.Auth.Levels.deserialize_fields
    cinquain.Auth.Levels.visit_map cinquain.Auth.Levels.dedup cinquain.Auth.Levels.dedup_after
    cinquain.Auth.Levels.entry_le cinquain.Auth.Levels.insert_entry
    cinquain.Auth.Levels.sort_entries cinquain.Auth.Levels.get_user_power cinquain.Prelude.Map.get
    cinquain.Auth.Levels.get_send_level cinquain.Auth.Levels.is_foreign_user_key
    cinquain.Auth.Levels.level_for cinquain.Auth.Levels.level_without check_power_event
    check_redaction_event cinquain.Auth.PowerEvent.check_power_levels
    cinquain.Auth.PowerEvent.compare_contents cinquain.Auth.PowerEvent.compare_levels
    cinquain.Auth.PowerEvent.user_passes cinquain.Auth.PowerEvent.event_passes
    cinquain.Auth.PowerEvent.notifications_pass cinquain.Auth.PowerEvent.level_passes
    cinquain.Auth.PowerEvent.get_deserialize_levels cinquain.Auth.Levels.deserialize_power_levels
    cinquain.Auth.Levels.into_room_power_levels_content cinquain.Auth.Check.power_event_creators
    cinquain.Prelude.all cinquain.Prelude.to_set cinquain.Prelude.insert_new
power_passes = refl

auth_check-PowerChecked_example :
    (content : CreateFields) × (room_id : String) × InRoom ruma rules power fetch_state create
      content room_id
    × PowerChecked ruma rules power fetch_state create content
auth_check-PowerChecked_example =
    auth_check-PowerChecked ruma rules power fetch_state create refl power_passes
