-- ===== src/Auth/PowerEvent.antt =====
-- `check_power_levels`: whether a sender may replace the power levels of a room
-- (core/matrix/state_res/event_auth.rs).
pub mod Entries
pub mod Allowed
use cinquain.Prelude.{
  String, Bool, true, false, ◌&&◌, ◌||◌, not, Option, none, some, List, [], ◌∷◌, ◌++◌, map,
  if◌then◌else◌, ◌==◌, string_eq, option_eq, int_eq, ℤ, ltℤ, contains, to_set, all,
}
use cinquain.Prelude.Map
use cinquain.Matrix.{PowerLevels, Pdu, RoomVersionRules, Ruma}
use cinquain.Auth.Levels.{is_some, deserialize_power_levels}

-- `level > Some(&user_level)`, where `None` is less than any `Some`.
abbrev pub exceeds : Option ℤ → ℤ → Bool
exceeds none limit = false
exceeds (some level) limit = ltℤ limit level

-- `old_level.is_some() && new_level.is_some() && old_level == new_level`.
abbrev pub unchanged : Option ℤ → Option ℤ → Bool
unchanged old new = is_some old && is_some new && old == new

-- One round of the loop over users; `false` is `return Some(false)`.
unfoldable pub user_passes : PowerLevels → PowerLevels → String → ℤ → List String → String → Bool
user_passes old_state new_state sender user_level creators user =
    let old_level = Map.get user old_state.users in
    let new_level = Map.get user new_state.users in
    if is_some new_level && contains creators user
    then false
    else if unchanged old_level new_level
    then true
    else if not (user == sender) && old_level == some user_level
    then false
    else if exceeds old_level user_level
    then false
    else if exceeds new_level user_level
    then false
    else true

-- One round of the loop over event types.
unfoldable pub event_passes : PowerLevels → PowerLevels → ℤ → String → Bool
event_passes old_state new_state user_level ev_type =
    let old_level = Map.get ev_type old_state.events in
    let new_level = Map.get ev_type new_state.events in
    if unchanged old_level new_level
    then true
    else if exceeds old_level user_level
    then false
    else if exceeds new_level user_level
    then false
    else true

unfoldable pub notifications_pass : RoomVersionRules → PowerLevels → PowerLevels → ℤ → Bool
notifications_pass rules old_state new_state user_level =
    let old_level = old_state.notifications_room in
    let new_level = new_state.notifications_room in
    if rules.authorization.limit_notifications_power_levels
    then (if old_level == new_level
        then true
        else not (ltℤ user_level old_level || ltℤ user_level new_level))
    else true

abbrev pub levels : List String
levels =
    "users_default" ∷ "events_default" ∷ "state_default" ∷ "ban" ∷ "redact" ∷ "kick" ∷ "invite" ∷ []

-- `get_deserialize_levels` on the JSON forms of the two contents.
unfoldable pub get_deserialize_levels : Option ℤ → Option ℤ → Option (ℤ × ℤ)
get_deserialize_levels (some old) (some new) = some (old, new)
get_deserialize_levels _ _ = none

-- One round of the loop over the level names.
unfoldable pub level_passes : Ruma → PowerLevels → PowerLevels → ℤ → String → Bool
unfolding get_deserialize_levels
level_passes ruma old_state new_state user_level lvl_name =
    elim (get_deserialize_levels (ruma.json_level old_state lvl_name)
      (ruma.json_level new_state lvl_name)) [
        | none ↦ true
        | some (old_lvl, new_lvl) ↦ not (ltℤ user_level old_lvl || ltℤ user_level new_lvl)
      ]

-- The loops, in their order.
unfoldable pub compare_levels :
    Ruma → RoomVersionRules → PowerLevels → PowerLevels → String → ℤ → List String → Bool
compare_levels ruma rules old_state new_state sender user_level creators =
    all (user_passes old_state new_state sender user_level creators)
      (to_set (Map.keys old_state.users ++ Map.keys new_state.users))
    && all (event_passes old_state new_state user_level)
        (to_set (Map.keys old_state.events ++ Map.keys new_state.events))
    && notifications_pass rules old_state new_state user_level
    && all (level_passes ruma old_state new_state user_level) levels

unfoldable pub compare_contents :
    Ruma → RoomVersionRules → Pdu → Option Pdu → ℤ → List String → Option Bool
compare_contents ruma rules power_event previous user_level creators =
    elim (deserialize_power_levels ruma.default_levels power_event.content rules) [
      | none ↦ none
      | some user_content ↦ elim previous [
        | none ↦ some true
        | some current_state ↦
            elim (deserialize_power_levels ruma.default_levels current_state.content rules) [
              | none ↦ none
              | some current_content ↦ some (
                  compare_levels ruma rules current_content user_content power_event.sender
                    user_level creators)
            ]
      ]
    ]

unfoldable pub check_power_levels :
    Ruma → RoomVersionRules → Pdu → Option Pdu → ℤ → List String → Option Bool
check_power_levels ruma rules power_event previous user_level creators =
    elim power_event.state_key [
      | none ↦ none
      | some key ↦
          if key == ""
          then compare_contents ruma rules power_event previous user_level creators
          else none
    ]
