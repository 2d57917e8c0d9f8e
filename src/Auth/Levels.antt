-- ===== src/Auth/Levels.antt =====
-- Reading power levels (core/matrix/state_res/power_levels.rs, serde_backports.rs), and the level
-- that sending an event takes (`get_send_level`, `can_send_event` of event_auth.rs).
pub mod Users
use cinquain.Prelude.{
  String, Bool, true, false, ◌&&◌, not, Option, none, some, List, [], ◌∷◌, if◌then◌else◌, ◌==◌,
  string_eq, ℤ, pos, leℤ, ltℤ,
}
use cinquain.Prelude.Order.{text_le}
use cinquain.Prelude.Map
use cinquain.Matrix.{
  Result, ok, err, ◌>>=◌, to_option, Content, PowerLevels, UserEntries, Pdu, AuthorizationRules,
  RoomVersionRules,
}
use text.Mathlib.Text.{starts_with}

-- The order of the pairs that `sort_unstable` sorts by.
unfoldable pub entry_le : String × ℤ → String × ℤ → Bool
entry_le (j, v) (k, w) = if text_le j k then (if text_le k j then leℤ v w else true) else false

-- `sort_unstable` of the standard library, as an insertion sort.
unfoldable pub insert_entry : String × ℤ → List (String × ℤ) → List (String × ℤ)
unfolding entry_le
insert_entry p [] = p ∷ []
insert_entry p (q ∷ m) = if entry_le p q then p ∷ q ∷ m else q ∷ insert_entry p m

unfoldable pub sort_entries : List (String × ℤ) → List (String × ℤ)
unfolding insert_entry
sort_entries [] = []
sort_entries (p ∷ m) = insert_entry p (sort_entries m)

-- `dedup_by(|a, b| a.0 == b.0)`: of a run with one key the first entry stays.
unfoldable pub dedup_after : String → List (String × ℤ) → List (String × ℤ)
dedup_after k [] = []
dedup_after k ((j, v) ∷ m) = let rest = dedup_after j m in if k == j then rest else (j, v) ∷ rest

unfoldable pub dedup : List (String × ℤ) → List (String × ℤ)
unfolding dedup_after
dedup [] = []
dedup ((k, v) ∷ m) = (k, v) ∷ dedup_after k m

-- `IntMapVisitor::visit_map`.
unfoldable pub visit_map : List (String × ℤ) → List (String × ℤ)
unfolding sort_entries dedup
visit_map entries = dedup (sort_entries entries)

-- `PowerLevelsContentFields`.
pub record PowerLevelsContentFields : Type 0 where
  pub users : List (String × ℤ)
  pub users_default : ℤ

-- `vec_deserialize_v1_powerlevel_values` and `vec_deserialize_int_powerlevel_values` differ in how
-- one value is read, which `v1_users` and `int_users` of a content have done.
unfoldable pub deserialize_fields : Result UserEntries → Result PowerLevelsContentFields
deserialize_fields read = do
  fields ← read
  ok (record { users = visit_map fields.users; users_default = fields.users_default })

unfoldable pub deserialize_power_levels_content_fields :
    Content → RoomVersionRules → Result PowerLevelsContentFields
unfolding deserialize_fields
deserialize_power_levels_content_fields content rules =
    deserialize_fields
      (if rules.authorization.integer_power_levels then content.int_users else content.v1_users)

-- The binary search finds the entry of a key in a sorted vector that has it once.
unfoldable pub get_user_power : PowerLevelsContentFields → String → Option ℤ
get_user_power fields user_id = Map.get user_id fields.users

-- The level of a user, or the default.
unfoldable pub user_level : PowerLevelsContentFields → String → ℤ
unfolding get_user_power
user_level fields user_id = elim (get_user_power fields user_id) [
  | some level ↦ level
  | none ↦ fields.users_default
]

unfoldable pub deserialize_power_levels_content_invite : Content → RoomVersionRules → Result ℤ
deserialize_power_levels_content_invite content rules =
    if rules.authorization.integer_power_levels then content.int_invite else content.v1_invite

unfoldable pub deserialize_power_levels_content_redact : Content → RoomVersionRules → Result ℤ
deserialize_power_levels_content_redact content rules =
    if rules.authorization.integer_power_levels then content.int_redact else content.v1_redact

-- `into_room_power_levels_content`: every field of the new value is overwritten.
unfoldable pub into_room_power_levels_content : PowerLevels → PowerLevels → PowerLevels
into_room_power_levels_content new self = record new {
  ban = self.ban;
  events = self.events;
  events_default = self.events_default;
  invite = self.invite;
  kick = self.kick;
  redact = self.redact;
  state_default = self.state_default;
  users = self.users;
  users_default = self.users_default;
  notifications_room = self.notifications_room;
}

unfoldable pub deserialize_power_levels :
    (AuthorizationRules → PowerLevels) → Content → RoomVersionRules → Option PowerLevels
unfolding into_room_power_levels_content
deserialize_power_levels default_levels content rules =
    if rules.authorization.integer_power_levels
    then to_option (do
      int_content ← content.int_power_levels
      ok (into_room_power_levels_content (default_levels rules.authorization) int_content))
    else to_option content.power_levels

abbrev pub is_some {ℓ} : {A : Type ℓ} → Option A → Bool
is_some none = false
is_some (some a) = true

-- The closure of `get_send_level` on a content that was read.
unfoldable pub level_for : String → Option String → PowerLevels → ℤ
level_for e_type state_key content = elim (Map.get e_type content.events) [
  | some level ↦ level
  | none ↦ if is_some state_key then content.state_default else content.events_default
]

unfoldable pub level_without : Option String → ℤ
level_without state_key = if is_some state_key then pos 50 else pos 0

unfoldable pub get_send_level : String → Option String → Option Pdu → ℤ
unfolding level_for level_without
get_send_level e_type state_key none = level_without state_key
get_send_level e_type state_key (some ple) = elim ple.content.power_levels [
  | ok content ↦ level_for e_type state_key content
  | err e ↦ level_without state_key
]

-- `state_key.is_some_and(|k| k.starts_with('@')) && state_key != Some(sender)`.
unfoldable pub is_foreign_user_key : Option String → String → Bool
is_foreign_user_key none sender = false
is_foreign_user_key (some key) sender = starts_with key "@" && not (key == sender)

unfoldable pub can_send_event : Pdu → Option Pdu → ℤ → Bool
unfolding get_send_level is_foreign_user_key
can_send_event event ple user_level =
    if ltℤ user_level (get_send_level event.kind event.state_key ple)
    then false
    else if is_foreign_user_key event.state_key event.sender
    then false
    else true
