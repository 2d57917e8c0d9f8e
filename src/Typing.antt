-- ===== src/Typing.antt =====
-- The typing service: src/service/rooms/typing/mod.rs. A sender to the subscribers and the service that
-- sends EDUs are the lists of what they were given; `next_count` adds one and does not fail.
pub mod Timeouts
use cinquain.Prelude.{
  ℕ, suc, Bool, true, false, not, ◌&&◌, Option, none, some, List, [], ◌∷◌, ◌++◌, String, ◌==◌,
  string_eq, Eq, ltb, keep, if◌then◌else◌, is_empty,
}
use cinquain.Prelude.Map

-- The users who type in a room, with the times at which that ends.
abbrev pub Room : Type 0
Room = List (String × ℕ)

-- A typing EDU: the room, the user and whether the user types.
abbrev pub TypingContent : Type 0
TypingContent = String × String × Bool

pub record Service : Type 0 where
  pub typing : List (String × Room)
  pub last_update : List (String × ℕ)
  pub count : ℕ
  pub updated_rooms : List String
  pub sent : List TypingContent

abbrev room_or_default : Option Room → Room
room_or_default none = []
room_or_default (some room) = room

unfoldable pub room_of : String → Service → Room
room_of room_id s = room_or_default (Map.get room_id s.typing)

-- Sets a room's users, and tells the subscribers.
unfoldable pub update_room : String → Room → Service → Service
update_room room_id room s = record {
  typing = Map.insert room_id room s.typing;
  last_update = Map.insert room_id (suc s.count) s.last_update;
  count = suc s.count;
  updated_rooms = s.updated_rooms ++ room_id ∷ [];
  sent = s.sent;
}

unfoldable pub delete_users : List String → Room → Room
delete_users [] room = room
delete_users (user ∷ users) room = delete_users users (Map.delete user room)

unfoldable pub removable : ℕ → Room → List String
removable now [] = []
removable now ((user, timeout) ∷ room) =
    let rest = removable now room in if ltb timeout now then user ∷ rest else rest

module _ (allow_outgoing_typing : Bool) (user_is_local : String → Bool) where
  -- `federation_send`, behind the check that the user is local.
  unfoldable pub federation_send : String → String → Bool → Service → Service
  federation_send room_id user is_typing s =
      if user_is_local user && allow_outgoing_typing
      then record {
        typing = s.typing;
        last_update = s.last_update;
        count = s.count;
        updated_rooms = s.updated_rooms;
        sent = s.sent ++ (room_id, user, is_typing) ∷ [];
      }
      else s

  unfoldable pub typing_add : String → String → ℕ → Service → Service
  typing_add user room_id timeout s =
      federation_send room_id user true
        (update_room room_id (Map.insert user timeout (room_of room_id s)) s)

  unfoldable pub typing_remove : String → String → Service → Service
  typing_remove user room_id s =
      federation_send room_id user false
        (update_room room_id (Map.delete user (room_of room_id s)) s)

  unfoldable pub federation_stop : String → List String → Service → Service
  federation_stop room_id [] s = s
  federation_stop room_id (user ∷ users) s =
      federation_stop room_id users (federation_send room_id user false s)

  unfoldable pub typings_maintain : ℕ → String → Service → Service
  typings_maintain now room_id s =
      let users = removable now (room_of room_id s) in
      if is_empty users
      then s
      else federation_stop room_id users
          (update_room room_id (delete_users users (room_of room_id s)) s)

  abbrev count_or_zero : Option ℕ → ℕ
  count_or_zero none = 0
  count_or_zero (some count) = count

  unfoldable pub last_typing_update : ℕ → String → Service → ℕ × Service
  last_typing_update now room_id s =
      let after = typings_maintain now room_id s in
      (count_or_zero (Map.get room_id after.last_update), after)

unfoldable pub typing_users_for_user : (String → Bool) → String → Service → List String
typing_users_for_user is_ignored room_id s =
    keep (λ user. not (is_ignored user)) (Map.keys (room_of room_id s))
