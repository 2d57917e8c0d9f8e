-- ===== src/Tests/Typing.antt =====
-- Instances of the theorems on the typing service.
use cinquain.Prelude.{
  ℕ, ◌≡◌, refl, Bool, true, false, Option, none, some, List, [], ◌∷◌, ◌++◌, String, ◌==◌, string_eq,
  if◌then◌else◌,
}
use cinquain.Prelude.Map
use cinquain.Typing.{Service, room_of, typings_maintain}
use cinquain.Typing.Timeouts.{unless_over, typings_maintain-get}

-- Alice's timeout is over at 10, Bob's is not.
abbrev service : Service
service = record {
  typing = ("!room", ("@alice", 5) ∷ ("@bob", 20) ∷ []) ∷ [];
  last_update = [];
  count = 0;
  updated_rooms = [];
  sent = [];
}

abbrev is_alice : String → Bool
is_alice user = user == "@alice"

abbrev same_room : Bool
same_room = string_eq.beq "!room" "!room"

typings_maintain-get_example :
    Map.get "@bob" (room_of "!room" (typings_maintain true is_alice 10 "!room" service)) ≡ (
      if same_room
      then unless_over 10 (Map.get "@bob" (room_of "!room" service))
      else Map.get "@bob" (room_of "!room" service))
unfolding room_of Map.get cinquain.Prelude.distinct cinquain.Prelude.contains
typings_maintain-get_example =
    typings_maintain-get true is_alice 10 "!room" "!room" "@bob" service refl
