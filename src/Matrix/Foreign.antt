-- ===== src/Matrix/Foreign.antt =====
-- What the code takes from ruma and serde beyond contents: the servers of identifiers, their
-- parsers, the default power levels, and the JSON form of power levels. And `room_id_or_hash`.
use Prim.Native.Char.{Char, code}
use Prim.Native.String.{String}
use mathlib.Core.Option.{Option, none, some}
use cinquain.Prelude.{nat_beq, if◌then◌else◌, ◌==◌, string_eq, ℤ}
use cinquain.Matrix.Errors.{Result, ok, panicked, ok_or}
use cinquain.Matrix.Contents.{PowerLevels}
use cinquain.Matrix.Events.{Pdu, AuthorizationRules, room_create}

pub record Ruma : Type 0 where
  pub user_server : String → String  -- UserId::server_name
  pub room_server : String → Option String  -- RoomId::server_name
  pub event_server : String → Option String  -- EventId::server_name
  pub parse_user : String → Option String  -- <&UserId>::try_from
  pub parse_room : String → Option String  -- RoomId::parse
  pub parse_event : String → Option String  -- EventId::parse
  pub default_levels : AuthorizationRules → PowerLevels  -- RoomPowerLevelsEventContent::new
  pub json_level : PowerLevels → String → Option ℤ  -- an integer field of serde_json::to_value

-- `str::replace` of one character by another.
unfoldable pub replace : Char → Char → String → String
replace old new String.[] = String.[]
replace old new (String.◌∷◌ c s) =
    String.◌∷◌ (if nat_beq (code c) (code old) then new else c) (replace old new s)

module _ (ruma : Ruma) where
  unfoldable pub room_id_or_hash : Pdu → Result String
  room_id_or_hash ev =
      if ev.kind == room_create
      then elim ev.room_id [
        | some room_id ↦ ok room_id
        | none ↦ ok_or panicked (ruma.parse_room (replace "$" "!" ev.event_id))
      ]
      else ok_or panicked ev.room_id
