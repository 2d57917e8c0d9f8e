-- ===== src/Rooms/Metadata.antt =====
-- Disabled and banned rooms: src/service/rooms/metadata/mod.rs.
use cinquain.Prelude.{
  ℕ, Bool, Option, none, some, List, contains, insert_new, remove, ltb, if◌then◌else◌,
}
use cinquain.Prelude.Map
use cinquain.Core.Bytes.{Bytes, bytes_eq}

pub record Metadata : Type 0 where
  pub disabledroomids : List Bytes
  pub bannedroomids : List Bytes
  pub roomid_mindepth : List (Bytes × ℕ)

unfoldable pub disable_room : Bytes → Bool → Metadata → Metadata
disable_room room_id disabled m = record {
  disabledroomids =
      if disabled then insert_new room_id m.disabledroomids else remove room_id m.disabledroomids;
  bannedroomids = m.bannedroomids;
  roomid_mindepth = m.roomid_mindepth;
}

unfoldable pub is_disabled : Bytes → Metadata → Bool
is_disabled room_id m = contains m.disabledroomids room_id

unfoldable pub ban_room : Bytes → Bool → Metadata → Metadata
ban_room room_id banned m = record {
  disabledroomids = m.disabledroomids;
  bannedroomids =
      if banned then insert_new room_id m.bannedroomids else remove room_id m.bannedroomids;
  roomid_mindepth = m.roomid_mindepth;
}

unfoldable pub is_banned : Bytes → Metadata → Bool
is_banned room_id m = contains m.bannedroomids room_id

abbrev depth_or_zero : Option ℕ → ℕ
depth_or_zero none = 0
depth_or_zero (some depth) = depth

unfoldable pub get_mindepth : Bytes → Metadata → ℕ
get_mindepth room_id m = depth_or_zero (Map.get room_id m.roomid_mindepth)

unfoldable pub set_mindepth : Bytes → ℕ → Metadata → Metadata
set_mindepth room_id min_depth m = record {
  disabledroomids = m.disabledroomids;
  bannedroomids = m.bannedroomids;
  roomid_mindepth = Map.insert room_id min_depth m.roomid_mindepth;
}

unfoldable pub maybe_set_mindepth : Bytes → ℕ → Metadata → Metadata
maybe_set_mindepth room_id min_depth m =
    if ltb (get_mindepth room_id m) min_depth then set_mindepth room_id min_depth m else m
