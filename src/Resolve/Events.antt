-- ===== src/Resolve/Events.antt =====
-- Small tests on events (core/matrix/state_res/mod.rs).
use cinquain.Prelude.{
  String, Bool, true, false, not, Option, none, some, if◌then◌else◌, ◌==◌, string_eq, option_eq,
  ◌||◌, ◌&&◌,
}
use cinquain.Matrix.{
  ok, err, Membership, Pdu, room_create, room_member, room_power_levels, room_join_rules,
}

-- The closure `event_fetch`.
abbrev pub Fetch : Type 0
Fetch = String → Option Pdu

unfoldable pub is_type_and_key : Pdu → String → String → Bool
is_type_and_key ev ev_type state_key = ev.kind == ev_type && ev.state_key == some state_key

abbrev pub is_leave_or_ban : Membership → Bool
is_leave_or_ban Membership.leave = true
is_leave_or_ban Membership.ban = true
is_leave_or_ban _ = false

unfoldable pub is_power_event : Pdu → Bool
is_power_event event =
    if event.kind == room_power_levels || event.kind == room_join_rules || event.kind == room_create
    then event.state_key == some ""
    else if event.kind == room_member
    then elim event.content.member_content [
      | ok membership ↦
          if is_leave_or_ban membership then not (some event.sender == event.state_key) else false
      | err e ↦ false
    ]
    else false

unfoldable pub is_power_event_id : Fetch → String → Bool
is_power_event_id fetch event_id = elim (fetch event_id) [
  | some state ↦ is_power_event state
  | none ↦ false
]
