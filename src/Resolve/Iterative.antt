-- ===== src/Resolve/Iterative.antt =====
-- `iterative_auth_check`: the events of a list are checked one by one, each against the state that
-- the ones before it have left (core/matrix/state_res/mod.rs).
pub mod Keys
use cinquain.Prelude.{
  ℕ, String, Bool, true, false, Option, none, some, List, [], ◌∷◌, ◌++◌, if◌then◌else◌, string_eq,
  pair_eq, to_set, filter_map, flat_map,
}
use cinquain.Prelude.Map
use cinquain.Matrix.{
  Result, ok, err, ◌>>=◌, ok_or, not_found, invalid_pdu, panicked, Pdu, StateMap, TypeStateKey,
  RoomVersionRules, Ruma, replace, room_id_or_hash, room_create,
}
use cinquain.Auth.Types.{auth_types_for_event}
use cinquain.Auth.Check.{auth_check}
use cinquain.Resolve.Events.{Fetch}

-- `try_collect` of the fetched events, in the order in which they come.
unfoldable pub fetch_all : Fetch → List String → Result (List Pdu)
fetch_all fetch [] = ok []
fetch_all fetch (id ∷ ids) = do
  event ← ok_or not_found (fetch id)
  events ← fetch_all fetch ids
  ok (event ∷ events)

abbrev pub by_id : Fetch → String → Option (String × Pdu)
by_id fetch id = elim (fetch id) [ none ↦ none | some event ↦ some (event.event_id, event) ]

unfoldable pub collect : List (String × Pdu) → List (String × Pdu) → List (String × Pdu)
collect [] events = events
collect ((id, event) ∷ rest) events = collect rest (Map.insert id event events)

-- `auth_events`: the auth events of all the events to check that can be fetched, by their ids.
unfoldable pub fetch_auth_events : Fetch → List Pdu → List (String × Pdu)
fetch_auth_events fetch events_to_check =
    collect
      (filter_map (by_id fetch)
        (to_set (flat_map (λ (event : Pdu). event.auth_events) events_to_check)))
      []

-- The create event, where its id is the room's id.
unfoldable pub insert_create :
    Ruma → RoomVersionRules → Fetch → Pdu → StateMap Pdu → Result (StateMap Pdu)
insert_create ruma rules fetch event auth_state =
    if rules.hashed_room_ids
    then (do
      room_id ← room_id_or_hash ruma event
      create_event_id ← ok_or invalid_pdu (ruma.parse_event (replace "!" "$" room_id))
      create_event ← ok_or not_found (fetch create_event_id)
      ok (Map.insert (create_event.kind, "") create_event auth_state))
    else ok auth_state

-- The loop over the auth events of an event.
unfoldable pub insert_auth_events :
    List (String × Pdu) → List String → StateMap Pdu → Result (StateMap Pdu)
insert_auth_events auth_events [] auth_state = ok auth_state
insert_auth_events auth_events (aid ∷ aids) auth_state = elim (Map.get aid auth_events) [
  | none ↦ insert_auth_events auth_events aids auth_state
  | some ev ↦ ok_or invalid_pdu ev.state_key >>= λ state_key.
      insert_auth_events auth_events aids (Map.insert (ev.kind, state_key) ev auth_state)
]

abbrev pub fetch_resolved : Fetch → List (String × Pdu) → String → Option Pdu
fetch_resolved fetch auth_events ev_id = elim (Map.get ev_id auth_events) [
  | some event ↦ some event
  | none ↦ fetch ev_id
]

-- One key of the auth types, looked up in the resolved state.
unfoldable pub insert_resolved :
    Fetch → List (String × Pdu) → StateMap String → TypeStateKey → StateMap Pdu → StateMap Pdu
insert_resolved fetch auth_events resolved_state key auth_state =
    elim (Map.get key resolved_state) [
      | none ↦ auth_state
      | some ev_id ↦ elim (fetch_resolved fetch auth_events ev_id) [
        | none ↦ auth_state
        | some event ↦ Map.insert key event auth_state
      ]
    ]

-- The loop over the auth types.
unfoldable pub overlay_resolved :
    Fetch → List (String × Pdu) → StateMap String → List TypeStateKey → StateMap Pdu → StateMap Pdu
overlay_resolved fetch auth_events resolved_state [] auth_state = auth_state
overlay_resolved fetch auth_events resolved_state (key ∷ keys) auth_state =
    overlay_resolved fetch auth_events resolved_state keys
      (insert_resolved fetch auth_events resolved_state key auth_state)

-- `fetch_state` of the state that an event is checked against.
abbrev pub look_up : StateMap Pdu → String → String → Option Pdu
look_up auth_state ty key = Map.get (ty, key) auth_state

-- The state that an event is checked against.
unfoldable pub auth_state_for :
    Ruma
    → RoomVersionRules
    → Fetch
    → List (String × Pdu)
    → StateMap String
    → String
    → Pdu
    → Result (StateMap Pdu)
auth_state_for ruma rules fetch auth_events resolved_state state_key event = do
  auth_types ← auth_types_for_event event.kind event.sender (some state_key) event.content rules
  created ← insert_create ruma rules fetch event []
  auth_state ← insert_auth_events auth_events event.auth_events created
  ok (overlay_resolved fetch auth_events resolved_state auth_types auth_state)

-- Whether the event passes in the state that has been resolved so far.
unfoldable pub passes :
    Ruma
    → RoomVersionRules
    → Fetch
    → List (String × Pdu)
    → StateMap String
    → String
    → Pdu
    → Result Bool
passes ruma rules fetch auth_events resolved_state state_key event = do
  auth_state ← auth_state_for ruma rules fetch auth_events resolved_state state_key event
  create_event ← ok_or panicked (look_up auth_state room_create "")
  auth_check ruma rules event (look_up auth_state) create_event

-- One round of the loop.
unfoldable pub check_event :
    Ruma
    → RoomVersionRules
    → Fetch
    → List (String × Pdu)
    → Pdu
    → StateMap String
    → Result (StateMap String)
check_event ruma rules fetch auth_events event resolved_state = do
  state_key ← ok_or invalid_pdu event.state_key
  passed ← passes ruma rules fetch auth_events resolved_state state_key event
  ok (
      if passed
      then Map.insert (event.kind, state_key) event.event_id resolved_state
      else resolved_state)

unfoldable pub check_all :
    Ruma
    → RoomVersionRules
    → Fetch
    → List (String × Pdu)
    → List Pdu
    → StateMap String
    → Result (StateMap String)
check_all ruma rules fetch auth_events [] resolved_state = ok resolved_state
check_all ruma rules fetch auth_events (event ∷ events) resolved_state =
    check_event ruma rules fetch auth_events event resolved_state >>= λ next.
    check_all ruma rules fetch auth_events events next

-- `broad_and_then` hands the events on as their fetches complete: `completion` arranges them.
unfoldable pub iterative_auth_check :
    Ruma
    → RoomVersionRules
    → Fetch
    → (List String → List String)
    → List String
    → StateMap String
    → Result (StateMap String)
iterative_auth_check ruma rules fetch completion events_to_check unconflicted_state = do
  events ← fetch_all fetch (completion events_to_check)
  check_all ruma rules fetch (fetch_auth_events fetch events) events unconflicted_state
