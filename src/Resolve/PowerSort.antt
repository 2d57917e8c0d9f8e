-- ===== src/Resolve/PowerSort.antt =====
-- `reverse_topological_power_sort` with the graph that it sorts and the levels that it sorts by
-- (core/matrix/state_res/mod.rs).
use cinquain.Prelude.{
  ℕ, zero, suc, String, Option, none, some, List, [], ◌∷◌, if◌then◌else◌, string_eq, contains,
  insert_new, filter_map, find, ℤ, pos,
}
use cinquain.Prelude.Order.{text_ord}
use cinquain.Prelude.Map
use cinquain.Matrix.{Result, ok, err, not_found, ◌>>=◌ as bind, ok_or, Pdu, room_power_levels}
use cinquain.Auth.Levels.{deserialize_fields, user_level}
use cinquain.Resolve.Runs.{Run, done, out_of_fuel, ◌>>=◌}
use cinquain.Resolve.Events.{Fetch, is_type_and_key}
use cinquain.Resolve.Sort.{lexicographical_topological_sort}

abbrev pub AuthGraph : Type 0
AuthGraph = List (String × List String)

abbrev pub auth_events_of : Option Pdu → List String
auth_events_of none = []
auth_events_of (some event) = event.auth_events

-- `graph.entry(eid).or_default()`.
unfoldable pub ensure : String → AuthGraph → AuthGraph
ensure eid graph = elim (Map.get eid graph) [ none ↦ Map.insert eid [] graph | some edges ↦ graph ]

-- `graph.get_mut(eid).insert(aid)` for an entry that is there.
unfoldable pub add_edge : String → String → AuthGraph → AuthGraph
add_edge eid aid graph = elim (Map.get eid graph) [
  | none ↦ graph
  | some edges ↦ Map.insert eid (insert_new aid edges) graph
]

-- The inner loop over the auth events of `eid`; the stack has its top at the head.
unfoldable pub link :
    List String → String → List String → AuthGraph → List String → AuthGraph × List String
link auth_diff eid [] graph stack = (graph, stack)
link auth_diff eid (aid ∷ aids) graph stack =
    let skipped = link auth_diff eid aids graph stack in
    let linked =
      link auth_diff eid aids (add_edge eid aid graph)
        (if contains (Map.keys graph) aid then stack else aid ∷ stack) in
    if contains auth_diff aid then linked else skipped

-- `add_event_and_auth_chain_to_graph`.
unfoldable pub grow : Fetch → List String → ℕ → List String → AuthGraph → Run AuthGraph
grow fetch auth_diff zero stack graph = out_of_fuel
grow fetch auth_diff (suc fuel) [] graph = done graph
grow fetch auth_diff (suc fuel) (eid ∷ stack) graph =
    let next = link auth_diff eid (auth_events_of (fetch eid)) (ensure eid graph) stack in
    grow fetch auth_diff fuel next.1 next.0

unfoldable pub grow_all : Fetch → List String → ℕ → List String → AuthGraph → Run AuthGraph
grow_all fetch auth_diff fuel [] graph = done graph
grow_all fetch auth_diff fuel (event_id ∷ events) graph =
    grow fetch auth_diff fuel (event_id ∷ []) graph >>= λ graph'.
    grow_all fetch auth_diff fuel events graph'

-- The first power levels event among the auth events whose fetches complete in this order.
unfoldable pub power_levels_event : Fetch → (List String → List String) → Option Pdu → Option Pdu
power_levels_event fetch completion event =
    find (λ aev. is_type_and_key aev room_power_levels "")
      (filter_map fetch (completion (auth_events_of event)))

-- `get_power_level_for_sender`, which reads the content with strings allowed for levels.
unfoldable pub get_power_level_for_sender : Fetch → (List String → List String) → String → Result ℤ
get_power_level_for_sender fetch completion event_id =
    elim (power_levels_event fetch completion (fetch event_id)) [
      | none ↦ ok (pos 0)
      | some pl ↦ bind (deserialize_fields pl.content.v1_users) λ content.
          ok (elim (fetch event_id) [
            | some ev ↦ user_level content ev.sender
            | none ↦ content.users_default
          ])
    ]

abbrev pub level_entry : Fetch → (List String → List String) → String → Option (String × ℤ)
level_entry fetch completion event_id =
    elim (get_power_level_for_sender fetch completion event_id) [
      | ok pl ↦ some (event_id, pl)
      | err e ↦ none
    ]

-- `fetcher`: the key of an event.
unfoldable pub sort_key : Fetch → List (String × ℤ) → String → Result (ℤ × ℕ)
sort_key fetch event_to_pl event_id =
    bind (ok_or not_found (Map.get event_id event_to_pl))
      λ pl. bind (ok_or not_found (fetch event_id)) λ ev. ok (pl, ev.origin_server_ts)

unfoldable pub reverse_topological_power_sort :
    Fetch → (List String → List String) → ℕ → List String → List String → Run (List String)
reverse_topological_power_sort fetch completion fuel events_to_sort auth_diff = do
  graph ← grow_all fetch auth_diff fuel events_to_sort []
  let event_to_pl = filter_map (level_entry fetch completion) (Map.keys graph)
  lexicographical_topological_sort graph (sort_key fetch event_to_pl)
