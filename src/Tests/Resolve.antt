-- ===== src/Tests/Resolve.antt =====
-- Instances of the theorems on state resolution.
use mathlib.Core.List.{Perm}
use cinquain.Prelude.{
  ℕ, String, ◌≡◌, ◌⊎◌, ◌↔◌, refl, true, not, ◌&&◌, some, List, [], ◌∷◌, ◌++◌, string_eq, pair_eq, ℤ,
  pos, contains, distinct, insert_new, remove, none, All, Option, ◌==◌, if◌then◌else◌, Bool-cases,
  inl, inr, arith, to_set, keep, filter_map, flat_map, find, map,
}
use cinquain.Prelude.Order.{text_ord, text_le}
use cinquain.Prelude.Map
use cinquain.Matrix.{
  ok, Result, Pdu, StateMap, room_create, room_member, room_power_levels, room_id_or_hash,
}
use cinquain.Auth.Types.{push_new, base_types, push_authoriser, member_types, auth_types_for_event}
use cinquain.Auth.Levels.{
  entry_le, insert_entry, sort_entries, dedup_after, dedup, visit_map, deserialize_fields,
  deserialize_power_levels_content_fields, get_user_power, user_level, level_for, level_without,
  get_send_level, is_foreign_user_key, can_send_event,
}
use cinquain.Auth.Check.{
  check_room, names_create_event, in_room, federation_passes, after_room, check_kind, check_other,
  sender_is_joined, sender_level, listed_level, is_privileged, check_power, check_power_event,
  check_redaction_event, auth_check,
}
use cinquain.Resolve.{
  World, subgraph_and_initial, full_conflicted_set, resolve_left, resolve_conflicts, resolve,
}
use cinquain.Resolve.Runs.{done}
use cinquain.Resolve.Events.{is_type_and_key, is_power_event, is_power_event_id}
use cinquain.Resolve.Separate.{
  bump, add_occurrence, count_occurrences, push_conflict, place, split_ids, split_all, separate,
  count_ids, get_auth_chain_diff,
}
use cinquain.Resolve.Separate.Counts.{in_some, in_every, get_auth_chain_diff-contains}
use cinquain.Resolve.Sort.{
  TieBreaker, tie_le, pop_least, pop, add_parent, add_edges, touch, tie_breaker, prepare,
  push_if_empty, clear_edge, clear_edges, clear_parents, round, drain,
  lexicographical_topological_sort,
}
use cinquain.Resolve.PowerSort.{
  ensure, add_edge, link, grow, grow_all, power_levels_event, get_power_level_for_sender, sort_key,
  reverse_topological_power_sort,
}
use cinquain.Resolve.Iterative.{
  fetch_all, collect, fetch_auth_events, insert_create, insert_auth_events, insert_resolved,
  overlay_resolved, auth_state_for, passes, check_event, check_all, iterative_auth_check,
}
use cinquain.Resolve.Iterative.Keys.{Put, iterative_auth_check-Put}
use cinquain.Resolve.Mainline.{
  put_position, find_power_levels, mainline, mainline_map, get_mainline_depth, Position, positions,
  position_le, insert_position, sort_positions, mainline_sort,
}
use cinquain.Resolve.Mainline.Sorted.{InOrder}
use cinquain.Resolve.Mainline.Positions.{PositionsAre, mainline_sort-InOrder}
use cinquain.Resolve.Mainline.Returns.{IsBelow, Descends, mainline_sort-returns}
use mathlib.Core.Path.{subst}
use cinquain.Resolve.Separate.Common.{separate_iff}
use cinquain.Tests.Data.{ruma, rules, fetch, power}

abbrev graph : List (String × List String)
graph = ("$c", "$a" ∷ "$b" ∷ []) ∷ ("$b", "$a" ∷ []) ∷ ("$a", []) ∷ []

abbrev same_key : String → Result (ℤ × ℕ)
same_key id = ok (pos 0, 1)

sort_graph : lexicographical_topological_sort graph same_key ≡ done ("$a" ∷ "$b" ∷ "$c" ∷ [])
unfolding lexicographical_topological_sort prepare touch add_edges add_parent tie_breaker drain
    round clear_parents clear_edges clear_edge push_if_empty pop pop_least tie_le text_le Map.get
    Map.insert insert_new contains remove
sort_graph = refl

abbrev item : ℤ → String → TieBreaker String
item level id = record { power_level = level; origin_server_ts = 1; event_id = id }

pop_strongest :
    pop (item (pos 0) "$a" ∷ item (pos 50) "$b" ∷ [])
    ≡ some (item (pos 50) "$b", item (pos 0) "$a" ∷ [])
unfolding pop pop_least tie_le
pop_strongest = refl

abbrev in_order : List String → List String
in_order ids = ids

abbrev common : StateMap String
common =
    ((room_create, ""), "$create")
    ∷ ((room_member, "@alice"), "$alice")
    ∷ ((room_power_levels, ""), "$power")
    ∷ []

abbrev with_topic : StateMap String
with_topic = common ++ (("m.room.topic", ""), "$topic") ∷ []

topic_resolves :
    iterative_auth_check ruma rules fetch in_order ("$topic" ∷ []) common ≡ ok with_topic
unfolding iterative_auth_check fetch_all fetch_auth_events collect check_all check_event passes
    auth_state_for insert_create insert_auth_events overlay_resolved insert_resolved
    auth_types_for_event base_types member_types push_authoriser push_new contains to_set insert_new
    flat_map filter_map Map.get Map.insert auth_check check_room room_id_or_hash names_create_event
    in_room federation_passes after_room check_kind check_other sender_is_joined sender_level
    listed_level deserialize_power_levels_content_fields deserialize_fields visit_map dedup
    dedup_after sort_entries insert_entry entry_le get_user_power user_level is_privileged
    check_power check_power_event check_redaction_event can_send_event get_send_level level_for
    level_without is_foreign_user_key
topic_resolves = refl

iterative_auth_check-Put_example :
    (Map.get ("m.room.topic", "") common ≡ some "$topic")
    ⊎ ((events : List Pdu) × (fetch_all fetch ("$topic" ∷ []) ≡ ok events)
        × Put ruma rules fetch
            (fetch_auth_events fetch events)
            ("m.room.topic", "")
            "$topic"
            events
            common)
unfolding Map.get
iterative_auth_check-Put_example =
    iterative_auth_check-Put ruma rules fetch in_order ("$topic" ∷ []) common with_topic
      ("m.room.topic", "") "$topic" topic_resolves refl

mainline_sort_topic :
    mainline_sort fetch 5 ("$topic" ∷ "$rules" ∷ []) (some "$power")
    ≡ done ("$rules" ∷ "$topic" ∷ [])
unfolding mainline_sort mainline find_power_levels mainline_map positions get_mainline_depth
    put_position sort_positions insert_position position_le is_type_and_key Map.get contains
mainline_sort_topic = refl

mainline_power : mainline fetch 5 (some "$power") ≡ done ("$power" ∷ [])
unfolding mainline find_power_levels is_type_and_key
mainline_power = refl

mainline_sort-InOrder_example :
    (found sorted : List Position) × PositionsAre fetch
      ("$power" ∷ [])
      5
      ("$topic" ∷ "$rules" ∷ [])
      found
    × Perm sorted found
    × InOrder sorted
    × (map (λ p. p.event_id) sorted ≡ "$rules" ∷ "$topic" ∷ [])
mainline_sort-InOrder_example =
    mainline_sort-InOrder fetch ("$power" ∷ []) 5 ("$topic" ∷ "$rules" ∷ [])
      ("$rules" ∷ "$topic" ∷ []) (some "$power") refl mainline_power mainline_sort_topic

abbrev chains : List (List String)
chains = ("$create" ∷ "$alice" ∷ []) ∷ ("$create" ∷ []) ∷ []

get_auth_chain_diff-contains_example :
    contains (get_auth_chain_diff chains) "$alice"
    ≡ (in_some "$alice" chains && not (in_every "$alice" chains))
unfolding distinct contains
get_auth_chain_diff-contains_example =
    get_auth_chain_diff-contains chains "$alice" (refl, (refl, tt))

abbrev world : World
world = record {
  ruma = ruma;
  rules = rules;
  event_fetch = fetch;
  event_exists = λ id. true;
  completion = in_order;
  fuel = 20;
}

-- One of the servers has not seen the topic.
conflict_resolves : resolve world (with_topic ∷ common ∷ []) chains ≡ done with_topic
unfolding resolve resolve_conflicts resolve_left full_conflicted_set subgraph_and_initial separate
    split_all split_ids place push_conflict count_occurrences add_occurrence bump Map.get Map.insert
    Map.extend get_auth_chain_diff count_ids filter_map flat_map keep to_set insert_new contains
    find is_power_event_id is_power_event is_type_and_key reverse_topological_power_sort grow_all
    grow link ensure add_edge power_levels_event get_power_level_for_sender sort_key
    lexicographical_topological_sort prepare touch add_edges add_parent tie_breaker drain round
    clear_parents clear_edges clear_edge push_if_empty pop pop_least tie_le remove mainline_sort
    mainline find_power_levels mainline_map positions get_mainline_depth put_position sort_positions
    insert_position position_le iterative_auth_check fetch_all fetch_auth_events collect check_all
    check_event passes auth_state_for insert_create insert_auth_events overlay_resolved
    insert_resolved auth_types_for_event base_types member_types push_authoriser push_new auth_check
    check_room room_id_or_hash names_create_event in_room federation_passes after_room check_kind
    check_other sender_is_joined sender_level listed_level deserialize_power_levels_content_fields
    deserialize_fields visit_map dedup dedup_after sort_entries insert_entry entry_le get_user_power
    user_level is_privileged check_power check_power_event check_redaction_event can_send_event
    get_send_level level_for level_without is_foreign_user_key text_le
    cinquain.Auth.Check.check_member cinquain.Auth.Membership.valid_membership_change
    cinquain.Auth.Membership.read_change cinquain.Auth.Membership.membership_of
    cinquain.Auth.Membership.join_auth_is_valid cinquain.Auth.Membership.is_creator
    cinquain.Auth.Membership.change_allowed cinquain.Auth.Membership.join_allowed
    cinquain.Auth.Membership.rule_allows_join
conflict_resolves = refl

separate_keeps_power :
    Map.get (room_power_levels, "") (separate (with_topic ∷ common ∷ [])).0 ≡ some "$power"
unfolding separate split_all split_ids place push_conflict count_occurrences add_occurrence bump
    Map.get Map.insert flat_map
separate_keeps_power = refl

abbrev first_levels : Pdu
first_levels = record power { auth_events = [] }

abbrev second_levels : Pdu
second_levels = record power { event_id = "$second"; auth_events = "$power" ∷ [] }

-- Two power levels events, the second of which names the first.
abbrev fetch_levels : String → Option Pdu
fetch_levels id =
    if id == "$second"
    then some second_levels
    else if id == "$power"
    then some first_levels
    else none

abbrev rank : String → ℕ
rank id = if id == "$second" then 1 else 0

rank-Descends : Descends fetch_levels rank
rank-Descends id ev e = elim (Bool-cases (id == "$second")) [
  | inl q ↦
      let same : second_levels ≡ ev = ground arith in
      rw q (
        subst (λ (x : Pdu). All (IsBelow fetch_levels rank 1) x.auth_events) same
          ((first_levels, refl, omega arith), tt))
  | inr q ↦ elim (Bool-cases (id == "$power")) [
    | inl p ↦
        let same : first_levels ≡ ev = ground arith in
        subst (λ (x : Pdu). All (IsBelow fetch_levels rank (rank id)) x.auth_events) same tt
    | inr p ↦ absurd (ground arith)
  ]
]

mainline_sort-returns_example :
    (ids : List String) × (mainline_sort fetch_levels 2
        ("$power" ∷ "$missing" ∷ [])
        (some "$second")
      ≡ done ids)
    × Perm ids ("$power" ∷ [])
unfolding keep to_set insert_new contains
mainline_sort-returns_example =
    mainline_sort-returns fetch_levels rank rank-Descends 2 ("$power" ∷ "$missing" ∷ [])
      (some "$second") (second_levels, refl, omega arith) (omega arith, (omega arith, tt))

separate_iff_example :
    (Map.get (room_power_levels, "") (separate (with_topic ∷ common ∷ [])).0 ≡ some "$power")
    ↔ (in_every ((room_power_levels, ""), "$power") (with_topic ∷ common ∷ []) ≡ true)
unfolding distinct
separate_iff_example =
    separate_iff with_topic (common ∷ []) (room_power_levels, "") "$power" (refl, (refl, tt))
