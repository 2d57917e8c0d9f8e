-- ===== src/Resolve/Mainline.antt =====
-- `mainline_sort`: the events without power by the power levels event that they stand under
-- (core/matrix/state_res/mod.rs).
pub mod Depths
pub mod Sorted
pub mod Positions
pub mod Returns
use cinquain.Prelude.{
  ℕ, zero, suc, String, Bool, true, false, Option, none, some, List, [], ◌∷◌, if◌then◌else◌,
  string_eq, contains, is_empty, leb, length, map,
}
use cinquain.Prelude.Order.{text_le}
use cinquain.Prelude.Map
use cinquain.Matrix.{Error, not_found, ok_or, Pdu, room_power_levels}
use cinquain.Resolve.Runs.{Run, done, failed, out_of_fuel, ◌>>=◌, lift}
use cinquain.Resolve.Events.{Fetch, is_type_and_key}

-- The loop over auth events that stops at the first power levels event; all before it must be there.
unfoldable pub find_power_levels : Fetch → List String → Run (Option (String × Pdu))
find_power_levels fetch [] = done none
find_power_levels fetch (aid ∷ aids) = elim (fetch aid) [
  | none ↦ failed not_found
  | some ev ↦
      let rest = find_power_levels fetch aids in
      if is_type_and_key ev room_power_levels "" then done (some (aid, ev)) else rest
]

abbrev pub next_id : Option (String × Pdu) → Option String
next_id none = none
next_id (some (aid, ev)) = some aid

abbrev pub next_event : Option (String × Pdu) → Option Pdu
next_event none = none
next_event (some (aid, ev)) = some ev

-- The mainline, from the resolved power levels event back to the first one.
unfoldable pub mainline : Fetch → ℕ → Option String → Run (List String)
mainline fetch fuel none = done []
mainline fetch zero (some p) = out_of_fuel
mainline fetch (suc fuel) (some p) = do
  event ← lift (ok_or not_found (fetch p))
  found ← find_power_levels fetch event.auth_events
  rest ← mainline fetch fuel (next_id found)
  done (p ∷ rest)

-- `mainline.iter().rev().enumerate()`: an event's index counts the events behind it.
unfoldable pub mainline_map : List String → List (String × ℕ)
mainline_map [] = []
mainline_map (p ∷ rest) = (p, length rest) ∷ mainline_map rest

unfoldable pub get_mainline_depth : Fetch → List (String × ℕ) → ℕ → Option Pdu → Run ℕ
get_mainline_depth fetch depths fuel none = done 0
get_mainline_depth fetch depths zero (some sort_ev) = out_of_fuel
get_mainline_depth fetch depths (suc fuel) (some sort_ev) = elim (Map.get sort_ev.event_id depths) [
  | some depth ↦ done depth
  | none ↦ find_power_levels fetch sort_ev.auth_events >>= λ found.
      get_mainline_depth fetch depths fuel (next_event found)
]

-- A value of `order_map`, with its key.
pub record Position : Type 0 where
  pub depth : ℕ
  pub origin_server_ts : ℕ
  pub event_id : String

-- `order_map` is keyed by the ids: an id that comes again has the value that it has already.
unfoldable pub put_position : Position → List Position → List Position
put_position p positions =
    if contains (map (λ (q : Position). q.event_id) positions) p.event_id
    then positions
    else p ∷ positions

-- What cannot be fetched, or has no depth because of an error, is dropped.
abbrev pub keep_done : String → Pdu → Run ℕ → Run (List Position) → Run (List Position)
keep_done ev_id event (done depth) rest = rest >>= λ positions. done (
    put_position
      (record { depth = depth; origin_server_ts = event.origin_server_ts; event_id = ev_id })
      positions)
keep_done ev_id event (failed e) rest = rest
keep_done ev_id event out_of_fuel rest = out_of_fuel

unfoldable pub positions : Fetch → List (String × ℕ) → ℕ → List String → Run (List Position)
positions fetch depths fuel [] = done []
positions fetch depths fuel (ev_id ∷ ids) =
    let rest = positions fetch depths fuel ids in
    elim (fetch ev_id) [
      | none ↦ rest
      | some event ↦ keep_done ev_id event (get_mainline_depth fetch depths fuel (some event)) rest
    ]

-- The order of the tuples `(depth, origin_server_ts, event_id)`.
unfoldable pub position_le : Position → Position → Bool
position_le p q =
    if leb p.depth q.depth
    then (if leb q.depth p.depth
        then (if leb p.origin_server_ts q.origin_server_ts
            then (if leb q.origin_server_ts p.origin_server_ts
                then text_le p.event_id q.event_id
                else true)
            else false)
        else true)
    else false

-- `sort_by_key` of the standard library, as an insertion sort.
unfoldable pub insert_position : Position → List Position → List Position
insert_position p [] = p ∷ []
insert_position p (q ∷ qs) = if position_le p q then p ∷ q ∷ qs else q ∷ insert_position p qs

unfoldable pub sort_positions : List Position → List Position
sort_positions [] = []
sort_positions (p ∷ ps) = insert_position p (sort_positions ps)

unfoldable pub mainline_sort : Fetch → ℕ → List String → Option String → Run (List String)
mainline_sort fetch fuel to_sort resolved_power_level = if is_empty to_sort then done [] else (do
  line ← mainline fetch fuel resolved_power_level
  found ← positions fetch (mainline_map line) fuel to_sort
  done (map (λ p. p.event_id) (sort_positions found)))
