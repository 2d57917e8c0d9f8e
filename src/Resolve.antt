-- ===== src/Resolve.antt =====
-- State resolution (core/matrix/state_res/mod.rs): `resolve`, which composes the parts below.
pub mod Runs
pub mod Events
pub mod Separate
pub mod Subgraph
pub mod Sort
pub mod PowerSort
pub mod Iterative
pub mod Mainline
pub mod Outcome
use cinquain.Prelude.{
  ℕ, String, Bool, true, false, not, Option, none, some, List, [], ◌∷◌, ◌++◌, if◌then◌else◌,
  string_eq, pair_eq, contains, to_set, keep, flat_map, is_empty,
}
use cinquain.Prelude.Map
use cinquain.Matrix.{
  StateMap, TypeStateKey, StateResolutionVersion, v1, v2, RoomVersionRules, Ruma, room_power_levels,
}
use cinquain.Resolve.Runs.{Run, done, ◌>>=◌, lift}
use cinquain.Resolve.Events.{Fetch, is_power_event_id}
use cinquain.Resolve.Separate.{separate, get_auth_chain_diff}
use cinquain.Resolve.Subgraph.{calculate_conflicted_subgraph}
use cinquain.Resolve.PowerSort.{reverse_topological_power_sort}
use cinquain.Resolve.Iterative.{iterative_auth_check}
use cinquain.Resolve.Mainline.{mainline_sort}

-- The closures that `resolve` is handed, how the room is versioned, and what the runtime decides:
-- the order in which concurrent fetches complete.
pub record World : Type 0 where
  pub ruma : Ruma
  pub rules : RoomVersionRules
  pub event_fetch : Fetch
  pub event_exists : String → Bool
  pub completion : List String → List String
  pub fuel : ℕ

abbrev pub considers_subgraph : StateResolutionVersion → Bool
considers_subgraph v1 = false
considers_subgraph (v2 consider) = consider

abbrev values : List (TypeStateKey × List String) → List String
values conflicting = flat_map (λ entry. entry.1) conflicting

-- The conflicted state subgraph and the state that the first check starts from.
unfoldable pub subgraph_and_initial :
    World → StateMap String → StateMap (List String) → Run (List String × StateMap String)
subgraph_and_initial w unconflicted conflicting =
    if considers_subgraph w.rules.state_res
    then (do csg ← calculate_conflicted_subgraph w.event_fetch w.fuel conflicting; done (csg, []))
    else done ([], unconflicted)

-- `all_conflicted`: what exists of the auth difference and the conflicting events, and the subgraph.
unfoldable pub full_conflicted_set :
    World → List (List String) → StateMap (List String) → List String → List String
full_conflicted_set w auth_chain_sets conflicting subgraph =
    to_set
      (keep w.event_exists (get_auth_chain_diff auth_chain_sets ++ values conflicting) ++ subgraph)

-- What follows once there is a conflict, up to the second check.
unfoldable pub resolve_left :
    World → StateMap String → StateMap (List String) → List (List String) → Run (StateMap String)
resolve_left w unconflicted conflicting auth_chain_sets = do
  start ← subgraph_and_initial w unconflicted conflicting
  let all_conflicted = full_conflicted_set w auth_chain_sets conflicting start.0
  let control_events = keep (is_power_event_id w.event_fetch) all_conflicted
  sorted_control_levels ←
      reverse_topological_power_sort w.event_fetch w.completion w.fuel control_events all_conflicted
  resolved_control ←
      lift (
        iterative_auth_check w.ruma w.rules w.event_fetch w.completion sorted_control_levels
          start.1)
  let events_to_resolve = keep (λ id. not (contains sorted_control_levels id)) all_conflicted
  sorted_left_events ←
      mainline_sort w.event_fetch w.fuel events_to_resolve
        (Map.get (room_power_levels, "") resolved_control)
  lift (
      iterative_auth_check w.ruma w.rules w.event_fetch w.completion sorted_left_events
        resolved_control)

-- The end: the unconflicting state goes into the result.
unfoldable pub resolve_conflicts :
    World → StateMap String → StateMap (List String) → List (List String) → Run (StateMap String)
resolve_conflicts w unconflicted conflicting auth_chain_sets = do
  resolved_state ← resolve_left w unconflicted conflicting auth_chain_sets
  done (Map.extend resolved_state unconflicted)

unfoldable pub resolve : World → List (StateMap String) → List (List String) → Run (StateMap String)
resolve w state_sets auth_chain_sets =
    let (unconflicted, conflicting) = separate state_sets in
    if is_empty conflicting
    then done unconflicted
    else resolve_conflicts w unconflicted conflicting auth_chain_sets
