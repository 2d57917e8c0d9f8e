-- ===== src/Resolve/Subgraph.antt =====
-- `calculate_conflicted_subgraph`: the events on auth paths between conflicted events
-- (core/matrix/state_res/mod.rs).
use cinquain.Prelude.{
  ℕ, zero, suc, String, Bool, true, false, ◌&&◌, Option, none, some, List, [], ◌∷◌, if◌then◌else◌,
  string_eq, contains, insert_new, to_set, flat_map,
}
use cinquain.Matrix.{StateMap, TypeStateKey}
use cinquain.Resolve.Runs.{Run, done, out_of_fuel}
use cinquain.Resolve.Events.{Fetch}

-- The variables of the loop. The stacks have their top at the head; `path` is the events between
-- the start and the event that is looked at, the last first.
pub record Walk : Type 0 where
  pub subgraph : List String
  pub stack : List (List String)
  pub path : List String
  pub seen : List String

abbrev pub tail_of : List String → List String
tail_of [] = []
tail_of (x ∷ xs) = xs

-- `next_event`: the next event of the topmost list, with the empty lists above it taken away. An
-- inner list is walked from its end, so it is kept reversed.
unfoldable pub next_event :
    List (List String) → List String → Option (String × List (List String) × List String)
next_event [] path = none
next_event ([] ∷ stack) path = next_event stack (tail_of path)
next_event ((id ∷ ids) ∷ stack) path = some (id, ids ∷ stack, path)

-- `subgraph.extend(path)`.
unfoldable pub extend_set : List String → List String → List String
extend_set subgraph [] = subgraph
extend_set subgraph (id ∷ ids) = extend_set (insert_new id subgraph) ids

abbrev pub has_two : List String → Bool
has_two (a ∷ b ∷ rest) = true
has_two _ = false

abbrev pub reversed : List String → List String → List String
reversed [] acc = acc
reversed (x ∷ xs) acc = reversed xs (x ∷ acc)

-- The part of a round that fetches the event and goes on to its auth events.
unfoldable pub expand : Fetch → String → Walk → Walk
expand fetch event_id w = elim (fetch event_id) [
  | none ↦ record w { path = tail_of w.path }
  | some evt ↦ record w {
    stack = reversed evt.auth_events [] ∷ w.stack;
    seen = insert_new event_id w.seen;
  }
]

-- One round of the loop; `w.path` begins with `event_id`, which has been pushed.
unfoldable pub visit : Fetch → List String → String → Walk → Walk
visit fetch conflicted event_id w =
    if contains w.subgraph event_id
    then record w {
      subgraph = if has_two w.path then extend_set w.subgraph w.path else w.subgraph;
      path = tail_of w.path;
    }
    else (let subgraph' =
          if contains conflicted event_id && has_two w.path
          then extend_set w.subgraph w.path
          else w.subgraph in
        if contains w.seen event_id
        then record w { subgraph = subgraph'; path = tail_of w.path }
        else expand fetch event_id (record w { subgraph = subgraph' }))

abbrev pub entered : Walk → String → List (List String) → List String → Walk
entered w event_id stack path = record w { stack = stack; path = event_id ∷ path }

unfoldable pub walk : Fetch → List String → ℕ → Walk → Run (List String)
walk fetch conflicted zero w = out_of_fuel
walk fetch conflicted (suc fuel) w = elim (next_event w.stack w.path) [
  | none ↦ done w.subgraph
  | some (event_id, stack, path) ↦
      walk fetch conflicted fuel (visit fetch conflicted event_id (entered w event_id stack path))
]

unfoldable pub calculate_conflicted_subgraph :
    Fetch → ℕ → StateMap (List String) → Run (List String)
calculate_conflicted_subgraph fetch fuel conflicted =
    let conflicted_events =
      to_set (flat_map (λ (entry : TypeStateKey × List String). entry.1) conflicted) in
    walk fetch conflicted_events fuel
      (record { subgraph = []; stack = conflicted_events ∷ []; path = []; seen = [] })
