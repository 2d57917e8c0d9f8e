-- ===== src/Resolve/Sort.antt =====
-- `lexicographical_topological_sort`, generic in the identifiers as in the source
-- (core/matrix/state_res/mod.rs).
pub mod Heap
pub mod Cleared
pub mod Order
pub mod Rounds
pub mod Prepared
pub mod Between
pub mod Drained
pub mod Total
use cinquain.Prelude.{
  ℕ, zero, suc, ◌+◌, Bool, true, false, ◌&&◌, Option, none, some, List, [], ◌∷◌, if◌then◌else◌,
  ◌==◌, Eq, ℤ, leℤ, leb, insert_new, remove, is_empty, length,
}
use cinquain.Prelude.Order.{Ord}
use cinquain.Prelude.Map
use cinquain.Matrix.{Result, Error, panicked}
use cinquain.Resolve.Runs.{Run, done, failed, out_of_fuel, ◌>>=◌, lift}

pub record TieBreaker (EventId : Type 0) : Type 0 where
  pub power_level : ℤ
  pub origin_server_ts : ℕ
  pub event_id : EventId

module _ {EventId : Type 0} where
  -- `cmp` of two tie breakers, as `<=`: the greater power level is the lesser item.
  unfoldable pub tie_le : ⦃o : Ord EventId⦄ → TieBreaker EventId → TieBreaker EventId → Bool
  tie_le ⦃o⦄ self other =
      if leℤ other.power_level self.power_level
      then (if leℤ self.power_level other.power_level
          then (if leb self.origin_server_ts other.origin_server_ts
              then (if leb other.origin_server_ts self.origin_server_ts
                  then o.le self.event_id other.event_id
                  else true)
              else false)
          else true)
      else false

  -- `BinaryHeap` of `Reverse`d items: `pop` takes a least one.
  unfoldable pub pop_least :
      ⦃o : Ord EventId⦄
      → TieBreaker EventId
      → List (TieBreaker EventId)
      → TieBreaker EventId × List (TieBreaker EventId)
  pop_least item [] = (item, [])
  pop_least item (other ∷ heap) =
      let (least, rest) = pop_least other heap in
      if tie_le item least then (item, other ∷ heap) else (least, item ∷ rest)

  unfoldable pub pop :
      ⦃o : Ord EventId⦄
      → List (TieBreaker EventId)
      → Option (TieBreaker EventId × List (TieBreaker EventId))
  pop [] = none
  pop (item ∷ heap) = some (pop_least item heap)

  -- `reverse_graph.entry(edge).or_default().insert(node)`.
  unfoldable pub add_parent :
      ⦃e : Eq EventId⦄
      → EventId
      → EventId
      → List (EventId × List EventId)
      → List (EventId × List EventId)
  add_parent node edge reverse_graph = elim (Map.get edge reverse_graph) [
    | none ↦ Map.insert edge (node ∷ []) reverse_graph
    | some parents ↦ Map.insert edge (insert_new node parents) reverse_graph
  ]

  unfoldable pub add_edges :
      ⦃e : Eq EventId⦄
      → EventId
      → List EventId
      → List (EventId × List EventId)
      → List (EventId × List EventId)
  add_edges node [] reverse_graph = reverse_graph
  add_edges node (edge ∷ edges) reverse_graph =
      add_edges node edges (add_parent node edge reverse_graph)

  -- `reverse_graph.entry(node).or_default()`.
  unfoldable pub touch :
      ⦃e : Eq EventId⦄ → EventId → List (EventId × List EventId) → List (EventId × List EventId)
  touch node reverse_graph = elim (Map.get node reverse_graph) [
    | none ↦ Map.insert node [] reverse_graph
    | some parents ↦ reverse_graph
  ]

  unfoldable pub tie_breaker : (EventId → Result (ℤ × ℕ)) → EventId → Run (TieBreaker EventId)
  tie_breaker key_fn node = do
    key ← lift (key_fn node)
    done (record { power_level = key.0; origin_server_ts = key.1; event_id = node })

  -- The loop over the graph: the reverse graph, and the nodes without outgoing edges.
  unfoldable pub prepare :
      ⦃e : Eq EventId⦄
      → (EventId → Result (ℤ × ℕ))
      → List (EventId × List EventId)
      → List (EventId × List EventId)
      → List (TieBreaker EventId)
      → Run (List (EventId × List EventId) × List (TieBreaker EventId))
  prepare key_fn [] reverse_graph zero_outdegree = done (reverse_graph, zero_outdegree)
  prepare key_fn ((node, []) ∷ graph) reverse_graph zero_outdegree = do
    item ← tie_breaker key_fn node
    prepare key_fn graph (touch node reverse_graph) (item ∷ zero_outdegree)
  prepare key_fn ((node, edge ∷ edges) ∷ graph) reverse_graph zero_outdegree =
      prepare key_fn graph (add_edges node (edge ∷ edges) (touch node reverse_graph)) zero_outdegree

  -- A parent with no edge left goes on the heap.
  unfoldable pub push_if_empty :
      (EventId → Result (ℤ × ℕ))
      → EventId
      → List EventId
      → List (EventId × List EventId)
      → List (TieBreaker EventId)
      → Run (List (EventId × List EventId) × List (TieBreaker EventId))
  push_if_empty key_fn parent [] outdegree_map heap = do
    item ← tie_breaker key_fn parent
    done (outdegree_map, item ∷ heap)
  push_if_empty key_fn parent (x ∷ out) outdegree_map heap = done (outdegree_map, heap)

  unfoldable pub clear_edge :
      ⦃e : Eq EventId⦄
      → (EventId → Result (ℤ × ℕ))
      → EventId
      → EventId
      → List (EventId × List EventId)
      → List (TieBreaker EventId)
      → Run (List (EventId × List EventId) × List (TieBreaker EventId))
  clear_edge key_fn node parent outdegree_map heap = elim (Map.get parent outdegree_map) [
    | none ↦ failed panicked
    | some out ↦
        push_if_empty key_fn parent (remove node out)
          (Map.insert parent (remove node out) outdegree_map) heap
  ]

  -- The loop over the parents of a node that was taken from the heap.
  unfoldable pub clear_edges :
      ⦃e : Eq EventId⦄
      → (EventId → Result (ℤ × ℕ))
      → EventId
      → List EventId
      → List (EventId × List EventId)
      → List (TieBreaker EventId)
      → Run (List (EventId × List EventId) × List (TieBreaker EventId))
  clear_edges key_fn node [] outdegree_map heap = done (outdegree_map, heap)
  clear_edges key_fn node (parent ∷ parents) outdegree_map heap =
      clear_edge key_fn node parent outdegree_map heap >>= λ next.
      clear_edges key_fn node parents next.0 next.1

  unfoldable pub clear_parents :
      ⦃e : Eq EventId⦄
      → (EventId → Result (ℤ × ℕ))
      → List (EventId × List EventId)
      → EventId
      → List (EventId × List EventId)
      → List (TieBreaker EventId)
      → Run (List (EventId × List EventId) × List (TieBreaker EventId))
  clear_parents key_fn reverse_graph node outdegree_map heap = elim (Map.get node reverse_graph) [
    | none ↦ failed panicked
    | some parents ↦ clear_edges key_fn node parents outdegree_map heap
  ]

  -- One round of the `while let` over the heap, before the rounds `rest`; `sorted` comes out in the
  -- order of the pushes.
  unfoldable pub round :
      ⦃e : Eq EventId⦄
      → (EventId → Result (ℤ × ℕ))
      → List (EventId × List EventId)
      → (List (EventId × List EventId) → List (TieBreaker EventId) → Run (List EventId))
      → List (EventId × List EventId)
      → Option (TieBreaker EventId × List (TieBreaker EventId))
      → Run (List EventId)
  round key_fn reverse_graph rest outdegree_map none = done []
  round key_fn reverse_graph rest outdegree_map (some (item, heap)) = do
    next ← clear_parents key_fn reverse_graph item.event_id outdegree_map heap
    sorted ← rest next.0 next.1
    done (item.event_id ∷ sorted)

  unfoldable pub drain :
      ⦃e : Eq EventId⦄
      → ⦃o : Ord EventId⦄ → (EventId → Result (ℤ × ℕ))
      → List (EventId × List EventId)
      → ℕ
      → List (EventId × List EventId)
      → List (TieBreaker EventId)
      → Run (List EventId)
  drain key_fn reverse_graph zero outdegree_map heap = out_of_fuel
  drain key_fn reverse_graph (suc fuel) outdegree_map heap =
      round key_fn reverse_graph (drain key_fn reverse_graph fuel) outdegree_map (pop heap)

  -- Every node enters the heap at most once, so one round for each node and one to end suffice.
  unfoldable pub lexicographical_topological_sort :
      ⦃e : Eq EventId⦄
      → ⦃o : Ord EventId⦄ → List (EventId × List EventId)
      → (EventId → Result (ℤ × ℕ))
      → Run (List EventId)
  lexicographical_topological_sort graph key_fn = do
    start ← prepare key_fn graph [] []
    drain key_fn start.0 (suc (length graph)) graph start.1
