-- ===== src/Resolve/Sort/Order.antt =====
-- The topological sort puts every node behind the nodes that its edges lead to.
use cinquain.Prelude.{
  ℕ, zero, suc, ◌≡◌, refl, true, Option, none, some, List, [], ◌∷◌, Eq, ℤ, arith, distinct, length,
}
use mathlib.Core.Path.{subst, sym}
use cinquain.Resolve.Sort.Heap.{pop-All}
use cinquain.Prelude.Order.{Ord}
use cinquain.Prelude.Map
use cinquain.Matrix.{Result}
use cinquain.Resolve.Runs.{Run, done, ◌>>=◌, >>=-eq-done, done-injective}
use cinquain.Resolve.Sort.{
  TieBreaker, pop, touch, add_edges, tie_breaker, prepare, clear_parents, round, drain,
  lexicographical_topological_sort,
}
use cinquain.Resolve.Sort.Cleared.{
  contains_head, Ready, AllReady, Cleared, Kept, AllReady-weaken, Cleared-weaken, Ready-of_empty,
  tie_breaker-event_id, clear_parents-Kept,
}

module _ {EventId : Type 0} ⦃e : Eq EventId⦄ where
  -- Each node of the list is ready when the nodes before it, and `seen`, have been passed.
  abbrev pub Follows : List (EventId × List EventId) → List EventId → List EventId → Type 0
  Follows graph seen [] = Unit
  Follows graph seen (node ∷ rest) = Ready graph seen node × Follows graph (node ∷ seen) rest

  -- The rounds that follow put the nodes in order, if all rounds on less fuel do.
  module _ (graph reverse_graph : List (EventId × List EventId))
      (key_fn : EventId → Result (ℤ × ℕ)) where
    abbrev Orders :
        (List (EventId × List EventId) → List (TieBreaker EventId) → Run (List EventId)) → Type 0
    Orders run =
        (outdegree_map : List (EventId × List EventId)) (heap : List (TieBreaker EventId))
        (seen sorted : List EventId)
        → Kept graph key_fn seen (outdegree_map, heap)
        → run outdegree_map heap ≡ done sorted
        → Follows graph seen sorted

    round-Follows :
        (rest : List (EventId × List EventId) → List (TieBreaker EventId) → Run (List EventId))
        (outdegree_map : List (EventId × List EventId))
        (taken : Option (TieBreaker EventId × List (TieBreaker EventId)))
        (seen sorted : List EventId)
        → Orders rest
        → Cleared graph outdegree_map seen
        → ((item : TieBreaker EventId) (heap : List (TieBreaker EventId))
            → taken ≡ some (item, heap)
            → Ready graph seen item.event_id × AllReady graph seen heap)
        → round key_fn reverse_graph rest outdegree_map taken ≡ done sorted
        → Follows graph seen sorted
    unfolding round Kept
    round-Follows rest outdegree_map none seen sorted ih c r h =
        subst (Follows graph seen) (done-injective h) tt
    round-Follows rest outdegree_map (some (item, heap)) seen sorted ih c r h =
        let ready = r item heap refl in
        let (next, cleared, later) =
          >>=-eq-done (clear_parents key_fn reverse_graph item.event_id outdegree_map heap)
            (λ n. rest n.0 n.1 >>= λ s. done (item.event_id ∷ s)) h in
        let (tail, found, ends) =
          >>=-eq-done (rest next.0 next.1) (λ s. done (item.event_id ∷ s)) later in
        subst (Follows graph seen) (done-injective ends) (
          ready.0,
          ih next.0 next.1 (item.event_id ∷ seen) tail
              (clear_parents-Kept graph key_fn (item.event_id ∷ seen) reverse_graph item.event_id
                outdegree_map heap next (contains_head item.event_id seen)
                (
                  Cleared-weaken graph outdegree_map seen item.event_id c,
                  AllReady-weaken graph seen item.event_id heap ready.1,
                )
                cleared)
              found,
        )

module _ {EventId : Type 0} ⦃e : Eq EventId⦄ ⦃o : Ord EventId⦄
    (graph : List (EventId × List EventId)) (key_fn : EventId → Result (ℤ × ℕ)) where
  drain-Follows :
      (reverse_graph : List (EventId × List EventId)) (fuel : ℕ)
      → Orders graph reverse_graph key_fn (drain key_fn reverse_graph fuel)
  unfolding drain Kept AllReady
  drain-Follows reverse_graph zero outdegree_map heap seen sorted k h = cc
  drain-Follows reverse_graph (suc fuel) outdegree_map heap seen sorted k h =
      round-Follows graph reverse_graph key_fn (drain key_fn reverse_graph fuel) outdegree_map
        (pop heap) seen sorted (drain-Follows reverse_graph fuel) k.0
        (λ item rest p. pop-All (λ i. Ready graph seen i.event_id) item heap rest k.1 p) h

  Cleared-start : Cleared graph graph []
  unfolding Cleared
  Cleared-start p es out g g' x h = ground arith

  prepare-AllReady :
      (rest reverse_graph : List (EventId × List EventId)) (heap : List (TieBreaker EventId))
      (start : List (EventId × List EventId) × List (TieBreaker EventId))
      → Map.Finds graph rest
      → AllReady graph [] heap
      → prepare key_fn rest reverse_graph heap ≡ done start
      → AllReady graph [] start.1
  unfolding prepare AllReady
  prepare-AllReady [] reverse_graph heap start f a h =
      subst (λ s. AllReady graph [] s.1) (done-injective h) a
  prepare-AllReady ((node, []) ∷ rest) reverse_graph heap start f a h =
      let (item, made, later) =
        >>=-eq-done (tie_breaker key_fn node)
          (λ i. prepare key_fn rest (touch node reverse_graph) (i ∷ heap)) h in
      prepare-AllReady rest (touch node reverse_graph) (item ∷ heap) start f.1
        (
          subst (Ready graph []) (sym (tie_breaker-event_id key_fn node item made))
              (Ready-of_empty graph graph [] node Cleared-start f.0),
          a,
        )
        later
  prepare-AllReady ((node, edge ∷ edges) ∷ rest) reverse_graph heap start f a h =
      prepare-AllReady rest (add_edges node (edge ∷ edges) (touch node reverse_graph)) heap start
        f.1 a h

  -- On a graph that lists no node twice, where the sort returns, each node stands behind all nodes
  -- that its edges lead to.
  pub lexicographical_topological_sort-Follows :
      (sorted : List EventId)
      → distinct (Map.keys graph) ≡ true
      → lexicographical_topological_sort graph key_fn ≡ done sorted
      → Follows graph [] sorted
  unfolding lexicographical_topological_sort Kept AllReady
  lexicographical_topological_sort-Follows sorted d h =
      let (start, prepared, drained) =
        >>=-eq-done (prepare key_fn graph [] [])
          (λ s. drain key_fn s.0 (suc (length graph)) graph s.1) h in
      drain-Follows start.0 (suc (length graph)) graph start.1 [] sorted
        (Cleared-start, prepare-AllReady graph [] [] start (Map.Finds-all graph d) tt prepared)
        drained
