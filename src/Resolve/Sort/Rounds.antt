-- ===== src/Resolve/Sort/Rounds.antt =====
-- One round of the topological sort: it returns, and leaves the edges and the heap in step.
use mathlib.Core.Path.{subst}
use cinquain.Prelude.{
  ℕ, ◌≡◌, ◌↔◌, refl, sym, ◌∙◌, Bool, true, false, not, ◌&&◌, Option, none, some, List, [], ◌∷◌,
  ◌==◌, Eq, ℤ, contains, remove, contains-remove, arith, distinct, beq_refl, Bool-cases, inl, inr,
  map,
}
use cinquain.Prelude.Map
use cinquain.Matrix.{Result, ok}
use cinquain.Resolve.Runs.{done}
use cinquain.Resolve.Sort.{TieBreaker, tie_breaker, clear_edges, clear_edge, push_if_empty}

abbrev pub ids : {EventId : Type 0} → List (TieBreaker EventId) → List EventId
ids heap = map (λ item. item.event_id) heap

module _ {EventId : Type 0} ⦃e : Eq EventId⦄ where
  abbrev pub is_among : Option (List EventId) → EventId → Bool
  is_among none x = false
  is_among (some es) x = contains es x

  module _ (graph : List (EventId × List EventId)) where
    abbrev pub is_node : EventId → Bool
    is_node p = contains (Map.keys graph) p

    abbrev pub is_edge : EventId → EventId → Bool
    is_edge p x = is_among (Map.get p graph) x

    -- The edges of each node that are left.
    abbrev pub OutsAre : List (EventId × List EventId) → (EventId → EventId → Bool) → Type 0
    OutsAre outdegree_map left =
        (p : EventId)
        → is_node p ≡ true
        → (out : List EventId) × (Map.get p outdegree_map ≡ some out)
          × ((x : EventId) → contains out x ≡ left p x)

    -- The heap holds, each once, the nodes without edges left that have not been taken.
    abbrev pub HeapIs :
        List (TieBreaker EventId) → (EventId → EventId → Bool) → List EventId → Type 0
    HeapIs heap left seen =
        ((p : EventId)
          → (contains (ids heap) p ≡ true)
            ↔ ((is_node p ≡ true) × (contains seen p ≡ false) × ((x : EventId) → left p x ≡ false)))
        × (distinct (ids heap) ≡ true)

    -- The edges that are left while those to `node` are cleared, of the parents `todo` not yet.
    abbrev pub left_to : List EventId → EventId → List EventId → EventId → EventId → Bool
    left_to seen node todo p x =
        is_edge p x && not (contains seen x) && not (x == node && not (contains todo p))

    module _ (key_fn : EventId → Result (ℤ × ℕ)) where
      abbrev pub HasKeys : Type 0
      HasKeys = (p : EventId) → is_node p ≡ true → (key : ℤ × ℕ) × (key_fn p ≡ ok key)

      pub tie_breaker-returns :
          (p : EventId) (key : ℤ × ℕ)
          → key_fn p ≡ ok key
          → tie_breaker key_fn p
            ≡ done (record { power_level = key.0; origin_server_ts = key.1; event_id = p })
      unfolding tie_breaker
      tie_breaker-returns p key k = rw k refl

      module _ (keyed : HasKeys) (seen : List EventId) (node : EventId)
          (fresh : contains seen node ≡ false) where
        -- Parents of the node that have not been taken.
        abbrev pub AreParents : List EventId → Type 0
        AreParents todo =
            (p : EventId)
            → contains todo p ≡ true
            → (is_node p ≡ true) × (is_edge p node ≡ true) × (contains (node ∷ seen) p ≡ false)

        abbrev pub InStep :
            List EventId → List (EventId × List EventId) × List (TieBreaker EventId) → Type 0
        InStep todo next =
            OutsAre next.0 (left_to seen node todo)
            × HeapIs next.1 (left_to seen node todo) (node ∷ seen)

        left_to-done :
            (todo : List EventId) (parent p x : EventId)
            → distinct (parent ∷ todo) ≡ true
            → left_to seen node todo p x
              ≡ (left_to seen node (parent ∷ todo) p x && not (p == parent && x == node))
        unfolding contains distinct
        left_to-done todo parent p x d = ground (arith, e.beq_iff p parent, e.beq_iff parent p)

        -- A parent whose edge to the node is left is not in the heap.
        parent-absent :
            (todo : List EventId) (parent : EventId) (heap : List (TieBreaker EventId))
            → AreParents (parent ∷ todo)
            → HeapIs heap (left_to seen node (parent ∷ todo)) (node ∷ seen)
            → contains (ids heap) parent ≡ false
        unfolding contains
        parent-absent todo parent heap a h = elim (Bool-cases (contains (ids heap) parent)) [
          | inl in_heap ↦
              let none_left = ((h.0 parent).0 in_heap).2 node in
              let edge = (a parent (ground (arith, beq_refl parent))).1 in
              absurd (ground (arith, beq_refl parent, beq_refl node))
          | inr absent ↦ absent
        ]

        -- Other parents are as they were.
        left_to-other :
            (todo : List EventId) (parent p x : EventId)
            → (parent == p) ≡ false
            → left_to seen node todo p x ≡ left_to seen node (parent ∷ todo) p x
        unfolding contains
        left_to-other todo parent p x n = ground arith

        -- A node that waits in the heap while the edges of `todo` are not cleared.
        abbrev Waits : List EventId → EventId → Type 0
        Waits todo p =
            (is_node p ≡ true)
            × (contains (node ∷ seen) p ≡ false)
            × ((x : EventId) → left_to seen node todo p x ≡ false)

        Waits-other :
            (todo : List EventId) (parent p : EventId)
            → (parent == p) ≡ false
            → Waits (parent ∷ todo) p ↔ Waits todo p
        Waits-other todo parent p n = (
          (λ w. (w.0, w.1, (λ x. left_to-other todo parent p x n ∙ w.2 x))),
          (λ w. (w.0, w.1, (λ x. sym (left_to-other todo parent p x n) ∙ w.2 x))),
        )

        -- The heap after clearing a parent is right if it is for the parent, and as it was for others.
        HeapIs-of_parent :
            (todo : List EventId) (parent : EventId) (heap next : List (TieBreaker EventId))
            → HeapIs heap (left_to seen node (parent ∷ todo)) (node ∷ seen)
            → ((p : EventId)
                → (parent == p) ≡ false
                → contains (ids next) p ≡ contains (ids heap) p)
            → ((contains (ids next) parent ≡ true) ↔ Waits todo parent)
            → distinct (ids next) ≡ true
            → HeapIs next (left_to seen node todo) (node ∷ seen)
        HeapIs-of_parent todo parent heap next h others own d = (
          (λ p. elim (Bool-cases (parent == p)) [
            | inl same ↦
                subst (λ (p : EventId). (contains (ids next) p ≡ true) ↔ Waits todo p)
                  ((e.beq_iff parent p).0 same) own
            | inr other ↦ (
              (λ c. (Waits-other todo parent p other).0 ((h.0 p).0 (sym (others p other) ∙ c))),
              (λ w. others p other ∙ (h.0 p).1 ((Waits-other todo parent p other).1 w)),
            )
          ]),
          d,
        )

        push_if_empty-HeapIs :
            (todo : List EventId) (parent : EventId) (out : List EventId)
            (outdegree_map : List (EventId × List EventId)) (heap : List (TieBreaker EventId))
            → AreParents (parent ∷ todo)
            → ((x : EventId) → contains out x ≡ left_to seen node todo parent x)
            → HeapIs heap (left_to seen node (parent ∷ todo)) (node ∷ seen)
            → (next : List (TieBreaker EventId)) × (push_if_empty key_fn parent out outdegree_map
                  heap
                ≡ done (outdegree_map, next))
              × HeapIs next (left_to seen node todo) (node ∷ seen)
        unfolding push_if_empty contains distinct
        push_if_empty-HeapIs todo parent [] outdegree_map heap a l h =
            let parent_is = a parent (ground (arith, beq_refl parent)) in
            let (key, k) = keyed parent parent_is.0 in
            let absent = parent-absent todo parent heap a h in
            let next =
              record { power_level = key.0; origin_server_ts = key.1; event_id = parent } ∷ heap in
            let waits : Waits todo parent = (parent_is.0, parent_is.2, (λ x. sym (l x))) in
            (
              next,
              rw (tie_breaker-returns parent key k) refl,
              HeapIs-of_parent todo parent heap next h (λ p other. ground arith)
                  ((λ c. waits), (λ c. ground (arith, beq_refl parent))) (ground arith),
            )
        push_if_empty-HeapIs todo parent (y ∷ out) outdegree_map heap a l h =
            let absent = parent-absent todo parent heap a h in
            (
              heap,
              refl,
              HeapIs-of_parent todo parent heap heap h (λ p other. refl)
                  (
                    (λ c. absurd (ground arith)),
                    (λ c. absurd (ground (arith, l y, c.2 y, beq_refl y))),
                  )
                  h.1,
            )

        insert-OutsAre :
            (todo : List EventId) (parent : EventId) (out : List EventId)
            (outdegree_map : List (EventId × List EventId))
            → ((x : EventId) → contains out x ≡ left_to seen node todo parent x)
            → OutsAre outdegree_map (left_to seen node (parent ∷ todo))
            → OutsAre (Map.insert parent out outdegree_map) (left_to seen node todo)
        insert-OutsAre todo parent out outdegree_map l o p is_p = elim (Bool-cases (parent == p)) [
          | inl same ↦
              let q : parent ≡ p = ground (arith, e.beq_iff parent p) in
              (
                out,
                ground (arith, Map.get-insert parent p out outdegree_map),
                subst (λ (p : EventId). (x : EventId) → contains out x ≡ left_to seen node todo p x)
                    q l,
              )
          | inr other ↦
              let (old, found, olds) = o p is_p in
              (
                old,
                ground (arith, found, Map.get-insert parent p out outdegree_map),
                (λ x. olds x ∙ sym (left_to-other todo parent p x other)),
              )
        ]

        clear_edge-InStep :
            (todo : List EventId) (parent : EventId) (outdegree_map : List (EventId × List EventId))
            (heap : List (TieBreaker EventId))
            → distinct (parent ∷ todo) ≡ true
            → AreParents (parent ∷ todo)
            → InStep (parent ∷ todo) (outdegree_map, heap)
            → (next : List (EventId × List EventId) × List (TieBreaker EventId)) × (clear_edge
                  key_fn node parent outdegree_map heap
                ≡ done next)
              × InStep todo next
        unfolding clear_edge contains
        clear_edge-InStep todo parent outdegree_map heap d a s =
            let (out, found, outs) = s.0 parent (a parent (ground (arith, beq_refl parent))).0 in
            let cleared : (x : EventId)
                → contains (remove node out) x ≡ left_to seen node todo parent x =
              λ x. ground (
                arith,
                contains-remove node x out,
                outs x,
                left_to-done todo parent parent x d,
                beq_refl parent,
                e.beq_iff node x,
                e.beq_iff x node,
              ) in
            let map_after = Map.insert parent (remove node out) outdegree_map in
            let (next, pushed, heap_is) =
              push_if_empty-HeapIs todo parent (remove node out) map_after heap a cleared s.1 in
            (
              (map_after, next),
              rw (found, clear_edge) pushed,
              (insert-OutsAre todo parent (remove node out) outdegree_map cleared s.0, heap_is),
            )

        pub clear_edges-InStep :
            (todo : List EventId) (outdegree_map : List (EventId × List EventId))
            (heap : List (TieBreaker EventId))
            → distinct todo ≡ true
            → AreParents todo
            → InStep todo (outdegree_map, heap)
            → (next : List (EventId × List EventId) × List (TieBreaker EventId)) × (clear_edges
                  key_fn node todo outdegree_map heap
                ≡ done next)
              × InStep [] next
        unfolding clear_edges distinct contains
        clear_edges-InStep [] outdegree_map heap d a s = ((outdegree_map, heap), refl, s)
        clear_edges-InStep (parent ∷ todo) outdegree_map heap d a s =
            let (mid, first, step) = clear_edge-InStep todo parent outdegree_map heap d a s in
            let (next, rest, last) =
              clear_edges-InStep todo mid.0 mid.1 (ground arith) (λ p c. a p (ground arith)) step in
            (next, rw (first, clear_edges) rest, last)
