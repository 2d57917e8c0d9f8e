-- ===== src/Resolve/Sort/Cleared.antt =====
-- A node of the topological sort is taken once all nodes that its edges lead to have been.
use cinquain.Prelude.{
  ℕ, ◌≡◌, true, ◌||◌, some, List, [], ◌∷◌, ◌==◌, Eq, ℤ, contains, remove, contains-remove, arith,
  All, beq_refl, Option-cases, Bool-cases, inl, inr,
}
use mathlib.Core.Path.{subst, sym}
use cinquain.Prelude.Map
use cinquain.Matrix.{Result}
use cinquain.Resolve.Runs.{done, >>=-eq-done, done-injective}
use cinquain.Resolve.Sort.{
  TieBreaker, tie_breaker, clear_edges, clear_edge, push_if_empty, clear_parents,
}

module _ {EventId : Type 0} ⦃e : Eq EventId⦄ where
  pub contains_head : (x : EventId) (xs : List EventId) → contains (x ∷ xs) x ≡ true
  unfolding contains
  contains_head x xs = ground (arith, e.beq_iff x x)

  -- All nodes that the edges of `node` lead to stand in `seen`.
  abbrev pub Ready : List (EventId × List EventId) → List EventId → EventId → Type 0
  Ready graph seen node =
      (es : List EventId)
      → Map.get node graph ≡ some es
      → (x : EventId) → contains es x ≡ true
      → contains seen x ≡ true

  -- What has gone from the set of a node's edges has been seen.
  unfoldable pub Cleared :
      List (EventId × List EventId) → List (EventId × List EventId) → List EventId → Type 0
  Cleared graph outdegree_map seen =
      (p : EventId) (es out : List EventId)
      → Map.get p graph ≡ some es
      → Map.get p outdegree_map ≡ some out
      → (x : EventId) → contains es x ≡ true
      → (contains out x || contains seen x) ≡ true

  unfoldable pub AllReady :
      List (EventId × List EventId) → List EventId → List (TieBreaker EventId) → Type 0
  AllReady graph seen heap = All (λ item. Ready graph seen item.event_id) heap

  Ready-weaken :
      (graph : List (EventId × List EventId)) (seen : List EventId) (node x : EventId)
      → Ready graph seen x
      → Ready graph (node ∷ seen) x
  unfolding contains
  Ready-weaken graph seen node x r es g y h = ground (arith, r es g y h)

  pub AllReady-weaken :
      (graph : List (EventId × List EventId)) (seen : List EventId) (node : EventId)
      (heap : List (TieBreaker EventId))
      → AllReady graph seen heap
      → AllReady graph (node ∷ seen) heap
  unfolding AllReady
  AllReady-weaken graph seen node [] a = tt
  AllReady-weaken graph seen node (item ∷ heap) a =
      (Ready-weaken graph seen node item.event_id a.0, AllReady-weaken graph seen node heap a.1)

  pub Cleared-weaken :
      (graph outdegree_map : List (EventId × List EventId)) (seen : List EventId) (node : EventId)
      → Cleared graph outdegree_map seen
      → Cleared graph outdegree_map (node ∷ seen)
  unfolding Cleared contains
  Cleared-weaken graph outdegree_map seen node c p es out g o x h =
      ground (arith, c p es out g o x h)

  -- Removing a node that has been seen keeps the rest cleared.
  Cleared-remove :
      (graph outdegree_map : List (EventId × List EventId)) (seen : List EventId)
      (node parent : EventId) (out : List EventId)
      → contains seen node ≡ true
      → Map.get parent outdegree_map ≡ some out
      → Cleared graph outdegree_map seen
      → Cleared graph (Map.insert parent (remove node out) outdegree_map) seen
  unfolding Cleared
  Cleared-remove graph outdegree_map seen node parent out s o c p es out' g o' x h =
      elim (Bool-cases (parent == p)) [
        | inl q ↦ ground (
          arith,
          e.beq_iff parent p,
          e.beq_iff node x,
          Map.get-insert parent p (remove node out) outdegree_map,
          contains-remove node x out,
          c p es out g (ground (arith, e.beq_iff parent p)) x h,
        )
        | inr q ↦
            c p es out' g (ground (arith, Map.get-insert parent p (remove node out) outdegree_map))
              x h
      ]

  pub Ready-of_empty :
      (graph outdegree_map : List (EventId × List EventId)) (seen : List EventId) (node : EventId)
      → Cleared graph outdegree_map seen
      → Map.get node outdegree_map ≡ some []
      → Ready graph seen node
  unfolding Cleared contains
  Ready-of_empty graph outdegree_map seen node c o es g x h = c node es [] g o x h

  pub tie_breaker-event_id :
      (key_fn : EventId → Result (ℤ × ℕ)) (node : EventId) (item : TieBreaker EventId)
      → tie_breaker key_fn node ≡ done item
      → item.event_id ≡ node
  unfolding tie_breaker
  tie_breaker-event_id key_fn node item h = ground arith

  module _ (graph : List (EventId × List EventId)) (key_fn : EventId → Result (ℤ × ℕ))
      (seen : List EventId) where
    -- What holds between the rounds of the loop over the heap.
    unfoldable pub Kept : List (EventId × List EventId) × List (TieBreaker EventId) → Type 0
    Kept next = Cleared graph next.0 seen × AllReady graph seen next.1

    push_if_empty-Kept :
        (parent : EventId) (out : List EventId) (outdegree_map : List (EventId × List EventId))
        (heap : List (TieBreaker EventId))
        (next : List (EventId × List EventId) × List (TieBreaker EventId))
        → Map.get parent outdegree_map ≡ some out
        → Kept (outdegree_map, heap)
        → push_if_empty key_fn parent out outdegree_map heap ≡ done next
        → Kept next
    unfolding push_if_empty Kept AllReady
    push_if_empty-Kept parent [] outdegree_map heap next o k h =
        let (item, made, ends) =
          >>=-eq-done (tie_breaker key_fn parent) (λ i. done (outdegree_map, i ∷ heap)) h in
        let ready : Ready graph seen item.event_id =
          subst (Ready graph seen) (sym (tie_breaker-event_id key_fn parent item made))
            (Ready-of_empty graph outdegree_map seen parent k.0 o) in
        subst Kept (done-injective ends) (k.0, (ready, k.1))
    push_if_empty-Kept parent (x ∷ out) outdegree_map heap next o k h =
        subst Kept (done-injective h) k

    clear_edge-Kept :
        (node parent : EventId) (outdegree_map : List (EventId × List EventId))
        (heap : List (TieBreaker EventId))
        (next : List (EventId × List EventId) × List (TieBreaker EventId))
        → contains seen node ≡ true
        → Kept (outdegree_map, heap)
        → clear_edge key_fn node parent outdegree_map heap ≡ done next
        → Kept next
    unfolding clear_edge Kept
    clear_edge-Kept node parent outdegree_map heap next s k h =
        elim (Option-cases (Map.get parent outdegree_map)) [
          | inl o ↦ absurd (ground arith)
          | inr (out, o) ↦
              push_if_empty-Kept parent (remove node out)
                (Map.insert parent (remove node out) outdegree_map) heap next
                (ground (
                  arith,
                  Map.get-insert parent parent (remove node out) outdegree_map,
                  beq_refl parent,
                ))
                (Cleared-remove graph outdegree_map seen node parent out s o k.0, k.1)
                (ground arith)
        ]

    clear_edges-Kept :
        (node : EventId) (parents : List EventId) (outdegree_map : List (EventId × List EventId))
        (heap : List (TieBreaker EventId))
        (next : List (EventId × List EventId) × List (TieBreaker EventId))
        → contains seen node ≡ true
        → Kept (outdegree_map, heap)
        → clear_edges key_fn node parents outdegree_map heap ≡ done next
        → Kept next
    unfolding clear_edges
    clear_edges-Kept node [] outdegree_map heap next s k h = subst Kept (done-injective h) k
    clear_edges-Kept node (parent ∷ parents) outdegree_map heap next s k h =
        let (mid, first, rest) =
          >>=-eq-done (clear_edge key_fn node parent outdegree_map heap)
            (λ m. clear_edges key_fn node parents m.0 m.1) h in
        clear_edges-Kept node parents mid.0 mid.1 next s
          (clear_edge-Kept node parent outdegree_map heap mid s k first) rest

    pub clear_parents-Kept :
        (reverse_graph : List (EventId × List EventId)) (node : EventId)
        (outdegree_map : List (EventId × List EventId)) (heap : List (TieBreaker EventId))
        (next : List (EventId × List EventId) × List (TieBreaker EventId))
        → contains seen node ≡ true
        → Kept (outdegree_map, heap)
        → clear_parents key_fn reverse_graph node outdegree_map heap ≡ done next
        → Kept next
    unfolding clear_parents
    clear_parents-Kept reverse_graph node outdegree_map heap next s k h =
        elim (Option-cases (Map.get node reverse_graph)) [
          | inl o ↦ absurd (ground arith)
          | inr (parents, o) ↦
              clear_edges-Kept node parents outdegree_map heap next s k (ground arith)
        ]
