-- ===== src/Resolve/Sort/Drained.antt =====
-- The rounds of the topological sort end when all nodes have been taken.
use cinquain.Prelude.{
  ℕ, zero, suc, ◌<◌, ◌≤◌, ◌≡◌, refl, sym, ◌∙◌, true, false, not, ◌&&◌, List, [], ◌∷◌, Eq, ℤ,
  contains, arith, distinct, beq_refl, Bool-cases, inl, inr, length, keep,
}
use cinquain.Prelude.Order.{Ord}
use cinquain.Prelude.Map
use cinquain.Matrix.{Result}
use cinquain.Resolve.Runs.{done}
use cinquain.Resolve.Sort.{TieBreaker, pop_least, pop, round, drain}
use cinquain.Resolve.Sort.Rounds.{ids, is_node, is_edge, HasKeys}
use cinquain.Resolve.Sort.Between.{Reverses, left_of, Between, clear_parents-Between}

module _ {EventId : Type 0} ⦃e : Eq EventId⦄ where
  module _ (graph : List (EventId × List EventId)) where
    -- All edges lead to nodes, and down in rank.
    pub record IsRanked (rank : EventId → ℕ) : Type 0 where
      pub nodes : (p x : EventId) → is_edge graph p x ≡ true → is_node graph x ≡ true
      pub falls : (p x : EventId) → is_edge graph p x ≡ true → rank x < rank p

    -- With an empty heap, every node has been taken.
    all_seen :
        (rank : EventId → ℕ) (seen : List EventId) (outdegree_map : List (EventId × List EventId))
        → IsRanked rank
        → Between graph seen (outdegree_map, [])
        → (n : ℕ) (p : EventId) → is_node graph p ≡ true
        → rank p < n
        → contains seen p ≡ true
    unfolding contains
    all_seen rank seen outdegree_map ranked b zero p is_p l = absurd (omega arith)
    all_seen rank seen outdegree_map ranked b (suc n) p is_p l =
        elim (Bool-cases (contains seen p)) [
          | inl q ↦ q
          | inr q ↦
              let none_left : (x : EventId) → left_of graph seen p x ≡ false = λ x.
                elim (Bool-cases (is_edge graph p x)) [
                  | inl edge ↦
                      let below = ranked.falls p x edge in
                      let seen_x =
                        all_seen rank seen outdegree_map ranked b n x (ranked.nodes p x edge)
                          (omega arith) in
                      ground arith
                  | inr without ↦ ground arith
                ] in
              absurd (ground (arith, (b.heap.0 p).1 (is_p, q, none_left)))
        ]

    abbrev pub unseen : List EventId → List EventId → List EventId
    unseen seen nodes = keep (λ k. not (contains seen k)) nodes

    length-unseen :
        (seen nodes : List EventId) (node : EventId)
        → (length (unseen (node ∷ seen) nodes) ≤ length (unseen seen nodes))
          × (contains nodes node ≡ true
              → contains seen node ≡ false
              → length (unseen (node ∷ seen) nodes) < length (unseen seen nodes))
    unfolding keep contains
    length-unseen seen [] node = (omega arith, (λ c f. cc))
    length-unseen seen (k ∷ nodes) node =
        let rest = length-unseen seen nodes node in
        (
          ground (arith, rest.0),
          (λ c f. ground (arith, rest.0, rest.1, e.beq_iff k node, e.beq_iff node k)),
        )

module _ {EventId : Type 0} ⦃e : Eq EventId⦄ ⦃o : Ord EventId⦄ where
  contains-pop_least :
      (item : TieBreaker EventId) (heap : List (TieBreaker EventId)) (p : EventId)
      → contains (ids ((pop_least item heap).0 ∷ (pop_least item heap).1)) p
        ≡ contains (ids (item ∷ heap)) p
  unfolding contains pop_least
  contains-pop_least item [] p = refl
  contains-pop_least item (other ∷ heap) p = ground (arith, contains-pop_least other heap p)

  distinct-pop_least :
      (item : TieBreaker EventId) (heap : List (TieBreaker EventId))
      → distinct (ids (item ∷ heap)) ≡ true
      → distinct (ids ((pop_least item heap).0 ∷ (pop_least item heap).1)) ≡ true
  unfolding distinct contains pop_least
  distinct-pop_least item [] d = refl
  distinct-pop_least item (other ∷ heap) d = ground (
    arith,
    distinct-pop_least other heap,
    contains-pop_least other heap item.event_id,
    e.beq_iff (pop_least other heap).0.event_id item.event_id,
    e.beq_iff item.event_id (pop_least other heap).0.event_id,
  )

  module _ (graph reverse_graph : List (EventId × List EventId)) (key_fn : EventId → Result (ℤ × ℕ))
      (keyed : HasKeys graph key_fn) (reverses : Reverses graph reverse_graph) (rank : EventId → ℕ)
      (ranked : IsRanked graph rank) where
    pub drain-returns :
        (fuel : ℕ) (seen : List EventId) (outdegree_map : List (EventId × List EventId))
        (heap : List (TieBreaker EventId))
        → length (unseen graph seen (Map.keys graph)) < fuel
        → Between graph seen (outdegree_map, heap)
        → (sorted : List EventId) × (drain key_fn reverse_graph fuel outdegree_map heap
            ≡ done sorted)
          × ((x : EventId) → contains sorted x ≡ (is_node graph x && not (contains seen x)))
          × (distinct sorted ≡ true)
    unfolding drain round pop contains distinct
    drain-returns zero seen outdegree_map heap l b = absurd (omega arith)
    drain-returns (suc fuel) seen outdegree_map [] l b = (
      [],
      refl,
      (λ x.
          let all = all_seen graph rank seen outdegree_map ranked b (suc (rank x)) x in
          elim (Bool-cases (is_node graph x)) [
            | inl q ↦ ground (arith, all q (omega arith))
            | inr q ↦ ground arith
          ]),
      refl,
    )
    drain-returns (suc fuel) seen outdegree_map (first ∷ heap) l b =
        let item = (pop_least first heap).0 in
        let rest = (pop_least first heap).1 in
        let node = item.event_id in
        let popped : Between graph seen (outdegree_map, item ∷ rest) = record {
          outs = b.outs;
          heap = (
            (λ p. (
              (λ c. (b.heap.0 p).0 (sym (contains-pop_least first heap p) ∙ c)),
              (λ c. contains-pop_least first heap p ∙ (b.heap.0 p).1 c),
            )),
            distinct-pop_least first heap b.heap.1,
          );
          closed = b.closed;
        } in
        let taken = (popped.heap.0 node).0 (ground (arith, beq_refl node)) in
        let (next, cleared, after) =
          clear_parents-Between graph reverse_graph key_fn keyed reverses seen outdegree_map item
            rest popped in
        let fewer = (length-unseen graph seen (Map.keys graph) node).1 taken.0 taken.1 in
        let (tail, drained, tails, once) =
          drain-returns fuel (node ∷ seen) next.0 next.1 (omega arith) after in
        (
          node ∷ tail,
          rw (drain, pop, round, cleared, drained) refl,
          (λ x. ground (arith, tails x, taken.0, taken.1, e.beq_iff node x)),
          ground (arith, tails node, once, beq_refl node),
        )
