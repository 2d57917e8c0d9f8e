-- ===== src/Resolve/Sort/Between.antt =====
-- Between two rounds of the topological sort.
use mathlib.Core.Path.{subst}
use cinquain.Prelude.{
  ℕ, ◌≡◌, sym, ◌∙◌, Bool, true, false, not, ◌&&◌, some, List, [], ◌∷◌, ◌==◌, Eq, ℤ, contains, arith,
  distinct, beq_refl, Bool-cases, inl, inr,
}
use cinquain.Prelude.Map
use cinquain.Matrix.{Result}
use cinquain.Resolve.Runs.{done}
use cinquain.Resolve.Sort.{TieBreaker, clear_parents}
use cinquain.Resolve.Sort.Rounds.{
  is_node, is_edge, OutsAre, HeapIs, left_to, HasKeys, AreParents, InStep, clear_edges-InStep,
}

module _ {EventId : Type 0} ⦃e : Eq EventId⦄ where
  -- The reverse graph: for each node, the nodes with an edge to it, each once.
  abbrev pub Reverses : List (EventId × List EventId) → List (EventId × List EventId) → Type 0
  Reverses graph reverse_graph =
      (x : EventId)
      → is_node graph x ≡ true
      → (parents : List EventId) × (Map.get x reverse_graph ≡ some parents)
        × (distinct parents ≡ true)
        × ((p : EventId) → contains parents p ≡ (is_node graph p && is_edge graph p x))

  -- The edges to nodes that have not been taken.
  abbrev pub left_of : List (EventId × List EventId) → List EventId → EventId → EventId → Bool
  left_of graph seen p x = is_edge graph p x && not (contains seen x)

  -- What holds between the rounds.
  pub record Between (graph : List (EventId × List EventId)) (seen : List EventId)
      (next : List (EventId × List EventId) × List (TieBreaker EventId)) : Type 0 where
    pub outs : OutsAre graph next.0 (left_of graph seen)
    pub heap : HeapIs graph next.1 (left_of graph seen) seen
    pub closed :
        (p : EventId)
        → contains seen p ≡ true
        → (x : EventId) → is_edge graph p x ≡ true
        → contains seen x ≡ true

  module _ (graph reverse_graph : List (EventId × List EventId)) (key_fn : EventId → Result (ℤ × ℕ))
      (keyed : HasKeys graph key_fn) (reverses : Reverses graph reverse_graph) where
    pub clear_parents-Between :
        (seen : List EventId) (outdegree_map : List (EventId × List EventId))
        (item : TieBreaker EventId) (heap : List (TieBreaker EventId))
        → Between graph seen (outdegree_map, item ∷ heap)
        → (next : List (EventId × List EventId) × List (TieBreaker EventId)) × (clear_parents key_fn
              reverse_graph item.event_id outdegree_map heap
            ≡ done next)
          × Between graph (item.event_id ∷ seen) next
    unfolding clear_parents contains distinct
    clear_parents-Between seen outdegree_map item heap b =
        let node = item.event_id in
        let taken = (b.heap.0 node).0 (ground (arith, beq_refl node)) in
        let fresh : contains seen node ≡ false = taken.1 in
        let (parents, found, once, are) = reverses node taken.0 in
        let same : (p x : EventId)
            → is_node graph p ≡ true
            → left_to graph seen node parents p x ≡ left_of graph seen p x =
          λ p x is_p. ground (arith, are p, e.beq_iff x node) in
        let parents_are : AreParents graph key_fn keyed seen node fresh parents = λ p c.
          let is_p : is_node graph p ≡ true = ground (arith, are p) in
          let edge : is_edge graph p node ≡ true = ground (arith, are p) in
          let apart : (node == p) ≡ false = elim (Bool-cases (node == p)) [
            | inl q ↦
                let at : p ≡ node = ground (arith, e.beq_iff node p) in
                let loop : is_edge graph node node ≡ true =
                  subst (λ (y : EventId). is_edge graph y node ≡ true) at edge in
                absurd (ground (arith, taken.2 node))
            | inr q ↦ q
          ] in
          let later : contains seen p ≡ false = elim (Bool-cases (contains seen p)) [
            | inl q ↦ absurd (ground (arith, b.closed p q node edge))
            | inr q ↦ q
          ] in
          (is_p, edge, ground arith) in
        let step : InStep graph key_fn keyed seen node fresh parents (outdegree_map, heap) = (
          (λ p is_p.
              let (out, at, outs) = b.outs p is_p in
              (out, at, (λ x. outs x ∙ sym (same p x is_p)))),
          (
            (λ p. (
              (λ c.
                  let old = (b.heap.0 p).0 (ground arith) in
                  (
                    old.0,
                    ground (arith, old.1, e.beq_iff node p),
                    (λ x. same p x old.0 ∙ old.2 x),
                  )),
              (λ c.
                  let now =
                    (b.heap.0 p).1 (c.0, ground (arith, c.1), (λ x. sym (same p x c.0) ∙ c.2 x)) in
                  ground (arith, now, c.1)),
            )),
            ground (arith, b.heap.1),
          ),
        ) in
        let cleared_all : (p x : EventId)
            → left_to graph seen node [] p x ≡ left_of graph (node ∷ seen) p x =
          λ p x. ground (arith, e.beq_iff node x, e.beq_iff x node) in
        let (next, cleared, last) =
          clear_edges-InStep graph key_fn keyed seen node fresh parents outdegree_map heap once
            parents_are step in
        (
          next,
          rw (found, clear_parents) cleared,
          record {
            outs = λ p is_p.
                let (out, at, outs) = last.0 p is_p in
                (out, at, (λ x. ground (arith, outs x, cleared_all p x)));
            heap = (
              (λ p. (
                (λ c.
                    let now = (last.1.0 p).0 c in
                    (now.0, now.1, (λ x. sym (cleared_all p x) ∙ now.2 x))),
                (λ c. (last.1.0 p).1 (c.0, c.1, (λ x. cleared_all p x ∙ c.2 x))),
              )),
              last.1.1,
            );
            closed = λ p c x edge. elim (Bool-cases (node == p)) [
              | inl q ↦
                  let at : p ≡ node = ground (arith, e.beq_iff node p) in
                  let from : is_edge graph node x ≡ true =
                    subst (λ (y : EventId). is_edge graph y x ≡ true) at edge in
                  ground (arith, taken.2 x)
              | inr q ↦ ground (arith, b.closed p (ground arith) x edge)
            ];
          },
        )
