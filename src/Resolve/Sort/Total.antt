-- ===== src/Resolve/Sort/Total.antt =====
-- The topological sort of a closed graph without cycles returns all of its nodes, each once.
use cinquain.Prelude.{
  ℕ, suc, ◌≡◌, ◌↔◌, refl, true, false, Option, none, some, List, [], ◌∷◌, Eq, ℤ, contains, arith,
  distinct, beq_refl, Option-cases, Bool-cases, inl, inr, length, keep,
}
use cinquain.Prelude.Order.{Ord}
use cinquain.Prelude.Map
use cinquain.Matrix.{Result}
use cinquain.Resolve.Runs.{done}
use cinquain.Resolve.Sort.{TieBreaker, lexicographical_topological_sort}
use cinquain.Resolve.Sort.Rounds.{is_among, is_node, is_edge, HasKeys}
use cinquain.Resolve.Sort.Order.{Follows, lexicographical_topological_sort-Follows}
use cinquain.Resolve.Sort.Prepared.{IsPrepared, prepare-IsPrepared, is_some, is_zero}
use cinquain.Resolve.Sort.Between.{Reverses, Between}
use cinquain.Resolve.Sort.Drained.{IsRanked, unseen, drain-returns}

length-unseen_nil :
    {EventId : Type 0} ⦃e : Eq EventId⦄ (graph rest : List (EventId × List EventId))
    → length (unseen graph [] (Map.keys rest)) ≡ length rest
unfolding keep contains
length-unseen_nil graph [] = refl
length-unseen_nil graph ((node, es) ∷ rest) = omega (arith, length-unseen_nil graph rest)

module _ {EventId : Type 0} ⦃e : Eq EventId⦄ (graph : List (EventId × List EventId)) where
  node-of_edge : (p x : EventId) → is_edge graph p x ≡ true → is_node graph p ≡ true
  node-of_edge p x h = elim (Bool-cases (is_node graph p)) [
    | inl q ↦ q
    | inr q ↦ absurd (ground (arith, Map.get-of_not_key p graph q))
  ]

  node-of_zero : (p : EventId) → is_zero (Map.get p graph) ≡ true → is_node graph p ≡ true
  node-of_zero p h = elim (Bool-cases (is_node graph p)) [
    | inl q ↦ q
    | inr q ↦ absurd (ground (arith, Map.get-of_not_key p graph q))
  ]

  zero_iff :
      (found : Option (List EventId))
      → is_some found ≡ true
      → (is_zero found ≡ true) ↔ ((x : EventId) → is_among found x ≡ false)
  unfolding contains
  zero_iff none h = cc
  zero_iff (some []) h = ((λ z x. refl), (λ a. refl))
  zero_iff (some (x ∷ es)) h = ((λ z. cc), (λ a. absurd (ground (arith, a x, beq_refl x))))

  some-of_key :
      (rest : List (EventId × List EventId)) (p : EventId)
      → contains (Map.keys rest) p ≡ true
      → is_some (Map.get p rest) ≡ true
  unfolding contains Map.get
  some-of_key [] p h = cc
  some-of_key ((node, es) ∷ rest) p h = ground (arith, some-of_key rest p)

  start-Reverses :
      (heap : List (TieBreaker EventId))
      (start : List (EventId × List EventId) × List (TieBreaker EventId))
      → IsPrepared graph [] heap start
      → Reverses graph start.0
  unfolding Map.get
  start-Reverses heap start s x is_x = elim (Option-cases (Map.get x start.0)) [
    | inl none_there ↦ absurd (ground (arith, s.touched x is_x))
    | inr (parents, found) ↦ (
      parents,
      found,
      s.parents x parents found,
      (λ p. ground (arith, found, s.among x p, node-of_edge p x)),
    )
  ]

  start-Between :
      (start : List (EventId × List EventId) × List (TieBreaker EventId))
      → IsPrepared graph [] [] start
      → Between graph [] (graph, start.1)
  unfolding contains
  start-Between start s = record {
    outs = λ p is_p. elim (Option-cases (Map.get p graph)) [
      | inl none_there ↦ absurd (ground (arith, some-of_key graph p is_p))
      | inr (out, found) ↦ (out, found, (λ x. ground (arith, found)))
    ];
    heap = (
      (λ p. (
        (λ c.
            let zero_p : is_zero (Map.get p graph) ≡ true = ground (arith, s.zero_nodes p) in
            let is_p = node-of_zero p zero_p in
            let none_left = (zero_iff (Map.get p graph) (some-of_key graph p is_p)).0 zero_p in
            (is_p, refl, (λ x. ground (arith, none_left x)))),
        (λ c.
            let zero_p =
              (zero_iff (Map.get p graph) (some-of_key graph p c.0)).1
                (λ x. ground (arith, c.2 x)) in
            ground (arith, s.zero_nodes p)),
      )),
      s.once,
    );
    closed = λ p c. cc;
  }

-- Where a graph lists no node twice, all its nodes have keys, and its edges lead to nodes of lower
-- rank, the sort returns the nodes, each once, and each behind all nodes that its edges lead to.
pub lexicographical_topological_sort-returns :
    {EventId : Type 0} ⦃e : Eq EventId⦄ ⦃o : Ord EventId⦄ (graph : List (EventId × List EventId))
    (key_fn : EventId → Result (ℤ × ℕ)) (rank : EventId → ℕ)
    → distinct (Map.keys graph) ≡ true
    → HasKeys graph key_fn
    → IsRanked graph rank
    → (sorted : List EventId) × (lexicographical_topological_sort graph key_fn ≡ done sorted)
      × ((x : EventId) → contains sorted x ≡ contains (Map.keys graph) x)
      × (distinct sorted ≡ true)
      × Follows graph [] sorted
unfolding lexicographical_topological_sort distinct contains Map.get
lexicographical_topological_sort-returns graph key_fn rank d keyed ranked =
    let (start, prepared, s) =
      prepare-IsPrepared key_fn graph [] [] d keyed (λ p c. refl) refl (λ x parents h. cc) in
    let (sorted, drained, sorts, once) =
      drain-returns graph start.0 key_fn keyed (start-Reverses graph [] start s) rank ranked
        (suc (length graph)) [] graph start.1 (omega (arith, length-unseen_nil graph graph))
        (start-Between graph start s) in
    let returned : lexicographical_topological_sort graph key_fn ≡ done sorted =
      rw (prepared, lexicographical_topological_sort) drained in
    (
      sorted,
      returned,
      (λ x. ground (arith, sorts x)),
      once,
      lexicographical_topological_sort-Follows graph key_fn sorted d returned,
    )
