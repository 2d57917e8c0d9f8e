-- ===== src/Resolve/Sort/Prepared.antt =====
-- What the loop over the graph prepares: the reverse graph, and the nodes without edges.
use cinquain.Prelude.{
  ℕ, ◌≡◌, refl, Bool, true, false, ◌&&◌, ◌||◌, Option, none, some, List, [], ◌∷◌, ◌==◌, Eq, ℤ,
  contains, arith, distinct, beq_refl, Option-cases, Bool-cases, inl, inr, insert_new,
  contains-insert_new, distinct-insert_new,
}
use cinquain.Prelude.Map
use cinquain.Matrix.{Result, ok}
use cinquain.Resolve.Runs.{done}
use cinquain.Resolve.Sort.{TieBreaker, tie_breaker, prepare, add_parent, add_edges, touch}
use cinquain.Resolve.Sort.Rounds.{ids, is_among}

abbrev pub is_some {ℓ} : {A : Type ℓ} → Option A → Bool
is_some none = false
is_some (some a) = true

abbrev pub is_zero : {EventId : Type 0} → Option (List EventId) → Bool
is_zero none = false
is_zero (some []) = true
is_zero (some (x ∷ es)) = false

module _ {EventId : Type 0} ⦃e : Eq EventId⦄ where
  -- Every entry lists each parent once.
  abbrev pub AreOnce : List (EventId × List EventId) → Type 0
  AreOnce m =
      (x : EventId) (parents : List EventId) → Map.get x m ≡ some parents → distinct parents ≡ true

  module _ (node edge : EventId) (m : List (EventId × List EventId)) where
    add_parent-among :
        (x p : EventId)
        → is_among (Map.get x (add_parent node edge m)) p
          ≡ (is_among (Map.get x m) p || edge == x && node == p)
    unfolding add_parent contains
    add_parent-among x p = elim (Option-cases (Map.get edge m)) [
      | inl a ↦
          rw (a, add_parent)
            (ground (arith, a, Map.get-insert edge x (node ∷ []) m, e.beq_iff edge x))
      | inr (parents, a) ↦
          rw (a, add_parent)
            (ground (
              arith,
              a,
              Map.get-insert edge x (insert_new node parents) m,
              contains-insert_new node p parents,
              e.beq_iff edge x,
            ))
    ]

    add_parent-some :
        (x : EventId)
        → is_some (Map.get x m) ≡ true
        → is_some (Map.get x (add_parent node edge m)) ≡ true
    unfolding add_parent
    add_parent-some x h = elim (Option-cases (Map.get edge m)) [
      | inl a ↦ rw (a, add_parent) (ground (arith, Map.get-insert edge x (node ∷ []) m))
      | inr (parents, a) ↦
          rw (a, add_parent) (ground (arith, Map.get-insert edge x (insert_new node parents) m))
    ]

    add_parent-AreOnce : AreOnce m → AreOnce (add_parent node edge m)
    unfolding add_parent distinct contains
    add_parent-AreOnce once x ps h = elim (Option-cases (Map.get edge m)) [
      | inl a ↦
          let g = rw (a, add_parent) at h in
          ground (arith, once x ps, g, Map.get-insert edge x (node ∷ []) m)
      | inr (parents, a) ↦
          let g = rw (a, add_parent) at h in
          ground (
            arith,
            once x ps,
            g,
            distinct-insert_new node parents (once edge parents a),
            Map.get-insert edge x (insert_new node parents) m,
          )
    ]

  module _ (node : EventId) where
    add_edges-among :
        (edges : List EventId) (m : List (EventId × List EventId)) (x p : EventId)
        → is_among (Map.get x (add_edges node edges m)) p
          ≡ (is_among (Map.get x m) p || contains edges x && node == p)
    unfolding add_edges contains
    add_edges-among [] m x p = ground arith
    add_edges-among (edge ∷ edges) m x p = ground (
      arith,
      add_edges-among edges (add_parent node edge m) x p,
      add_parent-among node edge m x p,
    )

    add_edges-some :
        (edges : List EventId) (m : List (EventId × List EventId)) (x : EventId)
        → is_some (Map.get x m) ≡ true
        → is_some (Map.get x (add_edges node edges m)) ≡ true
    unfolding add_edges
    add_edges-some [] m x h = h
    add_edges-some (edge ∷ edges) m x h =
        add_edges-some edges (add_parent node edge m) x (add_parent-some node edge m x h)

    add_edges-AreOnce :
        (edges : List EventId) (m : List (EventId × List EventId))
        → AreOnce m
        → AreOnce (add_edges node edges m)
    unfolding add_edges
    add_edges-AreOnce [] m h = h
    add_edges-AreOnce (edge ∷ edges) m h =
        add_edges-AreOnce edges (add_parent node edge m) (add_parent-AreOnce node edge m h)

    module _ (m : List (EventId × List EventId)) where
      touch-among :
          (x p : EventId) → is_among (Map.get x (touch node m)) p ≡ is_among (Map.get x m) p
      unfolding touch contains
      touch-among x p = elim (Option-cases (Map.get node m)) [
        | inl a ↦ rw (a, touch) (ground (arith, a, Map.get-insert node x [] m, e.beq_iff node x))
        | inr (parents, a) ↦ rw (a, touch) refl
      ]

      touch-some :
          (x : EventId)
          → (is_some (Map.get x m) || node == x) ≡ true
          → is_some (Map.get x (touch node m)) ≡ true
      unfolding touch
      touch-some x h = elim (Option-cases (Map.get node m)) [
        | inl a ↦ rw (a, touch) (ground (arith, a, Map.get-insert node x [] m))
        | inr (parents, a) ↦ rw (a, touch) (ground (arith, a, e.beq_iff node x))
      ]

      touch-AreOnce : AreOnce m → AreOnce (touch node m)
      unfolding touch distinct
      touch-AreOnce once x ps h = elim (Option-cases (Map.get node m)) [
        | inl a ↦
            let g = rw (a, touch) at h in ground (arith, once x ps, g, Map.get-insert node x [] m)
        | inr (parents, a) ↦ let g = rw (a, touch) at h in once x ps g
      ]

  -- What `prepare` adds for the rest of the graph.
  pub record IsPrepared (rest reverse_graph : List (EventId × List EventId))
      (heap : List (TieBreaker EventId))
      (start : List (EventId × List EventId) × List (TieBreaker EventId)) : Type 0 where
    pub among :
        (x p : EventId)
        → is_among (Map.get x start.0) p
          ≡ (is_among (Map.get x reverse_graph) p || is_among (Map.get p rest) x)
    pub touched :
        (x : EventId)
        → (is_some (Map.get x reverse_graph) || contains (Map.keys rest) x) ≡ true
        → is_some (Map.get x start.0) ≡ true
    pub parents : AreOnce start.0
    pub zero_nodes :
        (p : EventId)
        → contains (ids start.1) p ≡ (contains (ids heap) p || is_zero (Map.get p rest))
    pub once : distinct (ids start.1) ≡ true

  module _ (key_fn : EventId → Result (ℤ × ℕ)) where
    pub prepare-IsPrepared :
        (rest reverse_graph : List (EventId × List EventId)) (heap : List (TieBreaker EventId))
        → distinct (Map.keys rest) ≡ true
        → ((p : EventId) → contains (Map.keys rest) p ≡ true → (key : ℤ × ℕ) × (key_fn p ≡ ok key))
        → ((p : EventId) → contains (Map.keys rest) p ≡ true → contains (ids heap) p ≡ false)
        → distinct (ids heap) ≡ true
        → AreOnce reverse_graph
        → (start : List (EventId × List EventId) × List (TieBreaker EventId)) × (prepare key_fn rest
              reverse_graph heap
            ≡ done start)
          × IsPrepared rest reverse_graph heap start
    unfolding prepare tie_breaker distinct contains Map.get
    prepare-IsPrepared [] reverse_graph heap d keyed apart dh once = (
      (reverse_graph, heap),
      refl,
      record {
        among = λ x p. ground arith;
        touched = λ x h. ground arith;
        parents = once;
        zero_nodes = λ p. ground arith;
        once = dh;
      },
    )
    prepare-IsPrepared ((node, []) ∷ rest) reverse_graph heap d keyed apart dh once =
        let (key, k) = keyed node (ground (arith, beq_refl node)) in
        let item : TieBreaker EventId = record {
          power_level = key.0;
          origin_server_ts = key.1;
          event_id = node;
        } in
        let (start, prepared, later) =
          prepare-IsPrepared rest (touch node reverse_graph) (item ∷ heap) (ground arith)
            (λ p c. keyed p (ground arith)) (λ p c. ground (arith, apart p, e.beq_iff node p))
            (ground (arith, apart node, beq_refl node)) (touch-AreOnce node reverse_graph once) in
        let gone = Map.get-of_not_key node rest (ground arith) in
        (
          start,
          rw (k, prepare) prepared,
          record {
            among = λ x p. ground (
              arith,
              later.among x p,
              touch-among node reverse_graph x p,
              e.beq_iff node p,
              gone,
            );
            touched = λ x h. later.touched x (ground (arith, touch-some node reverse_graph x));
            parents = later.parents;
            zero_nodes = λ p. ground (arith, later.zero_nodes p, e.beq_iff node p, gone);
            once = later.once;
          },
        )
    prepare-IsPrepared ((node, edge ∷ edges) ∷ rest) reverse_graph heap d keyed apart dh once =
        let touched = touch node reverse_graph in
        let added = add_edges node (edge ∷ edges) touched in
        let (start, prepared, later) =
          prepare-IsPrepared rest added heap (ground arith) (λ p c. keyed p (ground arith))
            (λ p c. apart p (ground arith)) dh
            (add_edges-AreOnce node (edge ∷ edges) touched
              (touch-AreOnce node reverse_graph once)) in
        let gone = Map.get-of_not_key node rest (ground arith) in
        (
          start,
          prepared,
          record {
            among = λ x p. ground (
              arith,
              later.among x p,
              add_edges-among node (edge ∷ edges) touched x p,
              touch-among node reverse_graph x p,
              e.beq_iff node p,
              gone,
            );
            touched = λ x h. elim (Bool-cases (contains (Map.keys rest) x)) [
              | inl c ↦ later.touched x (ground arith)
              | inr c ↦
                  let held : is_some (Map.get x touched) ≡ true =
                    touch-some node reverse_graph x (ground arith) in
                  let kept = add_edges-some node (edge ∷ edges) touched x held in
                  later.touched x (ground arith)
            ];
            parents = later.parents;
            zero_nodes = λ p. ground (arith, later.zero_nodes p, e.beq_iff node p, gone);
            once = later.once;
          },
        )
