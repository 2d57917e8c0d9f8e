-- ===== src/State/Layers/Stored.antt =====
-- Stacks of layers as the table holds them, and that saving a difference keeps the full state.
use cinquain.Prelude.{
  ℕ, ◌≤◌, ◌≡◌, refl, ap, ◌∙◌, true, false, not, ◌&&◌, ◌||◌, Option, none, some, List, [], ◌∷◌,
  nat_eq, Eq, contains, distinct, length, arith,
}
use cinquain.Prelude.Map
use cinquain.State.Layers.{
  StateDiff, ShortStateInfo, Statediffs, extend_state, remove_all, merge, save_statediff,
}
use cinquain.State.Layers.Sets.{
  contains-extend_state, contains-remove_all, merge-new, merge-old, merge-distinct,
}

module _ {E : Type 0} ⦃e : Eq E⦄ where
  -- The state of a stack, and the hash that a layer on it names as its parent.
  abbrev pub full_of : List (ShortStateInfo E) → List E
  full_of [] = []
  full_of (top ∷ rest) = top.full_state

  abbrev pub parent_of : List (ShortStateInfo E) → Option ℕ
  parent_of [] = none
  parent_of (top ∷ rest) = some top.shortstatehash

  abbrev pub full_with : List (ShortStateInfo E) → List E → List E → List E
  full_with [] added removed = added
  full_with (top ∷ rest) added removed = remove_all (extend_state top.full_state added) removed

  -- A difference that adds only what is not there, and removes only what is.
  pub record Tight (below added removed : List E) : Type 0 where
    pub is_new : (a : E) → contains added a ≡ true → contains below a ≡ false
    pub is_old : (a : E) → contains removed a ≡ true → contains below a ≡ true
    pub once_added : distinct added ≡ true
    pub once_removed : distinct removed ≡ true

  -- The table holds each layer of the stack, as a tight difference to the layers below.
  abbrev pub Stored : Statediffs E → List (ShortStateInfo E) → Type 0
  Stored db [] = Unit
  Stored db (layer ∷ rest) =
      (Map.get layer.shortstatehash db
        ≡ some (record { parent = parent_of rest; added = layer.added; removed = layer.removed }))
      × (layer.full_state ≡ full_with rest layer.added layer.removed)
      × Tight (full_of rest) layer.added layer.removed
      × Stored db rest

  pub contains-full_with :
      (rest : List (ShortStateInfo E)) (added removed : List E) (a : E)
      → Tight (full_of rest) added removed
      → contains (full_with rest added removed) a
        ≡ ((contains (full_of rest) a || contains added a) && not (contains removed a))
  unfolding contains
  contains-full_with [] added removed a t = ground (arith, t.is_old a)
  contains-full_with (top ∷ rest) added removed a t = ground (
    arith,
    contains-remove_all (extend_state top.full_state added) removed a,
    contains-extend_state top.full_state added a,
  )

  Stored-save_statediff :
      (db : Statediffs E) (h : ℕ) (diff : StateDiff E) (stack : List (ShortStateInfo E))
      → Map.get h db ≡ none
      → Stored db stack
      → Stored (save_statediff h diff db) stack
  unfolding save_statediff
  Stored-save_statediff db h diff [] n s = tt
  Stored-save_statediff db h diff (layer ∷ rest) n (g, f, t, s) = (
    ground (
      arith,
      Map.get-insert h layer.shortstatehash diff db,
      nat_eq.beq_iff h layer.shortstatehash,
    ),
    f,
    t,
    Stored-save_statediff db h diff rest n s,
  )

  -- What saving a difference has come to: a stored stack of at most four layers whose top has the
  -- hash, and the state that the difference makes of the state below.
  pub record Saved (db : Statediffs E) (h : ℕ) (below added removed : List E) : Type 0 where
    pub layer : ShortStateInfo E
    pub rest : List (ShortStateInfo E)
    pub stored : Stored db (layer ∷ rest)
    pub has_hash : layer.shortstatehash ≡ h
    pub full :
        (a : E)
        → contains layer.full_state a
          ≡ ((contains below a || contains added a) && not (contains removed a))
    pub is_shallow : length rest ≤ 3

  get-save_statediff :
      (db : Statediffs E) (h : ℕ) (diff : StateDiff E)
      → Map.get h (save_statediff h diff db) ≡ some diff
  unfolding save_statediff
  get-save_statediff db h diff = ground (arith, Map.get-insert h h diff db, nat_eq.beq_iff h h)

  pub Saved-save_statediff :
      (db : Statediffs E) (h : ℕ) (added removed : List E) (stack : List (ShortStateInfo E))
      → Map.get h db ≡ none
      → Stored db stack
      → Tight (full_of stack) added removed
      → length stack ≤ 3
      → Saved
          (save_statediff h
            (record { parent = parent_of stack; added = added; removed = removed })
            db)
          h
          (full_of stack)
          added
          removed
  Saved-save_statediff db h added removed stack n s t l = record {
    layer = record {
      shortstatehash = h;
      full_state = full_with stack added removed;
      added = added;
      removed = removed;
    };
    rest = stack;
    stored = (
      get-save_statediff db h
          (record { parent = parent_of stack; added = added; removed = removed }),
      refl,
      t,
      Stored-save_statediff db h
          (record { parent = parent_of stack; added = added; removed = removed }) stack n s,
    );
    has_hash = refl;
    full = λ a. contains-full_with stack added removed a t;
    is_shallow = l;
  }

  -- Merging a difference into the layer that it stands on gives a tight difference to what is below
  -- that layer, which makes the same state.
  pub merge-Tight :
      (new old : List E) (parent : ShortStateInfo E) (rest : List (ShortStateInfo E))
      → parent.full_state ≡ full_with rest parent.added parent.removed
      → Tight (full_of rest) parent.added parent.removed
      → Tight parent.full_state new old
      → Tight (full_of rest) (merge new old parent).0 (merge new old parent).1
  merge-Tight new old parent rest f t s =
      let (d, d') = merge-distinct new old parent (t.once_added, t.once_removed) in
      let P = λ (a : E).
        ap (λ (xs : List E). contains xs a) f
        ∙ contains-full_with rest parent.added parent.removed a t in
      record {
        is_new = λ a k. ground (
          arith,
          P a,
          merge-new new old parent a s.once_added s.once_removed,
          t.is_new a,
          t.is_old a,
          s.is_new a,
          s.is_old a,
        );
        is_old = λ a k. ground (
          arith,
          P a,
          merge-old new old parent a s.once_removed,
          t.is_new a,
          t.is_old a,
          s.is_new a,
          s.is_old a,
        );
        once_added = d;
        once_removed = d';
      }

  pub merge-full :
      (new old : List E) (parent : ShortStateInfo E) (rest : List (ShortStateInfo E)) (a : E)
      → parent.full_state ≡ full_with rest parent.added parent.removed
      → Tight (full_of rest) parent.added parent.removed
      → Tight parent.full_state new old
      → ((contains (full_of rest) a || contains (merge new old parent).0 a)
          && not (contains (merge new old parent).1 a))
        ≡ ((contains parent.full_state a || contains new a) && not (contains old a))
  merge-full new old parent rest a f t s =
      let p =
        ap (λ (xs : List E). contains xs a) f
        ∙ contains-full_with rest parent.added parent.removed a t in
      ground (
        arith,
        p,
        merge-new new old parent a s.once_added s.once_removed,
        merge-old new old parent a s.once_removed,
        t.is_new a,
        t.is_old a,
        s.is_new a,
        s.is_old a,
      )
