-- ===== src/State/Layers/Sets.antt =====
-- The elements of the sets that the layers are computed with.
use cinquain.Prelude.{
  ◌≡◌, refl, true, not, ◌&&◌, ◌||◌, List, [], ◌∷◌, Eq, contains, insert_new, remove, keep, distinct,
  contains-insert_new, contains-remove, arith, Bool-cases, inl, inr,
}
use cinquain.State.Layers.{
  ShortStateInfo, extend_state, remove_all, merge_removed, merge_added, merge, difference,
}

module _ {E : Type 0} ⦃e : Eq E⦄ where
  pub contains-extend_state :
      (full added : List E) (a : E)
      → contains (extend_state full added) a ≡ (contains full a || contains added a)
  unfolding extend_state contains
  contains-extend_state full [] a = ground arith
  contains-extend_state full (x ∷ added) a =
      ground
        (arith, contains-extend_state (insert_new x full) added a, contains-insert_new x a full)

  pub contains-remove_all :
      (full removed : List E) (a : E)
      → contains (remove_all full removed) a ≡ (contains full a && not (contains removed a))
  unfolding remove_all contains
  contains-remove_all full [] a = ground arith
  contains-remove_all full (x ∷ removed) a =
      ground (arith, contains-remove_all (remove x full) removed a, contains-remove x a full)

  pub distinct-remove : (x : E) (xs : List E) → distinct xs ≡ true → distinct (remove x xs) ≡ true
  unfolding distinct remove
  distinct-remove x [] d = refl
  distinct-remove x (y ∷ xs) d = ground (arith, distinct-remove x xs, contains-remove x y xs)

  pub distinct-insert_new :
      (x : E) (xs : List E) → distinct xs ≡ true → distinct (insert_new x xs) ≡ true
  unfolding distinct insert_new
  distinct-insert_new x xs d = ground arith

  -- What the merge of two differences holds.
  pub merge_removed-new :
      (removed new old : List E) (a : E)
      → contains (merge_removed removed new old).0 a ≡ (contains new a && not (contains removed a))
  unfolding merge_removed contains
  merge_removed-new [] new old a = ground arith
  merge_removed-new (x ∷ removed) new old a = elim (Bool-cases (contains new x)) [
    | inl q ↦
        rw (merge_removed, q)
          (ground (arith, merge_removed-new removed (remove x new) old a, contains-remove x a new))
    | inr q ↦
        rw (merge_removed, q)
          (ground (arith, merge_removed-new removed new (insert_new x old) a, e.beq_iff x a))
  ]

  pub merge_removed-old :
      (removed new old : List E) (a : E)
      → distinct removed ≡ true
      → contains (merge_removed removed new old).1 a
        ≡ (contains old a || (contains removed a && not (contains new a)))
  unfolding merge_removed contains distinct
  merge_removed-old [] new old a d = ground arith
  merge_removed-old (x ∷ removed) new old a d = elim (Bool-cases (contains new x)) [
    | inl q ↦
        rw (merge_removed, q)
          (ground (
            arith,
            merge_removed-old removed (remove x new) old a,
            contains-remove x a new,
            e.beq_iff x a,
          ))
    | inr q ↦
        rw (merge_removed, q)
          (ground (
            arith,
            merge_removed-old removed new (insert_new x old) a,
            contains-insert_new x a old,
            e.beq_iff x a,
          ))
  ]

  pub merge_added-old :
      (added new old : List E) (a : E)
      → contains (merge_added added new old).1 a ≡ (contains old a && not (contains added a))
  unfolding merge_added contains
  merge_added-old [] new old a = ground arith
  merge_added-old (x ∷ added) new old a = elim (Bool-cases (contains old x)) [
    | inl q ↦
        rw (merge_added, q)
          (ground (arith, merge_added-old added new (remove x old) a, contains-remove x a old))
    | inr q ↦
        rw (merge_added, q)
          (ground (arith, merge_added-old added (insert_new x new) old a, e.beq_iff x a))
  ]

  pub merge_added-new :
      (added new old : List E) (a : E)
      → distinct added ≡ true
      → contains (merge_added added new old).0 a
        ≡ (contains new a || (contains added a && not (contains old a)))
  unfolding merge_added contains distinct
  merge_added-new [] new old a d = ground arith
  merge_added-new (x ∷ added) new old a d = elim (Bool-cases (contains old x)) [
    | inl q ↦
        rw (merge_added, q)
          (ground (
            arith,
            merge_added-new added new (remove x old) a,
            contains-remove x a old,
            e.beq_iff x a,
          ))
    | inr q ↦
        rw (merge_added, q)
          (ground (
            arith,
            merge_added-new added (insert_new x new) old a,
            contains-insert_new x a new,
            e.beq_iff x a,
          ))
  ]

  -- Both sets of a pair hold nothing twice.
  abbrev pub AreDistinct : List E × List E → Type 0
  AreDistinct p = (distinct p.0 ≡ true) × (distinct p.1 ≡ true)

  merge_removed-distinct :
      (removed new old : List E)
      → AreDistinct (new, old)
      → AreDistinct (merge_removed removed new old)
  unfolding merge_removed
  merge_removed-distinct [] new old d = d
  merge_removed-distinct (x ∷ removed) new old d = elim (Bool-cases (contains new x)) [
    | inl q ↦
        rw (merge_removed, q)
          (merge_removed-distinct removed (remove x new) old (distinct-remove x new d.0, d.1))
    | inr q ↦
        rw (merge_removed, q)
          (merge_removed-distinct removed new (insert_new x old)
            (d.0, distinct-insert_new x old d.1))
  ]

  merge_added-distinct :
      (added new old : List E) → AreDistinct (new, old) → AreDistinct (merge_added added new old)
  unfolding merge_added
  merge_added-distinct [] new old d = d
  merge_added-distinct (x ∷ added) new old d = elim (Bool-cases (contains old x)) [
    | inl q ↦
        rw (merge_added, q)
          (merge_added-distinct added new (remove x old) (d.0, distinct-remove x old d.1))
    | inr q ↦
        rw (merge_added, q)
          (merge_added-distinct added (insert_new x new) old (distinct-insert_new x new d.0, d.1))
  ]

  pub merge-distinct :
      (new old : List E) (parent : ShortStateInfo E)
      → AreDistinct (parent.added, parent.removed)
      → AreDistinct (merge new old parent)
  unfolding merge
  merge-distinct new old parent d =
      merge_added-distinct new (merge_removed old parent.added parent.removed).0
        (merge_removed old parent.added parent.removed).1
        (merge_removed-distinct old parent.added parent.removed d)

  pub merge-new :
      (new old : List E) (parent : ShortStateInfo E) (a : E)
      → distinct new ≡ true
      → distinct old ≡ true
      → contains (merge new old parent).0 a ≡ (
          (contains parent.added a && not (contains old a))
          || (contains new a
              && not
                  (contains parent.removed a || (contains old a && not (contains parent.added a)))))
  unfolding merge
  merge-new new old parent a d k =
      let m = merge_removed old parent.added parent.removed in
      rw (
        merge_added-new new m.0 m.1 a d,
        merge_removed-new old parent.added parent.removed a,
        merge_removed-old old parent.added parent.removed a k,
      )

  pub merge-old :
      (new old : List E) (parent : ShortStateInfo E) (a : E)
      → distinct old ≡ true
      → contains (merge new old parent).1 a ≡ (
          (contains parent.removed a || (contains old a && not (contains parent.added a)))
          && not (contains new a))
  unfolding merge
  merge-old new old parent a k =
      let m = merge_removed old parent.added parent.removed in
      rw (merge_added-old new m.0 m.1 a, merge_removed-old old parent.added parent.removed a k)

  pub contains-difference :
      (xs ys : List E) (a : E)
      → contains (difference xs ys) a ≡ (contains xs a && not (contains ys a))
  unfolding difference keep contains
  contains-difference [] ys a = refl
  contains-difference (x ∷ xs) ys a = ground (arith, contains-difference xs ys a, e.beq_iff x a)

  pub distinct-difference :
      (xs ys : List E) → distinct xs ≡ true → distinct (difference xs ys) ≡ true
  unfolding difference keep distinct
  distinct-difference [] ys d = refl
  distinct-difference (x ∷ xs) ys d =
      ground (arith, distinct-difference xs ys, contains-difference xs ys x)
