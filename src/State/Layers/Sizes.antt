-- ===== src/State/Layers/Sizes.antt =====
-- The sizes of the differences, and that saving does not overflow while they are small.
use cinquain.Prelude.{
  ℕ, suc, ◌+◌, ◌*◌, ◌≤◌, ◌<◌, ◌≡◌, Bool, none, some, List, [], ◌∷◌, Eq, contains, insert_new,
  remove, length, arith, Bool-cases, inl, inr, ltb, leb, keep,
}
use cinquain.Core.Errors.{good}
use cinquain.Core.Words.{u64_end, checked}
use cinquain.State.Layers.Stored.{full_of}
use cinquain.State.Layers.{
  difference, save_state, ShortStateInfo, Statediffs, merge_removed, merge_added, merge, is_too_big,
  save_statediff, save_state_from_diff,
}

mul_le : (a b c d : ℕ) → a ≤ b → c ≤ d → a * c ≤ b * d
mul_le a b c d p q =
    let first : a * c ≤ b * c = grind arith in
    let second : b * c ≤ b * d = grind arith in omega arith

checked-good : (n : ℕ) → n < u64_end → checked n ≡ good n
unfolding checked
checked-good n l = ground arith

module _ {E : Type 0} ⦃e : Eq E⦄ where
  -- The number of elements of a difference and of the layers that it stands on.
  abbrev pub sizes : List (ShortStateInfo E) → ℕ
  sizes [] = 0
  sizes (layer ∷ rest) = (length layer.added + length layer.removed) + sizes rest

  length-remove : (x : E) (xs : List E) → length (remove x xs) ≤ length xs
  unfolding remove
  length-remove x [] = omega arith
  length-remove x (y ∷ xs) = ground (arith, length-remove x xs)

  length-insert_new : (x : E) (xs : List E) → length (insert_new x xs) ≤ suc (length xs)
  unfolding insert_new
  length-insert_new x xs = ground arith

  abbrev size : List E × List E → ℕ
  size p = length p.0 + length p.1

  merge_removed-size :
      (removed new old : List E)
      → size (merge_removed removed new old) ≤ length removed + size (new, old)
  unfolding merge_removed
  merge_removed-size [] new old = omega arith
  merge_removed-size (x ∷ removed) new old = elim (Bool-cases (contains new x)) [
    | inl q ↦
        rw (merge_removed, q)
          (omega (arith, merge_removed-size removed (remove x new) old, length-remove x new))
    | inr q ↦
        rw (merge_removed, q)
          (omega
            (arith, merge_removed-size removed new (insert_new x old), length-insert_new x old))
  ]

  merge_added-size :
      (added new old : List E) → size (merge_added added new old) ≤ length added + size (new, old)
  unfolding merge_added
  merge_added-size [] new old = omega arith
  merge_added-size (x ∷ added) new old = elim (Bool-cases (contains old x)) [
    | inl q ↦
        rw (merge_added, q)
          (omega (arith, merge_added-size added new (remove x old), length-remove x old))
    | inr q ↦
        rw (merge_added, q)
          (omega (arith, merge_added-size added (insert_new x new) old, length-insert_new x new))
  ]

  merge-size :
      (new old : List E) (parent : ShortStateInfo E)
      → size (merge new old parent)
        ≤ (length new + length old) + (length parent.added + length parent.removed)
  unfolding merge
  merge-size new old parent =
      let m = merge_removed old parent.added parent.removed in
      omega
        (arith, merge_added-size new m.0 m.1, merge_removed-size old parent.added parent.removed)

  is_too_big-returns :
      (diffsum diff_to_sibling : ℕ) (parent : ShortStateInfo E)
      → diffsum < 2147483648
      → diff_to_sibling < 2147483648
      → length parent.added + length parent.removed < 2147483648
      → (too_big : Bool) × (is_too_big diffsum diff_to_sibling parent ≡ good too_big)
  unfolding is_too_big checked
  is_too_big-returns diffsum diff_to_sibling parent a b c =
      let parent_diff = length parent.added + length parent.removed in
      let square = mul_le diffsum 2147483648 diffsum 2147483648 (omega arith) (omega arith) in
      let product =
        mul_le (2 * diff_to_sibling) 4294967296 parent_diff 2147483648 (omega arith)
          (omega arith) in
      let too_big = leb ((2 * diff_to_sibling) * parent_diff) (diffsum * diffsum) in
      (too_big, ground arith)

  -- Saving returns while all the differences together are below 2 ^ 31.
  pub save_state_from_diff-returns :
      (db : Statediffs E) (h : ℕ) (new old : List E) (diff_to_sibling : ℕ)
      (parents : List (ShortStateInfo E))
      → (length new + length old) + sizes parents < 2147483648
      → diff_to_sibling < 2147483648
      → (db' : Statediffs E) × (save_state_from_diff db h new old diff_to_sibling parents
          ≡ good db')
  unfolding save_state_from_diff
  save_state_from_diff-returns db h new old diff_to_sibling [] s d = (
    save_statediff h (record { parent = none; added = new; removed = old }) db,
    ground (arith, checked-good (length new + length old) (omega arith)),
  )
  save_state_from_diff-returns db h new old diff_to_sibling (parent ∷ parents) s d =
      let diffsum = length new + length old in
      let fits = checked-good diffsum (omega arith) in
      let m = merge new old parent in
      let (deep_db, deep_q) =
        save_state_from_diff-returns db h m.0 m.1 diffsum parents
          (omega (arith, merge-size new old parent)) (omega arith) in
      elim (Bool-cases (ltb 3 (length (parent ∷ parents)))) [
        | inl q ↦ (deep_db, ground arith)
        | inr q ↦
            let (too_big, b) =
              is_too_big-returns diffsum diff_to_sibling parent (omega arith) d (omega arith) in
            elim (Bool-cases too_big) [
              | inl t ↦ (deep_db, ground arith)
              | inr t ↦ (
                save_statediff h
                    (record { parent = some parent.shortstatehash; added = new; removed = old }) db,
                ground arith,
              )
            ]
      ]

  length-difference : (xs ys : List E) → length (difference xs ys) ≤ length xs
  unfolding difference keep
  length-difference [] ys = omega arith
  length-difference (x ∷ xs) ys = ground (arith, length-difference xs ys)

  pub save_state-returns :
      (db : Statediffs E) (h : ℕ) (new_state : List E) (parents : List (ShortStateInfo E))
      → (length new_state + length (full_of parents)) + sizes parents < 2147483648
      → (db' : Statediffs E) × (save_state db h new_state parents ≡ good db')
  unfolding save_state
  save_state-returns db h new_state [] s =
      save_state_from_diff-returns db h new_state [] 2 [] (omega arith) (omega arith)
  save_state-returns db h new_state (parent ∷ parents) s =
      save_state_from_diff-returns db h (difference new_state parent.full_state)
        (difference parent.full_state new_state) 2 (parent ∷ parents)
        (omega (
          arith,
          length-difference new_state parent.full_state,
          length-difference parent.full_state new_state,
        ))
        (omega arith)
