-- ===== src/State/Layers/Saving.antt =====
-- What `save_state_from_diff` and `save_state` leave in the table, and what loading it returns.
use cinquain.Prelude.{
  ℕ, ◌+◌, ◌≤◌, ◌≡◌, refl, ◌∙◌, true, false, not, ◌&&◌, ◌||◌, none, some, List, [], ◌∷◌, nat_eq, Eq,
  contains, distinct, length, arith, Bool-cases, inl, inr, ltb,
}
use cinquain.Prelude.Map
use cinquain.Core.Errors.{good, Try-cases}
use mathlib.Core.Path.{subst}
use cinquain.Core.Words.{checked}
use cinquain.State.Layers.{
  ShortStateInfo, Statediffs, merge, save_statediff, is_too_big, save_state_from_diff, diffs_from,
  save_state,
}
use cinquain.State.Layers.Sets.{contains-difference, distinct-difference}
use cinquain.State.Layers.Stored.{
  full_of, Tight, Stored, Saved, Saved-save_statediff, merge-Tight, merge-full,
}

module _ {E : Type 0} ⦃e : Eq E⦄ where
  -- What merging has saved is what was to be saved.
  unmerge :
      (db : Statediffs E) {h : ℕ} (new old : List E) (parent : ShortStateInfo E)
      (rest : List (ShortStateInfo E))
      → Stored db (parent ∷ rest)
      → Tight parent.full_state new old
      → {db' : Statediffs E}
      → Saved db' h (full_of rest) (merge new old parent).0 (merge new old parent).1
      → Saved db' h parent.full_state new old
  unmerge db new old parent rest (g, f, t, s) tight saved = record {
    layer = saved.layer;
    rest = saved.rest;
    stored = saved.stored;
    has_hash = saved.has_hash;
    full = λ a. saved.full a ∙ merge-full new old parent rest a f t tight;
    is_shallow = saved.is_shallow;
  }

  -- Saving a tight difference to a stored stack under a hash that is not in use leaves a stored
  -- stack of at most four layers for that hash, whose state is the old one with the difference.
  pub save_state_from_diff-Saved :
      (db db' : Statediffs E) (h : ℕ) (new old : List E) (diff_to_sibling : ℕ)
      (parents : List (ShortStateInfo E))
      → Map.get h db ≡ none
      → Stored db parents
      → Tight (full_of parents) new old
      → save_state_from_diff db h new old diff_to_sibling parents ≡ good db'
      → Saved db' h (full_of parents) new old
  unfolding save_state_from_diff
  save_state_from_diff-Saved db db' h new old diff_to_sibling [] n s t r =
      elim (Try-cases (checked (length new + length old))) [
        | inr (x, c) ↦ absurd (ground arith)
        | inl (sum, c) ↦
            let at_end : save_statediff h (record { parent = none; added = new; removed = old }) db
                ≡ db' =
              ground arith in
            subst (λ d. Saved d h [] new old) at_end
              (Saved-save_statediff db h new old [] n s t (omega arith))
      ]
  save_state_from_diff-Saved db db' h new old diff_to_sibling (parent ∷ parents) n s t r =
      let (parent_new, parent_removed) = merge new old parent in
      let tight = merge-Tight new old parent parents s.1 s.2 t in
      elim (Try-cases (checked (length new + length old))) [
        | inr (x, c) ↦ absurd (ground arith)
        | inl (sum, c) ↦
            let deeper =
              λ (d : save_state_from_diff db h parent_new parent_removed sum parents ≡ good db').
                unmerge db new old parent parents s t (
                  save_state_from_diff-Saved db db' h parent_new parent_removed sum parents n s.3
                    tight d) in
            elim (Bool-cases (ltb 3 (length (parent ∷ parents)))) [
              | inl q ↦ deeper (ground arith)
              | inr q ↦ elim (Try-cases (is_too_big sum diff_to_sibling parent)) [
                | inr (x, b) ↦ absurd (ground arith)
                | inl (true, b) ↦ deeper (ground arith)
                | inl (false, b) ↦
                    let on_top : save_statediff h
                          (record {
                            parent = some parent.shortstatehash;
                            added = new;
                            removed = old;
                          })
                          db
                        ≡ db' =
                      ground arith in
                    subst (λ d. Saved d h parent.full_state new old) on_top
                      (Saved-save_statediff db h new old (parent ∷ parents) n s t (ground arith))
              ]
            ]
      ]

  difference-Tight :
      (parents : List (ShortStateInfo E)) (new_state : List E)
      → distinct new_state ≡ true
      → distinct (full_of parents) ≡ true
      → Tight (full_of parents) (diffs_from parents new_state).0 (diffs_from parents new_state).1
  unfolding contains distinct
  difference-Tight [] new_state d f = record {
    is_new = λ a k. refl;
    is_old = λ a k. k;
    once_added = d;
    once_removed = refl;
  }
  difference-Tight (parent ∷ parents) new_state d f = record {
    is_new = λ a k. ground (arith, contains-difference new_state parent.full_state a);
    is_old = λ a k. ground (arith, contains-difference parent.full_state new_state a);
    once_added = distinct-difference new_state parent.full_state d;
    once_removed = distinct-difference parent.full_state new_state f;
  }

  difference-full :
      (parents : List (ShortStateInfo E)) (new_state : List E) (a : E)
      → ((contains (full_of parents) a || contains (diffs_from parents new_state).0 a)
          && not (contains (diffs_from parents new_state).1 a))
        ≡ contains new_state a
  unfolding contains
  difference-full [] new_state a = ground arith
  difference-full (parent ∷ parents) new_state a = ground (
    arith,
    contains-difference new_state parent.full_state a,
    contains-difference parent.full_state new_state a,
  )

  -- What the table holds when a state has been saved under a hash: a stored stack of at most four
  -- layers whose top has that hash, and the events of the state.
  pub record IsSavedAs (db : Statediffs E) (h : ℕ) (state : List E) : Type 0 where
    pub layer : ShortStateInfo E
    pub rest : List (ShortStateInfo E)
    pub stored : Stored db (layer ∷ rest)
    pub has_hash : layer.shortstatehash ≡ h
    pub same_events : (a : E) → contains layer.full_state a ≡ contains state a
    pub is_shallow : length rest ≤ 3

  pub save_state_lem :
      (db db' : Statediffs E) (h : ℕ) (new_state : List E) (parents : List (ShortStateInfo E))
      → Map.get h db ≡ none
      → Stored db parents
      → distinct new_state ≡ true
      → distinct (full_of parents) ≡ true
      → save_state db h new_state parents ≡ good db'
      → IsSavedAs db' h new_state
  unfolding save_state
  save_state_lem db db' h new_state parents n s d f r =
      let saved =
        save_state_from_diff-Saved db db' h (diffs_from parents new_state).0
          (diffs_from parents new_state).1 2 parents n s (difference-Tight parents new_state d f)
          r in
      record {
        layer = saved.layer;
        rest = saved.rest;
        stored = saved.stored;
        has_hash = saved.has_hash;
        same_events = λ a. saved.full a ∙ difference-full parents new_state a;
        is_shallow = saved.is_shallow;
      }
