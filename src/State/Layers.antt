-- ===== src/State/Layers.antt =====
-- The layers that a room state is stored in: `save_state_from_diff`, `save_state` and
-- `load_shortstatehash_info` (src/service/rooms/state_compressor/mod.rs). A `BTreeSet` is a list
-- without repetition, and a stack of layers has its top at the head.
pub mod Sets
pub mod Stored
pub mod Saving
pub mod Loading
pub mod Sizes
pub mod Format
pub mod Reading
pub mod Refines
use cinquain.Prelude.{
  ℕ, zero, suc, ◌+◌, ◌*◌, Bool, true, false, not, Option, none, some, List, [], ◌∷◌, if◌then◌else◌,
  ◌==◌, nat_eq, Eq, leb, ltb, length, contains, insert_new, remove, keep,
}
use cinquain.Prelude.Map
use cinquain.Core.Errors.{Try, good, fault, database, panicked, ◌>>=◌, good_or}
use cinquain.Core.Words.{checked}

pub record StateDiff (E : Type 0) : Type 0 where
  pub parent : Option ℕ
  pub added : List E
  pub removed : List E

pub record ShortStateInfo (E : Type 0) : Type 0 where
  pub shortstatehash : ℕ
  pub full_state : List E
  pub added : List E
  pub removed : List E

-- The table `shortstatehash_statediff`.
abbrev pub Statediffs : Type 0 → Type 0
Statediffs E = List (ℕ × StateDiff E)

module _ {E : Type 0} ⦃e : Eq E⦄ where
  -- `full_state.extend(added)`, and the loop that removes.
  unfoldable pub extend_state : List E → List E → List E
  extend_state full [] = full
  extend_state full (x ∷ added) = extend_state (insert_new x full) added

  unfoldable pub remove_all : List E → List E → List E
  remove_all full [] = full
  remove_all full (x ∷ removed) = remove_all (remove x full) removed

  -- The two loops that put a difference on top of its parent's; first what was removed.
  unfoldable pub merge_removed : List E → List E → List E → List E × List E
  merge_removed [] parent_new parent_removed = (parent_new, parent_removed)
  merge_removed (x ∷ removed) parent_new parent_removed = elim (contains parent_new x) [
    | true ↦ merge_removed removed (remove x parent_new) parent_removed
    | false ↦ merge_removed removed parent_new (insert_new x parent_removed)
  ]

  unfoldable pub merge_added : List E → List E → List E → List E × List E
  merge_added [] parent_new parent_removed = (parent_new, parent_removed)
  merge_added (x ∷ added) parent_new parent_removed = elim (contains parent_removed x) [
    | true ↦ merge_added added parent_new (remove x parent_removed)
    | false ↦ merge_added added (insert_new x parent_new) parent_removed
  ]

  unfoldable pub merge : List E → List E → ShortStateInfo E → List E × List E
  merge statediffnew statediffremoved parent =
      let (parent_new, parent_removed) =
        merge_removed statediffremoved parent.added parent.removed in
      merge_added statediffnew parent_new parent_removed

  -- `save_statediff`.
  unfoldable pub save_statediff : ℕ → StateDiff E → Statediffs E → Statediffs E
  save_statediff shortstatehash diff db = Map.insert shortstatehash diff db

  -- Whether the difference is too big to stand on its parent as a layer of its own.
  unfoldable pub is_too_big : ℕ → ℕ → ShortStateInfo E → Try Bool
  is_too_big diffsum diff_to_sibling parent = do
    parent_diff ← checked (length parent.added + length parent.removed)
    square ← checked (diffsum * diffsum)
    double ← checked (2 * diff_to_sibling)
    limit ← checked (double * parent_diff)
    good (leb limit square)

  unfoldable pub save_state_from_diff :
      Statediffs E → ℕ → List E → List E → ℕ → List (ShortStateInfo E) → Try (Statediffs E)
  save_state_from_diff db shortstatehash statediffnew statediffremoved diff_to_sibling [] =
      checked (length statediffnew + length statediffremoved) >>= λ diffsum. good (
        save_statediff shortstatehash
          (record { parent = none; added = statediffnew; removed = statediffremoved }) db)
  save_state_from_diff db shortstatehash statediffnew statediffremoved diff_to_sibling
        (parent ∷ parents) =
      checked (length statediffnew + length statediffremoved) >>= λ diffsum.
      (let (parent_new, parent_removed) = merge statediffnew statediffremoved parent in
        let deeper =
          save_state_from_diff db shortstatehash parent_new parent_removed diffsum parents in
        if ltb 3 (length (parent ∷ parents))
        then deeper
        else (is_too_big diffsum diff_to_sibling parent >>= λ too_big.
            if too_big
            then deeper
            else good (
                save_statediff shortstatehash
                  (record {
                    parent = some parent.shortstatehash;
                    added = statediffnew;
                    removed = statediffremoved;
                  })
                  db)))

  -- The layer that a difference makes on top of a stack.
  abbrev pub layer_on : ℕ → StateDiff E → ShortStateInfo E → ShortStateInfo E
  layer_on shortstatehash diff top = record {
    shortstatehash = shortstatehash;
    full_state = remove_all (extend_state top.full_state diff.added) diff.removed;
    added = diff.added;
    removed = diff.removed;
  }

  abbrev pub bottom_layer : ℕ → StateDiff E → ShortStateInfo E
  bottom_layer shortstatehash diff = record {
    shortstatehash = shortstatehash;
    full_state = diff.added;
    added = diff.added;
    removed = diff.removed;
  }

  abbrev pub push_layer : ℕ → StateDiff E → List (ShortStateInfo E) → Try (List (ShortStateInfo E))
  push_layer shortstatehash diff [] = fault panicked
  push_layer shortstatehash diff (top ∷ rest) = good (layer_on shortstatehash diff top ∷ top ∷ rest)

  -- `new_shortstatehash_info`, without the cache of `load_shortstatehash_info`, which holds what an
  -- earlier call returned. `none` is a chain of parents that is longer than the fuel.
  unfoldable pub load_shortstatehash_info :
      Statediffs E → ℕ → ℕ → Option (Try (List (ShortStateInfo E)))
  load_shortstatehash_info db zero shortstatehash = none
  load_shortstatehash_info db (suc fuel) shortstatehash = elim (Map.get shortstatehash db) [
    | none ↦ some (fault database)
    | some diff ↦ elim diff.parent [
      | none ↦ some (good (bottom_layer shortstatehash diff ∷ []))
      | some parent ↦ elim (load_shortstatehash_info db fuel parent) [
        | none ↦ none
        | some loaded ↦ some (loaded >>= push_layer shortstatehash diff)
      ]
    ]
  ]

  unfoldable pub difference : List E → List E → List E
  difference xs ys = keep (λ x. not (contains ys x)) xs

  -- The differences that `save_state` computes from the stack of the previous state.
  abbrev pub diffs_from : List (ShortStateInfo E) → List E → List E × List E
  diffs_from [] new_state = (new_state, [])
  diffs_from (parent ∷ parents) new_state =
      (difference new_state parent.full_state, difference parent.full_state new_state)

  -- `save_state` of a state whose hash is new.
  unfoldable pub save_state :
      Statediffs E → ℕ → List E → List (ShortStateInfo E) → Try (Statediffs E)
  save_state db shortstatehash new_state parents =
      save_state_from_diff db shortstatehash (diffs_from parents new_state).0
        (diffs_from parents new_state).1 2 parents
