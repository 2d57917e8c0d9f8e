-- ===== src/Resolve/Separate.antt =====
-- `separate` and `get_auth_chain_diff`, generic as in the source (core/matrix/state_res/mod.rs).
-- The counters are unbounded: the source's saturate at the largest `usize`.
pub mod Counts
pub mod Split
pub mod Agree
pub mod Common
use cinquain.Prelude.{
  ℕ, ◌+◌, Bool, true, false, Option, none, some, List, [], ◌∷◌, ◌++◌, if◌then◌else◌, ◌==◌, Eq,
  nat_eq, ltb, length, filter_map, flat_map,
}
use cinquain.Prelude.Map

module _ {V : Type 0} ⦃f : Eq V⦄ where
  -- `.entry(v).and_modify(|x| x + 1).or_insert(1)`.
  unfoldable pub bump : V → List (V × ℕ) → List (V × ℕ)
  bump v counts = elim (Map.get v counts) [
    | none ↦ Map.insert v 1 counts
    | some n ↦ Map.insert v (n + 1) counts
  ]

abbrev pub or_default : {A : Type 0} → Option (List A) → List A
or_default none = []
or_default (some xs) = xs

module _ {K V : Type 0} ⦃e : Eq K⦄ ⦃f : Eq V⦄ where
  unfoldable pub add_occurrence : K × V → List (K × List (V × ℕ)) → List (K × List (V × ℕ))
  add_occurrence (k, v) occurrences =
      Map.insert k (bump v (or_default (Map.get k occurrences))) occurrences

  unfoldable pub count_occurrences :
      List (K × V) → List (K × List (V × ℕ)) → List (K × List (V × ℕ))
  count_occurrences [] occurrences = occurrences
  count_occurrences (entry ∷ entries) occurrences =
      count_occurrences entries (add_occurrence entry occurrences)

module _ {K V : Type 0} ⦃e : Eq K⦄ where
  -- `.entry(k).and_modify(|x| x.push(id)).or_insert_with(|| vec![id])`.
  unfoldable pub push_conflict : K → V → List (K × List V) → List (K × List V)
  push_conflict k id conflicted = elim (Map.get k conflicted) [
    | none ↦ Map.insert k (id ∷ []) conflicted
    | some ids ↦ Map.insert k (ids ++ id ∷ []) conflicted
  ]

  -- One id of a key: unconflicted if every state set has it.
  unfoldable pub place :
      ℕ → K → V × ℕ → List (K × V) × List (K × List V) → List (K × V) × List (K × List V)
  place count k occurrence maps =
      if nat_eq.beq occurrence.1 count
      then (Map.insert k occurrence.0 maps.0, maps.1)
      else (maps.0, push_conflict k occurrence.0 maps.1)

  -- The inner loop, over the ids that one key has.
  unfoldable pub split_ids :
      ℕ → K → List (V × ℕ) → List (K × V) × List (K × List V) → List (K × V) × List (K × List V)
  split_ids count k [] maps = maps
  split_ids count k (occurrence ∷ ids) maps = split_ids count k ids (place count k occurrence maps)

  unfoldable pub split_all :
      ℕ
      → List (K × List (V × ℕ))
      → List (K × V) × List (K × List V)
      → List (K × V) × List (K × List V)
  split_all count [] maps = maps
  split_all count ((k, ids) ∷ occurrences) maps =
      split_all count occurrences (split_ids count k ids maps)

module _ {K V : Type 0} ⦃e : Eq K⦄ ⦃f : Eq V⦄ where
  unfoldable pub separate : List (List (K × V)) → List (K × V) × List (K × List V)
  separate state_sets =
      split_all (length state_sets) (count_occurrences (flat_map (λ s. s) state_sets) []) ([], [])

module _ {EventId : Type 0} ⦃e : Eq EventId⦄ where
  unfoldable pub count_ids : List EventId → List (EventId × ℕ) → List (EventId × ℕ)
  count_ids [] id_counts = id_counts
  count_ids (id ∷ ids) id_counts = count_ids ids (bump id id_counts)

  abbrev pub rarer : ℕ → EventId × ℕ → Option EventId
  rarer num_sets (id, count) = if ltb count num_sets then some id else none

  unfoldable pub get_auth_chain_diff : List (List EventId) → List EventId
  get_auth_chain_diff auth_chain_sets =
      filter_map (rarer (length auth_chain_sets)) (count_ids (flat_map (λ s. s) auth_chain_sets) [])
