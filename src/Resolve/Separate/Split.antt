-- ===== src/Resolve/Separate/Split.antt =====
-- The keys of the maps that `separate` builds are distinct.
use cinquain.Prelude.{
  ℕ, ◌≡◌, refl, true, List, [], ◌∷◌, Eq, nat_eq, distinct, arith, length, flat_map,
}
use cinquain.Prelude.Map
use cinquain.Resolve.Separate.{place, split_ids, split_all, count_occurrences, separate}

module _ {K V : Type 0} ⦃e : Eq K⦄ where
  place-distinct :
      (count : ℕ) (k : K) (occurrence : V × ℕ) (maps : List (K × V) × List (K × List V))
      → distinct (Map.keys maps.0) ≡ true
      → distinct (Map.keys (place count k occurrence maps).0) ≡ true
  unfolding place
  place-distinct count k occurrence maps d =
      ground (arith, Map.distinct-keys-insert k occurrence.0 maps.0)

  split_ids-distinct :
      (count : ℕ) (k : K) (ids : List (V × ℕ)) (maps : List (K × V) × List (K × List V))
      → distinct (Map.keys maps.0) ≡ true
      → distinct (Map.keys (split_ids count k ids maps).0) ≡ true
  unfolding split_ids
  split_ids-distinct count k [] maps d = d
  split_ids-distinct count k (occurrence ∷ ids) maps d =
      split_ids-distinct count k ids (place count k occurrence maps)
        (place-distinct count k occurrence maps d)

  split_all-distinct :
      (count : ℕ) (occurrences : List (K × List (V × ℕ))) (maps : List (K × V) × List (K × List V))
      → distinct (Map.keys maps.0) ≡ true
      → distinct (Map.keys (split_all count occurrences maps).0) ≡ true
  unfolding split_all
  split_all-distinct count [] maps d = d
  split_all-distinct count ((k, ids) ∷ occurrences) maps d =
      split_all-distinct count occurrences (split_ids count k ids maps)
        (split_ids-distinct count k ids maps d)

module _ {K V : Type 0} ⦃e : Eq K⦄ ⦃f : Eq V⦄ where
  pub separate-distinct :
      (sets : List (List (K × V))) → distinct (Map.keys (separate sets).0) ≡ true
  unfolding separate distinct
  separate-distinct sets =
      split_all-distinct (length sets) (count_occurrences (flat_map (λ s. s) sets) []) ([], []) refl
