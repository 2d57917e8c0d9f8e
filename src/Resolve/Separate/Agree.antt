-- ===== src/Resolve/Separate/Agree.antt =====
-- What `separate` calls unconflicted stands in every state set.
use cinquain.Prelude.{
  ℕ, ◌+◌, ◌≡◌, refl, true, some, List, [], ◌∷◌, ◌==◌, Eq, nat_eq, pair_eq, distinct, arith, length,
  flat_map, All, if◌then◌else◌, Bool-cases, inl, inr,
}
use cinquain.Prelude.Map
use cinquain.Resolve.Separate.{
  bump, or_default, add_occurrence, count_occurrences, place, split_ids, split_all, separate,
}
use cinquain.Resolve.Separate.Counts.{
  count_of, count_of-bump, distinct-bump, tally, AreSets, in_every, sets_with-every, tally-flat,
}

module _ {K V : Type 0} ⦃e : Eq K⦄ ⦃f : Eq V⦄ where
  -- How often `v` was counted under `k`.
  abbrev pub counted : K → V → List (K × List (V × ℕ)) → ℕ
  counted k v occurrences = count_of v (or_default (Map.get k occurrences))

  counted-add_occurrence :
      (k j : K) (v w : V) (occurrences : List (K × List (V × ℕ)))
      → counted j w (add_occurrence (k, v) occurrences)
        ≡ counted j w occurrences + (if ◌==◌ {Key = K × V} (k, v) (j, w) then 1 else 0)
  unfolding add_occurrence
  counted-add_occurrence k j v w occurrences =
      let got = Map.get-insert k j (bump v (or_default (Map.get k occurrences))) occurrences in
      elim (Bool-cases (k == j)) [
        | inl q ↦
            ground
              (arith, got, count_of-bump v w (or_default (Map.get k occurrences)), e.beq_iff k j)
        | inr q ↦ ground (arith, got)
      ]

  pub counted-count_occurrences :
      (j : K) (w : V) (entries : List (K × V)) (occurrences : List (K × List (V × ℕ)))
      → counted j w (count_occurrences entries occurrences)
        ≡ counted j w occurrences + tally (j, w) entries
  unfolding count_occurrences tally
  counted-count_occurrences j w [] occurrences = omega arith
  counted-count_occurrences j w ((k, v) ∷ entries) occurrences = omega (
    arith,
    counted-count_occurrences j w entries (add_occurrence (k, v) occurrences),
    counted-add_occurrence k j v w occurrences,
  )

  -- No id has two counters under a key.
  abbrev Inner : List (K × List (V × ℕ)) → Type 0
  Inner occurrences = All (λ entry. distinct (Map.keys entry.1) ≡ true) occurrences

  Inner-insert :
      (k : K) (ids : List (V × ℕ)) (occurrences : List (K × List (V × ℕ)))
      → distinct (Map.keys ids) ≡ true
      → Inner occurrences
      → Inner (Map.insert k ids occurrences)
  unfolding Map.insert
  Inner-insert k ids [] d a = (d, tt)
  Inner-insert k ids ((j, old) ∷ rest) d a = elim (Bool-cases (j == k)) [
    | inl q ↦ rw q (d, a.1)
    | inr q ↦ rw q (a.0, Inner-insert k ids rest d a.1)
  ]

  Inner-get :
      (k : K) (occurrences : List (K × List (V × ℕ)))
      → Inner occurrences
      → distinct (Map.keys (or_default (Map.get k occurrences))) ≡ true
  unfolding Map.get distinct
  Inner-get k [] a = refl
  Inner-get k ((j, ids) ∷ rest) a = elim (Bool-cases (j == k)) [
    | inl q ↦ rw q a.0
    | inr q ↦ rw q (Inner-get k rest a.1)
  ]

  abbrev WellFormed : List (K × List (V × ℕ)) → Type 0
  WellFormed occurrences = (distinct (Map.keys occurrences) ≡ true) × Inner occurrences

  count_occurrences-WellFormed :
      (entries : List (K × V)) (occurrences : List (K × List (V × ℕ)))
      → WellFormed occurrences
      → WellFormed (count_occurrences entries occurrences)
  unfolding count_occurrences add_occurrence
  count_occurrences-WellFormed [] occurrences w = w
  count_occurrences-WellFormed ((k, v) ∷ entries) occurrences w =
      let ids = bump v (or_default (Map.get k occurrences)) in
      count_occurrences-WellFormed entries (Map.insert k ids occurrences) (
        Map.distinct-keys-insert k ids occurrences w.0,
        Inner-insert k ids occurrences (distinct-bump v _ (Inner-get k occurrences w.1)) w.1,
      )

  module _ (count : ℕ) (occurrences : List (K × List (V × ℕ))) where
    -- What has been placed was counted `count` times.
    abbrev Full : List (K × V) × List (K × List V) → Type 0
    Full maps = (k : K) (v : V) → Map.get k maps.0 ≡ some v → counted k v occurrences ≡ count

    place-Full :
        (k : K) (v : V) (n : ℕ) (maps : List (K × V) × List (K × List V))
        → counted k v occurrences ≡ n
        → Full maps
        → Full (place count k (v, n) maps)
    unfolding place
    place-Full k v n maps c full j w g =
        ground (arith, Map.get-insert k j v maps.0, e.beq_iff k j, full j w)

    split_ids-Full :
        (k : K) (all_ids ids : List (V × ℕ)) (maps : List (K × V) × List (K × List V))
        → Map.get k occurrences ≡ some all_ids
        → Map.Finds all_ids ids
        → Full maps
        → Full (split_ids count k ids maps)
    unfolding split_ids
    split_ids-Full k all_ids [] maps g a full = full
    split_ids-Full k all_ids ((v, n) ∷ ids) maps g a full =
        split_ids-Full k all_ids ids (place count k (v, n) maps) g a.1
          (place-Full k v n maps (rw g (rw a.0 refl)) full)

    split_all-Full :
        (rest : List (K × List (V × ℕ))) (maps : List (K × V) × List (K × List V))
        → Map.Finds occurrences rest
        → Inner rest
        → Full maps
        → Full (split_all count rest maps)
    unfolding split_all
    split_all-Full [] maps a d full = full
    split_all-Full ((k, ids) ∷ rest) maps a d full =
        split_all-Full rest (split_ids count k ids maps) a.1 d.1
          (split_ids-Full k ids ids maps a.0 (Map.Finds-all ids d.0) full)

  -- If no state set holds an entry twice, an unconflicted entry stands in every state set.
  pub separate-in_every :
      (sets : List (List (K × V))) (k : K) (v : V)
      → AreSets sets
      → Map.get k (separate sets).0 ≡ some v
      → in_every (k, v) sets ≡ true
  unfolding separate distinct Map.get
  separate-in_every sets k v d g =
      let entries = flat_map (λ (s : List (K × V)). s) sets in
      let occurrences = count_occurrences entries [] in
      let (keys, inner) = count_occurrences-WellFormed entries [] (refl, tt) in
      let full =
        split_all-Full (length sets) occurrences occurrences ([], [])
          (Map.Finds-all occurrences keys) inner (λ j w h. absurd (ground arith)) k v g in
      ground (
        arith,
        full,
        counted-count_occurrences k v entries [],
        tally-flat (k, v) sets d,
        sets_with-every (k, v) sets,
      )
