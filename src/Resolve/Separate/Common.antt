-- ===== src/Resolve/Separate/Common.antt =====
-- `separate` calls an entry unconflicted exactly if every state set holds it.
use cinquain.Prelude.{
  ℕ, suc, ◌≡◌, ◌↔◌, refl, sym, Bool, true, false, Option, none, some, List, [], ◌∷◌, ◌==◌, Eq,
  nat_eq, nat_beq_iff, pair_eq, distinct, contains, arith, length, flat_map, All, Bool-cases,
  Option-cases, inl, inr, some-injective,
}
use cinquain.Prelude.Map
use mathlib.Core.Path.{subst}
use cinquain.Resolve.Separate.{or_default, count_occurrences, place, split_ids, split_all, separate}
use cinquain.Resolve.Separate.Counts.{AreSets, in_every, sets_with-every, sets_with-le, tally-flat}
use cinquain.Resolve.Separate.Agree.{counted, counted-count_occurrences, separate-in_every}

abbrev is_there {ℓ} : {A : Type ℓ} → Option A → Bool
is_there none = false
is_there (some a) = true

module _ {K V : Type 0} ⦃e : Eq K⦄ ⦃f : Eq V⦄ where
  -- Each state set is a map: no key stands in it twice.
  abbrev pub AreMaps : List (List (K × V)) → Type 0
  AreMaps sets = All (λ set. distinct (Map.keys set) ≡ true) sets

  contains-key :
      (set : List (K × V)) (k : K) (v : V)
      → contains set (k, v) ≡ true
      → contains (Map.keys set) k ≡ true
  unfolding contains
  contains-key [] k v h = cc
  contains-key ((j, w) ∷ set) k v h = ground (arith, contains-key set k v)

  distinct-of_keys : (set : List (K × V)) → distinct (Map.keys set) ≡ true → distinct set ≡ true
  unfolding distinct
  distinct-of_keys [] d = refl
  distinct-of_keys ((k, v) ∷ set) d = ground (arith, distinct-of_keys set, contains-key set k v)

  AreSets-of_maps : (sets : List (List (K × V))) → AreMaps sets → AreSets sets
  AreSets-of_maps [] m = tt
  AreSets-of_maps (set ∷ sets) m = (distinct-of_keys set m.0, AreSets-of_maps sets m.1)

  one_value :
      (set : List (K × V)) (k : K) (v w : V)
      → distinct (Map.keys set) ≡ true
      → contains set (k, v) ≡ true
      → contains set (k, w) ≡ true
      → v ≡ w
  unfolding distinct contains
  one_value [] k v w d h g = cc
  one_value ((j, x) ∷ set) k v w d h g = ground (
    arith,
    one_value set k v w,
    contains-key set k v,
    contains-key set k w,
    e.beq_iff j k,
    f.beq_iff x v,
    f.beq_iff x w,
  )

  module _ (count : ℕ) (k : K) where
    place-there :
        (j : K) (occurrence : V × ℕ) (maps : List (K × V) × List (K × List V))
        → is_there (Map.get k maps.0) ≡ true
        → is_there (Map.get k (place count j occurrence maps).0) ≡ true
    unfolding place
    place-there j occurrence maps h = ground (arith, Map.get-insert j k occurrence.0 maps.0)

    split_ids-there :
        (j : K) (ids : List (V × ℕ)) (maps : List (K × V) × List (K × List V))
        → is_there (Map.get k maps.0) ≡ true
        → is_there (Map.get k (split_ids count j ids maps).0) ≡ true
    unfolding split_ids
    split_ids-there j [] maps h = h
    split_ids-there j (occurrence ∷ ids) maps h =
        split_ids-there j ids (place count j occurrence maps) (place-there j occurrence maps h)

    split_all-there :
        (occurrences : List (K × List (V × ℕ))) (maps : List (K × V) × List (K × List V))
        → is_there (Map.get k maps.0) ≡ true
        → is_there (Map.get k (split_all count occurrences maps).0) ≡ true
    unfolding split_all
    split_all-there [] maps h = h
    split_all-there ((j, ids) ∷ occurrences) maps h =
        split_all-there occurrences (split_ids count j ids maps) (split_ids-there j ids maps h)

    place-full :
        (w : V) (n : ℕ) (maps : List (K × V) × List (K × List V))
        → n ≡ count
        → is_there (Map.get k (place count k (w, n) maps).0) ≡ true
    unfolding place
    place-full w n maps full = ground (arith, Map.get-inserted k w maps.0, nat_beq_iff n count)

    -- An id with the full count is placed.
    split_ids-places :
        (v : V) (ids : List (V × ℕ)) (maps : List (K × V) × List (K × List V))
        → Map.get v ids ≡ some count
        → is_there (Map.get k (split_ids count k ids maps).0) ≡ true
    unfolding split_ids Map.get
    split_ids-places v [] maps h = cc
    split_ids-places v ((w, n) ∷ ids) maps h = elim (Bool-cases (w == v)) [
      | inl q ↦
          let full : n ≡ count = ground arith in
          split_ids-there k ids (place count k (w, n) maps) (place-full w n maps full)
      | inr q ↦ split_ids-places v ids (place count k (w, n) maps) (ground arith)
    ]

    split_all-places :
        (v : V) (ids : List (V × ℕ)) (occurrences : List (K × List (V × ℕ)))
        (maps : List (K × V) × List (K × List V))
        → Map.get k occurrences ≡ some ids
        → Map.get v ids ≡ some count
        → is_there (Map.get k (split_all count occurrences maps).0) ≡ true
    unfolding split_all Map.get
    split_all-places v ids [] maps h g = cc
    split_all-places v ids ((j, others) ∷ occurrences) maps h g = elim (Bool-cases (j == k)) [
      | inl q ↦
          let same : others ≡ ids = some-injective (ground arith) in
          let key : j ≡ k = (e.beq_iff j k).0 q in
          split_all-there occurrences (split_ids count j others maps) (
            subst (λ i. is_there (Map.get k (split_ids count i others maps).0) ≡ true) (sym key)
              (split_ids-places v others maps (rw same g)))
      | inr q ↦ split_all-places v ids occurrences (split_ids count j others maps) (ground arith) g
    ]

  -- What is counted has its counter.
  counted-found :
      (k : K) (v : V) (n : ℕ) (occurrences : List (K × List (V × ℕ)))
      → counted k v occurrences ≡ suc n
      → Map.get v (or_default (Map.get k occurrences)) ≡ some (suc n)
  counted-found k v n occurrences h = ground (arith)

  counted-listed :
      (k : K) (v : V) (n : ℕ) (occurrences : List (K × List (V × ℕ)))
      → counted k v occurrences ≡ suc n
      → Map.get k occurrences ≡ some (or_default (Map.get k occurrences))
  unfolding Map.get
  counted-listed k v n occurrences h = ground (arith)

  value_in_every :
      (set : List (K × V)) (sets : List (List (K × V))) (k : K) (v w : V)
      → AreMaps (set ∷ sets)
      → in_every (k, v) (set ∷ sets) ≡ true
      → in_every (k, w) (set ∷ sets) ≡ true
      → v ≡ w
  value_in_every set sets k v w m h g = one_value set k v w m.0 (ground arith) (ground arith)

  place_all :
      (set : List (K × V)) (sets : List (List (K × V))) (k : K) (v : V)
      → AreMaps (set ∷ sets)
      → in_every (k, v) (set ∷ sets) ≡ true
      → is_there (Map.get k (separate (set ∷ sets)).0) ≡ true
  unfolding separate Map.get
  place_all set sets k v m h =
      let entries = flat_map (λ (s : List (K × V)). s) (set ∷ sets) in
      let occurrences = count_occurrences entries [] in
      let n : counted k v occurrences ≡ suc (length sets) = ground (
        arith,
        counted-count_occurrences k v entries [],
        tally-flat (k, v) (set ∷ sets) (AreSets-of_maps (set ∷ sets) m),
        sets_with-every (k, v) (set ∷ sets),
        sets_with-le (k, v) (set ∷ sets),
      ) in
      split_all-places (suc (length sets)) k v (or_default (Map.get k occurrences)) occurrences
        ([], []) (counted-listed k v (length sets) occurrences n)
        (counted-found k v (length sets) occurrences n)

  -- Of state sets that are maps, at least one, an entry is unconflicted exactly if it stands in every set.
  pub separate_iff :
      (set : List (K × V)) (sets : List (List (K × V))) (k : K) (v : V)
      → AreMaps (set ∷ sets)
      → (Map.get k (separate (set ∷ sets)).0 ≡ some v) ↔ (in_every (k, v) (set ∷ sets) ≡ true)
  separate_iff set sets k v m =
      let every = λ (w : V). separate-in_every (set ∷ sets) k w (AreSets-of_maps (set ∷ sets) m) in
      let back : in_every (k, v) (set ∷ sets) ≡ true
          → Map.get k (separate (set ∷ sets)).0 ≡ some v =
        λ h. elim (Option-cases (Map.get k (separate (set ∷ sets)).0)) [
          | inl g ↦ absurd (ground (arith, place_all set sets k v m h, g))
          | inr (w, g) ↦ rw g (rw (value_in_every set sets k w v m (every w g) h) refl)
        ] in
      (every v, back)
