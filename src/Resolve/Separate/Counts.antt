-- ===== src/Resolve/Separate/Counts.antt =====
-- How often `separate` counts an id under a key, and what that says of the state sets.
use cinquain.Prelude.{
  ℕ, ◌+◌, ◌≤◌, ◌≡◌, refl, Bool, true, false, ◌&&◌, Option, none, some, List, [], ◌∷◌, ◌++◌,
  if◌then◌else◌, ◌==◌, Eq, contains, distinct, arith, length, flat_map, All, ltb, contains-append,
  not, ◌||◌, filter_map, ◌∙◌,
}
use cinquain.Prelude.Map
use cinquain.Resolve.Separate.{bump, count_ids, rarer, get_auth_chain_diff}

abbrev pub amount : Option ℕ → ℕ
amount none = 0
amount (some n) = n

module _ {V : Type 0} ⦃f : Eq V⦄ where
  -- The count of `v`, 0 where it has no entry.
  abbrev pub count_of : V → List (V × ℕ) → ℕ
  count_of v counts = amount (Map.get v counts)

  pub count_of-bump :
      (v w : V) (counts : List (V × ℕ))
      → count_of w (bump v counts) ≡ count_of w counts + (if v == w then 1 else 0)
  unfolding bump
  count_of-bump v w counts = ground (
    arith,
    Map.get-insert v w 1 counts,
    Map.get-insert v w (amount (Map.get v counts) + 1) counts,
    f.beq_iff v w,
  )

  keys-bump :
      (v w : V) (counts : List (V × ℕ))
      → contains (Map.keys (bump v counts)) w ≡ (v == w || contains (Map.keys counts) w)
  unfolding bump
  keys-bump v w counts = ground (
    arith,
    Map.contains-keys-insert v w 1 counts,
    Map.contains-keys-insert v w (amount (Map.get v counts) + 1) counts,
  )

  pub distinct-bump :
      (v : V) (counts : List (V × ℕ))
      → distinct (Map.keys counts) ≡ true
      → distinct (Map.keys (bump v counts)) ≡ true
  unfolding bump
  distinct-bump v counts d = ground (
    arith,
    Map.distinct-keys-insert v 1 counts,
    Map.distinct-keys-insert v (amount (Map.get v counts) + 1) counts,
  )

  -- How often `v` stands in a list.
  unfoldable pub tally : V → List V → ℕ
  tally v [] = 0
  tally v (x ∷ xs) = (if x == v then 1 else 0) + tally v xs

  tally-append : (v : V) (xs ys : List V) → tally v (xs ++ ys) ≡ tally v xs + tally v ys
  unfolding tally
  tally-append v [] ys = omega arith
  tally-append v (x ∷ xs) ys = omega (arith, tally-append v xs ys)

  tally_absent : (v : V) (xs : List V) → contains xs v ≡ false → tally v xs ≡ 0
  unfolding tally contains
  tally_absent v [] h = refl
  tally_absent v (x ∷ xs) h = ground (arith, tally_absent v xs)

  tally-distinct :
      (v : V) (xs : List V) → distinct xs ≡ true → tally v xs ≡ (if contains xs v then 1 else 0)
  unfolding tally contains distinct
  tally-distinct v [] d = refl
  tally-distinct v (x ∷ xs) d =
      ground (arith, tally-distinct v xs, tally_absent v xs, f.beq_iff x v)

  pub count_of-count_ids :
      (v : V) (ids : List V) (counts : List (V × ℕ))
      → count_of v (count_ids ids counts) ≡ count_of v counts + tally v ids
  unfolding count_ids tally
  count_of-count_ids v [] counts = omega arith
  count_of-count_ids v (id ∷ ids) counts =
      omega (arith, count_of-count_ids v ids (bump id counts), count_of-bump id v counts)

  keys-count_ids :
      (v : V) (ids : List V) (counts : List (V × ℕ))
      → contains (Map.keys (count_ids ids counts)) v
        ≡ (contains ids v || contains (Map.keys counts) v)
  unfolding count_ids contains
  keys-count_ids v [] counts = refl
  keys-count_ids v (id ∷ ids) counts =
      ground (arith, keys-count_ids v ids (bump id counts), keys-bump id v counts)

  distinct-count_ids :
      (ids : List V) (counts : List (V × ℕ))
      → distinct (Map.keys counts) ≡ true
      → distinct (Map.keys (count_ids ids counts)) ≡ true
  unfolding count_ids
  distinct-count_ids [] counts d = d
  distinct-count_ids (id ∷ ids) counts d =
      distinct-count_ids ids (bump id counts) (distinct-bump id counts d)

  contains-rarer :
      (n : ℕ) (v : V) (counts : List (V × ℕ))
      → distinct (Map.keys counts) ≡ true
      → contains (filter_map (rarer n) counts) v
        ≡ (contains (Map.keys counts) v && ltb (count_of v counts) n)
  unfolding filter_map contains distinct Map.get
  contains-rarer n v [] d = refl
  contains-rarer n v ((w, m) ∷ counts) d = ground (arith, contains-rarer n v counts, f.beq_iff w v)

  -- The number of sets that hold `v`.
  abbrev pub sets_with : V → List (List V) → ℕ
  sets_with v [] = 0
  sets_with v (s ∷ sets) = (if contains s v then 1 else 0) + sets_with v sets

  abbrev pub in_every : V → List (List V) → Bool
  in_every v [] = true
  in_every v (s ∷ sets) = contains s v && in_every v sets

  abbrev pub in_some : V → List (List V) → Bool
  in_some v [] = false
  in_some v (s ∷ sets) = contains s v || in_some v sets

  -- No set holds an element twice.
  abbrev pub AreSets : List (List V) → Type 0
  AreSets sets = All (λ s. distinct s ≡ true) sets

  pub tally-flat :
      (v : V) (sets : List (List V))
      → AreSets sets
      → tally v (flat_map (λ s. s) sets) ≡ sets_with v sets
  unfolding flat_map tally
  tally-flat v [] d = refl
  tally-flat v (s ∷ sets) d = omega (
    arith,
    tally-append v s (flat_map (λ s. s) sets),
    tally-distinct v s d.0,
    tally-flat v sets d.1,
  )

  contains-flat :
      (v : V) (sets : List (List V)) → contains (flat_map (λ s. s) sets) v ≡ in_some v sets
  unfolding flat_map contains
  contains-flat v [] = refl
  contains-flat v (s ∷ sets) =
      ground (arith, contains-append s (flat_map (λ s. s) sets) v, contains-flat v sets)

  pub sets_with-le : (v : V) (sets : List (List V)) → sets_with v sets ≤ length sets
  sets_with-le v [] = omega arith
  sets_with-le v (s ∷ sets) = ground (arith, sets_with-le v sets)

  pub sets_with-every :
      (v : V) (sets : List (List V)) → ltb (sets_with v sets) (length sets) ≡ not (in_every v sets)
  sets_with-every v [] = refl
  sets_with-every v (s ∷ sets) = ground (arith, sets_with-every v sets, sets_with-le v sets)

  -- Of auth chains that list no id twice, the difference holds exactly the ids that some chain has and some chain lacks.
  pub get_auth_chain_diff-contains :
      (sets : List (List V)) (v : V)
      → AreSets sets
      → contains (get_auth_chain_diff sets) v ≡ (in_some v sets && not (in_every v sets))
  unfolding get_auth_chain_diff contains distinct Map.get
  get_auth_chain_diff-contains sets v d =
      contains-rarer (length sets) v (count_ids (flat_map (λ s. s) sets) [])
        (distinct-count_ids (flat_map (λ s. s) sets) [] refl)
      ∙ ground (
        arith,
        keys-count_ids v (flat_map (λ s. s) sets) [],
        count_of-count_ids v (flat_map (λ s. s) sets) [],
        tally-flat v sets d,
        contains-flat v sets,
        sets_with-every v sets,
      )
