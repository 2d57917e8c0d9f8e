-- ===== src/Tests/Sorts.antt =====
-- An instance of the theorem on the topological sort, with numbers for the ids.
use cinquain.Prelude.{
  ℕ, ◌≡◌, refl, true, List, [], ◌∷◌, ℤ, pos, contains, distinct, nat_eq, nat_beq_iff, arith,
}
use cinquain.Prelude.Order.{nat_ord}
use cinquain.Prelude.Map
use cinquain.Matrix.{Result, ok}
use cinquain.Resolve.Runs.{done}
use cinquain.Resolve.Sort.{lexicographical_topological_sort}
use cinquain.Resolve.Sort.Order.{Follows}
use cinquain.Resolve.Sort.Drained.{IsRanked}
use cinquain.Resolve.Sort.Total.{lexicographical_topological_sort-returns}

-- 3 leads to 1 and 2, and 2 to 1.
abbrev numbers : List (ℕ × List ℕ)
numbers = (3, 1 ∷ 2 ∷ []) ∷ (2, 1 ∷ []) ∷ (1, []) ∷ []

abbrev key_of : ℕ → Result (ℤ × ℕ)
key_of id = ok (pos 0, id)

numbers-IsRanked : IsRanked numbers (λ id. id)
unfolding contains Map.get
numbers-IsRanked = record {
  nodes = λ p x h. ground (arith, nat_beq_iff 3 p, nat_beq_iff 2 p, nat_beq_iff 1 p);
  falls = λ p x h. ground (arith, nat_beq_iff 3 p, nat_beq_iff 2 p, nat_beq_iff 1 p);
}

lexicographical_topological_sort-returns_example :
    (sorted : List ℕ) × (lexicographical_topological_sort numbers key_of ≡ done sorted)
    × ((x : ℕ) → contains sorted x ≡ contains (Map.keys numbers) x)
    × (distinct sorted ≡ true)
    × Follows numbers [] sorted
unfolding distinct contains
lexicographical_topological_sort-returns_example =
    lexicographical_topological_sort-returns numbers key_of (λ id. id) refl
      (λ p h. ((pos 0, p), refl)) numbers-IsRanked
