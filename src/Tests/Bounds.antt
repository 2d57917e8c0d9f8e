-- ===== src/Tests/Bounds.antt =====
-- Instances of the theorems on thumbnails and on intersections.
use Prim.Native.Nat.{min}
use cinquain.Prelude.{
  ℕ, ◌*◌, ◌<◌, ◌≤◌, ◌≡◌, ◌↔◌, refl, Bool, true, false, some, List, [], ◌∷◌, arith,
}
use cinquain.Core.Errors.{good, fault, arithmetic}
use cinquain.Media.{Dim, scale, scaled}
use cinquain.Media.Scaling.{Covers, scaled-Covers, scaled_fails_iff}
use cinquain.Utils.Sets.{
  intersection, intersection_sorted, intersection_sorted_stream2, intersection_sorted-loses,
  intersection_sorted_stream2-intersection,
}

-- The request and the image of the comment on get_thumbnail.
abbrev requested : Dim
requested = record { width = 800; height = 600; method = scale }

abbrev image : Dim
image = record { width = 1916; height = 1200; method = scale }

scaled-Covers_example :
    (dim : Dim) × (scaled requested image ≡ good dim)
    × Covers (min 800 1916) (min 600 1200) image dim
scaled-Covers_example = scaled-Covers requested image 1915 1199 refl refl (omega arith)

scaled_fails_iff_example :
    (scaled requested (record { width = 0; height = 5; method = scale }) ≡ fault arithmetic)
    ↔ ◌≡◌ {A = ℕ} 0 0
scaled_fails_iff_example =
    scaled_fails_iff requested (record { width = 0; height = 5; method = scale })

-- Only the original is stored.
abbrev only_original : Dim → Bool
only_original dim = cinquain.Prelude.leb dim.width 0

intersection_sorted_stream2-intersection_example :
    intersection_sorted_stream2 (1 ∷ 2 ∷ 5 ∷ []) (2 ∷ 3 ∷ 5 ∷ [])
    ≡ intersection ((1 ∷ 2 ∷ 5 ∷ []) ∷ (2 ∷ 3 ∷ 5 ∷ []) ∷ [])
intersection_sorted_stream2-intersection_example =
    intersection_sorted_stream2-intersection (1 ∷ 2 ∷ 5 ∷ []) (2 ∷ 3 ∷ 5 ∷ [])
      (omega arith, (omega arith, (tt, tt))) (omega arith, (omega arith, (tt, tt)))

intersection_sorted-loses_example :
    (intersection_sorted ((1 ∷ 2 ∷ []) ∷ (2 ∷ 3 ∷ []) ∷ []) ≡ [])
    × (intersection ((1 ∷ 2 ∷ []) ∷ (2 ∷ 3 ∷ []) ∷ []) ≡ 2 ∷ [])
intersection_sorted-loses_example =
    intersection_sorted-loses 1 2 (3 ∷ []) (omega arith) (omega arith, (tt, tt))
