-- ===== src/Media/Answers.antt =====
-- What is generated for which request.
use mathlib.Core.Path.{subst}
use cinquain.Prelude.{◌≤◌, ◌≡◌, Bool, true, ◌||◌, some, ltb, arith, ◌⊎◌, inl, inr, Bool-cases}
use cinquain.Core.Errors.{good, Try-cases, good-injective}
use cinquain.Media.{
  Dim, scale, scaled, fits, normalized, Answer, missing, saved, original, cropped, resized,
  thumbnail_generate, get_thumbnail_generate, get_thumbnail,
}
use cinquain.Media.Scaling.{scaled-within}

-- The requested dimensions lie within the normalized ones, unless those are the original's.
pub normalized-fits :
    (dim : Dim)
    → (normalized dim ≡ record { width = 0; height = 0; method = scale })
      ⊎ (fits (normalized dim).width (normalized dim).height dim ≡ true)
unfolding normalized
normalized-fits dim = ground arith

-- What a new thumbnail of an image has to satisfy.
abbrev pub IsWithin : Dim → Answer → Type 0
IsWithin image (cropped width height) = (width ≤ image.width) × (height ≤ image.height)
IsWithin image (resized width height) = (width ≤ image.width) × (height ≤ image.height)
IsWithin image other = Unit

the_answer : (a b : Answer) → good a ≡ good b → a ≡ b
the_answer a b h = good-injective h

thumbnail_generate-IsWithin :
    (image requested : Dim) (answer : Answer)
    → requested.width ≤ image.width
    → requested.height ≤ image.height
    → thumbnail_generate image requested ≡ good answer
    → IsWithin image answer
unfolding thumbnail_generate
thumbnail_generate-IsWithin image requested missing w h r = tt
thumbnail_generate-IsWithin image requested saved w h r = tt
thumbnail_generate-IsWithin image requested original w h r = tt
thumbnail_generate-IsWithin image requested (cropped x y) w h r =
    elim (Try-cases (scaled requested image)) [
      | inl (dim, s) ↦ (ground arith, ground arith)
      | inr (e, s) ↦ (ground arith, ground arith)
    ]
thumbnail_generate-IsWithin image requested (resized x y) w h r =
    elim (Try-cases (scaled requested image)) [
      | inl (dim, s) ↦
          let within = scaled-within requested image dim s in (ground arith, ground arith)
      | inr (e, s) ↦ absurd (ground arith)
    ]

-- No thumbnail that is generated is wider or higher than the image.
pub get_thumbnail-IsWithin :
    (is_saved : Dim → Bool) (image requested : Dim) (answer : Answer)
    → get_thumbnail is_saved (some image) requested ≡ good answer
    → IsWithin image answer
unfolding get_thumbnail get_thumbnail_generate
get_thumbnail-IsWithin is_saved image requested answer r =
    let dim = normalized requested in
    elim (Bool-cases (is_saved dim)) [
      | inl q ↦ subst (λ a. IsWithin image a) (the_answer saved answer (ground arith)) tt
      | inr q ↦ elim (Bool-cases (is_saved (record { width = 0; height = 0; method = scale }))) [
        | inr o ↦ subst (λ a. IsWithin image a) (the_answer missing answer (ground arith)) tt
        | inl o ↦ elim (Bool-cases (ltb image.width dim.width || ltb image.height dim.height)) [
          | inl b ↦ subst (λ a. IsWithin image a) (the_answer original answer (ground arith)) tt
          | inr b ↦
              thumbnail_generate-IsWithin image dim answer (ground arith) (ground arith)
                (ground arith)
        ]
      ]
    ]
