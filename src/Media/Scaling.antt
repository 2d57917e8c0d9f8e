-- ===== src/Media/Scaling.antt =====
-- The dimensions of a scaled thumbnail.
use Prim.Native.Nat.{min, ◌/◌}
use native.Mathlib.Nat.{div-add-mod, mod-lt}
use cinquain.Prelude.{
  ℕ, zero, suc, ◌-◌, ◌*◌, ◌≤◌, ◌≡◌, refl, true, ltb, leb, arith, ◌⊎◌, inl, inr, Bool-cases, ◌↔◌,
}
use cinquain.Core.Errors.{good, fault, arithmetic}
use cinquain.Media.{Dim, scale, sat_end, sat_mul, checked_div, scaled}

mul_le : (a b c : ℕ) → a ≤ b → a * c ≤ b * c
mul_le a b c l = grind arith

div_le : (a b c : ℕ) → a ≤ c * suc b → a / suc b ≤ c
div_le a b c l = elim (Bool-cases (leb (a / suc b) c)) [
  | inl q ↦ ground arith
  | inr q ↦
      let above = mul_le (suc c) (a / suc b) (suc b) (ground arith) in
      absurd (omega (arith, div-add-mod a (suc b), mod-lt a {m = suc b} (omega arith)))
]

le_div : (a b c : ℕ) → c * suc b ≤ a → c ≤ a / suc b
le_div a b c l = elim (Bool-cases (leb c (a / suc b))) [
  | inl q ↦ ground arith
  | inr q ↦
      let above = mul_le (suc (a / suc b)) c (suc b) (ground arith) in
      absurd (omega (arith, div-add-mod a (suc b), mod-lt a {m = suc b} (omega arith)))
]

sat_mul-small : (a b : ℕ) → a * b ≤ sat_end → sat_mul a b ≡ a * b
unfolding sat_mul
sat_mul-small a b l = omega arith

-- A scaled thumbnail lies within the image, covers the requested box as far as the image does, and
-- meets it on one side.
pub record Covers (width height : ℕ) (image dim : Dim) : Type 0 where
  pub within_width : dim.width ≤ image.width
  pub within_height : dim.height ≤ image.height
  pub covers_width : width ≤ dim.width
  pub covers_height : height ≤ dim.height
  pub meets : (dim.width ≡ width) ⊎ (dim.height ≡ height)
  pub is_scale : dim.method ≡ scale

-- An image of no width cannot be scaled.
scaled-none : (requested image : Dim) → image.width ≡ 0 → scaled requested image ≡ fault arithmetic
unfolding scaled sat_mul checked_div
scaled-none requested image z = rw z (ground arith)

-- Scaling an image that has some width and height, and not more pixels than a u32 can count, returns
-- dimensions within the image that cover the requested ones as far as the image does, and meet them
-- on one side.
pub scaled-Covers :
    (requested image : Dim) (i j : ℕ)
    → image.width ≡ suc i
    → image.height ≡ suc j
    → image.width * image.height ≤ sat_end
    → (dim : Dim) × (scaled requested image ≡ good dim)
      × Covers (min requested.width image.width) (min requested.height image.height) image dim
unfolding scaled checked_div
scaled-Covers requested image i j p q l =
    let w = min requested.width image.width in
    let h = min requested.height image.height in
    let w_le : w ≤ image.width = omega arith in
    let h_le : h ≤ image.height = omega arith in
    let one = mul_le w image.width image.height w_le in
    let two = mul_le h image.height image.width h_le in
    let swap : image.height * image.width ≡ image.width * image.height = omega arith in
    let s1 = sat_mul-small w image.height (omega arith) in
    let s2 = sat_mul-small h image.width (omega arith) in
    elim (Bool-cases (ltb (w * image.height) (h * image.width))) [
      | inl b ↦ (
        record { width = h * image.width / suc j; height = h; method = scale },
        ground arith,
        record {
          within_width = div_le (h * image.width) j image.width (ground arith);
          within_height = h_le;
          covers_width = le_div (h * image.width) j w (ground arith);
          covers_height = omega arith;
          meets = inr refl;
          is_scale = refl;
        },
      )
      | inr b ↦ (
        record { width = w; height = w * image.height / suc i; method = scale },
        ground arith,
        record {
          within_width = w_le;
          within_height = div_le (w * image.height) i image.height (ground arith);
          covers_width = omega arith;
          covers_height = le_div (w * image.height) i h (ground arith);
          meets = inl refl;
          is_scale = refl;
        },
      )
    ]

checked_div-returns : (a b : ℕ) → (q : ℕ) × (checked_div a (suc b) ≡ good q)
unfolding checked_div
checked_div-returns a b = (a / suc b, refl)

-- An image of no height is scaled by its width.
flat-not_wide :
    (requested image : Dim)
    → image.height ≡ 0
    → ltb
        (sat_mul (min requested.width image.width) image.height)
        (sat_mul (min requested.height image.height) image.width)
      ≡ true
    → ⊥
unfolding sat_mul
flat-not_wide requested image z b =
    let h : min requested.height image.height ≡ 0 = omega arith in
    let p : min requested.height image.height * image.width ≡ 0 = rw h (omega arith) in ground arith

scaled-some :
    (requested image : Dim) (i : ℕ)
    → image.width ≡ suc i
    → (dim : Dim) × (scaled requested image ≡ good dim)
unfolding scaled checked_div
scaled-some requested image i p =
    let w = min requested.width image.width in
    let h = min requested.height image.height in
    elim (Bool-cases (ltb (sat_mul w image.height) (sat_mul h image.width))) [
      | inr b ↦ (
        record { width = w; height = sat_mul w image.height / suc i; method = scale },
        ground arith,
      )
      | inl b ↦ elim (Bool-cases (ltb 0 image.height)) [
        | inl l ↦
            let j : ℕ = image.height - 1 in
            let q : image.height ≡ suc j = ground arith in
            (
              record { width = sat_mul h image.width / suc j; height = h; method = scale },
              ground arith,
            )
        | inr l ↦
            let z : image.height ≡ 0 = ground arith in absurd (flat-not_wide requested image z b)
      ]
    ]

-- Scaling fails exactly for an image of no width, and with an arithmetic error.
pub scaled_fails_iff :
    (requested image : Dim) → (scaled requested image ≡ fault arithmetic) ↔ (image.width ≡ 0)
scaled_fails_iff requested image = (
  λ f. elim (Bool-cases (ltb 0 image.width)) [
    | inr q ↦ ground arith
    | inl q ↦
        let (dim, g) = scaled-some requested image (image.width - 1) (ground arith) in
        absurd (ground arith)
  ],
  scaled-none requested image,
)

checked_div-le : (a b c q : ℕ) → checked_div a b ≡ good q → a ≤ c * b → q ≤ c
unfolding checked_div
checked_div-le a zero c q r l = absurd (ground arith)
checked_div-le a (suc b) c q r l = ground (arith, div_le a b c l)

-- Whatever saturates, the dimensions that scaling returns lie within the image.
pub scaled-within :
    (requested image dim : Dim)
    → scaled requested image ≡ good dim
    → (dim.width ≤ image.width) × (dim.height ≤ image.height)
unfolding scaled sat_mul
scaled-within requested image dim r =
    let w = min requested.width image.width in
    let h = min requested.height image.height in
    let w_le : w ≤ image.width = omega arith in
    let h_le : h ≤ image.height = omega arith in
    let one = mul_le w image.width image.height w_le in
    let two = mul_le h image.height image.width h_le in
    let swap : image.height * image.width ≡ image.width * image.height = omega arith in
    (
      ground (arith, checked_div-le (sat_mul h image.width) image.height image.width dim.width),
      ground (arith, checked_div-le (sat_mul w image.height) image.width image.height dim.height),
    )
