-- ===== src/Media.antt =====
-- Thumbnail dimensions: `Dim` and `get_thumbnail` of src/service/media/thumbnail.rs, with the feature
-- `media_thumbnail`. A `u32` is a number up to `sat_end`.
pub mod Scaling
pub mod Answers
use Prim.Native.Nat.{min, ◌/◌}
use cinquain.Prelude.{
  ℕ, zero, suc, ◌*◌, Bool, true, false, not, ◌&&◌, ◌||◌, Option, none, some, ltb, leb,
  if◌then◌else◌,
}
use cinquain.Core.Errors.{Try, good, fault, arithmetic, ◌>>=◌}

pub data Method : Type 0 where
  scale crop : Method

pub record Dim : Type 0 where
  pub width : ℕ
  pub height : ℕ
  pub method : Method

abbrev pub sat_end : ℕ
sat_end = 4294967295

-- `Saturating<u32>`: the product, or the greatest `u32`.
unfoldable pub sat_mul : ℕ → ℕ → ℕ
sat_mul a b = min (a * b) sat_end

-- `checked!(a / b)`.
unfoldable pub checked_div : ℕ → ℕ → Try ℕ
checked_div a zero = fault arithmetic
checked_div a (suc b) = good (a / suc b)

unfoldable pub scaled : Dim → Dim → Try Dim
scaled requested image =
    let width = min requested.width image.width in
    let height = min requested.height image.height in
    let use_width = ltb (sat_mul width image.height) (sat_mul height image.width) in
    (if use_width then checked_div (sat_mul height image.width) image.height else good width)
    >>= λ x.
        (if use_width then good height else checked_div (sat_mul width image.height) image.width)
        >>= λ y. good (record { width = x; height = y; method = scale })

abbrev pub fits : ℕ → ℕ → Dim → Bool
fits width height dim = leb dim.width width && leb dim.height height

unfoldable pub normalized : Dim → Dim
normalized dim =
    if fits 32 32 dim
    then record { width = 32; height = 32; method = crop }
    else if fits 96 96 dim
    then record { width = 96; height = 96; method = crop }
    else if fits 320 240 dim
    then record { width = 320; height = 240; method = scale }
    else if fits 640 480 dim
    then record { width = 640; height = 480; method = scale }
    else if fits 800 600 dim
    then record { width = 800; height = 600; method = scale }
    else record { width = 0; height = 0; method = scale }

-- What `get_thumbnail` answers with, by the dimensions of the stored image: nothing, a stored file,
-- the original file, or a new thumbnail that is cropped to or scaled to some dimensions.
pub data Answer : Type 0 where
  missing : Answer
  saved : Answer
  original : Answer
  cropped : ℕ → ℕ → Answer
  resized : ℕ → ℕ → Answer

-- `thumbnail_generate`.
unfoldable pub thumbnail_generate : Dim → Dim → Try Answer
thumbnail_generate image requested = elim requested.method [
  | crop ↦ good (cropped requested.width requested.height)
  | scale ↦ scaled requested image >>= λ dim. good (resized dim.width dim.height)
]

-- `get_thumbnail_generate`; `none` is a file that does not load as an image.
unfoldable pub get_thumbnail_generate : Option Dim → Dim → Try Answer
get_thumbnail_generate none dim = good original
get_thumbnail_generate (some image) dim =
    if ltb image.width dim.width || ltb image.height dim.height
    then good original
    else thumbnail_generate image dim

-- `get_thumbnail`, where `is_saved` tells what dimensions the database has a file for.
unfoldable pub get_thumbnail : (Dim → Bool) → Option Dim → Dim → Try Answer
get_thumbnail is_saved image requested =
    let dim = normalized requested in
    if is_saved dim
    then good saved
    else if is_saved (record { width = 0; height = 0; method = scale })
    then get_thumbnail_generate image dim
    else good missing
