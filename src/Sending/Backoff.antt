-- ===== src/Sending/Backoff.antt =====
-- The exponential backoff of src/core/utils/time/exponential_backoff.rs. A `Duration` is a number of
-- nanoseconds; `saturating_mul` stops at the longest duration.
use Prim.Native.Nat.{min}
use cinquain.Prelude.{ℕ, ◌*◌, Bool, ltb}

-- `Duration::MAX`: 2 ^ 64 - 1 seconds and 999999999 nanoseconds.
abbrev pub longest : ℕ
longest = 18446744073709551615999999999

unfoldable pub from_secs : ℕ → ℕ
from_secs seconds = seconds * 1000000000

unfoldable pub saturating_mul : ℕ → ℕ → ℕ
saturating_mul duration n = min (duration * n) longest

unfoldable pub continue_exponential_backoff : ℕ → ℕ → ℕ → ℕ → Bool
continue_exponential_backoff least most elapsed tries =
    ltb elapsed (min (saturating_mul (saturating_mul least tries) tries) most)

unfoldable pub continue_exponential_backoff_secs : ℕ → ℕ → ℕ → ℕ → Bool
continue_exponential_backoff_secs least most elapsed tries =
    continue_exponential_backoff (from_secs least) (from_secs most) elapsed tries

unfoldable pub min_exp_backoff_duration : ℕ → ℕ → ℕ → ℕ
min_exp_backoff_duration least most retries =
    min (from_secs most) (saturating_mul (saturating_mul (from_secs least) retries) retries)
