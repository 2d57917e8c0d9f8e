-- ===== src/Core/Words.antt =====
-- Machine integers: `u64` and `usize` are natural numbers below 2 ^ 64 (src/core/utils/math.rs).
use Prim.Native.Nat.{ℕ}
use cinquain.Prelude.{ltb, if◌then◌else◌}
use cinquain.Core.Errors.{Try, good, fault, arithmetic}

abbrev pub u64_end : ℕ
u64_end = 18446744073709551616

-- One operation of `checked!`, on its result without bounds.
unfoldable pub checked : ℕ → Try ℕ
checked n = if ltb n u64_end then good n else fault arithmetic
