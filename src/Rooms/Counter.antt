-- ===== src/Rooms/Counter.antt =====
-- The counter of the service `globals`: `next_count` of src/service/globals/data.rs. The number is
-- stored before it is returned; the store does not fail.
use cinquain.Prelude.{ℕ, suc, ltb, if◌then◌else◌}
use cinquain.Core.Words.{u64_end}

-- At its greatest value, the counter stays.
unfoldable pub next_count : ℕ → ℕ
next_count counter = if ltb (suc counter) u64_end then suc counter else counter
