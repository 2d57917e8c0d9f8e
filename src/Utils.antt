-- ===== src/Utils.antt =====
-- Helpers of src/core/utils.
pub mod Sets
