-- ===== src/Frames.antt =====
-- The nodes that work on frames: which of them are kept, marked as near duplicates, and selected.
pub mod Learning
pub mod Collection
pub mod Hash
