-- ===== src/Policy.antt =====
-- neudc/core/policy: what a node does when its `process` raises.
pub mod Config
pub mod DeadLetter
pub mod Execute
pub mod Examples
