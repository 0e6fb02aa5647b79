-- ===== src/Routing.antt =====
-- From the configuration file to the wired mailboxes and the running nodes.
pub mod Schema
pub mod Wiring
pub mod Factory
pub mod Pipeline
