-- ===== src/Service.antt =====
-- What stands around the nodes: the pool of a node's replicas and the manager of the pipelines.
pub mod Autoscaler
pub mod Manager
pub mod Labels
