-- ===== src/Drain.antt =====
-- pkg/util/kubernetes/drain: emptying a node of its pods.
pub mod Filter
pub mod Wait
pub mod Evict
pub mod Run
pub mod Cordon
