-- ===== src/Collector.antt =====
-- src/edit_collector.h: the edits of a batch, checked against the storages and then applied to them.
pub mod Family
pub mod Batch
pub mod Added
pub mod Deleted
pub mod Updated
pub mod Commit
