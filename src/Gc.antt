-- ===== src/Gc.antt =====
-- The choice of blob files for a garbage collection: src/blob_gc_picker.cc, and the states that
-- src/blob_gc.cc gives them.
pub mod Picker
pub mod Schedule
pub mod Job
pub mod Finish
pub mod Marks
pub mod Scored
