-- ===== src/Examples.antt =====
-- Tests of the definitions, and the theorems at concrete values.
pub mod Values
pub mod Formats
pub mod Files
pub mod Sets
pub mod Jobs
pub mod Tables
pub mod Iterators
pub mod Requests
