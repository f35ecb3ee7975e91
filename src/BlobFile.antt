-- ===== src/BlobFile.antt =====
-- A blob file as it is written and read.
pub mod Builder
pub mod Reader
pub mod Iterator
pub mod MergeIterator
pub mod RoundTrip
