-- ===== src/Format.antt =====
-- src/blob_format.h and src/blob_format.cc: the bytes of blob files, blob indexes and blob file metas.
-- An EncodeTo gives the bytes that it appends to `dst`; a DecodeFrom the value and the rest of the slice.
pub mod Bounds
pub mod Record
pub mod Index
pub mod FileMeta
pub mod FileEnds
pub mod Codec
