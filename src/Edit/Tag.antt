-- ===== src/Edit/Tag.antt =====
-- enum Tag of src/version_edit.h.
use diffkv.Prelude.{ℕ}

abbrev pub next_file_number : ℕ
next_file_number = 1

abbrev pub column_family_id : ℕ
column_family_id = 10

abbrev pub added_blob_file : ℕ
added_blob_file = 11

abbrev pub deleted_blob_file : ℕ
deleted_blob_file = 12

abbrev pub added_blob_file_v2 : ℕ
added_blob_file_v2 = 13

abbrev pub update_discardable_size : ℕ
update_discardable_size = 14
