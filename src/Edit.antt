-- ===== src/Edit.antt =====
-- src/version_edit.h and src/version_edit.cc: a change of the set of blob files, as the manifest holds it.
pub mod Tag
pub mod Decode
pub mod Dangles
pub mod RoundTrip
use diffkv.Prelude.{
  ℕ, zero, suc, ◌≡◌, Bool, true, false, ◌&&◌, ◌==◌, if◌then◌else◌, Option, none, some, List, [],
  ◌∷◌, ◌++◌, Bytes, Outcome, ok, err, fault, ◌>>=◌, or_err, Status, length,
}
use diffkv.Prelude.Assoc.{emplace, assign, find}
use diffkv.Coding.{Coding}
use diffkv.Format.FileMeta.{
  BlobFileMeta, Uninit, make_default, encode_meta, decode_meta, decode_legacy, same_meta,
}

pub record VersionEdit : Type 0 where
  pub has_next_file_number : Bool
  pub next_file_number : ℕ
  pub column_family_id : ℕ
  pub added_files : List BlobFileMeta
  pub deleted_files : List (ℕ × ℕ)
  pub updated_discardable_size : List (ℕ × ℕ)

abbrev pub new_edit : VersionEdit
new_edit = record {
  has_next_file_number = false;
  next_file_number = 0;
  column_family_id = 0;
  added_files = [];
  deleted_files = [];
  updated_discardable_size = [];
}

unfoldable pub set_next_file_number : ℕ → VersionEdit → VersionEdit
set_next_file_number v e = record e { has_next_file_number = true; next_file_number = v }

unfoldable pub set_column_family_id : ℕ → VersionEdit → VersionEdit
set_column_family_id v e = record e { column_family_id = v }

unfoldable pub add_blob_file : BlobFileMeta → VersionEdit → VersionEdit
add_blob_file m e = record e { added_files = e.added_files ++ (m ∷ []) }

unfoldable pub update_blob_file : ℕ → ℕ → VersionEdit → VersionEdit
update_blob_file number size e = record e {
  updated_discardable_size = emplace number size e.updated_discardable_size;
}

-- The second argument's default is 0.
unfoldable pub delete_blob_file : ℕ → ℕ → VersionEdit → VersionEdit
delete_blob_file number sequence e = record e {
  deleted_files = e.deleted_files ++ ((number, sequence) ∷ []);
}

-- `error = s.ToString().c_str()`: the string is gone by the time that `error` is read.
abbrev pub dangling {ℓ} : {A : Type ℓ} → Outcome A → Outcome A
dangling (ok a) = ok a
dangling (err s) = fault
dangling fault = fault

module _ (c : Coding) where
  unfoldable pub encode_added : List BlobFileMeta → Bytes
  encode_added [] = []
  encode_added (m ∷ ms) =
      (c.put_varint32 Tag.added_blob_file_v2 ++ encode_meta c m) ++ encode_added ms

  -- The obsolete sequence is not persistent.
  unfoldable pub encode_deleted : List (ℕ × ℕ) → Bytes
  encode_deleted [] = []
  encode_deleted ((number, sequence) ∷ ds) =
      (c.put_varint32 Tag.deleted_blob_file ++ c.put_varint64 number) ++ encode_deleted ds

  unfoldable pub encode_updated : List (ℕ × ℕ) → Bytes
  encode_updated [] = []
  encode_updated ((number, size) ∷ us) =
      (c.put_varint32 Tag.update_discardable_size ++ (c.put_varint64 number ++ c.put_varint64 size))
      ++ encode_updated us

  unfoldable pub encode_next : VersionEdit → Bytes
  encode_next e =
      if e.has_next_file_number
      then c.put_varint32 Tag.next_file_number ++ c.put_varint64 e.next_file_number
      else []

  -- VersionEdit::EncodeTo
  unfoldable pub encode_edit : VersionEdit → Bytes
  unfolding encode_next encode_added encode_deleted encode_updated
  encode_edit e =
      encode_next e
      ++ ((c.put_varint32 Tag.column_family_id ++ c.put_varint32 e.column_family_id)
          ++ (encode_added e.added_files
              ++ (encode_deleted e.deleted_files ++ encode_updated e.updated_discardable_size)))

  -- The cases of the switch in VersionEdit::DecodeFrom.
  unfoldable pub decode_next : VersionEdit → Bytes → Outcome (VersionEdit × Bytes)
  unfolding set_next_file_number
  decode_next e src = do
    (v, rest) ← or_err Status.corruption (c.get_varint64 src)
    ok (set_next_file_number v e, rest)

  unfoldable pub decode_family : VersionEdit → Bytes → Outcome (VersionEdit × Bytes)
  unfolding set_column_family_id
  decode_family e src = do
    (v, rest) ← or_err Status.corruption (c.get_varint32 src)
    ok (set_column_family_id v e, rest)

  unfoldable pub decode_added_legacy : Uninit → VersionEdit → Bytes → Outcome (VersionEdit × Bytes)
  unfolding add_blob_file
  decode_added_legacy u e src = do
    (m, rest) ← dangling (decode_legacy c (make_default u) src)
    ok (add_blob_file m e, rest)

  unfoldable pub decode_added : Uninit → VersionEdit → Bytes → Outcome (VersionEdit × Bytes)
  unfolding add_blob_file
  decode_added u e src = do
    (m, rest) ← dangling (decode_meta c (make_default u) src)
    ok (add_blob_file m e, rest)

  unfoldable pub decode_deleted : VersionEdit → Bytes → Outcome (VersionEdit × Bytes)
  unfolding delete_blob_file
  decode_deleted e src = do
    (v, rest) ← or_err Status.corruption (c.get_varint64 src)
    ok (delete_blob_file v 0 e, rest)

  unfoldable pub decode_updated : VersionEdit → Bytes → Outcome (VersionEdit × Bytes)
  unfolding update_blob_file
  decode_updated e src = do
    (v, s1) ← or_err Status.corruption (c.get_varint64 src)
    (size, rest) ← or_err Status.corruption (c.get_varint64 s1)
    ok (update_blob_file v size e, rest)

  unfoldable pub decode_field : Uninit → ℕ → VersionEdit → Bytes → Outcome (VersionEdit × Bytes)
  decode_field u tag e src =
      if tag == Tag.next_file_number
      then decode_next e src
      else (if tag == Tag.column_family_id
          then decode_family e src
          else (if tag == Tag.added_blob_file
              then decode_added_legacy u e src
              else (if tag == Tag.added_blob_file_v2
                  then decode_added u e src
                  else (if tag == Tag.deleted_blob_file
                      then decode_deleted e src
                      else (if tag == Tag.update_discardable_size
                          then decode_updated e src
                          else err Status.corruption)))))

  -- The loop `while (!error && !src->empty())`. Each round takes a byte at least, so as many rounds
  -- as there are bytes are enough; `fault` marks the end of the fuel.
  unfoldable pub decode_fields : Uninit → ℕ → VersionEdit → Bytes → Outcome (VersionEdit × Bytes)
  decode_fields u fuel e [] = ok (e, [])
  decode_fields u zero e (b ∷ bs) = fault
  decode_fields u (suc fuel) e (b ∷ bs) = do
    (tag, s1) ← or_err Status.corruption (c.get_varint32 (b ∷ bs))
    (e', s2) ← decode_field u tag e s1
    decode_fields u fuel e' s2

  -- VersionEdit::DecodeFrom into `e`.
  unfoldable pub decode_edit : Uninit → VersionEdit → Bytes → Outcome (VersionEdit × Bytes)
  unfolding decode_fields
  decode_edit u e src = decode_fields u (length src) e src

-- The std::map of operator==: the left side's files by number, the first of a number alone.
unfoldable pub by_number : List BlobFileMeta → List (ℕ × BlobFileMeta) → List (ℕ × BlobFileMeta)
by_number [] m = m
by_number (f ∷ fs) m = by_number fs (emplace f.file_number f m)

abbrev same_found : Option BlobFileMeta → BlobFileMeta → Bool
same_found none f = false
same_found (some g) f = same_meta g f

unfoldable pub all_found : List (ℕ × BlobFileMeta) → List BlobFileMeta → Bool
unfolding find same_meta
all_found m [] = true
all_found m (f ∷ fs) = same_found (find f.file_number m) f && all_found m fs

unfoldable pub same_pairs : List (ℕ × ℕ) → List (ℕ × ℕ) → Bool
same_pairs [] [] = true
same_pairs ((a, b) ∷ ps) ((c, d) ∷ qs) = ((a == c) && (b == d)) && same_pairs ps qs
same_pairs ps qs = false

abbrev same_bool : Bool → Bool → Bool
same_bool true b = b
same_bool false true = false
same_bool false false = true

-- operator==, which does not compare the updated sizes.
unfoldable pub same_edit : VersionEdit → VersionEdit → Bool
unfolding by_number all_found same_pairs
same_edit a b =
    (length a.added_files == length b.added_files)
    && (all_found (by_number a.added_files []) b.added_files
        && (same_bool a.has_next_file_number b.has_next_file_number
            && ((a.next_file_number == b.next_file_number)
                && ((a.column_family_id == b.column_family_id)
                    && same_pairs a.deleted_files b.deleted_files))))
