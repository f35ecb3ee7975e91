-- ===== src/Examples/Sets.antt =====
-- A file set, a blob file and a job of garbage collection at concrete values.
use diffkv.Prelude.{
  ℕ, ◌+◌, ◌<◌, ◌%◌, ◌^◌, ◌≡◌, refl, ap, ◌∙◌, true, false, Option, none, some, List, [], ◌∷◌, ◌++◌,
  Bytes, All, ok, Status, arith,
}
use diffkv.Prelude.Assoc.{find, emplace, assign}
use diffkv.Coding.Leb128.{leb_coding, leb_coding-IsCoding, sum_crc, sum_crc-IsCrc}
use diffkv.Compression.{CompressionType, compress}
use diffkv.Format.Bounds.{decode_into, decode_into_whole}
use diffkv.Format.Record.{BlobRecord}
use diffkv.Format.Record
use diffkv.Format.Index.{BlobHandle, BlobIndex}
use diffkv.Format.FileMeta.{Uninit, is_obsolete}
use diffkv.Format.Codec.{encode_record, header_of}
use diffkv.Edit.{VersionEdit, new_edit, set_next_file_number, encode_edit, decode_edit}
use diffkv.Edit.RoundTrip.{IsEdit, persistent, decode_edit-encode_edit}
use diffkv.Storage.{BlobStorage, find_file, with_blob_file, new_storage}
use diffkv.Storage.Invariant.{IsWellFormed}
use diffkv.Collector.Family.{add_file, delete_file, update_file, seal, seal_added, seal_deleted}
use diffkv.Collector.Batch.{
  collect, add_files, delete_files, update_files, add_edit, take_number, seal_batch, seal_families,
  apply_batch, apply_families, get_next_file_number,
}
use diffkv.FileSet.{
  FileSet, LogIo, ManifestIo, log_and_apply, log_then_apply, get_obsolete_files_of_set, member,
  open_manifest, new_file_number, write_snapshot,
}
use diffkv.FileSet.Commit.{Keeps, logged, log_and_apply-Keeps}
use diffkv.FileSet.Recover.{
  FileKind, recover, read_edits, mark_families, start_manifest, alive_files, dead_names,
}
use diffkv.FileSet.Purge.{AllDead, get_obsolete_files_of_set-IsWellFormed, recover-AllDead}
use diffkv.BlobFile.Builder.{BlobFileBuilder, added, add}
use diffkv.BlobFile.RoundTrip.{add_all, AllRead, read_record-add_all}
use diffkv.Gc.Picker.{BlobGc, pick_blob_gc}
use diffkv.Storage.Score.{compute_gc_score}
use diffkv.Gc.Scored.{pick_blob_gc-compute_gc_score}
use diffkv.Format.FileMeta.RoundTrip.{IsMeta}
use diffkv.FileSet.Snapshot.{adding, live_files}
use diffkv.FileSet.Snapshot.RoundTrip.{read_back, intact, read_edits-write_snapshot}
use diffkv.Collector.Batch.{EditCollector, new_collector}
use diffkv.Gc.Marks.{Chosen, pick_blob_gc-Chosen}
use diffkv.SizeCollector.{
  encode_sizes, decode_sizes, decode_sizes-encode_sizes, count_indexes, count_indexes-sum_of,
  size_of, sum_of,
}
use diffkv.Examples.Values.{
  bytewise, thousandths, some_db_options, some_cf_options, run_codecs, run_codecs-IsCodecs,
}
use diffkv.Examples.Files.{file, two_files, two_files-IsWellFormed}

abbrev pub one_family : FileSet ℕ
one_family = record {
  db_options = some_db_options;
  column_families = (1, two_files) ∷ [];
  obsolete_columns = [];
  manifest = some [];
  obsolete_manifests = [];
  next_file_number = 12;
}

abbrev gc_edit : VersionEdit
gc_edit = record {
  has_next_file_number = false;
  next_file_number = 0;
  column_family_id = 1;
  added_files = file 11 ∷ [];
  deleted_files = (7, 50) ∷ [];
  updated_discardable_size = (9, 30) ∷ [];
}

abbrev pub good_io : LogIo
good_io = record { add_record = none; sync = none }

abbrev refusing_io : LogIo
refusing_io = record { add_record = some Status.io_error; sync = none }

refused :
    log_and_apply leb_coding bytewise thousandths refusing_io gc_edit one_family
    ≡ ok (some Status.io_error, one_family)
unfolding log_and_apply log_then_apply add_edit collect take_number set_next_file_number add_files
    delete_files update_files add_file delete_file update_file find assign emplace seal_batch
    seal_families seal seal_added seal_deleted find_file is_obsolete with_blob_file new_storage
refused = refl

log_and_apply-Keeps_example :
    Keeps
      (logged leb_coding gc_edit one_family)
      refusing_io
      one_family
      (some Status.io_error)
      one_family
log_and_apply-Keeps_example =
    log_and_apply-Keeps leb_coding bytewise thousandths refusing_io gc_edit one_family one_family
      (some Status.io_error) refused

get_obsolete_files_of_set-IsWellFormed_example :
    (q : List ℕ × List ℕ × FileSet ℕ) × (get_obsolete_files_of_set bytewise 60 one_family ≡ ok q)
    × All (λ e. IsWellFormed e.1) (q.2.column_families)
    × ((cf : ℕ)
        → member cf one_family.obsolete_columns ≡ true
        → find cf (q.2.column_families) ≡ find cf one_family.column_families)
get_obsolete_files_of_set-IsWellFormed_example =
    get_obsolete_files_of_set-IsWellFormed bytewise 60 one_family (two_files-IsWellFormed, tt)

abbrev number_edit : VersionEdit
number_edit = record {
  has_next_file_number = true;
  next_file_number = 5;
  column_family_id = 0;
  added_files = [];
  deleted_files = [];
  updated_discardable_size = [];
}

abbrev zero_uninit : Uninit
zero_uninit = record { entries = 0; level = 0 }

number_edit-IsEdit : IsEdit number_edit
number_edit-IsEdit = record {
  next_range = omega arith;
  next_unset = λ e. cc;
  family_range = omega arith;
  added_range = tt;
  deleted_range = tt;
  updated_range = tt;
  updated_distinct = tt;
}

number_edit_kept : persistent leb_coding leb_coding-IsCoding zero_uninit number_edit ≡ number_edit
unfolding persistent
number_edit_kept = refl

number_edit_read :
    decode_into (decode_edit leb_coding zero_uninit new_edit) (encode_edit leb_coding number_edit)
    ≡ ok number_edit
number_edit_read =
    decode_into_whole (decode_edit leb_coding zero_uninit new_edit)
      (encode_edit leb_coding number_edit) number_edit
      (decode_edit-encode_edit leb_coding leb_coding-IsCoding zero_uninit number_edit
          number_edit-IsEdit
        ∙ ap (λ e. ok (e, [])) number_edit_kept)

abbrev no_families : FileSet ℕ
no_families = record {
  db_options = some_db_options;
  column_families = [];
  obsolete_columns = [];
  manifest = none;
  obsolete_manifests = [];
  next_file_number = 1;
}

abbrev recovered : FileSet ℕ
recovered = record no_families {
  manifest = some (write_snapshot leb_coding (record no_families { next_file_number = 6 }));
  next_file_number = 6;
}

abbrev good_manifest : ManifestIo
good_manifest = record { new_file = none; snapshot = none; sync = none; set_current = none }

abbrev some_names : List (ℕ × FileKind)
some_names =
    (3, FileKind.blob_file) ∷ ((5, FileKind.descriptor_file) ∷ ((8, FileKind.other_file) ∷ []))

recovers :
    recover leb_coding zero_uninit bytewise thousandths good_manifest
      ((encode_edit leb_coding number_edit, false) ∷ [])
      some_names
      no_families
    ≡ ok (recovered, (3, FileKind.blob_file) ∷ [])
unfolding recover read_edits add_edit collect take_number add_files delete_files update_files find
    assign seal_batch seal_families apply_batch apply_families get_next_file_number mark_families
    start_manifest new_file_number open_manifest alive_files dead_names
recovers = rw (number_edit_read)

recover-AllDead_example : AllDead recovered ((3, FileKind.blob_file) ∷ [])
recover-AllDead_example =
    recover-AllDead leb_coding zero_uninit bytewise thousandths good_manifest
      ((encode_edit leb_coding number_edit, false) ∷ []) some_names ((3, FileKind.blob_file) ∷ [])
      no_families recovered recovers

abbrev fresh_builder : BlobFileBuilder
fresh_builder = record {
  file = 1 ∷ (2 ∷ []);
  status = none;
  num_entries = 0;
  smallest_key = [];
  largest_key = [];
}

abbrev small_record : BlobRecord
small_record = record { key = 5 ∷ []; value = 6 ∷ (7 ∷ []); only_value = true }

abbrev small_header : Bytes
small_header = header_of leb_coding sum_crc run_codecs (6 ∷ (7 ∷ [])) CompressionType.no_compression

small_encoded :
    encode_record leb_coding sum_crc run_codecs CompressionType.no_compression small_record
    ≡ ok (small_header, 6 ∷ (7 ∷ []))
unfolding encode_record Record.encode_to compress
small_encoded = refl

abbrev small_handle : BlobHandle
small_handle = record { offset = 2; size = 11 }

abbrev after_small : BlobFileBuilder
after_small =
    added leb_coding sum_crc run_codecs CompressionType.no_compression bytewise none small_record
      (small_header ++ (6 ∷ (7 ∷ []))) fresh_builder

small_added :
    add_all leb_coding sum_crc run_codecs CompressionType.no_compression bytewise
      (small_record ∷ [])
      fresh_builder
    ≡ ok (small_handle ∷ [], after_small)
unfolding add_all add
small_added = rw (small_encoded)

read_record-add_all_example :
    AllRead leb_coding sum_crc run_codecs
      (small_handle ∷ [])
      (small_record ∷ [])
      (after_small.file ++ (9 ∷ []))
read_record-add_all_example =
    read_record-add_all leb_coding leb_coding-IsCoding sum_crc sum_crc-IsCrc run_codecs
      run_codecs-IsCodecs CompressionType.no_compression bytewise (small_record ∷ [])
      (small_handle ∷ []) fresh_builder after_small (9 ∷ []) refl ((omega arith, omega arith), tt)
      small_added

abbrev scored : BlobStorage ℕ
scored = record two_files { gc_score = (7, 100) ∷ ((9, 100) ∷ []) }

pick_blob_gc-Chosen_example :
    (r : Option BlobGc × BlobStorage ℕ) × (pick_blob_gc some_cf_options scored ≡ ok r)
    × Chosen some_cf_options scored r
unfolding with_blob_file new_storage find emplace
pick_blob_gc-Chosen_example =
    pick_blob_gc-Chosen some_cf_options scored (λ e. ground arith)
      ((file 7, refl, λ e. ground arith), ((file 9, refl, λ e. ground arith), tt))
      (refl, (refl, tt))

decode_sizes-encode_sizes_example :
    decode_sizes leb_coding [] (encode_sizes leb_coding ((3, 300) ∷ ((5, 40) ∷ [])) ++ [])
    ≡ some ((3, 300) ∷ ((5, 40) ∷ []), [])
unfolding find
decode_sizes-encode_sizes_example =
    decode_sizes-encode_sizes leb_coding leb_coding-IsCoding ((3, 300) ∷ ((5, 40) ∷ [])) []
      (omega arith) ((omega arith, omega arith), ((omega arith, omega arith), tt))
      (refl, (refl, tt))

abbrev two_indexes : List BlobIndex
two_indexes =
    record { file_number = 3; blob_handle = record { offset = 8; size = 20 } }
    ∷ (record { file_number = 3; blob_handle = record { offset = 28; size = 30 } } ∷ [])

count_indexes-sum_of_example :
    size_of (find 3 (count_indexes two_indexes [])) % 2 ^ 64
    ≡ (size_of (find 3 []) + sum_of 3 two_indexes) % 2 ^ 64
count_indexes-sum_of_example =
    count_indexes-sum_of two_indexes 3 [] (omega arith, (omega arith, tt))

pick_blob_gc-compute_gc_score_example :
    (q : Option BlobGc × BlobStorage ℕ) × (pick_blob_gc some_cf_options
        (compute_gc_score thousandths two_files).1
      ≡ ok q)
    × Chosen some_cf_options (compute_gc_score thousandths two_files).1 q
unfolding with_blob_file new_storage emplace
pick_blob_gc-compute_gc_score_example =
    pick_blob_gc-compute_gc_score thousandths some_cf_options two_files two_files-IsWellFormed
      ((λ e. ground arith), ((λ e. ground arith), tt)) (λ e. ground arith)

file-IsMeta : (n : ℕ) → n < 100 → IsMeta (file n)
file-IsMeta n h = record {
  number_range = omega arith;
  size_range = omega arith;
  entries_range = omega arith;
  type_range = omega arith;
  level_range = omega arith;
  smallest_range = omega arith;
  largest_range = omega arith;
}

read_edits-write_snapshot_example :
    (k : EditCollector) × (read_edits leb_coding zero_uninit
        (intact leb_coding leb_coding-IsCoding zero_uninit (write_snapshot leb_coding one_family))
        new_collector
      ≡ ok k)
    × (get_next_file_number k ≡ ok 12)
    × ((cf : ℕ) (s : BlobStorage ℕ)
        → find cf one_family.column_families ≡ some s
        → find cf k.column_families
          ≡ some
              (adding (read_back leb_coding leb_coding-IsCoding zero_uninit (live_files s.files))))
unfolding with_blob_file new_storage emplace is_obsolete find
read_edits-write_snapshot_example =
    read_edits-write_snapshot leb_coding leb_coding-IsCoding zero_uninit one_family (omega arith)
      (
        (
          omega arith,
          two_files-IsWellFormed,
          (file-IsMeta 7 (omega arith), (file-IsMeta 9 (omega arith), tt)),
        ),
        tt,
      )
      (refl, tt)
