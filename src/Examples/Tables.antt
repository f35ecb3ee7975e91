-- ===== src/Examples/Tables.antt =====
-- A table builder at concrete values.
use diffkv.Prelude.{
  ℕ, ◌≡◌, ◌⊎◌, ◌==◌, refl, true, false, ◌&&◌, leb, if◌then◌else◌, Option, none, some, [], ◌∷◌, ◌++◌,
  length, Bytes, Outcome, ok, err, fault, Status, arith,
}
use diffkv.Coding.Leb128.{
  get, put, put_prefixed, put_fixed, leb_coding, leb_coding-IsCoding, sum_crc, sum_crc-IsCrc,
  fixed_handles,
}
use diffkv.Compression.{CompressionType, compress}
use diffkv.Format.Record
use diffkv.Format.FileEnds.{encode_header}
use diffkv.Format.Codec.{encode_record, header_of}
use diffkv.BlobFile.Builder.{new_builder, add, count_entry, first_key, widen, finish_file}
use diffkv.TableBuilder.{
  ValueType, ParsedKey, InternalKeys, BlobRunMode, TableBuilder, AddIo, status, as_index, is_normal,
  base_add, finish_blob_file, drop_blob_file, add_entry, add_parsed, separate, add_blob,
  open_blob_file, write_blob, full_blob_file, abandon,
}
use diffkv.TableBuilder.Separates.{IsStored, add_entry-IsStored}
use diffkv.TableBuilder.Failed.{finish_blob_file-failed}
use diffkv.Examples.Files.{two_files}
use diffkv.Examples.Values.{bytewise, some_cf_options, run_codecs, run_codecs-IsCodecs}

abbrev type_code : ValueType → ℕ
type_code ValueType.value = 1
type_code ValueType.blob_index = 2
type_code (ValueType.other_type n) = n

abbrev type_of : ℕ → ValueType
type_of n =
    if n == 1
    then ValueType.value
    else (if n == 2 then ValueType.blob_index else ValueType.other_type n)

abbrev parse_key : Bytes → Option ParsedKey
parse_key [] = none
parse_key (t ∷ key) = some (record { user_key = key; sequence = 0; type = type_of t })

-- The type in front of the key.
abbrev short_keys : InternalKeys
short_keys = record { parse = parse_key; append = λ k. type_code k.type ∷ k.user_key }

abbrev fine_io : AddIo
fine_io = record {
  base = none;
  get = err Status.not_found;
  new_prefetcher = none;
  new_file = ok 11;
  header_io = none;
  write_io = none;
  footer_io = none;
  flush_io = none;
  delete_file = none;
}

abbrev new_table : TableBuilder
new_table = record {
  status = none;
  base = [];
  base_status = none;
  blob_handle = none;
  blob_builder = none;
  finished_blobs = [];
  encountered_files = [];
  merging_files = [];
}

abbrev builder_of : Outcome TableBuilder → TableBuilder
builder_of (ok b) = b
builder_of (err s) = new_table
builder_of fault = new_table

abbrev long_value : Bytes
long_value = 6 ∷ (7 ∷ (8 ∷ (9 ∷ (6 ∷ []))))

abbrev after_add : Outcome TableBuilder
after_add =
    add_entry leb_coding sum_crc fixed_handles run_codecs CompressionType.no_compression bytewise
      some_cf_options 1 short_keys fine_io BlobRunMode.normal 1 false two_files (1 ∷ (5 ∷ []))
      long_value new_table

add_ends : after_add ≡ ok (builder_of after_add)
unfolding add_entry add_parsed separate add_blob open_blob_file write_blob full_blob_file status
    base_add new_builder add count_entry first_key widen encode_record Record.encode_to compress
    header_of encode_header get put put_prefixed put_fixed
add_ends = refl

add_entry-IsStored_example :
    (((leb some_cf_options.min_blob_size (length long_value) && is_normal BlobRunMode.normal)
        ≡ false)
      × ((builder_of after_add).base ≡ [] ++ ((1 ∷ (5 ∷ []), long_value) ∷ [])))
    ⊎ (((leb some_cf_options.min_blob_size (length long_value) && is_normal BlobRunMode.normal)
          ≡ true)
        × (entry : Bytes) × ((builder_of after_add).base
            ≡ []
              ++ ((
                as_index short_keys
                    (record { user_key = 5 ∷ []; sequence = 0; type = ValueType.value }),
                entry,
              )
                  ∷ []))
        × IsStored leb_coding leb_coding-IsCoding sum_crc sum_crc-IsCrc fixed_handles run_codecs
            run_codecs-IsCodecs CompressionType.no_compression bytewise some_cf_options 1
            (builder_of after_add)
            entry
            (5 ∷ [])
            long_value)
unfolding status add_entry add_parsed separate add_blob open_blob_file write_blob full_blob_file
    base_add new_builder add count_entry first_key widen encode_record Record.encode_to compress
    header_of encode_header get put put_prefixed put_fixed
add_entry-IsStored_example =
    add_entry-IsStored leb_coding leb_coding-IsCoding sum_crc sum_crc-IsCrc fixed_handles run_codecs
      run_codecs-IsCodecs CompressionType.no_compression bytewise some_cf_options 1 short_keys
      fine_io BlobRunMode.normal 1 false two_files
      (record { user_key = 5 ∷ []; sequence = 0; type = ValueType.value }) (1 ∷ (5 ∷ [])) long_value
      new_table (builder_of after_add) (omega arith, omega arith) refl refl refl add_ends refl

abbrev full_table : TableBuilder
full_table = record new_table {
  blob_handle = some 11;
  blob_builder = some (record {
    file = 1 ∷ (2 ∷ []);
    status = none;
    num_entries = 1;
    smallest_key = 5 ∷ [];
    largest_key = 5 ∷ [];
  });
}

abbrev failing_io : AddIo
failing_io = record fine_io { footer_io = some Status.io_error }

abbrev after_failure : Outcome TableBuilder
after_failure = finish_blob_file leb_coding sum_crc fixed_handles failing_io 1 full_table

failure_ends : after_failure ≡ ok (builder_of after_failure)
unfolding finish_blob_file finish_file drop_blob_file status
failure_ends = refl

finish_blob_file-failed_example :
    (abandon none (builder_of after_failure) ≡ fault)
    × (finish_blob_file leb_coding sum_crc fixed_handles fine_io 1 (builder_of after_failure)
        ≡ fault)
unfolding finish_file
finish_blob_file-failed_example =
    finish_blob_file-failed leb_coding sum_crc fixed_handles failing_io fine_io 1 11 Status.io_error
      (record {
        file = 1 ∷ (2 ∷ []);
        status = none;
        num_entries = 1;
        smallest_key = 5 ∷ [];
        largest_key = 5 ∷ [];
      })
      full_table (builder_of after_failure) none refl refl refl failure_ends
