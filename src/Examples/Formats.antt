-- ===== src/Examples/Formats.antt =====
-- The formats at concrete values.
use diffkv.Prelude.{
  ◌&&◌, ◌↔◌, ◌+◌, length, ◌≡◌, ◌≢◌, refl, ◌⊎◌, inr, true, false, [], ◌∷◌, ◌++◌, ◌==◌, Bytes, ok,
  err, fault, Status, arith, if◌then◌else◌,
}
use diffkv.Coding.{BlockHandle}
use diffkv.Coding.Leb128.{
  leb_coding, leb_coding-IsCoding, sum_crc, sum_crc-IsCrc, fixed_handles,
  fixed_handles-IsBlockHandles, put_handle, put_fixed,
}
use diffkv.Compression.{CompressionType, compress}
use diffkv.Compression.RoundTrip.{Recovers, compress-Recovers}
use diffkv.Format.Record.{BlobRecord}
use diffkv.Format.Record
use diffkv.Format.Index.{BlobIndex, encode_index, decode_index, decode_index-encode_index}
use diffkv.Format.FileMeta.{
  BlobFileMeta, FileState, FileEvent, Uninit, encode_meta, decode_meta, make_default, transit,
}
use diffkv.Format.FileMeta.States.{run_events, obsolete_absorbing, being_gc_from_normal}
use diffkv.Format.FileMeta.RoundTrip.{IsMeta, persist, decode_meta-encode_meta}
use diffkv.Format.FileEnds.{
  encode_header, decode_header, version1, footer_magic_number, decode_footer, encode_footer,
}
use diffkv.Format.FileEnds.RoundTrip.{
  decode_header-encode_header, front, decode_footer-parts, decode_footer-encode_footer,
}
use diffkv.Format.Codec.{encode_record, decode_blob, header_of, decode_record_header}
use diffkv.Format.Codec.RoundTrip.{
  decode_blob-encode_record, decode_record_header-header_of, decoder_of,
}
use diffkv.Edit.{VersionEdit, new_edit, encode_edit, decode_fields, decode_edit}
use diffkv.Edit.Dangles.{Dangles, decode_edit-fault_iff}
use diffkv.Edit.RoundTrip.{persistent, decode_edit-encode_edit}
use diffkv.Prelude.Assoc.{find}
use diffkv.Examples.Values.{run_codecs, run_codecs-IsCodecs}

abbrev zeros : Bytes
zeros = 0 ∷ (0 ∷ (0 ∷ (0 ∷ [])))

abbrev value_record : BlobRecord
value_record = record { key = 1 ∷ []; value = zeros; only_value = true }

abbrev value_target : BlobRecord
value_target = record { key = 1 ∷ []; value = []; only_value = true }

abbrev packed : Bytes
packed = 0 ∷ (3 ∷ [])

packs : compress run_codecs CompressionType.snappy zeros ≡ (packed, CompressionType.snappy)
unfolding compress
packs = ground arith

compress-Recovers_example :
    Recovers run_codecs zeros (compress run_codecs CompressionType.snappy zeros)
compress-Recovers_example =
    compress-Recovers run_codecs run_codecs-IsCodecs CompressionType.snappy zeros

encoded :
    encode_record leb_coding sum_crc run_codecs CompressionType.snappy value_record
    ≡ ok (header_of leb_coding sum_crc run_codecs packed CompressionType.snappy, packed)
unfolding encode_record Record.encode_to
encoded = rw (packs)

decode_blob-encode_record_example :
    decode_blob leb_coding sum_crc run_codecs value_target (
      header_of leb_coding sum_crc run_codecs packed CompressionType.snappy ++ (packed ++ (7 ∷ [])))
    ≡ ok (value_record, 7 ∷ [])
decode_blob-encode_record_example =
    decode_blob-encode_record leb_coding leb_coding-IsCoding sum_crc sum_crc-IsCrc run_codecs
      run_codecs-IsCodecs CompressionType.snappy value_target value_record
      (header_of leb_coding sum_crc run_codecs packed CompressionType.snappy) packed (7 ∷ [])
      (inr (refl, refl, refl)) encoded

decode_record_header-header_of_example :
    decode_record_header leb_coding sum_crc run_codecs
      (header_of leb_coding sum_crc run_codecs packed CompressionType.snappy ++ packed)
    ≡ ok (
      decoder_of leb_coding leb_coding-IsCoding sum_crc sum_crc-IsCrc run_codecs run_codecs-IsCodecs
          packed CompressionType.snappy,
      packed,
    )
decode_record_header-header_of_example =
    decode_record_header-header_of leb_coding leb_coding-IsCoding sum_crc sum_crc-IsCrc run_codecs
      run_codecs-IsCodecs packed CompressionType.snappy packed (omega arith)

abbrev some_index : BlobIndex
some_index = record { file_number = 300; blob_handle = record { offset = 8; size = 20 } }

decode_index-encode_index_example :
    decode_index leb_coding (encode_index leb_coding some_index ++ []) ≡ ok (some_index, [])
decode_index-encode_index_example =
    decode_index-encode_index leb_coding leb_coding-IsCoding some_index [] (record {
      file_range = omega arith;
      handle_range = record { offset_range = omega arith; size_range = omega arith };
    })

abbrev some_meta : BlobFileMeta
some_meta = record {
  file_number = 7;
  file_size = 256;
  file_entries = 3;
  file_type = 1;
  file_level = 0;
  smallest_key = 1 ∷ [];
  largest_key = 9 ∷ [];
  state = FileState.pending_lsm;
  discardable_size = 10;
  gc_mark = false;
}

abbrev zero_uninit : Uninit
zero_uninit = record { entries = 0; level = 0 }

some_meta-IsMeta : IsMeta some_meta
some_meta-IsMeta = record {
  number_range = omega arith;
  size_range = omega arith;
  entries_range = omega arith;
  type_range = omega arith;
  level_range = omega arith;
  smallest_range = omega arith;
  largest_range = omega arith;
}

decode_meta-encode_meta_example :
    decode_meta leb_coding (make_default zero_uninit) (encode_meta leb_coding some_meta ++ [])
    ≡ ok (persist (make_default zero_uninit) some_meta, [])
decode_meta-encode_meta_example =
    decode_meta-encode_meta leb_coding leb_coding-IsCoding (make_default zero_uninit) some_meta []
      some_meta-IsMeta

decode_header-encode_header_example :
    ((version1 ≡ version1)
      → decode_header leb_coding (encode_header leb_coding version1 ++ []) ≡ ok (version1, []))
    × ((version1 ≢ version1)
        → decode_header leb_coding (encode_header leb_coding version1 ++ [])
          ≡ err Status.corruption)
decode_header-encode_header_example =
    decode_header-encode_header leb_coding leb_coding-IsCoding version1 [] (omega arith)

abbrev some_handle : BlockHandle
some_handle = record { offset = 100; size = 40 }

abbrev some_padding : Bytes
some_padding = 0 ∷ (0 ∷ (0 ∷ (1 ∷ [])))

some_padding-fills :
    length (fixed_handles.encode some_handle) + length some_padding
    ≡ fixed_handles.max_encoded_length
unfolding put_handle put_fixed
some_padding-fills = refl

decode_footer-parts_example :
    decode_footer leb_coding sum_crc fixed_handles (
      front leb_coding leb_coding-IsCoding sum_crc fixed_handles fixed_handles-IsBlockHandles
        some_handle some_padding 7
      ++ (leb_coding.put_fixed32 5 ++ []))
    ≡ (if (7 == footer_magic_number)
          && (sum_crc.value (
                front leb_coding leb_coding-IsCoding sum_crc fixed_handles
                  fixed_handles-IsBlockHandles some_handle some_padding 7)
              == 5)
        then ok (some_handle, [])
        else err Status.corruption)
decode_footer-parts_example =
    decode_footer-parts leb_coding leb_coding-IsCoding sum_crc fixed_handles
      fixed_handles-IsBlockHandles some_handle some_padding 7 5 [] (omega arith) (omega arith)
      some_padding-fills (omega arith) (omega arith)

decode_footer-encode_footer_example :
    decode_footer leb_coding sum_crc fixed_handles
      (encode_footer leb_coding sum_crc fixed_handles some_handle ++ [])
    ≡ ok (some_handle, [])
decode_footer-encode_footer_example =
    decode_footer-encode_footer leb_coding leb_coding-IsCoding sum_crc fixed_handles
      fixed_handles-IsBlockHandles sum_crc-IsCrc some_handle [] (omega arith) (omega arith)

runs : run_events (FileEvent.flush_completed ∷ []) FileState.obsolete ≡ ok FileState.obsolete
unfolding run_events transit
runs = refl

obsolete_absorbing_example : FileState.obsolete ≡ FileState.obsolete
obsolete_absorbing_example =
    obsolete_absorbing (FileEvent.flush_completed ∷ []) FileState.obsolete ((λ e. ground arith), tt)
      runs

begins : transit FileEvent.gc_begin FileState.normal ≡ ok FileState.being_gc
unfolding transit
begins = refl

being_gc_from_normal_example :
    ((FileState.normal ≡ FileState.normal) × (FileEvent.gc_begin ≡ FileEvent.gc_begin))
    ⊎ ((FileState.normal ≡ FileState.being_gc) × (FileEvent.gc_begin ≡ FileEvent.flush_completed))
being_gc_from_normal_example = being_gc_from_normal FileEvent.gc_begin FileState.normal begins

-- A record of a file that is cut off.
abbrev cut_off : Bytes
cut_off = 13 ∷ (0 ∷ [])

decode_edit-fault_iff_example :
    (decode_fields leb_coding zero_uninit (length cut_off + 3) new_edit cut_off
      ≡ decode_edit leb_coding zero_uninit new_edit cut_off)
    × (decode_edit leb_coding zero_uninit new_edit cut_off ≡ fault
        ↔ Dangles leb_coding zero_uninit new_edit cut_off)
decode_edit-fault_iff_example =
    decode_edit-fault_iff leb_coding leb_coding-IsCoding zero_uninit 3 new_edit cut_off

abbrev some_edit : VersionEdit
some_edit = record {
  has_next_file_number = true;
  next_file_number = 12;
  column_family_id = 1;
  added_files = some_meta ∷ [];
  deleted_files = (4, 90) ∷ [];
  updated_discardable_size = (5, 64) ∷ [];
}

decode_edit-encode_edit_example :
    decode_edit leb_coding zero_uninit new_edit (encode_edit leb_coding some_edit)
    ≡ ok (persistent leb_coding leb_coding-IsCoding zero_uninit some_edit, [])
unfolding find
decode_edit-encode_edit_example =
    decode_edit-encode_edit leb_coding leb_coding-IsCoding zero_uninit some_edit (record {
      next_range = omega arith;
      next_unset = λ e. cc;
      family_range = omega arith;
      added_range = (some_meta-IsMeta, tt);
      deleted_range = (omega arith, tt);
      updated_range = ((omega arith, omega arith), tt);
      updated_distinct = (refl, tt);
    })
