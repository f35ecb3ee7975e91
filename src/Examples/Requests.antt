-- ===== src/Examples/Requests.antt =====
-- A foreground builder and the queue of collections at concrete values.
use diffkv.Prelude.{
  ◌≡◌, refl, true, false, none, some, [], ◌∷◌, Bytes, Outcome, ok, err, fault, Status, arith,
}
use diffkv.Coding.Leb128.{
  put, put_prefixed, put_fixed, leb_coding, leb_coding-IsCoding, sum_crc, sum_crc-IsCrc,
  fixed_handles,
}
use diffkv.Compression.{CompressionType, compress}
use diffkv.Format.Record.{BlobRecord}
use diffkv.Format.Record
use diffkv.Format.FileEnds.{encode_header}
use diffkv.Format.Codec.{encode_record, header_of}
use diffkv.BlobFile.Builder.{new_builder, add, count_entry, first_key, widen}
use diffkv.TableBuilder.Foreground.{
  Worker, RequestIo, Answer, write_request, new_file_request, add_request, handle_request,
}
use diffkv.TableBuilder.Foreground.Stores.{IsStored, handle_request-IsStored}
use diffkv.TableBuilder.Foreground.Masked.{IsLost, handle_request-masked}
use diffkv.Gc.Schedule.{GcOptions, Scheduler, new_scheduler, add_to_gc_queue, maybe_schedule_gc}
use diffkv.Examples.Values.{bytewise, some_cf_options, run_codecs, run_codecs-IsCodecs}

abbrev fine_io : RequestIo
fine_io = record {
  new_file = ok 11;
  header_io = none;
  has_storage = true;
  write_io = none;
  footer_io = none;
  flush_io = none;
  put_io = none;
}

abbrev idle : Worker
idle = record { output = none; finished_files = [] }

abbrev some_value : Bytes
some_value = 6 ∷ (7 ∷ (8 ∷ (9 ∷ (6 ∷ []))))

abbrev handled : Outcome (Answer × Worker)
handled =
    handle_request leb_coding sum_crc fixed_handles run_codecs CompressionType.no_compression
      bytewise some_cf_options fine_io (5 ∷ []) some_value idle

abbrev result_of : Outcome (Answer × Worker) → Answer × Worker
result_of (ok p) = p
result_of (err s) = (record { status = some s; entry = none; handed_over = [] }, idle)
result_of fault = (record { status = none; entry = none; handed_over = [] }, idle)

handled_ends : handled ≡ ok (result_of handled)
unfolding handle_request add_request new_file_request write_request new_builder add count_entry
    first_key widen encode_record Record.encode_to compress header_of encode_header put put_prefixed
    put_fixed
handled_ends = refl

handled_fine : (result_of handled).0.status ≡ none
unfolding handle_request add_request new_file_request write_request new_builder add count_entry
    first_key widen encode_record Record.encode_to compress header_of encode_header put put_prefixed
    put_fixed
handled_fine = refl

handle_request-IsStored_example :
    IsStored leb_coding leb_coding-IsCoding sum_crc sum_crc-IsCrc fixed_handles run_codecs
      run_codecs-IsCodecs CompressionType.no_compression bytewise some_cf_options
      (record { key = 5 ∷ []; value = some_value; only_value = false })
      (result_of handled).0
      (result_of handled).1
handle_request-IsStored_example =
    handle_request-IsStored leb_coding leb_coding-IsCoding sum_crc sum_crc-IsCrc fixed_handles
      run_codecs run_codecs-IsCodecs CompressionType.no_compression bytewise some_cf_options fine_io
      (5 ∷ []) some_value idle (result_of handled).1 (result_of handled).0 refl
      (λ n b o. absurd (cc)) refl refl (omega arith, omega arith) handled_ends handled_fine

-- A full disk.
abbrev full_io : RequestIo
full_io = record fine_io { write_io = some Status.io_error }

abbrev lost : Outcome (Answer × Worker)
lost =
    handle_request leb_coding sum_crc fixed_handles run_codecs CompressionType.no_compression
      bytewise some_cf_options full_io (5 ∷ []) some_value idle

lost_ends : lost ≡ ok (result_of lost)
unfolding handle_request add_request new_file_request write_request new_builder add count_entry
    first_key widen encode_record Record.encode_to compress header_of encode_header put put_prefixed
    put_fixed
lost_ends = refl

lost_answered : (result_of lost).0.status ≡ none
unfolding handle_request add_request new_file_request write_request new_builder add count_entry
    first_key widen encode_record Record.encode_to compress header_of encode_header put put_prefixed
    put_fixed
lost_answered = refl

handle_request-masked_example :
    IsLost leb_coding sum_crc fixed_handles run_codecs CompressionType.no_compression bytewise
      some_cf_options fine_io
      (record { key = 5 ∷ []; value = []; only_value = false })
      Status.io_error
      (result_of lost).0
      (result_of lost).1
handle_request-masked_example =
    handle_request-masked leb_coding sum_crc fixed_handles run_codecs CompressionType.no_compression
      bytewise some_cf_options full_io fine_io (5 ∷ []) some_value
      (record { key = 5 ∷ []; value = []; only_value = false }) idle (result_of lost).1
      (result_of lost).0 Status.io_error refl (λ n b o. absurd (cc)) refl refl lost_ends
      lost_answered

-- One column family asks for a collection.
abbrev one_gc : GcOptions
one_gc = record { disable_background_gc = false; max_background_gc = 1 }

abbrev asked : Scheduler
asked = maybe_schedule_gc one_gc (add_to_gc_queue 3 new_scheduler)
