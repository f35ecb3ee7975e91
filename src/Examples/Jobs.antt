-- ===== src/Examples/Jobs.antt =====
-- A job of garbage collection and a table builder at concrete values.
use diffkv.Prelude.{
  ℕ, ◌≡◌, refl, false, Option, none, some, List, [], ◌∷◌, ◌++◌, Bytes, Outcome, ok, err, fault,
  Status, arith,
}
use diffkv.Prelude.Assoc.{find, emplace}
use diffkv.Coding.Leb128.{
  get, put, put_prefixed, put_fixed, leb_coding, leb_coding-IsCoding, sum_crc, sum_crc-IsCrc,
  fixed_handles,
}
use diffkv.Compression.{CompressionType, compress}
use diffkv.Format.Record
use diffkv.Format.Index.{
  BlobIndex, encode_index, encode_handle, decode_index, decode_handle, as_corruption, same_index,
}
use diffkv.Format.Bounds.{get_char}
use diffkv.Format.Codec.{encode_record, header_of}
use diffkv.BlobFile.Builder.{new_builder, add, count_entry, first_key, widen}
use diffkv.Options.{DbOptions}
use diffkv.Gc.Job.{
  Lookup, GcItem, GcJob, new_job, discard_entry, run_items, run_item, do_run_gc, end_run, keep_item,
  rewrite_item, ready_output, create_output, write_item, close_output, count_read,
  count_overwritten, lookup_size,
}
use diffkv.Gc.Job.Settled.{Accounted}
use diffkv.Gc.Job.Accounts.{do_run_gc-Accounted}
use diffkv.BlobFile.Builder.{BlobFileBuilder, finish_file}
use diffkv.Format.FileMeta.{make, is_obsolete}
use diffkv.Storage.{with_blob_file, new_storage, level_slot}
use diffkv.FileSet.Commit.{logged}
use diffkv.FileManager.{FileManager, batch_finish_files, delete_each, without_all}
use diffkv.FileManager.Adds.{AddedIn, adding_edit, batch_finish_files-adds}
use diffkv.Gc.Job.{GcOutput, Rewrite}
use diffkv.Gc.Finish.{
  InstallIo, FinishGcIo, Finished, finish_outputs, finish, install_and_rewrite, numbers_of,
}
use diffkv.Gc.Finish.Removes.{at_sequence}
use diffkv.Gc.Finish.Replaces.{IsFine, Replaced, entries_of, finish-Replaced}
use diffkv.Gc.Finish.Masked.{install_and_rewrite-masked}
use diffkv.Examples.Files.{file, two_files, two_files-IsWellFormed}
use diffkv.Examples.Sets.{one_family, good_io}
use diffkv.Examples.Values.{bytewise, thousandths, some_cf_options, run_codecs, run_codecs-IsCodecs}

-- The job writes its own files.
abbrev own_files : DbOptions
own_files = record { sep_before_flush = false }

abbrev place : ℕ → BlobIndex
place n = record { file_number = 7; blob_handle = record { offset = n; size = 12 } }

abbrev item : Bytes → Lookup → ℕ → GcItem
item key lookup n = record {
  index = place n;
  key = key;
  value = 6 ∷ (7 ∷ []);
  shutting_down = false;
  lookup = lookup;
  new_file = ok 11;
  header_io = none;
  write_io = none;
  put_io = none;
  forward_io = none;
  base_write_io = none;
}

-- The key 5 is deleted in the meantime, and the key 8 still names its record.
abbrev two_items : List GcItem
two_items =
    item (5 ∷ []) Lookup.missing 8
    ∷ (item (8 ∷ []) (Lookup.indexed (encode_index leb_coding (place 20))) 20 ∷ [])

abbrev job_of : Outcome (Option Status × GcJob) → GcJob
job_of (ok (s, job)) = job
job_of (err s) = new_job
job_of fault = new_job

abbrev after_run : Outcome (Option Status × GcJob)
after_run =
    do_run_gc leb_coding sum_crc run_codecs CompressionType.no_compression bytewise own_files
      some_cf_options none two_items none new_job

run_ends : after_run ≡ ok (none, job_of after_run)
unfolding do_run_gc run_items run_item end_run keep_item rewrite_item ready_output create_output
    write_item close_output count_read count_overwritten lookup_size discard_entry decode_index
    decode_handle get_char as_corruption same_index encode_index encode_handle new_builder add
    count_entry first_key widen encode_record Record.encode_to compress header_of get put
    put_prefixed put_fixed
run_ends = refl

do_run_gc-Accounted_example :
    Accounted leb_coding sum_crc run_codecs
      (job_of after_run).outputs
      two_items
      (job_of after_run).batches
do_run_gc-Accounted_example =
    do_run_gc-Accounted leb_coding leb_coding-IsCoding sum_crc sum_crc-IsCrc run_codecs
      run_codecs-IsCodecs CompressionType.no_compression bytewise own_files some_cf_options refl
      two_items new_job (job_of after_run) refl
      ((omega arith, omega arith), ((omega arith, omega arith), tt)) run_ends

-- A job with one output file and one key to rewrite, for the input file 7.
abbrev written_builder : BlobFileBuilder
written_builder = record {
  file = 1 ∷ (2 ∷ (3 ∷ []));
  status = none;
  num_entries = 1;
  smallest_key = 8 ∷ [];
  largest_key = 8 ∷ [];
}

abbrev one_rewrite : Rewrite
one_rewrite = record { key = 8 ∷ []; old_index = place 20; entry = 4 ∷ [] }

abbrev ready_job : GcJob
ready_job = record new_job {
  outputs = record { number = 11; builder = written_builder } ∷ [];
  batches = one_rewrite ∷ [];
}

abbrev one_manager : FileManager ℕ
one_manager = record { file_set = one_family; pending_outputs = 11 ∷ []; bg_error = none }

abbrev install_io : Option Status → InstallIo
install_io footer = record {
  finish = λ _. record { append = footer; flush = none };
  close = λ _. record { sync = none; close = none };
  log = good_io;
  delete = λ _. none;
  heard = λ s. some s;
}

abbrev finish_io : Option Status → FinishGcIo
finish_io footer = record {
  install = install_io footer;
  rewrite = λ _. record {
    dropped = false;
    shutting_down = false;
    write = none;
    data_size = 20;
    read_bytes = 0;
  };
  dropped = false;
  sequence = 50;
  delete_log = good_io;
}

abbrev finished_outputs : Option Status → List GcOutput
finished_outputs footer =
    (finish_outputs leb_coding sum_crc fixed_handles (install_io footer).finish ready_job.outputs).1

ready_job-IsFine :
    IsFine leb_coding sum_crc fixed_handles own_files
      (finish_io none)
      ready_job
      (finished_outputs none)
      1
unfolding finish_outputs finish_file
ready_job-IsFine = record {
  finishes = refl;
  closes = (refl, refl, tt);
  installs_record = refl;
  installs_sync = refl;
  writes = (refl, refl, refl, tt);
  not_dropped = refl;
  deletes_record = refl;
  deletes_sync = refl;
}

finish-Replaced_example :
    (f : Finished ℕ) × (finish leb_coding sum_crc fixed_handles bytewise thousandths own_files false
        (finish_io none)
        1
        (7 ∷ [])
        ready_job
        one_manager
      ≡ ok f)
    × (f.status ≡ none)
    × (f.written ≡ entries_of (one_rewrite ∷ []))
    × (f.gc_outputs ≡ numbers_of (finished_outputs none))
    × Replaced own_files 1 two_files
        (finished_outputs none)
        (at_sequence 50 (7 ∷ []))
        one_family
        f.manager.file_set
unfolding find with_blob_file new_storage emplace finish_outputs finish_file make is_obsolete
finish-Replaced_example =
    finish-Replaced leb_coding sum_crc fixed_handles bytewise thousandths own_files false
      (finish_io none) 1 1 (7 ∷ []) ready_job (finished_outputs none) [] one_manager two_files refl
      ready_job-IsFine refl refl two_files-IsWellFormed (refl, tt) (refl, tt) (refl, tt)
      ((file 7, refl, refl), tt)

footer_fails :
    finish_outputs leb_coding sum_crc fixed_handles
      (install_io (some Status.io_error)).finish
      ready_job.outputs
    ≡ (some Status.io_error, finished_outputs (some Status.io_error), 0)
unfolding finish_outputs finish_file
footer_fails = refl

install_and_rewrite-masked_example :
    (f : Finished ℕ) × (install_and_rewrite leb_coding sum_crc fixed_handles bytewise thousandths
        own_files
        (finish_io (some Status.io_error))
        1
        ready_job
        one_manager
      ≡ ok f)
    × (f.status ≡ none)
    × (f.written ≡ entries_of (one_rewrite ∷ []))
    × (f.manager.file_set ≡ one_family)
unfolding finish_outputs finish_file delete_each
install_and_rewrite-masked_example =
    install_and_rewrite-masked leb_coding sum_crc fixed_handles bytewise thousandths own_files
      (finish_io (some Status.io_error)) 1 0 Status.io_error ready_job
      (finished_outputs (some Status.io_error)) one_manager footer_fails refl (refl, refl, refl, tt)

batch_finish_files-adds_example :
    (m' : FileManager ℕ) × (batch_finish_files leb_coding bytewise thousandths
        (λ s. some s)
        (install_io none).close
        good_io
        1
        ((file 11, 11) ∷ [])
        one_manager
      ≡ ok (none, m'))
    × (m'.file_set.manifest
        ≡ some ([] ++ (logged leb_coding (adding_edit 1 (file 11 ∷ [])) one_family ∷ [])))
    × AddedIn 1 two_files (file 11 ∷ []) one_family m'.file_set
    × (m'.pending_outputs ≡ without_all (11 ∷ []) (11 ∷ []))
unfolding find with_blob_file new_storage emplace is_obsolete level_slot
batch_finish_files-adds_example =
    batch_finish_files-adds leb_coding bytewise thousandths (λ s. some s) (install_io none).close
      good_io 1 ((file 11, 11) ∷ []) [] one_manager two_files (refl, refl, tt) refl refl refl refl
      two_files-IsWellFormed (refl, tt) ((refl, omega arith, refl), tt)
