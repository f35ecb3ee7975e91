-- ===== src/Examples/Iterators.antt =====
-- An iterator over a small finished blob file, and a readahead.
use diffkv.Prelude.{
  some, Status, ℕ, Bool, true, ltb, ◌^◌, ◌<◌, ◌≡◌, refl, false, none, Option, List, [], ◌∷◌, ◌++◌,
  Bytes, ok, length, arith,
}
use diffkv.Coding.Leb128.{
  leb_coding, leb_coding-IsCoding, sum_crc, sum_crc-IsCrc, fixed_handles, put_handle,
  fixed_handles-IsBlockHandles, put, put_fixed, put_prefixed,
}
use diffkv.Compression.{CompressionType, compress}
use diffkv.Format.Record.{BlobRecord}
use diffkv.Format.Record
use diffkv.Format.Index.{BlobHandle}
use diffkv.Format.Codec.{encode_record, header_of}
use diffkv.Format.FileEnds.{encode_footer, footer_body, encode_header}
use diffkv.BlobFile.Builder.{
  BlobFileBuilder, new_builder, added, add, finish_file, count_entry, first_key, widen,
}
use diffkv.BlobFile.RoundTrip.{add_all}
use diffkv.BlobFile.Iterator.{BlobFileIterator, Range, new_iterator, prefetch, seek_to_first}
use diffkv.BlobFile.Iterator.Fetched.{good_reads}
use diffkv.BlobFile.Iterator.Opened.{good_opens}
use diffkv.BlobFile.Iterator.Readahead.{IsBounded, IsModest, SameRecord, prefetch-IsBounded}
use diffkv.BlobFile.Iterator.Scan.{Scans}
use diffkv.BlobFile.Iterator.Whole.{seek_to_first-add_all}
use mathlib.Core.List.{Perm}
use diffkv.Options.{IsComparator}
use diffkv.BlobFile.Iterator
use diffkv.BlobFile.Iterator.{InitIo, NextIo}
use diffkv.BlobFile.MergeIterator.{BlobFileMergeIterator}
use diffkv.BlobFile.MergeIterator
use diffkv.BlobFile.MergeIterator.Finds.{Found, found, Finds, Sorted, together, Scans-Finds}
use diffkv.BlobFile.MergeIterator.Steps.{Walks}
use diffkv.BlobFile.MergeIterator.Masked.{next-masked}
use diffkv.BlobFile.Reader.{read_at}
use diffkv.BlobFile.MergeIterator.Merges.{Opens, seek_to_first-Walks, seek_to_first-Sorted}
use diffkv.Examples.Values.{bytes_less, bytewise, run_codecs, run_codecs-IsCodecs}

abbrev first_record : BlobRecord
first_record = record { key = 5 ∷ []; value = 6 ∷ (7 ∷ []); only_value = false }

abbrev second_record : BlobRecord
second_record = record { key = 8 ∷ []; value = 9 ∷ []; only_value = false }

abbrev body_of : BlobRecord → Bytes
body_of r = put_prefixed r.key ++ put_prefixed r.value

abbrev header_for : BlobRecord → Bytes
header_for r = header_of leb_coding sum_crc run_codecs (body_of r) CompressionType.no_compression

first_encoded :
    encode_record leb_coding sum_crc run_codecs CompressionType.no_compression first_record
    ≡ ok (header_for first_record, body_of first_record)
unfolding encode_record Record.encode_to compress put put_prefixed
first_encoded = refl

second_encoded :
    encode_record leb_coding sum_crc run_codecs CompressionType.no_compression second_record
    ≡ ok (header_for second_record, body_of second_record)
unfolding encode_record Record.encode_to compress put put_prefixed
second_encoded = refl

abbrev after : BlobRecord → BlobFileBuilder → BlobFileBuilder
after r b =
    added leb_coding sum_crc run_codecs CompressionType.no_compression bytewise none r
      (header_for r ++ body_of r) b

abbrev two_records : BlobFileBuilder
two_records = after second_record (after first_record (new_builder leb_coding none))

abbrev two_handles : List BlobHandle
two_handles = record { offset = 8; size = 14 } ∷ (record { offset = 22; size = 13 } ∷ [])

two_records_added :
    add_all leb_coding sum_crc run_codecs CompressionType.no_compression bytewise
      (first_record ∷ (second_record ∷ []))
      (new_builder leb_coding none)
    ≡ ok (two_handles, two_records)
unfolding add_all add new_builder put_fixed encode_header put_prefixed header_of count_entry
    first_key widen put
two_records_added = rw (first_encoded, second_encoded)

abbrev finished : BlobFileBuilder
finished = finish_file leb_coding sum_crc fixed_handles none none two_records

finished-short : length finished.file < 2 ^ 64
unfolding finish_file new_builder put_fixed encode_header put_prefixed header_of encode_footer
    footer_body put_handle count_entry first_key widen put
finished-short = omega arith

seek_to_first-add_all_example :
    (it : BlobFileIterator) × (seek_to_first leb_coding sum_crc run_codecs fixed_handles good_opens
        good_reads
        (new_iterator finished.file 7 (length finished.file) 4096 0 0)
      ≡ ok it)
    × Scans leb_coding sum_crc run_codecs 7 two_handles (first_record ∷ (second_record ∷ [])) it
seek_to_first-add_all_example =
    seek_to_first-add_all leb_coding leb_coding-IsCoding sum_crc sum_crc-IsCrc run_codecs
      run_codecs-IsCodecs CompressionType.no_compression bytewise fixed_handles
      fixed_handles-IsBlockHandles first_record (second_record ∷ []) two_handles two_records 7 4096
      0 0 ((refl, (omega arith, omega arith)), ((refl, (omega arith, omega arith)), tt))
      two_records_added finished-short

abbrev far_iterator : BlobFileIterator
far_iterator = record (new_iterator [] 7 100000 50000 0 0) {
  iterate_offset = 30000;
  readahead_end_offset = 20000;
}

prefetch-IsBounded_example :
    (q : Option Range) × (it' : BlobFileIterator) × (prefetch far_iterator ≡ ok (q, it'))
    × IsModest q
    × IsBounded it'
    × SameRecord far_iterator it'
unfolding new_iterator
prefetch-IsBounded_example =
    prefetch-IsBounded far_iterator (record { at_least = omega arith; at_most = omega arith })

bytes_less_irrefl : (a : Bytes) → bytes_less a a ≡ false
bytes_less_irrefl [] = refl
bytes_less_irrefl (x ∷ a) = ground (arith, bytes_less_irrefl a)

bytes_less_trans :
    (a b d : Bytes) → bytes_less a b ≡ true → bytes_less b d ≡ true → bytes_less a d ≡ true
bytes_less_trans [] [] d h k = absurd (cc)
bytes_less_trans [] (y ∷ b) [] h k = absurd (cc)
bytes_less_trans [] (y ∷ b) (w ∷ d) h k = refl
bytes_less_trans (x ∷ a) [] d h k = absurd (cc)
bytes_less_trans (x ∷ a) (y ∷ b) [] h k = absurd (cc)
bytes_less_trans (x ∷ a) (y ∷ b) (w ∷ d) h k = ground (arith, bytes_less_trans a b d)

bytes_less_neg_trans :
    (a b d : Bytes) → bytes_less a b ≡ false → bytes_less b d ≡ false → bytes_less a d ≡ false
bytes_less_neg_trans [] [] [] h k = refl
bytes_less_neg_trans [] [] (w ∷ d) h k = absurd (cc)
bytes_less_neg_trans [] (y ∷ b) d h k = absurd (cc)
bytes_less_neg_trans (x ∷ a) b [] h k = refl
bytes_less_neg_trans (x ∷ a) [] (w ∷ d) h k = absurd (cc)
bytes_less_neg_trans (x ∷ a) (y ∷ b) (w ∷ d) h k = ground (arith, bytes_less_neg_trans a b d)

bytewise-IsComparator : IsComparator bytewise
bytewise-IsComparator = record {
  irrefl = bytes_less_irrefl;
  trans = bytes_less_trans;
  neg_trans = bytes_less_neg_trans;
}

-- The file under another number, and the iterators over both.
abbrev file_iterator : ℕ → BlobFileIterator × InitIo × NextIo
file_iterator n =
    (new_iterator finished.file n (length finished.file) 4096 0 0, good_opens, good_reads)

abbrev two_found : ℕ → List Found
two_found n = found n two_handles (first_record ∷ (second_record ∷ []))

file_iterator-opens :
    (n : ℕ)
    → (it : BlobFileIterator) × (Iterator.seek_to_first leb_coding sum_crc run_codecs fixed_handles
          good_opens good_reads
          (new_iterator finished.file n (length finished.file) 4096 0 0)
        ≡ ok it)
      × Finds leb_coding sum_crc run_codecs (two_found n) it
file_iterator-opens n =
    let (it, done, scans) =
      seek_to_first-add_all leb_coding leb_coding-IsCoding sum_crc sum_crc-IsCrc run_codecs
        run_codecs-IsCodecs CompressionType.no_compression bytewise fixed_handles
        fixed_handles-IsBlockHandles first_record (second_record ∷ []) two_handles two_records n
        4096 0 0 ((refl, (omega arith, omega arith)), ((refl, (omega arith, omega arith)), tt))
        two_records_added finished-short in
    (
      it,
      done,
      Scans-Finds leb_coding sum_crc run_codecs n two_handles (first_record ∷ (second_record ∷ []))
          it scans,
    )

-- Of equal keys the one of the lower file number comes first.
abbrev by_number : BlobFileIterator → BlobFileIterator → Bool
by_number a b = ltb a.file_number b.file_number

abbrev both_files : List (BlobFileIterator × InitIo × NextIo)
both_files = file_iterator 7 ∷ (file_iterator 9 ∷ [])

abbrev both_found : List (List Found)
both_found = two_found 7 ∷ (two_found 9 ∷ [])

both_files-Opens : Opens leb_coding sum_crc run_codecs fixed_handles both_files both_found
both_files-Opens = (file_iterator-opens 7, (file_iterator-opens 9, tt))

seek_to_first-Walks_example :
    (m : BlobFileMergeIterator) × (zs : List Found) × (MergeIterator.seek_to_first bytewise
        by_number leb_coding sum_crc run_codecs fixed_handles both_files
      ≡ ok m)
    × Walks leb_coding sum_crc run_codecs bytewise by_number zs m
    × Perm (together both_found) zs
seek_to_first-Walks_example =
    seek_to_first-Walks bytewise bytewise-IsComparator by_number leb_coding sum_crc run_codecs
      fixed_handles both_files both_found both_files-Opens (omega arith)

seek_to_first-Sorted_example :
    (m : BlobFileMergeIterator) × (zs : List Found) × (MergeIterator.seek_to_first bytewise
        by_number leb_coding sum_crc run_codecs fixed_handles both_files
      ≡ ok m)
    × Walks leb_coding sum_crc run_codecs bytewise by_number zs m
    × Perm (together both_found) zs
    × Sorted bytewise zs
seek_to_first-Sorted_example =
    seek_to_first-Sorted bytewise bytewise-IsComparator by_number leb_coding sum_crc run_codecs
      fixed_handles both_files both_found both_files-Opens (omega arith)
      (((refl, tt), (tt, tt)), (((refl, tt), (tt, tt)), tt))

-- The second read of the file fails.
abbrev standing : BlobFileIterator
standing = record (new_iterator [] 7 100 4096 0 0) {
  init = true;
  valid = true;
  end_of_blob_record = 60;
  iterate_offset = 8;
}

abbrev one_left : BlobFileMergeIterator
one_left = record { own_status = none; min_heap = []; current = some standing }

abbrev bad_reads : NextIo
bad_reads = record { header = some Status.io_error; record_io = none }

standing-next :
    (it : BlobFileIterator) × (Iterator.next leb_coding sum_crc run_codecs bad_reads standing
      ≡ ok it)
    × (it.status ≡ some Status.io_error)
unfolding Iterator.next Iterator.prefetch_and_get Iterator.prefetch Iterator.prefetch_to
    Iterator.ask Iterator.align_readahead Iterator.grow_readahead Iterator.prefetched
    Iterator.get_blob_record Iterator.catch_up new_iterator read_at
standing-next = (_, refl, refl)

next-masked_example :
    (m : BlobFileMergeIterator) × (MergeIterator.next bytewise by_number leb_coding sum_crc
        run_codecs bad_reads one_left
      ≡ ok m)
    × (MergeIterator.is_valid m ≡ false)
    × (MergeIterator.status m ≡ none)
unfolding MergeIterator.is_valid MergeIterator.status Iterator.is_valid new_iterator
next-masked_example =
    next-masked bytewise by_number leb_coding sum_crc run_codecs bad_reads one_left standing
      standing-next.0 Status.io_error refl refl refl refl standing-next.1 standing-next.2
