-- ===== src/BlobFile/Iterator/Whole.antt =====
-- BlobFileIterator of src/blob_file_iterator.cc over a file that BlobFileBuilder has finished.
use diffkv.Prelude.{
  ℕ, ◌^◌, ◌<◌, ◌≡◌, refl, sym, false, true, none, List, ◌∷◌, ◌++◌, Bytes, All, ok, length, arith,
}
use mathlib.Core.Path.{subst}
use diffkv.Coding.{Coding, IsCoding, Crc, IsCrc, BlockHandles, IsBlockHandles, null_block_handle}
use diffkv.Options.{Comparator}
use diffkv.Compression.{CompressionType, Codecs, IsCodecs}
use diffkv.Format.Bounds.{blob_header_size}
use diffkv.Format.Record.{BlobRecord}
use diffkv.Format.Index.{BlobHandle}
use diffkv.Format.FileEnds.{encode_header, encode_footer, version1}
use diffkv.BlobFile.Builder.{BlobFileBuilder, new_builder, finish_file}
use diffkv.BlobFile.RoundTrip.{add_all, add_all-AllRead}
use diffkv.BlobFile.Iterator.{
  BlobFileIterator, new_iterator, init_iterator, go_to_first, seek_to_first, prefetch_and_get,
}
use diffkv.BlobFile.Iterator.Fetched.{good_reads}
use diffkv.BlobFile.Iterator.Opened.{
  good_opens, opened, init_iterator-encode_footer, length-encode_header,
}
use diffkv.BlobFile.Iterator.Stepped.{IsReady}
use diffkv.BlobFile.Iterator.Scan.{
  IsWhole, Scans, prefetch_and_get-add_all, add_all-longer, whole-IsWritable,
}

-- The members that SeekToFirst resets.
abbrev rewound : ℕ → BlobFileIterator → BlobFileIterator
rewound end it = record (opened end it) { status = none; iterate_offset = blob_header_size }

rewound-IsReady :
    (file : Bytes) (n min offset size end : ℕ)
    → IsReady file n end blob_header_size
        (rewound end (new_iterator file n (length file) min offset size))
unfolding new_iterator
rewound-IsReady file n min offset size end = record {
  same_file = refl;
  same_number = refl;
  same_end = refl;
  prepared = refl;
  fine = refl;
  next_at = refl;
  whole_records = refl;
  bounded = record { at_least = omega arith; at_most = omega arith };
}

module _ (c : Coding) (crc : Crc) (z : Codecs) (bh : BlockHandles) where
  seek_to_first-opened :
      (end : ℕ) (it it' : BlobFileIterator)
      → it.init ≡ false
      → init_iterator c crc bh good_opens it ≡ ok (true, opened end it)
      → prefetch_and_get c crc z good_reads (rewound end it) ≡ ok it'
      → seek_to_first c crc z bh good_opens good_reads it ≡ ok it'
  unfolding seek_to_first go_to_first
  seek_to_first-opened end it it' fresh ready got =
      rw (fresh, ready, seek_to_first, init_iterator) got

  finished_file :
      (b : BlobFileBuilder)
      → b.status ≡ none
      → (finish_file c crc bh none none b).file ≡ b.file ++ encode_footer c crc bh null_block_handle
  unfolding finish_file
  finished_file b fine = rw (fine, finish_file)

module _ (c : Coding) (law : IsCoding c) (crc : Crc) (icrc : IsCrc crc) (z : Codecs)
    (zlaw : IsCodecs z) (t : CompressionType) (cmp : Comparator) (bh : BlockHandles)
    (blaw : IsBlockHandles bh) where
  -- What calls of Add make of a new file, one of them at least.
  new_file :
      (r : BlobRecord) (rs : List BlobRecord) (hs : List BlobHandle) (b : BlobFileBuilder)
      → All IsWhole (r ∷ rs)
      → add_all c crc z t cmp (r ∷ rs) (new_builder c none) ≡ ok (hs, b)
      → (more : Bytes) × (b.file ≡ encode_header c version1 ++ more)
        × (b.status ≡ none)
        × (blob_header_size < length b.file)
  unfolding new_builder
  new_file r rs hs b w e =
      let (more, grown, fine, _) =
        add_all-AllRead c law crc icrc z zlaw t cmp (r ∷ rs) hs (new_builder c none) b refl
          (whole-IsWritable c law crc icrc z zlaw t cmp (r ∷ rs) w) e in
      (
        more,
        grown,
        fine,
        subst (λ k. k < length b.file) (length-encode_header c law crc icrc bh blaw)
            (add_all-longer c law crc icrc z zlaw t cmp r rs hs (new_builder c none) b refl w.1 e),
      )

  -- BlobFileBuilder writes at least one record to a new file, each with its key and with lengths that
  -- fit a varint32, and finishes it, and the file system and the codecs do their part; the file's
  -- length fits 64 bits. Then SeekToFirst of a new BlobFileIterator on the file stands at the first
  -- record, and calls of Next lead through all of them in the order of the calls of Add, each with the
  -- handle that Add gave and the file's number, and after the last to an iterator that is not valid
  -- and has no error.
  pub seek_to_first-add_all :
      (r : BlobRecord) (rs : List BlobRecord) (hs : List BlobHandle) (b : BlobFileBuilder)
      (n min offset size : ℕ)
      → All IsWhole (r ∷ rs)
      → add_all c crc z t cmp (r ∷ rs) (new_builder c none) ≡ ok (hs, b)
      → length (finish_file c crc bh none none b).file < 2 ^ 64
      → let file = (finish_file c crc bh none none b).file in
        (it : BlobFileIterator) × (seek_to_first c crc z bh good_opens good_reads
            (new_iterator file n (length file) min offset size)
          ≡ ok it)
        × Scans c crc z n hs (r ∷ rs) it
  unfolding new_iterator new_builder
  seek_to_first-add_all r rs hs b n min offset size w e small =
      let file = (finish_file c crc bh none none b).file in
      let footer = encode_footer c crc bh null_block_handle in
      let (more, begins, fine, some_record) = new_file r rs hs b w e in
      let laid : file ≡ b.file ++ footer = finished_file c crc z bh b fine in
      let it0 = new_iterator file n (length file) min offset size in
      let ready =
        init_iterator-encode_footer c law crc icrc bh blaw b.file more it0 begins laid refl small
          some_record in
      let at_start : IsReady (b.file ++ footer) n (length b.file) (length (new_builder c none).file)
          (rewound (length b.file) it0) =
        subst (λ k. IsReady (b.file ++ footer) n (length b.file) k (rewound (length b.file) it0))
          (sym (length-encode_header c law crc icrc bh blaw))
          (subst (λ f. IsReady f n (length b.file) blob_header_size (rewound (length b.file) it0))
            laid (rewound-IsReady file n min offset size (length b.file))) in
      let (it, got, scans) =
        prefetch_and_get-add_all c law crc icrc z zlaw t cmp (r ∷ rs) hs (new_builder c none) b
          footer n (rewound (length b.file) it0) refl w e
          (subst (λ f. length f < 2 ^ 64) laid small) at_start in
      (it, seek_to_first-opened c crc z bh (length b.file) it0 it refl ready got, scans)
