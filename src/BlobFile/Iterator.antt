-- ===== src/BlobFile/Iterator.antt =====
-- BlobFileIterator of src/blob_file_iterator.h and src/blob_file_iterator.cc, over the bytes of the
-- file. Prefetch only warms the file system's cache, so what it answers does not matter.
pub mod Fetched
pub mod Stepped
pub mod Readahead
pub mod Opened
pub mod Whole
pub mod Scan
use diffkv.Prelude.{
  ℕ, zero, suc, ◌+◌, ◌-◌, ◌*◌, ◌%◌, ◌^◌, ltb, leb, Bool, true, false, ◌&&◌, ◌||◌, if◌then◌else◌,
  Option, none, some, is_none, Bytes, Outcome, ok, err, fault, ◌>>=◌, ◌>>◌, assert, Status, length,
  add64, sub64,
}
use diffkv.Coding.{Coding, Crc, BlockHandles, BlockHandle}
use diffkv.Compression.{Codecs}
use diffkv.Format.Bounds.{record_header_size, blob_header_size}
use diffkv.Format.Record.{BlobRecord, new_record}
use diffkv.Format.Index.{BlobIndex}
use diffkv.Format.Codec.{decode_record_header, decode_record}
use diffkv.Format.FileEnds.{footer_size, decode_header, decode_footer}
use diffkv.BlobFile.Reader.{read_at}

-- kMinReadaheadSize, kMaxReadaheadSize, and rocksdb's kDefaultPageSize.
abbrev pub min_readahead_size : ℕ
min_readahead_size = 4096

abbrev pub max_readahead_size : ℕ
max_readahead_size = 262144

abbrev pub default_page_size : ℕ
default_page_size = 4096

-- `file` is what a read sees of the file, `min_blob_size` the option.
pub record BlobFileIterator : Type 0 where
  pub file : Bytes
  pub file_number : ℕ
  pub file_size : ℕ
  pub min_blob_size : ℕ
  pub init : Bool
  pub end_of_blob_record : ℕ
  pub status : Option Status
  pub valid : Bool
  pub iterate_offset : ℕ
  pub cur_blob_record : BlobRecord
  pub cur_record_offset : ℕ
  pub cur_record_size : ℕ
  pub readahead_begin_offset : ℕ
  pub readahead_end_offset : ℕ
  pub readahead_size : ℕ

-- What the reads of Init answer, and the handle in the footer where that cannot be decoded.
pub record InitIo : Type 0 where
  pub header : Option Status
  pub footer : Option Status
  pub undecoded : BlockHandle

-- What the two reads of a record answer.
pub record NextIo : Type 0 where
  pub header : Option Status
  pub record_io : Option Status

abbrev pub with_status : Option Status → BlobFileIterator → BlobFileIterator
with_status s it = record it { status = s }

-- The constructor. `offset` and `size` stand for what the members that it does not set hold.
unfoldable pub new_iterator : Bytes → ℕ → ℕ → ℕ → ℕ → ℕ → BlobFileIterator
new_iterator file file_number file_size min_blob_size offset size = record {
  file = file;
  file_number = file_number;
  file_size = file_size;
  min_blob_size = min_blob_size;
  init = false;
  end_of_blob_record = 0;
  status = none;
  valid = false;
  iterate_offset = 0;
  cur_blob_record = new_record;
  cur_record_offset = offset;
  cur_record_size = size;
  readahead_begin_offset = 0;
  readahead_end_offset = 0;
  readahead_size = min_readahead_size;
}

-- Valid()
unfoldable pub is_valid : BlobFileIterator → Bool
is_valid it = it.valid && is_none it.status

-- GetBlobIndex
unfoldable pub blob_index : BlobFileIterator → BlobIndex
blob_index it = record {
  file_number = it.file_number;
  blob_handle = record { offset = it.cur_record_offset; size = it.cur_record_size };
}

module _ (c : Coding) (crc : Crc) (bh : BlockHandles) where
  -- The end of Init, with the status of the footer, which is not looked at.
  unfoldable pub find_end :
      Option Status → BlockHandle → BlobFileIterator → Outcome (Bool × BlobFileIterator)
  find_end s meta_index it =
      let end = sub64 (sub64 it.file_size (footer_size c crc bh)) meta_index.size in
      assert (ltb blob_header_size end)
      >> ok (true, record it { status = s; end_of_blob_record = end; init = true })

  unfoldable pub read_footer : InitIo → BlobFileIterator → Outcome (Bool × BlobFileIterator)
  unfolding find_end read_at
  read_footer io it =
      elim (read_at io.footer (sub64 it.file_size (footer_size c crc bh)) (footer_size c crc bh)
        it.file) [
          | fault ↦ fault
          | err s ↦ ok (false, with_status (some s) it)
          | ok slice ↦ elim (decode_footer c crc bh slice) [
            | fault ↦ fault
            | err s ↦ find_end (some s) io.undecoded it
            | ok (meta_index, rest) ↦ find_end none meta_index it
          ]
        ]

  -- Init
  unfoldable pub init_iterator : InitIo → BlobFileIterator → Outcome (Bool × BlobFileIterator)
  unfolding read_footer read_at
  init_iterator io it =
      elim (read_at io.header 0 blob_header_size it.file >>= λ slice. decode_header c slice) [
        | fault ↦ fault
        | err s ↦ ok (false, with_status (some s) it)
        | ok _ ↦ read_footer io it
      ]

-- The loop that doubles the readahead; `none` would be a loop that does not end.
unfoldable pub grow_readahead : ℕ → ℕ → ℕ → ℕ → Option ℕ
grow_readahead zero end wanted size = none
grow_readahead (suc fuel) end wanted size =
    let rest = grow_readahead fuel end wanted ((size * 2) % 2 ^ 64) in
    if leb (add64 end size) wanted && ltb size max_readahead_size then rest else some size

-- A range that Prefetch is asked for.
pub record Range : Type 0 where
  pub offset : ℕ
  pub size : ℕ

-- The readahead begins anew where the iterator has left it.
unfoldable pub align_readahead : BlobFileIterator → BlobFileIterator
align_readahead it =
    let begin = it.iterate_offset - it.iterate_offset % default_page_size in
    if ltb it.iterate_offset it.readahead_begin_offset
      || ltb it.readahead_end_offset it.iterate_offset
    then record it {
      readahead_begin_offset = begin;
      readahead_end_offset = begin;
      readahead_size = min_readahead_size;
    }
    else it

abbrev min : ℕ → ℕ → ℕ
min a b = if ltb b a then b else a

-- The members after a Prefetch of `size` bytes.
unfoldable pub prefetched : ℕ → BlobFileIterator → BlobFileIterator
prefetched size it = record it {
  readahead_end_offset = add64 it.readahead_end_offset size;
  readahead_size = min max_readahead_size ((size * 2) % 2 ^ 64);
}

-- A Prefetch of what the loop came to.
unfoldable pub ask : Option ℕ → BlobFileIterator → Outcome (Option Range × BlobFileIterator)
ask none a = fault
ask (some size) a =
    ok (some (record { offset = a.readahead_end_offset; size = size }), prefetched size a)

-- The rest of `prefetch`, of an aligned readahead.
unfoldable pub prefetch_to : ℕ → ℕ → BlobFileIterator → Outcome (Option Range × BlobFileIterator)
prefetch_to rounds wanted a =
    if leb a.readahead_end_offset wanted
    then ask (grow_readahead rounds a.readahead_end_offset wanted a.readahead_size) a
    else ok (none, a)

-- PrefetchAndGet, up to the read: what is prefetched, and the iterator.
unfoldable pub prefetch : BlobFileIterator → Outcome (Option Range × BlobFileIterator)
prefetch it =
    prefetch_to (max_readahead_size + 1)
      (add64 (add64 it.iterate_offset record_header_size) it.min_blob_size) (align_readahead it)

-- The end of PrefetchAndGet: the readahead is not left behind.
unfoldable pub catch_up : BlobFileIterator → BlobFileIterator
catch_up it =
    if ltb it.readahead_end_offset it.iterate_offset
    then record it { readahead_end_offset = it.iterate_offset }
    else it

module _ (c : Coding) (crc : Crc) (z : Codecs) where
  -- The record that GetBlobRecord has read.
  unfoldable pub take_record : ℕ → BlobRecord → BlobFileIterator → BlobFileIterator
  take_record record_size r it =
      let size = add64 record_header_size record_size in
      record it {
        status = none;
        valid = true;
        cur_blob_record = r;
        cur_record_offset = it.iterate_offset;
        cur_record_size = size;
        iterate_offset = add64 it.iterate_offset size;
      }

  -- GetBlobRecord
  unfoldable pub get_blob_record : NextIo → BlobFileIterator → Outcome BlobFileIterator
  unfolding take_record read_at
  get_blob_record io it =
      elim (read_at io.header it.iterate_offset record_header_size it.file >>= λ buffer.
      decode_record_header c crc z buffer) [
        | fault ↦ fault
        | err s ↦ ok (with_status (some s) it)
        | ok (d, _) ↦
            elim (read_at io.record_io (add64 it.iterate_offset record_header_size) d.record_size
                it.file
              >>= λ slice. decode_record c crc z d it.cur_blob_record slice) [
                | fault ↦ fault
                | err s ↦ ok (with_status (some s) it)
                | ok (r, _) ↦ ok (take_record d.record_size r it)
              ]
      ]

  -- PrefetchAndGet
  unfoldable pub prefetch_and_get : NextIo → BlobFileIterator → Outcome BlobFileIterator
  unfolding prefetch get_blob_record catch_up
  prefetch_and_get io it =
      if leb it.end_of_blob_record it.iterate_offset
      then ok (record it { valid = false })
      else (prefetch it >>= λ p. get_blob_record io p.1 >>= λ it'. ok (catch_up it'))

  -- Next
  unfoldable pub next : NextIo → BlobFileIterator → Outcome BlobFileIterator
  unfolding prefetch_and_get
  next io it = assert it.init >> prefetch_and_get io it

  -- The rest of SeekToFirst after Init.
  unfoldable pub go_to_first : NextIo → BlobFileIterator → Outcome BlobFileIterator
  unfolding prefetch_and_get
  go_to_first io it =
      prefetch_and_get io (record it { status = none; iterate_offset = blob_header_size })

  -- SeekToFirst
  unfoldable pub seek_to_first :
      BlockHandles → InitIo → NextIo → BlobFileIterator → Outcome BlobFileIterator
  unfolding go_to_first init_iterator
  seek_to_first bh init_io io it =
      if it.init
      then go_to_first io it
      else (init_iterator c crc bh init_io it >>= λ p. if p.0 then go_to_first io p.1 else ok p.1)

  -- The loop of IterateForPrev: whether it met an error, `total_length`, and the iterator. A record
  -- is longer than nothing, so there are at most as many rounds as the offset is large.
  unfoldable pub skip_records :
      (ℕ → Option Status) → ℕ → ℕ → ℕ → BlobFileIterator → Outcome (Bool × ℕ × BlobFileIterator)
  unfolding read_at
  skip_records io zero offset total_length it = fault
  skip_records io (suc fuel) offset total_length it = elim (ltb it.iterate_offset offset) [
    | false ↦ ok (false, total_length, it)
    | true ↦
        elim (read_at (io it.iterate_offset) it.iterate_offset record_header_size it.file
          >>= λ buffer. decode_record_header c crc z buffer) [
            | fault ↦ fault
            | err s ↦ ok (true, total_length, with_status (some s) it)
            | ok (d, _) ↦
                let total = add64 record_header_size d.record_size in
                skip_records io fuel offset total
                  (record it { status = none; iterate_offset = add64 it.iterate_offset total })
          ]
  ]

  -- The end of IterateForPrev: back to the record that holds the offset.
  unfoldable pub step_back : ℕ → Bool × ℕ × BlobFileIterator → BlobFileIterator
  step_back offset (true, total_length, it) = it
  step_back offset (false, total_length, it) = record it {
    valid = false;
    iterate_offset =
        if ltb offset it.iterate_offset
        then sub64 it.iterate_offset total_length
        else it.iterate_offset;
  }

  -- IterateForPrev, of an iterator that Init has prepared.
  unfoldable pub iterate_from_start :
      (ℕ → Option Status) → ℕ → BlobFileIterator → Outcome BlobFileIterator
  unfolding skip_records step_back
  iterate_from_start io offset it =
      if leb it.end_of_blob_record offset
      then ok (record it { status = some Status.invalid_argument; iterate_offset = offset })
      else (skip_records io (offset + 1) offset 0
            (record it { status = none; iterate_offset = blob_header_size })
          >>= λ r. ok (step_back offset r))

  -- IterateForPrev
  unfoldable pub iterate_for_prev :
      BlockHandles → InitIo → (ℕ → Option Status) → ℕ → BlobFileIterator → Outcome BlobFileIterator
  unfolding iterate_from_start init_iterator
  iterate_for_prev bh init_io io offset it =
      if it.init
      then iterate_from_start io offset it
      else (init_iterator c crc bh init_io it >>= λ p.
          if p.0 then iterate_from_start io offset p.1 else ok p.1)
