-- ===== src/BlobFile/Reader.antt =====
-- BlobFileReader and BlobFilePrefetcher of src/blob_file_reader.cc, over the bytes of the file. The
-- cache of values is not modelled.
use diffkv.Prelude.{
  ℕ, ◌-◌, ◌*◌, ◌%◌, ◌^◌, ◌==◌, ltb, leb, Bool, if◌then◌else◌, Option, none, some, Bytes, Outcome,
  ok, err, ◌>>=◌, ◌>>◌, require, Status, length, take, drop, add64,
}
use diffkv.Coding.{Coding, Crc, BlockHandles, BlockHandle}
use diffkv.Compression.{Codecs}
use diffkv.Format.Bounds.{decode_into}
use diffkv.Format.Record.{BlobRecord}
use diffkv.Format.Index.{BlobHandle}
use diffkv.Format.Codec.{decode_record_header, decode_record}
use diffkv.Format.FileEnds.{footer_size, decode_footer}

-- RandomAccessFileReader::Read, with the file system's answer: as many bytes as there are.
unfoldable pub read_at : Option Status → ℕ → ℕ → Bytes → Outcome Bytes
read_at none offset size file = ok (take size (drop offset file))
read_at (some x) offset size file = err x

module _ (c : Coding) (crc : Crc) where
  -- Open: the footer of the file.
  unfoldable pub open_reader : BlockHandles → Option Status → ℕ → Bytes → Outcome BlockHandle
  unfolding read_at decode_into
  open_reader bh io file_size file = do
    require (leb (footer_size c crc bh) file_size) Status.corruption
    buffer ← read_at io (file_size - footer_size c crc bh) (footer_size c crc bh) file
    decode_into (decode_footer c crc bh) buffer

  -- ReadRecord
  unfoldable pub read_record :
      Codecs → Option Status → BlobHandle → BlobRecord → Bytes → Outcome BlobRecord
  unfolding read_at
  read_record z io handle target file = do
    blob ← read_at io handle.offset handle.size file
    require (handle.size == length blob) Status.corruption
    (d, rest) ← decode_record_header c crc z blob
    (r, left) ← decode_record c crc z d target rest
    ok r

-- kMaxReadaheadSize
abbrev pub max_readahead_size : ℕ
max_readahead_size = 64 * 2 ^ 10

pub record BlobFilePrefetcher : Type 0 where
  pub last_offset : ℕ
  pub readahead_size : ℕ
  pub readahead_limit : ℕ
  pub only_value : Bool

abbrev max : ℕ → ℕ → ℕ
max a b = if ltb a b then b else a

abbrev min : ℕ → ℕ → ℕ
min a b = if ltb b a then b else a

-- BlobFilePrefetcher::Get before the read: what it asks the file to prefetch, and its members.
unfoldable pub prefetch : BlobHandle → BlobFilePrefetcher → Option (ℕ × ℕ) × BlobFilePrefetcher
prefetch handle p =
    let end = add64 handle.offset handle.size in
    if handle.offset == p.last_offset
    then (if ltb p.readahead_limit end
        then (let size = max handle.size p.readahead_size in
            (
              some (handle.offset, size),
              record p {
                last_offset = end;
                readahead_limit = add64 handle.offset size;
                readahead_size = min max_readahead_size ((size * 2) % 2 ^ 64);
              },
            ))
        else (none, record p { last_offset = end }))
    else (none, record p { last_offset = end; readahead_size = 0; readahead_limit = 0 })
