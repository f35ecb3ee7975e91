-- ===== src/BlobFile/MergeIterator.antt =====
-- BlobFileMergeIterator of src/blob_file_iterator.h and src/blob_file_iterator.cc. An iterator that the
-- heap or `current_` points to stands there itself; one that is dropped is not looked at again.
pub mod Finds
pub mod Least
pub mod Steps
pub mod Merges
pub mod Masked
use diffkv.Prelude.{
  Bool, true, false, not, ◌&&◌, ◌||◌, if◌then◌else◌, Option, none, some, is_none, List, [], ◌∷◌,
  Outcome, ok, fault, ◌>>=◌, ◌>>◌, assert, Status,
}
use diffkv.Coding.{Coding, Crc, BlockHandles}
use diffkv.Options.{Comparator}
use diffkv.Compression.{Codecs}
use diffkv.BlobFile.Iterator.{BlobFileIterator, InitIo, NextIo}
use diffkv.BlobFile.Iterator

-- `status` is the member status_.
pub record BlobFileMergeIterator : Type 0 where
  pub own_status : Option Status
  pub min_heap : List BlobFileIterator
  pub current : Option BlobFileIterator

-- status()
unfoldable pub status : BlobFileMergeIterator → Option Status
status m = elim m.current [
  | none ↦ m.own_status
  | some it ↦ elim it.status [ none ↦ m.own_status | some s ↦ some s ]
]

-- Valid()
unfoldable pub is_valid : BlobFileMergeIterator → Bool
unfolding status Iterator.is_valid
is_valid m = elim m.current [
  | none ↦ false
  | some it ↦ is_none (status m) && (Iterator.is_valid it && is_none it.status)
]

-- An iterator goes onto the heap where it has a record.
unfoldable pub push : BlobFileIterator → List BlobFileIterator → List BlobFileIterator
unfolding Iterator.is_valid
push it heap = if is_none it.status && Iterator.is_valid it then it ∷ heap else heap

-- std::priority_queue with BlobFileIterComparator: `earlier` is its choice among equal keys.
module _ (cmp : Comparator) (earlier : BlobFileIterator → BlobFileIterator → Bool) where
  unfoldable pub goes_first : BlobFileIterator → BlobFileIterator → Bool
  goes_first a b =
      not (cmp.less b.cur_blob_record.key a.cur_blob_record.key)
      && (cmp.less a.cur_blob_record.key b.cur_blob_record.key || earlier a b)

  -- The top of a heap that is not empty, and the heap without it.
  unfoldable pub top :
      BlobFileIterator → List BlobFileIterator → BlobFileIterator × List BlobFileIterator
  unfolding goes_first
  top it [] = (it, [])
  top it (x ∷ xs) =
      let rest = top x xs in if goes_first rest.0 it then (rest.0, it ∷ rest.1) else (it, x ∷ xs)

  -- The end of SeekToFirst.
  unfoldable pub start : List BlobFileIterator → BlobFileMergeIterator
  unfolding top
  start [] = record { own_status = some Status.aborted; min_heap = []; current = none }
  start (x ∷ xs) = record {
    own_status = none;
    min_heap = (top x xs).1;
    current = some (top x xs).0;
  }

  -- The end of Next.
  unfoldable pub advance : List BlobFileIterator → BlobFileMergeIterator → BlobFileMergeIterator
  unfolding top
  advance [] m = record m { min_heap = []; current = none }
  advance (x ∷ xs) m = record m { min_heap = (top x xs).1; current = some (top x xs).0 }

  module _ (c : Coding) (crc : Crc) (z : Codecs) where
    -- The loop of SeekToFirst.
    unfoldable pub seek_each :
        BlockHandles
        → List (BlobFileIterator × InitIo × NextIo)
        → List BlobFileIterator
        → Outcome (List BlobFileIterator)
    unfolding Iterator.seek_to_first push
    seek_each bh [] heap = ok heap
    seek_each bh ((it, init_io, io) ∷ its) heap = do
      it' ← Iterator.seek_to_first c crc z bh init_io io it
      seek_each bh its (push it' heap)

    -- SeekToFirst of a new merge iterator.
    unfoldable pub seek_to_first :
        BlockHandles → List (BlobFileIterator × InitIo × NextIo) → Outcome BlobFileMergeIterator
    unfolding seek_each start
    seek_to_first bh its = seek_each bh its [] >>= λ heap. ok (start heap)

    -- Next of the iterator that `current_` points to.
    unfoldable pub next_of :
        NextIo → Option BlobFileIterator → BlobFileMergeIterator → Outcome BlobFileMergeIterator
    unfolding Iterator.next advance push
    next_of io none m = fault
    next_of io (some it) m =
        Iterator.next c crc z io it >>= λ it'. ok (advance (push it' m.min_heap) m)

    -- Next
    unfoldable pub next : NextIo → BlobFileMergeIterator → Outcome BlobFileMergeIterator
    unfolding is_valid next_of
    next io m = assert (is_valid m) >> next_of io m.current m
