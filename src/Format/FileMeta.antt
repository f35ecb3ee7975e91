-- ===== src/Format/FileMeta.antt =====
-- BlobFileMeta of src/blob_format.h: what is known of a blob file, and its life cycle.
pub mod States
pub mod RoundTrip
use diffkv.Prelude.{
  ℕ, ◌+◌, ◌-◌, ◌≡◌, Bool, true, false, not, ◌&&◌, ◌||◌, ◌==◌, ltb, Option, none, some, [], Bytes,
  Outcome, ok, err, fault, ◌>>=◌, ◌>>◌, assert, or_err, Status, add64, sub64, if◌then◌else◌, ◌++◌,
}
use diffkv.Coding.{Coding}
use diffkv.Format.Bounds.{unsorted, blob_header_size}

pub data FileState : Type 0 where
  init normal pending_lsm being_gc pending_gc obsolete to_merge to_gc : FileState

pub data FileEvent : Type 0 where
  flush_completed compaction_completed gc_completed gc_begin gc_output : FileEvent
  flush_or_compaction_output db_restart delete need_merge reset need_gc : FileEvent
  -- FileEvent::kInit, which no case of the switch names.
  init_event : FileEvent

pub record BlobFileMeta : Type 0 where
  pub file_number : ℕ
  pub file_size : ℕ
  pub file_entries : ℕ
  pub file_type : ℕ
  pub file_level : ℕ
  pub smallest_key : Bytes
  pub largest_key : Bytes
  pub state : FileState
  pub discardable_size : ℕ
  pub gc_mark : Bool

abbrev pub same_state : FileState → FileState → Bool
same_state FileState.init FileState.init = true
same_state FileState.normal FileState.normal = true
same_state FileState.pending_lsm FileState.pending_lsm = true
same_state FileState.being_gc FileState.being_gc = true
same_state FileState.pending_gc FileState.pending_gc = true
same_state FileState.obsolete FileState.obsolete = true
same_state FileState.to_merge FileState.to_merge = true
same_state FileState.to_gc FileState.to_gc = true
same_state a b = false

unfoldable pub is_obsolete : BlobFileMeta → Bool
is_obsolete m = same_state m.state FileState.obsolete

-- The constructor with arguments: the fields that are not persistent have their defaults.
unfoldable pub make : ℕ → ℕ → ℕ → ℕ → Bytes → Bytes → ℕ → BlobFileMeta
make number size entries level smallest largest type = record {
  file_number = number;
  file_size = size;
  file_entries = entries;
  file_type = type;
  file_level = level;
  smallest_key = smallest;
  largest_key = largest;
  state = FileState.init;
  discardable_size = 0;
  gc_mark = false;
}

-- `BlobFileMeta() = default` leaves file_entries_ and file_level_ uninitialised.
pub record Uninit : Type 0 where
  pub entries : ℕ
  pub level : ℕ

unfoldable pub make_default : Uninit → BlobFileMeta
unfolding make
make_default u = make 0 0 u.entries u.level [] [] unsorted

-- operator== compares four fields.
unfoldable pub same_meta : BlobFileMeta → BlobFileMeta → Bool
same_meta a b =
    (a.file_number == b.file_number)
    && ((a.file_size == b.file_size)
        && ((a.file_entries == b.file_entries) && (a.file_level == b.file_level)))

-- FileStateTransit on the state alone; `fault` is a failed assert.
unfoldable pub transit : FileEvent → FileState → Outcome FileState
transit FileEvent.flush_completed FileState.pending_lsm = ok FileState.normal
transit FileEvent.flush_completed s =
    assert (
      same_state s FileState.pending_gc
      || (same_state s FileState.normal
          || (same_state s FileState.being_gc || same_state s FileState.obsolete)))
    >> ok s
transit FileEvent.gc_completed FileState.obsolete = ok FileState.obsolete
transit FileEvent.gc_completed s =
    assert (same_state s FileState.pending_gc || same_state s FileState.being_gc)
    >> ok FileState.normal
transit FileEvent.compaction_completed s =
    assert (same_state s FileState.pending_lsm) >> ok FileState.normal
transit FileEvent.gc_begin s = assert (same_state s FileState.normal) >> ok FileState.being_gc
transit FileEvent.gc_output s = assert (same_state s FileState.init) >> ok FileState.pending_gc
transit FileEvent.flush_or_compaction_output s =
    assert (same_state s FileState.init) >> ok FileState.pending_lsm
transit FileEvent.db_restart s = assert (same_state s FileState.init) >> ok FileState.normal
transit FileEvent.delete s = assert (not (same_state s FileState.obsolete)) >> ok FileState.obsolete
transit FileEvent.need_merge s =
    if same_state s FileState.to_gc || same_state s FileState.obsolete
    then ok s
    else ok FileState.to_merge
transit FileEvent.reset s = ok FileState.normal
transit FileEvent.need_gc s = if same_state s FileState.obsolete then ok s else ok FileState.to_gc
transit FileEvent.init_event s = fault

unfoldable pub file_state_transit : FileEvent → BlobFileMeta → Outcome BlobFileMeta
file_state_transit e m = do s ← transit e m.state; ok (record m { state = s })

-- The two asserts compare with file_size_.
unfoldable pub add_discardable_size : ℕ → BlobFileMeta → Outcome BlobFileMeta
add_discardable_size n m =
    let total = add64 m.discardable_size n in
    assert (ltb n m.file_size)
    >> (assert (ltb total m.file_size) >> ok (record m { discardable_size = total }))

-- NoLiveData, over a footer of the given size.
unfoldable pub no_live_data : ℕ → BlobFileMeta → Bool
no_live_data footer_size m =
    m.discardable_size == sub64 (sub64 m.file_size blob_header_size) footer_size

module _ (c : Coding) where
  unfoldable pub encode_meta : BlobFileMeta → Bytes
  encode_meta m =
      c.put_varint64 m.file_number
      ++ (c.put_varint64 m.file_size
          ++ (c.put_varint64 m.file_entries
              ++ (c.put_varint32 m.file_type
                  ++ (c.put_varint32 m.file_level
                      ++ (c.put_length_prefixed m.smallest_key
                          ++ c.put_length_prefixed m.largest_key)))))

  -- BlobFileMeta::DecodeFrom into `m`; the keys come last.
  unfoldable pub decode_meta : BlobFileMeta → Bytes → Outcome (BlobFileMeta × Bytes)
  decode_meta m src = do
    (number, s1) ← or_err Status.corruption (c.get_varint64 src)
    (size, s2) ← or_err Status.corruption (c.get_varint64 s1)
    (entries, s3) ← or_err Status.corruption (c.get_varint64 s2)
    (type, s4) ← or_err Status.corruption (c.get_varint32 s3)
    (level, s5) ← or_err Status.corruption (c.get_varint32 s4)
    (smallest, s6) ← or_err Status.corruption (c.get_length_prefixed s5)
    (largest, rest) ← or_err Status.corruption (c.get_length_prefixed s6)
    ok (
      record m {
        file_number = number;
        file_size = size;
        file_entries = entries;
        file_type = type;
        file_level = level;
        smallest_key = smallest;
        largest_key = largest;
      },
      rest,
    )

  -- DecodeFromLegacy reads a number and a size; its asserts hold of a new meta.
  unfoldable pub decode_legacy : BlobFileMeta → Bytes → Outcome (BlobFileMeta × Bytes)
  decode_legacy m src = do
    (number, s1) ← or_err Status.corruption (c.get_varint64 src)
    (size, rest) ← or_err Status.corruption (c.get_varint64 s1)
    ok (record m { file_number = number; file_size = size }, rest)
