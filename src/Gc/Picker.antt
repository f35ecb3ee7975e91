-- ===== src/Gc/Picker.antt =====
-- BasicBlobGCPicker of src/blob_gc_picker.cc and BlobGC of src/blob_gc.cc. A pointer to a file of the
-- storage is the file's number.
use diffkv.Prelude.{
  ℕ, ◌+◌, ◌-◌, ◌/◌, ◌^◌, ◌==◌, ltb, leb, Bool, true, false, not, ◌&&◌, if◌then◌else◌, Option, none,
  some, List, [], ◌∷◌, ◌++◌, map, Outcome, ok, err, fault, ◌>>=◌, ◌>>◌, assert, add64, sub64,
  length,
}
use diffkv.Prelude.Assoc.{find, modify}
use diffkv.Options.{CfOptions}
use diffkv.Format.Bounds.{sorted}
use diffkv.Format.FileMeta.{BlobFileMeta, FileState, FileEvent, same_state, file_state_transit}
use diffkv.Storage.{BlobStorage, find_file}

-- The locals of the loop of PickBlobGC. The files come in the order in which they were pushed.
pub record Picking : Type 0 where
  pub blob_files : List (ℕ × BlobFileMeta)
  pub batch_size : ℕ
  pub estimate_output_size : ℕ
  pub stop_picking : Bool
  pub maybe_continue_next_time : Bool
  pub cnt : ℕ

abbrev pub new_picking : Picking
new_picking = record {
  blob_files = [];
  batch_size = 0;
  estimate_output_size = 0;
  stop_picking = false;
  maybe_continue_next_time = false;
  cnt = 0;
}

-- BlobGC, less the column family.
pub record BlobGc : Type 0 where
  pub inputs : List ℕ
  pub outputs : List ℕ
  pub trigger_next : Bool

-- CheckBlobFile
unfoldable pub check_blob_file : Option BlobFileMeta → Outcome Bool
check_blob_file none = ok false
check_blob_file (some m) =
    assert (not (same_state m.state FileState.init)) >> ok (same_state m.state FileState.normal)

-- The test of the loop: an assert, and then one of two ways to go on.
abbrev pub on_check : Outcome Bool → Bool → Outcome Picking → Outcome Picking → Outcome Picking
on_check (ok fine) skipped take continue = if fine && not skipped then take else continue
on_check (err s) skipped take continue = err s
on_check fault skipped take continue = fault

module _ {R : Type 0} (o : CfOptions R) where
  -- The branch that pushes a file.
  unfoldable pub push : ℕ → BlobFileMeta → Picking → Picking
  push n m p =
      let batch = add64 p.batch_size m.file_size in
      record p {
        blob_files = p.blob_files ++ ((n, m) ∷ []);
        batch_size = batch;
        estimate_output_size = add64 p.estimate_output_size (sub64 m.file_size m.discardable_size);
        stop_picking = leb o.max_gc_batch_size batch;
      }

  -- Whether a file that passes CheckBlobFile is skipped all the same.
  abbrev pub is_skipped : BlobFileMeta → Bool
  is_skipped m = o.level_merge && (m.file_type == sorted)

  -- The loop over the scores, of which there are `size`. The message about a file that is skipped
  -- reads its number, whether or not there is such a file; a target size of 0 is divided by.
  unfoldable pub pick_loop : ℕ → BlobStorage R → List (ℕ × R) → Picking → Outcome Picking
  unfolding check_blob_file push find_file
  pick_loop size s [] p = ok p
  pick_loop size s ((n, score) ∷ rest) p0 =
      let p = record p0 { cnt = p0.cnt + 1 } in
      let continue = pick_loop size s rest p in
      elim (find_file n s) [
        | none ↦ fault
        | some m ↦
            on_check (check_blob_file (some m)) (is_skipped m)
              (if p.stop_picking
                then assert (not (s.cf_options.blob_file_target_size == 0))
                  >> (if ltb (2 ^ 30 / s.cf_options.blob_file_target_size) (size - p.cnt)
                      then ok (record p { maybe_continue_next_time = true })
                      else continue)
                else pick_loop size s rest (push n m p))
              continue
      ]

  -- The checks after the loop.
  unfoldable pub is_worth : Picking → Bool
  is_worth p = elim p.blob_files [
    | [] ↦ false
    | (e ∷ es) ↦
        not (ltb p.batch_size o.min_gc_batch_size)
        && not (
            (length es == 0) && (leb e.1.file_size o.merge_small_file_threshold && not e.1.gc_mark))
  ]

abbrev pub clear_mark : BlobFileMeta → BlobFileMeta
clear_mark m = record m { gc_mark = false }

abbrev pub first : ℕ × BlobFileMeta → ℕ
first e = e.0

module _ {R : Type 0} where
  -- A transition of the file behind a pointer.
  unfoldable pub transit_at : FileEvent → ℕ → BlobStorage R → Outcome (BlobStorage R)
  transit_at e n s = elim (find n s.files) [
    | none ↦ fault
    | some m ↦ file_state_transit e m >>= λ m'. ok (record s { files = modify n (λ _. m') s.files })
  ]

  -- MarkFilesBeingGC
  unfoldable pub mark_files_being_gc : List ℕ → BlobStorage R → Outcome (BlobStorage R)
  unfolding transit_at
  mark_files_being_gc [] s = ok s
  mark_files_being_gc (n ∷ ns) s =
      transit_at FileEvent.gc_begin n s >>= λ s'. mark_files_being_gc ns s'

  unfoldable pub release_inputs : List ℕ → BlobStorage R → Outcome (BlobStorage R)
  unfolding transit_at
  release_inputs [] s = ok s
  release_inputs (n ∷ ns) s =
      transit_at FileEvent.gc_completed n (record s { files = modify n clear_mark s.files })
      >>= λ s'. release_inputs ns s'

  unfoldable pub release_outputs : List ℕ → BlobStorage R → Outcome (BlobStorage R)
  unfolding transit_at
  release_outputs [] s = ok s
  release_outputs (n ∷ ns) s = transit_at FileEvent.gc_completed n s >>= λ s'. release_outputs ns s'

  -- ReleaseGcFiles
  unfoldable pub release_gc_files : BlobGc → BlobStorage R → Outcome (BlobStorage R)
  unfolding release_inputs release_outputs
  release_gc_files gc s = release_inputs gc.inputs s >>= λ s'. release_outputs gc.outputs s'

  -- The end of PickBlobGC, with the constructor of BlobGC, which marks the files.
  unfoldable pub start_gc :
      CfOptions R → BlobStorage R → Picking → Outcome (Option BlobGc × BlobStorage R)
  unfolding is_worth mark_files_being_gc
  start_gc o s p = elim (is_worth o p) [
    | false ↦ ok (none, s)
    | true ↦ mark_files_being_gc (map first p.blob_files) s >>= λ s'. ok (
      some (record {
        inputs = map first p.blob_files;
        outputs = [];
        trigger_next = p.maybe_continue_next_time;
      }),
      s',
    )
  ]

  -- PickBlobGC
  unfoldable pub pick_blob_gc :
      CfOptions R → BlobStorage R → Outcome (Option BlobGc × BlobStorage R)
  unfolding pick_loop start_gc
  pick_blob_gc o s = pick_loop o (length s.gc_score) s s.gc_score new_picking >>= start_gc o s
