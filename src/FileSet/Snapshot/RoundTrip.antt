-- ===== src/FileSet/Snapshot/RoundTrip.antt =====
-- A manifest that WriteSnapshot starts is read back by Recover: the live files of every column family.
use diffkv.Prelude.{
  ℕ, ◌≡◌, refl, sym, ap, ◌∙◌, ◌==◌, Bool, true, false, if◌then◌else◌, none, some, List, [], ◌∷◌,
  map, Bytes, All, ok, IsU32, IsU64, Bool-cases, ==_iff, inl, inr, arith,
}
use diffkv.Prelude.Assoc.{find, has, assign, find-assign, Distinct, Fresh-nil}
use diffkv.Coding.{Coding, IsCoding}
use diffkv.Format.Bounds.{decode_into, decode_into_whole}
use diffkv.Format.FileMeta.{BlobFileMeta, Uninit, make_default}
use diffkv.Format.FileMeta.RoundTrip.{IsMeta, persist}
use diffkv.Edit.{
  VersionEdit, new_edit, set_next_file_number, set_column_family_id, encode_edit, decode_edit,
}
use diffkv.Edit.RoundTrip.{persistent, decode_edit-encode_edit}
use diffkv.Storage.{BlobStorage}
use diffkv.Storage.Invariant.{IsWellFormed}
use diffkv.Collector.Family.{CfEdits, no_edits}
use diffkv.Collector.Batch.{
  EditCollector, new_collector, add_files, delete_files, update_files, collect, or_none,
  take_number, add_edit, get_next_file_number,
}
use diffkv.FileSet.{FileSet, snapshot_files, snapshot_families, write_snapshot}
use diffkv.FileSet.Recover.{read_edits}
use diffkv.FileSet.Snapshot.{
  live_files, by_file_number, with_added, snapshot_files-with_added, adding, add_files-adding,
  live_files-Distinct,
}

module _ (c : Coding) (law : IsCoding c) (u : Uninit) where
  -- What a file is after it was written and read.
  abbrev pub read_back : List BlobFileMeta → List BlobFileMeta
  read_back ms = map (persist (make_default u)) ms

  has-read_back :
      (k : ℕ) (ms : List BlobFileMeta)
      → has k (by_file_number (read_back ms)) ≡ has k (by_file_number ms)
  unfolding find persist
  has-read_back k [] = refl
  has-read_back k (m ∷ ms) = ground (arith, has-read_back k ms)

  read_back-Distinct :
      (ms : List BlobFileMeta)
      → Distinct (by_file_number ms)
      → Distinct (by_file_number (read_back ms))
  unfolding persist
  read_back-Distinct [] d = tt
  read_back-Distinct (m ∷ ms) (new, d) =
      (has-read_back m.file_number ms ∙ new, read_back-Distinct ms d)

  abbrev family_edit : ℕ → List BlobFileMeta → VersionEdit
  family_edit cf ms = record new_edit { column_family_id = cf; added_files = ms }

  abbrev number_edit : ℕ → VersionEdit
  number_edit n = record new_edit { has_next_file_number = true; next_file_number = n }

  family_edit_read :
      (cf : ℕ) (ms : List BlobFileMeta)
      → IsU32 cf
      → All IsMeta ms
      → decode_into (decode_edit c u new_edit) (encode_edit c (family_edit cf ms))
        ≡ ok (family_edit cf (read_back ms))
  unfolding persistent
  family_edit_read cf ms range metas =
      decode_into_whole (decode_edit c u new_edit) (encode_edit c (family_edit cf ms)) _ (
        decode_edit-encode_edit c law u (family_edit cf ms) (record {
          next_range = omega arith;
          next_unset = λ e. refl;
          family_range = range;
          added_range = metas;
          deleted_range = tt;
          updated_range = tt;
          updated_distinct = tt;
        }))

  number_edit_read :
      (n : ℕ)
      → IsU64 n
      → decode_into (decode_edit c u new_edit) (encode_edit c (number_edit n)) ≡ ok (number_edit n)
  unfolding persistent
  number_edit_read n range =
      decode_into_whole (decode_edit c u new_edit) (encode_edit c (number_edit n)) _ (
        decode_edit-encode_edit c law u (number_edit n) (record {
          next_range = range;
          next_unset = λ e. cc;
          family_range = omega arith;
          added_range = tt;
          deleted_range = tt;
          updated_range = tt;
          updated_distinct = tt;
        }))

  -- The collector in the middle of a snapshot.
  abbrev reading : ℕ → List (ℕ × CfEdits) → EditCollector
  reading n cfs = record {
    status = none;
    sealed = false;
    has_next_file_number = true;
    next_file_number = n;
    column_families = cfs;
  }

  -- A column family that has no edits yet.
  abbrev IsEmptyIn : List (ℕ × CfEdits) → ℕ → Type 0
  IsEmptyIn cfs cf = or_none (find cf cfs) ≡ no_edits

  collect-family :
      (cf : ℕ) (ms : List BlobFileMeta) (cfs : List (ℕ × CfEdits))
      → IsEmptyIn cfs cf
      → Distinct (by_file_number ms)
      → collect (family_edit cf ms) (or_none (find cf cfs)) ≡ (none, adding ms)
  unfolding collect delete_files update_files
  collect-family cf ms cfs empty d =
      ap (λ x. collect (family_edit cf ms) x) empty
      ∙ rw (add_files-adding ms no_edits (Fresh-nil _) d)
          (rw (add_files-adding ms no_edits (Fresh-nil _) d))

  add_edit-family :
      (cf n : ℕ) (ms : List BlobFileMeta) (cfs : List (ℕ × CfEdits))
      → IsEmptyIn cfs cf
      → Distinct (by_file_number ms)
      → add_edit (family_edit cf ms) (reading n cfs) ≡ (none, reading n (assign cf (adding ms) cfs))
  unfolding add_edit take_number
  add_edit-family cf n ms cfs empty d =
      rw (collect-family cf ms cfs empty d, add_edit, collect-family cf ms cfs empty d)

  add_edit-number :
      (n : ℕ) → add_edit (number_edit n) new_collector ≡ (none, reading n ((0, no_edits) ∷ []))
  unfolding add_edit take_number collect add_files delete_files update_files find assign
  add_edit-number n = ground arith

  -- The reader hands the records over without a corruption.
  abbrev pub intact : List Bytes → List (Bytes × Bool)
  intact rs = map (λ b. (b, false)) rs

  -- The batches of the column families.
  abbrev pub batches :
      {R : Type 0} → List (ℕ × BlobStorage R) → List (ℕ × CfEdits) → List (ℕ × CfEdits)
  batches [] cfs = cfs
  batches ((cf, s) ∷ cs) cfs = batches cs (assign cf (adding (read_back (live_files s.files))) cfs)

  -- The storages can be written: their ids and their files' fields fit their types.
  abbrev pub IsWritten : {R : Type 0} → ℕ × BlobStorage R → Type 0
  IsWritten e = IsU32 e.0 × IsWellFormed e.1 × All IsMeta (live_files e.1.files)

  IsEmptyIn-next :
      {R : Type 0} (cf : ℕ) (batch : CfEdits) (cfs : List (ℕ × CfEdits))
      (cs : List (ℕ × BlobStorage R))
      → has cf cs ≡ false
      → All (λ e. IsEmptyIn cfs e.0) cs
      → All (λ e. IsEmptyIn (assign cf batch cfs) e.0) cs
  unfolding find
  IsEmptyIn-next cf batch cfs [] new a = tt
  IsEmptyIn-next cf batch cfs ((j, s) ∷ cs) new (empty, a) =
      let same : find j (assign cf batch cfs) ≡ find j cfs =
        find-assign cf j batch cfs ∙ ground arith in
      (ap or_none same ∙ empty, IsEmptyIn-next cf batch cfs cs (ground arith) a)

  start-IsEmptyIn :
      {R : Type 0} (cs : List (ℕ × BlobStorage R))
      → All (λ e. IsEmptyIn ((0, no_edits) ∷ []) e.0) cs
  unfolding find
  start-IsEmptyIn [] = tt
  start-IsEmptyIn ((cf, s) ∷ cs) = (ground arith, start-IsEmptyIn cs)

  family_written :
      {R : Type 0} (cf : ℕ) (s : BlobStorage R)
      → encode_edit c (snapshot_files s.files (set_column_family_id cf new_edit))
        ≡ encode_edit c (family_edit cf (live_files s.files))
  unfolding with_added set_column_family_id
  family_written cf s =
      ap (λ e. encode_edit c e)
        (snapshot_files-with_added s.files (set_column_family_id cf new_edit))

  read_edits-families :
      {R : Type 0} (cs : List (ℕ × BlobStorage R)) (n : ℕ) (cfs : List (ℕ × CfEdits))
      → All IsWritten cs
      → Distinct cs
      → All (λ e. IsEmptyIn cfs e.0) cs
      → read_edits c u (intact (snapshot_families c cs)) (reading n cfs)
        ≡ ok (reading n (batches cs cfs))
  unfolding read_edits snapshot_families
  read_edits-families [] n cfs w d a = refl
  read_edits-families ((cf, s) ∷ cs) n cfs ((range, v, metas), w) (new, d) (empty, a) =
      let ms = live_files s.files in
      let batch = adding (read_back ms) in
      let once = read_back-Distinct ms (live_files-Distinct s.files v.keyed v.distinct) in
      rw
        (
          family_written cf s,
          family_edit_read cf ms range metas,
          add_edit-family cf n (read_back ms) cfs empty once,
        )
        (read_edits-families cs n (assign cf batch cfs) w d (IsEmptyIn-next cf batch cfs cs new a))

  -- The first record, and then the families.
  read_edits-snapshot :
      {R : Type 0} (fs : FileSet R)
      → IsU64 fs.next_file_number
      → All IsWritten fs.column_families
      → Distinct fs.column_families
      → read_edits c u (intact (write_snapshot c fs)) new_collector
        ≡ ok (reading fs.next_file_number (batches fs.column_families ((0, no_edits) ∷ [])))
  unfolding read_edits write_snapshot set_next_file_number
  read_edits-snapshot fs range w d =
      rw (number_edit_read fs.next_file_number range, add_edit-number fs.next_file_number)
        (read_edits-families fs.column_families fs.next_file_number ((0, no_edits) ∷ []) w d
          (start-IsEmptyIn fs.column_families))

  find-batches_other :
      {R : Type 0} (cf : ℕ) (cs : List (ℕ × BlobStorage R)) (cfs : List (ℕ × CfEdits))
      → has cf cs ≡ false
      → find cf (batches cs cfs) ≡ find cf cfs
  unfolding find
  find-batches_other cf [] cfs h = refl
  find-batches_other cf ((j, s) ∷ cs) cfs h =
      let batch = adding (read_back (live_files s.files)) in
      find-batches_other cf cs (assign j batch cfs) (ground arith)
      ∙ (find-assign j cf batch cfs ∙ ground arith)

  find-batches :
      {R : Type 0} (cf : ℕ) (s : BlobStorage R) (cs : List (ℕ × BlobStorage R))
      (cfs : List (ℕ × CfEdits))
      → Distinct cs
      → find cf cs ≡ some s
      → find cf (batches cs cfs) ≡ some (adding (read_back (live_files s.files)))
  unfolding find
  find-batches cf s [] cfs d h = cc
  find-batches cf s ((j, x) ∷ cs) cfs (new, d) h =
      let batch = adding (read_back (live_files x.files)) in
      elim (Bool-cases (j == cf)) [
        | inr other ↦ find-batches cf s cs (assign j batch cfs) d (rw (other) at h)
        | inl same ↦
            let at : j ≡ cf = (==_iff j cf).0 same in
            let mine : x ≡ s = cc (rw (same) at h) in
            let last : (if j == cf then some batch else find cf cfs)
                ≡ some (adding (read_back (live_files s.files))) =
              rw (same) (ap (λ y. some (adding (read_back (live_files y.files)))) mine) in
            find-batches_other cf cs (assign j batch cfs) (ap (λ i. has i cs) (sym at) ∙ new)
            ∙ (find-assign j cf batch cfs ∙ last)
      ]

  -- The records of a snapshot, read without a corruption, give a collector without an error, with the
  -- next file number, in which each column family of the set has its live files to add, with their
  -- persistent fields, and nothing to delete or update.
  pub read_edits-write_snapshot :
      {R : Type 0} (fs : FileSet R)
      → IsU64 fs.next_file_number
      → All IsWritten fs.column_families
      → Distinct fs.column_families
      → (k : EditCollector) × (read_edits c u (intact (write_snapshot c fs)) new_collector ≡ ok k)
        × (get_next_file_number k ≡ ok fs.next_file_number)
        × ((cf : ℕ) (s : BlobStorage R)
            → find cf fs.column_families ≡ some s
            → find cf k.column_families ≡ some (adding (read_back (live_files s.files))))
  unfolding get_next_file_number
  read_edits-write_snapshot fs range w d = (
    reading fs.next_file_number (batches fs.column_families ((0, no_edits) ∷ [])),
    read_edits-snapshot fs range w d,
    refl,
    λ cf s h. find-batches cf s fs.column_families ((0, no_edits) ∷ []) d h,
  )
