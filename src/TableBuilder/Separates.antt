-- ===== src/TableBuilder/Separates.antt =====
-- The values that TitanTableBuilder writes to blob files are read back at the indexes in the table.
use diffkv.Prelude.{
  ℕ, ◌≡◌, refl, sym, ap, ◌∙◌, ◌⊎◌, inl, inr, leb, Bool, true, false, ◌&&◌, if◌then◌else◌, Option,
  none, some, is_none, List, [], ◌∷◌, ◌++◌, Bytes, Outcome, ok, ◌>>=◌, >>=-eq-ok, ok-injective,
  Outcome-cases, Status, length, Bool-cases, Option-cases,
}
use mathlib.Core.Path.{subst}
use mathlib.Core.List.{append-nil}
use diffkv.Coding.{Coding, IsCoding, Crc, IsCrc, BlockHandles, null_block_handle}
use diffkv.Options.{Comparator, CfOptions}
use diffkv.Compression.{CompressionType, Codecs, IsCodecs}
use diffkv.Format.Record.{BlobRecord}
use diffkv.Format.Index.{BlobHandle, encode_index}
use diffkv.Format.Bounds.{sorted}
use diffkv.Format.FileMeta.{BlobFileMeta, FileEvent, make, file_state_transit}
use diffkv.BlobFile.Builder.{BlobFileBuilder, add, finish_file}
use diffkv.BlobFile.Reader.{read_record}
use diffkv.BlobFile.RoundTrip.{IsWritable, request, read_added, add-ok, add-fine}
use diffkv.Format.FileEnds.{encode_footer}
use diffkv.Storage.{BlobStorage}
use diffkv.FileSet.{first_error}
use diffkv.TableBuilder.{
  ValueType, ParsedKey, InternalKeys, BlobFileHandle, TableBuilder, AddIo, builder_status, status,
  is_ok, base_add, keep_blob_file, drop_blob_file, finish_blob_file, open_blob_file, record_for,
  full_blob_file, write_blob, add_blob, as_index, separate, is_value, is_blob_index, is_normal,
  BlobRunMode, add_parsed, add_entry,
}

value_no_index : (type : ValueType) → is_value type ≡ true → is_blob_index type ≡ false
value_no_index ValueType.value e = refl
value_no_index ValueType.blob_index e = cc e
value_no_index (ValueType.other_type n) e = refl

-- The file of the number, open or finished.
abbrev pub IsFileOf : TableBuilder → ℕ → Bytes → Type 0
IsFileOf b n file =
    ((b.blob_handle ≡ some n) × (f : BlobFileBuilder) × (b.blob_builder ≡ some f) × (f.file ≡ file))
    ⊎ ((m : BlobFileMeta) × (before : List (BlobFileMeta × BlobFileHandle)) × (b.finished_blobs
          ≡ before ++ ((m, record { number = n; file = file }) ∷ [])))

first_error-none :
    (a b d : Option Status)
    → is_none (first_error a (first_error b d)) ≡ true
    → (a ≡ none) × (b ≡ none) × (d ≡ none)
first_error-none none none none e = (refl, refl, refl)
first_error-none none none (some x) e = cc e
first_error-none none (some x) d e = cc e
first_error-none (some x) b d e = cc e

is_ok-parts :
    (b : TableBuilder)
    → is_ok b ≡ true
    → (b.status ≡ none) × (b.base_status ≡ none) × (builder_status b.blob_builder ≡ none)
unfolding status
is_ok-parts b e = first_error-none b.status b.base_status (builder_status b.blob_builder) e

is_ok_of :
    (b : TableBuilder)
    → b.status ≡ none
    → b.base_status ≡ none
    → builder_status b.blob_builder ≡ none
    → is_ok b ≡ true
unfolding status
is_ok_of b e f g = rw (e, f, g)

not_ok : (b : TableBuilder) → is_ok b ≡ true → is_ok b ≡ false → ⊥
not_ok b e f = cc (e, f)

pub finish_file-longer :
    (c : Coding) (crc : Crc) (bh : BlockHandles) (io flush : Option Status) (f : BlobFileBuilder)
    → (finish_file c crc bh io flush f).status ≡ none
    → (more : Bytes) × ((finish_file c crc bh io flush f).file ≡ f.file ++ more)
unfolding finish_file
finish_file-longer c crc bh io flush f e = elim (Option-cases f.status) [
  | inr (x, bad) ↦ absurd (cc (bad, rw (bad, finish_file) at e))
  | inl good ↦ elim (Option-cases io) [
    | inr (x, bad) ↦ absurd (cc (rw (good, finish_file, bad) at e))
    | inl fine ↦ (encode_footer c crc bh null_block_handle, rw (good, finish_file, fine))
  ]
]

module _ (c : Coding) (crc : Crc) (bh : BlockHandles) where
  -- A file that is finished without an error keeps what was in it.
  finish_blob_file-kept :
      (io : AddIo) (level n : ℕ) (f : BlobFileBuilder) (b b' : TableBuilder)
      → b.blob_builder ≡ some f
      → b.blob_handle ≡ some n
      → is_ok b ≡ true
      → finish_blob_file c crc bh io level b ≡ ok b'
      → is_ok b' ≡ true
      → (more : Bytes) × IsFileOf b' n (f.file ++ more) × (b'.base ≡ b.base)
  unfolding finish_blob_file keep_blob_file drop_blob_file status
  finish_blob_file-kept io level n f b b' there open_file good e good' =
      let f' = finish_file c crc bh io.footer_io io.flush_io f in
      let b1 : TableBuilder = record b { blob_builder = some f' } in
      elim (Bool-cases (is_ok b1)) [
        | inl fine ↦
            let (_, _, fine') = is_ok-parts b1 fine in
            let (more, longer) = finish_file-longer c crc bh io.footer_io io.flush_io f fine' in
            let e1 : keep_blob_file c crc bh level f' b1 ≡ ok b' =
              rw (fine, finish_blob_file) at (rw (there, finish_blob_file) at e) in
            let (m, _, same) =
              >>=-eq-ok
                (file_state_transit FileEvent.flush_or_compaction_output (
                  make n (length f'.file) f'.num_entries level f'.smallest_key f'.largest_key
                    sorted))
                _ (rw (open_file, keep_blob_file) at e1) in
            (
              more,
              inr (
                m,
                b.finished_blobs,
                sym (ap (λ x. x.finished_blobs) (ok-injective same))
                    ∙ ap (λ x. b.finished_blobs ++ ((m, record { number = n; file = x }) ∷ []))
                        longer,
              ),
              sym (ap (λ x. x.base) (ok-injective same)),
            )
        | inr bad ↦
            let e1 : drop_blob_file c crc bh io b1 ≡ ok b' =
              rw (bad, finish_blob_file) at (rw (there, finish_blob_file) at e) in
            let same = ok-injective (rw (open_file, drop_blob_file) at e1) in
            let (_, fine_base, fine_builder) = is_ok-parts b' good' in
            let (fine_status, fine_table, _) = is_ok-parts b good in
            absurd (
              not_ok b1
                (is_ok_of b1 fine_status fine_table
                  (ap (λ (x : TableBuilder). builder_status x.blob_builder) same ∙ fine_builder))
                bad)
      ]

module _ (c : Coding) (law : IsCoding c) (crc : Crc) (icrc : IsCrc crc) (bh : BlockHandles)
    (z : Codecs) (zlaw : IsCodecs z) (t : CompressionType) (cmp : Comparator) {R : Type 0}
    (options : CfOptions R) (level : ℕ) where
  abbrev record_of : Bytes → Bytes → BlobRecord
  record_of key val = record_for c crc bh z t cmp options level key val

  -- The entry is an index at which the builder's file has the record.
  abbrev pub IsStored : TableBuilder → Bytes → Bytes → Bytes → Type 0
  IsStored b entry key val =
      (n : ℕ) × (h : BlobHandle) × (file : Bytes) × (entry
        ≡ encode_index c (record { file_number = n; blob_handle = h }))
      × IsFileOf b n file
      × ((tail : Bytes)
          → read_record c crc z none h (request (record_of key val)) (file ++ tail)
            ≡ ok (record_of key val))

  full_blob_file-kept :
      (io : AddIo) (n : ℕ) (f : BlobFileBuilder) (b b' : TableBuilder)
      → b.blob_builder ≡ some f
      → b.blob_handle ≡ some n
      → is_ok b ≡ true
      → full_blob_file c crc bh z t cmp options level io f b ≡ ok b'
      → is_ok b' ≡ true
      → (more : Bytes) × IsFileOf b' n (f.file ++ more) × (b'.base ≡ b.base)
  unfolding full_blob_file
  full_blob_file-kept io n f b b' there open_file good e good' =
      elim (Bool-cases (leb options.blob_file_target_size (length f.file))) [
        | inl full ↦
            finish_blob_file-kept c crc bh io level n f b b' there open_file good
              (rw (full, full_blob_file) at e) good'
        | inr room ↦
            let same = ok-injective (rw (room, full_blob_file) at e) in
            (
              [],
              inl (
                sym (ap (λ x. x.blob_handle) same) ∙ open_file,
                f,
                sym (ap (λ x. x.blob_builder) same) ∙ there,
                sym (append-nil f.file),
              ),
              sym (ap (λ x. x.base) same),
            )
      ]

  -- The part of AddBlob after the builder's Add.
  abbrev after_add :
      AddIo → ℕ → BlobHandle → BlobFileBuilder → TableBuilder → Outcome (Bytes × TableBuilder)
  after_add io n h f1 b1 = elim (is_ok b1) [
    | false ↦ ok ([], b1)
    | true ↦ full_blob_file c crc bh z t cmp options level io f1 b1 >>= λ b2.
        ok (encode_index c (record { file_number = n; blob_handle = h }), b2)
  ]

  -- The record that was added to a file without an error, in the file as it is later.
  read_later :
      (io : AddIo) (key val more : Bytes) (h : BlobHandle) (f f1 : BlobFileBuilder)
      → IsWritable (record_of key val)
      → add c crc z t cmp io.write_io (record_of key val) (record { offset = 0; size = 0 }) f
        ≡ ok (h, f1)
      → f1.status ≡ none
      → (tail : Bytes)
      → read_record c crc z none h (request (record_of key val)) ((f1.file ++ more) ++ tail)
        ≡ ok (record_of key val)
  read_later io key val more h f f1 w one fine tail =
      let start : BlobHandle = record { offset = 0; size = 0 } in
      let (good, no_io) =
        add-fine c crc z t cmp io.write_io (record_of key val) start h f f1 one fine in
      let (header, body, enc, at_end, grown, _) =
        add-ok c law crc icrc z zlaw t cmp (record_of key val) start h f f1 good
          (subst (λ x. add c crc z t cmp x (record_of key val) start f ≡ ok (h, f1)) no_io one) in
      read_added c law crc icrc z zlaw t cmp (record_of key val) h header body f.file f1.file
        (f1.file ++ more) more tail w enc at_end grown refl

  after_add-IsStored :
      (io : AddIo) (key val entry : Bytes) (n : ℕ) (h : BlobHandle) (f f1 : BlobFileBuilder)
      (b1 b' : TableBuilder)
      → IsWritable (record_of key val)
      → add c crc z t cmp io.write_io (record_of key val) (record { offset = 0; size = 0 }) f
        ≡ ok (h, f1)
      → b1.blob_builder ≡ some f1
      → b1.blob_handle ≡ some n
      → after_add io n h f1 b1 ≡ ok (entry, b')
      → is_ok b' ≡ true
      → IsStored b' entry key val × (b'.base ≡ b1.base)
  after_add-IsStored io key val entry n h f f1 b1 b' w one there open_file e good' =
      elim (Bool-cases (is_ok b1)) [
        | inr bad ↦
            let same = ok-injective (rw (bad, after_add) at e) in
            absurd (not_ok b' good' (ap (λ p. is_ok p.1) (sym same) ∙ bad))
        | inl fine ↦
            let (b2, full, same) =
              >>=-eq-ok (full_blob_file c crc bh z t cmp options level io f1 b1) _
                (rw (fine, after_add) at e) in
            let now : b2 ≡ b' = ap (λ p. p.1) (ok-injective same) in
            let (_, _, fine_builder) = is_ok-parts b1 fine in
            let (more, stays, kept) =
              full_blob_file-kept io n f1 b1 b2 there open_file fine full (ap is_ok now ∙ good') in
            (
              (
                n,
                h,
                f1.file ++ more,
                sym (ap (λ p. p.0) (ok-injective same)),
                subst (λ x. IsFileOf x n (f1.file ++ more)) now stays,
                read_later io key val more h f f1 w one
                    (ap builder_status (sym there) ∙ fine_builder),
              ),
              ap (λ x. x.base) (sym now) ∙ kept,
            )
      ]

  write_blob-IsStored :
      (io : AddIo) (key val entry : Bytes) (b b' : TableBuilder)
      → IsWritable (record_of key val)
      → write_blob c crc bh z t cmp options level io key val b ≡ ok (entry, b')
      → is_ok b' ≡ true
      → IsStored b' entry key val × (b'.base ≡ b.base)
  unfolding write_blob
  write_blob-IsStored io key val entry b b' w e good' = elim (Option-cases b.blob_builder) [
    | inl none_open ↦ absurd (cc (rw (none_open, write_blob) at e))
    | inr (f, there) ↦ elim (Option-cases b.blob_handle) [
      | inl gone ↦ absurd (cc (rw (gone) at (rw (there, write_blob) at e)))
      | inr (n, open_file) ↦
          let ((h, f1), one, rest) =
            >>=-eq-ok
              (add c crc z t cmp io.write_io (record_of key val) (record { offset = 0; size = 0 })
                f)
              _ (rw (open_file) at (rw (there, write_blob) at e)) in
          after_add-IsStored io key val entry n h f f1 (record b { blob_builder = some f1 }) b' w
            one refl open_file rest good'
    ]
  ]

  -- Opening a file leaves the table alone, and an error where there is no file.
  open_blob_file-parts :
      (io : AddIo) (b b1 : TableBuilder) (ready : Bool)
      → open_blob_file c crc bh z t cmp options level io b ≡ ok (ready, b1)
      → (b1.base ≡ b.base) × (ready ≡ false → is_ok b1 ≡ false)
  unfolding open_blob_file status
  open_blob_file-parts io b b1 ready e = elim (Option-cases b.blob_builder) [
    | inr (f, there) ↦
        let same = ok-injective (rw (there, open_blob_file) at e) in
        (sym (ap (λ p. p.1.base) same), λ no_file. absurd (cc (no_file, ap (λ p. p.0) same)))
    | inl shut ↦ elim (Outcome-cases io.new_file) [
      | inl bad ↦ absurd (cc (rw bad at (rw (shut, open_blob_file) at e)))
      | inr (inl (s, bad)) ↦
          let same = ok-injective (rw bad at (rw (shut, open_blob_file) at e)) in
          (sym (ap (λ p. p.1.base) same), λ _. ap (λ p. is_ok p.1) (sym same))
      | inr (inr (n, made)) ↦
          let same = ok-injective (rw made at (rw (shut, open_blob_file) at e)) in
          (sym (ap (λ p. p.1.base) same), λ no_file. absurd (cc (no_file, ap (λ p. p.0) same)))
    ]
  ]

  -- AddBlob of a builder that has no error afterwards.
  pub add_blob-IsStored :
      (io : AddIo) (key val entry : Bytes) (b b' : TableBuilder)
      → IsWritable (record_of key val)
      → add_blob c crc bh z t cmp options level io key val b ≡ ok (entry, b')
      → is_ok b' ≡ true
      → IsStored b' entry key val × (b'.base ≡ b.base)
  unfolding add_blob
  add_blob-IsStored io key val entry b b' w e good' = elim (Bool-cases (is_ok b)) [
    | inr bad ↦
        let same = ok-injective (rw (bad, add_blob) at e) in
        absurd (not_ok b' good' (ap (λ p. is_ok p.1) (sym same) ∙ bad))
    | inl good ↦
        let ((ready, b1), opened, rest) =
          >>=-eq-ok (open_blob_file c crc bh z t cmp options level io b) _
            (rw (good, add_blob) at e) in
        let (base, unready) = open_blob_file-parts io b b1 ready opened in
        elim (Bool-cases ready) [
          | inl yes_ready ↦
              let (stored, kept) =
                write_blob-IsStored io key val entry b1 b' w (rw yes_ready at rest) good' in
              (stored, kept ∙ base)
          | inr failed ↦
              let same = ok-injective (rw failed at rest) in
              absurd (not_ok b' good' (ap (λ p. is_ok p.1) (sym same) ∙ unready failed))
        ]
  ]

  module _ (keys : InternalKeys) where
    separate-IsStored :
        (io : AddIo) (ikey : ParsedKey) (val : Bytes) (b b' : TableBuilder)
        → IsWritable (record_of ikey.user_key val)
        → separate c crc bh z t cmp options level keys io ikey val b ≡ ok b'
        → is_ok b' ≡ true
        → (entry : Bytes) × (b'.base ≡ b.base ++ ((as_index keys ikey, entry) ∷ []))
          × IsStored b' entry ikey.user_key val
    unfolding separate base_add
    separate-IsStored io ikey val b b' w e good' =
        let ((entry, b1), stores, rest) =
          >>=-eq-ok (add_blob c crc bh z t cmp options level io ikey.user_key val b) _ e in
        let same = ok-injective rest in
        elim (Bool-cases (is_ok b1)) [
          | inr bad ↦ absurd (not_ok b' good' (ap is_ok (sym (rw bad at same)) ∙ bad))
          | inl fine ↦
              let now = rw fine at same in
              let (stored, kept) =
                add_blob-IsStored io ikey.user_key val entry b b1 w stores fine in
              (
                entry,
                sym (ap (λ x. x.base) now) ∙ ap (λ l. l ++ ((as_index keys ikey, entry) ∷ [])) kept,
                subst (λ x. IsStored x entry ikey.user_key val) now stored,
              )
        ]

    -- What Add does with a value.
    add_entry-value :
        (io : AddIo) (mode : BlobRunMode) (merge_level : ℕ) (low : Bool) (s : BlobStorage R)
        (ikey : ParsedKey) (key val : Bytes) (b : TableBuilder)
        → is_ok b ≡ true
        → keys.parse key ≡ some ikey
        → is_value ikey.type ≡ true
        → add_entry c crc bh z t cmp options level keys io mode merge_level low s key val b ≡ (
            if leb options.min_blob_size (length val) && is_normal mode
            then separate c crc bh z t cmp options level keys io ikey val b
            else ok (base_add io key val b))
    unfolding add_entry add_parsed
    add_entry-value io mode merge_level low s ikey key val b good parsed own =
        rw (good, add_entry, parsed, add_parsed, value_no_index ikey.type own, own) refl

    -- No value that Add takes is lost. If the builder has no error before and after it, the table got
    -- one entry more. That is the value itself under its key, if it is smaller than min_blob_size or
    -- the mode is not normal. Else it is, under the same key with the type of a blob index, the index
    -- of a place in a file of the builder, open or finished, at which the value is read, whatever is
    -- appended to the file. It is so for every key and value that fit the encoding.
    pub add_entry-IsStored :
        (io : AddIo) (mode : BlobRunMode) (merge_level : ℕ) (low : Bool) (s : BlobStorage R)
        (ikey : ParsedKey) (key val : Bytes) (b b' : TableBuilder)
        → IsWritable (record_of ikey.user_key val)
        → is_ok b ≡ true
        → keys.parse key ≡ some ikey
        → is_value ikey.type ≡ true
        → add_entry c crc bh z t cmp options level keys io mode merge_level low s key val b ≡ ok b'
        → is_ok b' ≡ true
        → (((leb options.min_blob_size (length val) && is_normal mode) ≡ false)
            × (b'.base ≡ b.base ++ ((key, val) ∷ [])))
          ⊎ (((leb options.min_blob_size (length val) && is_normal mode) ≡ true)
              × (entry : Bytes) × (b'.base ≡ b.base ++ ((as_index keys ikey, entry) ∷ []))
              × IsStored b' entry ikey.user_key val)
    unfolding base_add
    add_entry-IsStored io mode merge_level low s ikey key val b b' w good parsed own e good' =
        let e1 =
          sym (add_entry-value io mode merge_level low s ikey key val b good parsed own) ∙ e in
        elim (Bool-cases (leb options.min_blob_size (length val) && is_normal mode)) [
          | inr stays ↦ inl (stays, ap (λ x. x.base) (sym (ok-injective (rw stays at e1))))
          | inl goes ↦
              let (entry, grown, stored) =
                separate-IsStored io ikey val b b' w (rw goes at e1) good' in
              inr (goes, entry, grown, stored)
        ]
