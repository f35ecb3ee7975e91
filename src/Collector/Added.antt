-- ===== src/Collector/Added.antt =====
-- The first loop of CFEditCollector::Apply in src/edit_collector.h: the files that are put in.
use diffkv.Prelude.{
  ℕ, ◌≤◌, ◌≡◌, refl, ap, ◌∙◌, true, false, not, if◌then◌else◌, Option, none, some, is_none, List,
  [], ◌∷◌, All, arith, ok, Bool-cases, inl, inr,
}
use diffkv.Prelude.Assoc.{find, has, emplace, find-emplace, Distinct}
use diffkv.Options.{Comparator, CfOptions}
use diffkv.Format.FileMeta.{BlobFileMeta, is_obsolete}
use diffkv.Storage.{BlobStorage, level_slot, with_blob_file, add_blob_file}
use diffkv.Storage.Invariant.{IsWellFormed}
use diffkv.Storage.Invariant.Methods.{add_blob_file-IsWellFormed}
use diffkv.Collector.Family.{apply_added}

-- An entry of the batch's added files: under its own number, live, and on a level of the storage.
abbrev pub IsAddable : {R : Type 0} → CfOptions R → ℕ × BlobFileMeta → Type 0
IsAddable o e =
    (e.1.file_number ≡ e.0) × (is_obsolete e.1 ≡ false) × (level_slot o e.1 ≤ o.num_levels)

-- The storage has no file under the entry's number.
abbrev pub IsAbsent : {R V : Type 0} → BlobStorage R → ℕ × V → Type 0
IsAbsent s e = find e.0 s.files ≡ none

-- What FindFile gives after the loop: the file that was there, or else the one of the batch that
-- is not deleted in it too.
abbrev pub after_added :
    List (ℕ × ℕ) → List (ℕ × BlobFileMeta) → Option BlobFileMeta → ℕ → Option BlobFileMeta
after_added deleted added old k =
    if is_none old then (if has k deleted then none else find k added) else old

after_added-nil :
    (deleted : List (ℕ × ℕ)) (old : Option BlobFileMeta) (k : ℕ)
    → old ≡ after_added deleted [] old k
unfolding find
after_added-nil deleted none k = ground arith
after_added-nil deleted (some x) k = refl

after_added-skip :
    (deleted : List (ℕ × ℕ)) (j : ℕ) (m : BlobFileMeta) (es : List (ℕ × BlobFileMeta))
    (old : Option BlobFileMeta) (k : ℕ)
    → has j deleted ≡ true
    → after_added deleted es old k ≡ after_added deleted ((j, m) ∷ es) old k
unfolding find
after_added-skip deleted j m es none k paired = ground arith
after_added-skip deleted j m es (some x) k paired = refl

after_added-put :
    (deleted : List (ℕ × ℕ)) (j : ℕ) (m : BlobFileMeta) (es files : List (ℕ × BlobFileMeta)) (k : ℕ)
    → has j deleted ≡ false
    → find j files ≡ none
    → after_added deleted es (find k (emplace j m files)) k
      ≡ after_added deleted ((j, m) ∷ es) (find k files) k
unfolding find
after_added-put deleted j m es files k kept gone = ground (arith, find-emplace j k m files)

module _ {R : Type 0} (cmp : Comparator) where
  -- What the loop comes to.
  abbrev pub AddedTo :
      List (ℕ × ℕ) → List (ℕ × BlobFileMeta) → BlobStorage R → BlobStorage R → Type 0
  AddedTo deleted added s t =
      (apply_added cmp deleted added s ≡ ok t)
      × IsWellFormed t
      × (t.cf_options ≡ s.cf_options)
      × ((k : ℕ) → find k t.files ≡ after_added deleted added (find k s.files) k)

  with_blob_file-files :
      (m : BlobFileMeta) (s : BlobStorage R)
      → (with_blob_file cmp m s).files ≡ emplace m.file_number m s.files
  unfolding with_blob_file
  with_blob_file-files m s = refl

  find-with_blob_file :
      (j k : ℕ) (m : BlobFileMeta) (s : BlobStorage R)
      → m.file_number ≡ j
      → find k (with_blob_file cmp m s).files ≡ find k (emplace j m s.files)
  find-with_blob_file j k m s key =
      ap (λ f. find k f) (with_blob_file-files m s ∙ ap (λ i. emplace i m s.files) key)

  with_blob_file-options :
      (m : BlobFileMeta) (s : BlobStorage R) → (with_blob_file cmp m s).cf_options ≡ s.cf_options
  unfolding with_blob_file
  with_blob_file-options m s = refl

  add_blob_file-ok :
      (m : BlobFileMeta) (s : BlobStorage R)
      → level_slot s.cf_options m ≤ s.cf_options.num_levels
      → add_blob_file cmp m s ≡ ok (with_blob_file cmp m s)
  unfolding add_blob_file
  add_blob_file-ok m s h = ground arith

  -- Entries of other numbers stay absent.
  IsAbsent-after :
      (n : ℕ) (m : BlobFileMeta) (s : BlobStorage R) (es : List (ℕ × BlobFileMeta))
      → m.file_number ≡ n
      → has n es ≡ false
      → All (IsAbsent s) es
      → All (IsAbsent (with_blob_file cmp m s)) es
  unfolding find
  IsAbsent-after n m s [] key new a = tt
  IsAbsent-after n m s ((j, x) ∷ es) key new (a, rest) = (
    ap (λ f. find j f) (with_blob_file-files m s)
        ∙ (find-emplace m.file_number j m s.files ∙ ground arith),
    IsAbsent-after n m s es key (ground arith) rest,
  )

  IsAddable-after :
      (m : BlobFileMeta) (s : BlobStorage R) (es : List (ℕ × BlobFileMeta))
      → All (IsAddable s.cf_options) es
      → All (IsAddable (with_blob_file cmp m s).cf_options) es
  unfolding with_blob_file
  IsAddable-after m s es a = a

  apply_added-skip :
      (deleted : List (ℕ × ℕ)) (j : ℕ) (m : BlobFileMeta) (es : List (ℕ × BlobFileMeta))
      (s : BlobStorage R)
      → has j deleted ≡ true
      → apply_added cmp deleted ((j, m) ∷ es) s ≡ apply_added cmp deleted es s
  unfolding apply_added
  apply_added-skip deleted j m es s paired = rw (paired, apply_added)

  apply_added-put :
      (deleted : List (ℕ × ℕ)) (j : ℕ) (m : BlobFileMeta) (es : List (ℕ × BlobFileMeta))
      (s : BlobStorage R)
      → has j deleted ≡ false
      → level_slot s.cf_options m ≤ s.cf_options.num_levels
      → apply_added cmp deleted ((j, m) ∷ es) s
        ≡ apply_added cmp deleted es (with_blob_file cmp m s)
  unfolding apply_added
  apply_added-put deleted j m es s kept fits = rw (kept, apply_added, add_blob_file-ok m s fits)

  -- On files that are new, live and on a level of the storage the loop fails no assert and keeps the
  -- invariant.
  pub apply_added_lem :
      (deleted : List (ℕ × ℕ)) (added : List (ℕ × BlobFileMeta)) (s : BlobStorage R)
      → IsWellFormed s
      → Distinct added
      → All (IsAddable s.cf_options) added
      → All (IsAbsent s) added
      → (t : BlobStorage R) × AddedTo deleted added s t
  unfolding apply_added find
  apply_added_lem deleted [] s v d a n =
      (s, (refl, v, refl, λ k. after_added-nil deleted (find k s.files) k))
  apply_added_lem deleted ((j, m) ∷ es) s v (new, d) ((key, live, fits), a) (gone, n) =
      elim (Bool-cases (has j deleted)) [
        | inl paired ↦
            let (t, (e, w, o, f)) = apply_added_lem deleted es s v d a n in
            (
              t,
              (
                apply_added-skip deleted j m es s paired ∙ e,
                w,
                o,
                λ k. f k ∙ after_added-skip deleted j m es (find k s.files) k paired,
              ),
            )
        | inr kept ↦
            let s' = with_blob_file cmp m s in
            let e0 = add_blob_file-ok m s fits in
            let w0 =
              add_blob_file-IsWellFormed cmp m s s' v
                (ap (λ i. has i s.files) key ∙ ap (λ x. not (is_none x)) gone) live e0 in
            let (t, (e, w, o, f)) =
              apply_added_lem deleted es s' w0 d (IsAddable-after m s es a)
                (IsAbsent-after j m s es key new n) in
            (
              t,
              (
                apply_added-put deleted j m es s kept fits ∙ e,
                w,
                o ∙ with_blob_file-options m s,
                λ k.
                    f k
                    ∙ (ap (λ x. after_added deleted es x k) (find-with_blob_file j k m s key)
                        ∙ after_added-put deleted j m es s.files k kept gone),
              ),
            )
      ]
