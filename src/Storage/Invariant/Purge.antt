-- ===== src/Storage/Invariant/Purge.antt =====
-- GetObsoleteFiles and RemoveFile of src/blob_storage.cc on a well-formed storage.
use diffkv.Prelude.{
  ◌≤◌, ℕ, ◌+◌, ◌≡◌, refl, ap, ◌∙◌, true, false, not, ltb, none, some, List, [], ◌∷◌, All, keep,
  keep_yes, keep_no, length, arith, ok, Bool-cases, inl, inr,
}
use diffkv.Prelude.Assoc.{
  find, has, erase, Distinct, erase-Distinct, find-erase_ne, find-erase_self, find-erase_none,
}
use diffkv.Options.{Comparator}
use diffkv.Format.FileMeta.{BlobFileMeta, is_obsolete}
use diffkv.Storage.Totals.{total, total-erase, All-erase}
use diffkv.Storage.{BlobStorage, remove_file, drop_obsolete, get_obsolete_files, find_file}
use diffkv.Storage.Invariant.Due.{
  due, waiting, numbers, keep-Distinct, keep-All, length-keep, waiting_apart, IsInvisible,
  due-IsInvisible, waiting_late,
}
use diffkv.Storage.Invariant.{
  live_one, live_size, dead_one, dead_size, live_size_at, IsKeyed, IsFitted, Names, IsCounted,
  IsWellFormed,
}

Names-erase :
    (n : ℕ) (files : List (ℕ × BlobFileMeta)) (ps : List (ℕ × ℕ))
    → has n ps ≡ false
    → All (Names files) ps
    → All (Names (erase n files)) ps
unfolding find
Names-erase n files [] h a = tt
Names-erase n files ((k, q) ∷ ps) h ((m, f, o), a) = (
  (m, find-erase_ne n k files (λ e. ground arith) ∙ f, o),
  Names-erase n files ps (ground arith) a,
)

All-none :
    {V : Type 0} (files : List (ℕ × V)) (ps : List (ℕ × ℕ))
    → All (λ p. has p.0 files ≡ false) ps
    → All (λ p. find p.0 files ≡ none) ps
All-none files [] a = tt
All-none files (p ∷ ps) (h, a) = (ground arith, All-none files ps a)

module _ (cmp : Comparator) {R : Type 0} where
  -- RemoveFile for each entry of a list.
  pub remove_all : List (ℕ × ℕ) → BlobStorage R → BlobStorage R
  remove_all [] s = s
  remove_all ((n, q) ∷ ps) s = remove_all ps (remove_file cmp n s).1

  remove_file-files :
      (n : ℕ) (m : BlobFileMeta) (s : BlobStorage R)
      → find n s.files ≡ some m
      → (remove_file cmp n s).1.files ≡ erase n s.files
  unfolding remove_file
  remove_file-files n m s h = rw (h, remove_file)

  remove_file-found :
      (n : ℕ) (m : BlobFileMeta) (s : BlobStorage R)
      → find n s.files ≡ some m
      → (remove_file cmp n s).0 ≡ true
  unfolding remove_file
  remove_file-found n m s h = rw (h, remove_file)

  remove_file-IsCounted :
      (n : ℕ) (m : BlobFileMeta) (s : BlobStorage R)
      → IsCounted s
      → find n s.files ≡ some m
      → is_obsolete m ≡ true
      → IsCounted (remove_file cmp n s).1
  unfolding remove_file
  remove_file-IsCounted n m s v found dead =
      let step : (w : BlobFileMeta → ℕ) → total w (erase n s.files) + w m ≡ total w s.files =
        λ w. total-erase w n s.files m found in
      rw (found, remove_file)
        (record {
          distinct = erase-Distinct n s.files v.distinct;
          keyed = All-erase IsKeyed n s.files v.keyed;
          fitted = All-erase (IsFitted s.cf_options) n s.files v.fitted;
          levels = λ level. ground (arith, v.levels level, step (live_size_at s.cf_options level));
          live_count = ground (arith, step live_one, v.live_count);
          live_bytes = ground (arith, step live_size, v.live_bytes);
          obsolete_count = ground (arith, step dead_one, v.obsolete_count);
          obsolete_bytes = ground (arith, step dead_size, v.obsolete_bytes);
        })

  remove_all-IsCounted :
      (ps : List (ℕ × ℕ)) (s : BlobStorage R)
      → IsCounted s
      → Distinct ps
      → All (Names s.files) ps
      → IsCounted (remove_all ps s)
  unfolding remove_all
  remove_all-IsCounted [] s v d a = v
  remove_all-IsCounted ((n, q) ∷ ps) s v d ((m, f, o), a) =
      remove_all-IsCounted ps (remove_file cmp n s).1 (remove_file-IsCounted n m s v f o) d.1
        (rw (remove_file-files n m s f) (Names-erase n s.files ps d.0 a))

  -- The files of other numbers are not touched.
  find-remove_all :
      (k : ℕ) (ps : List (ℕ × ℕ)) (s : BlobStorage R)
      → Distinct ps
      → All (Names s.files) ps
      → has k ps ≡ false
      → find k (remove_all ps s).files ≡ find k s.files
  unfolding remove_all find
  find-remove_all k [] s d a h = refl
  find-remove_all k ((n, q) ∷ ps) s d ((m, f, o), a) h =
      find-remove_all k ps (remove_file cmp n s).1 d.1
        (rw (remove_file-files n m s f) (Names-erase n s.files ps d.0 a)) (ground arith)
      ∙ rw (remove_file-files n m s f) (find-erase_ne n k s.files (λ e. ground arith))

  dead-remove_all :
      (ps : List (ℕ × ℕ)) (s : BlobStorage R)
      → Distinct ps
      → All (Names s.files) ps
      → total dead_one (remove_all ps s).files + length ps ≡ total dead_one s.files
  unfolding remove_all
  dead-remove_all [] s d a = omega arith
  dead-remove_all ((n, q) ∷ ps) s d ((m, f, o), a) =
      let here = remove_file-files n m s f in
      ground (
        arith,
        dead-remove_all ps (remove_file cmp n s).1 d.1 (rw here (Names-erase n s.files ps d.0 a)),
        ap (total dead_one) here,
        total-erase dead_one n s.files m f,
      )

  has-remove_file :
      (k n : ℕ) (s : BlobStorage R)
      → has k s.files ≡ false
      → has k (remove_file cmp n s).1.files ≡ false
  unfolding remove_file
  has-remove_file k n s h = ground (arith, find-erase_none n k s.files h)

  has-remove_all :
      (k : ℕ) (ps : List (ℕ × ℕ)) (s : BlobStorage R)
      → has k s.files ≡ false
      → has k (remove_all ps s).files ≡ false
  unfolding remove_all
  has-remove_all k [] s h = h
  has-remove_all k ((n, q) ∷ ps) s h =
      has-remove_all k ps (remove_file cmp n s).1 (has-remove_file k n s h)

  remove_all_gone :
      (ps : List (ℕ × ℕ)) (s : BlobStorage R)
      → IsCounted s
      → Distinct ps
      → All (Names s.files) ps
      → All (λ p. has p.0 (remove_all ps s).files ≡ false) ps
  unfolding remove_all
  remove_all_gone [] s v d a = tt
  remove_all_gone ((n, q) ∷ ps) s v d ((m, f, o), a) =
      let s1 = (remove_file cmp n s).1 in
      let here = remove_file-files n m s f in
      let gone : has n s1.files ≡ false =
        rw here (ground (arith, find-erase_self n s.files v.distinct)) in
      (
        has-remove_all n ps s1 gone,
        remove_all_gone ps s1 (remove_file-IsCounted n m s v f o) d.1
            (rw here (Names-erase n s.files ps d.0 a)),
      )

  -- The loop of GetObsoleteFiles by a filter: no assert fails, the entries that are due are removed.
  drop_obsolete_lem :
      (oldest : ℕ) (ps : List (ℕ × ℕ)) (s : BlobStorage R)
      → Distinct ps
      → All (Names s.files) ps
      → drop_obsolete cmp oldest ps s
        ≡ ok (waiting oldest ps, numbers (due oldest ps), remove_all (due oldest ps) s)
  unfolding drop_obsolete remove_all
  drop_obsolete_lem oldest [] s d a = unfold keep in refl
  drop_obsolete_lem oldest ((n, q) ∷ ps) s d ((m, f, o), a) = elim (Bool-cases (ltb q oldest)) [
    | inl e ↦
        rw (e, drop_obsolete)
          (rw (remove_file-found n m s f) (
            rw
              (drop_obsolete_lem oldest ps (remove_file cmp n s).1 d.1
                (rw (remove_file-files n m s f) (Names-erase n s.files ps d.0 a)))
              (rw (keep_yes (λ p. ltb p.1 oldest) (n, q) ps e)
                (rw (keep_no (λ p. not (ltb p.1 oldest)) (n, q) ps (rw e))))))
    | inr e ↦
        rw (e, drop_obsolete)
          (rw (drop_obsolete_lem oldest ps s d.1 a) (
            rw (keep_no (λ p. ltb p.1 oldest) (n, q) ps e)
              (rw (keep_yes (λ p. not (ltb p.1 oldest)) (n, q) ps (rw e)))))
  ]

  -- The storage after GetObsoleteFiles.
  pub purged : ℕ → BlobStorage R → BlobStorage R
  purged oldest s = record (remove_all (due oldest s.obsolete_files) s) {
    obsolete_files = waiting oldest s.obsolete_files;
  }

  get_obsolete_files_lem :
      (oldest : ℕ) (s : BlobStorage R)
      → IsWellFormed s
      → get_obsolete_files cmp oldest s
        ≡ ok (numbers (due oldest s.obsolete_files), purged oldest s)
  unfolding get_obsolete_files purged
  get_obsolete_files_lem oldest s v =
      rw (drop_obsolete_lem oldest s.obsolete_files s v.once v.named)

  Names-purged :
      (ps ws : List (ℕ × ℕ)) (s : BlobStorage R)
      → Distinct ps
      → All (Names s.files) ps
      → All (λ w. has w.0 ps ≡ false) ws
      → All (Names s.files) ws
      → All (Names (remove_all ps s).files) ws
  Names-purged ps [] s d a h b = tt
  Names-purged ps ((k, q) ∷ ws) s d a (hk, h) ((m, f, o), b) =
      ((m, find-remove_all k ps s d a hk ∙ f, o), Names-purged ps ws s d a h b)

  purged-IsWellFormed :
      (oldest : ℕ) (s : BlobStorage R) → IsWellFormed s → IsWellFormed (purged oldest s)
  unfolding purged
  purged-IsWellFormed oldest s v =
      let ps = s.obsolete_files in
      let d = keep-Distinct (λ p. ltb p.1 oldest) ps v.once in
      let a = keep-All (Names s.files) (λ p. ltb p.1 oldest) ps v.named in
      let c = remove_all-IsCounted (due oldest ps) s v.counted d a in
      record {
        counted = record {
          distinct = c.distinct;
          keyed = c.keyed;
          fitted = c.fitted;
          levels = c.levels;
          live_count = c.live_count;
          live_bytes = c.live_bytes;
          obsolete_count = c.obsolete_count;
          obsolete_bytes = c.obsolete_bytes;
        };
        once = keep-Distinct (λ p. not (ltb p.1 oldest)) ps v.once;
        named =
            Names-purged (due oldest ps) (waiting oldest ps) s d a (waiting_apart oldest ps v.once)
              (keep-All (Names s.files) (λ p. not (ltb p.1 oldest)) ps v.named);
        all_listed =
            omega
              (arith, dead-remove_all (due oldest ps) s d a, length-keep oldest ps, v.all_listed);
      }

  -- On a well-formed storage GetObsoleteFiles fails no assert, and leaves a well-formed storage.
  pub get_obsolete_files-IsWellFormed :
      (oldest : ℕ) (s : BlobStorage R)
      → IsWellFormed s
      → (r : List ℕ × BlobStorage R) × (get_obsolete_files cmp oldest s ≡ ok r) × IsWellFormed (r.1)
  get_obsolete_files-IsWellFormed oldest s v = (
    (numbers (due oldest s.obsolete_files), purged oldest s),
    get_obsolete_files_lem oldest s v,
    purged-IsWellFormed oldest s v,
  )

  -- GetObsoleteFiles, on a well-formed storage and with no snapshot older than `oldest`, names the
  -- obsolete files whose sequence is less than `oldest`, in the order of the list. No snapshot sees
  -- any of them, by the rule that a snapshot does not see a file whose sequence is no greater than its
  -- own. They are gone from the map; the others, whose sequence is no less than `oldest`, wait in the
  -- list, and no other file changes. So a file whose sequence is `oldest` itself waits, although no
  -- snapshot sees it and the comment in the code says that it is dropped.
  pub get_obsolete_files_exact :
      (oldest : ℕ) (snapshots : List ℕ) (s : BlobStorage R)
      → IsWellFormed s
      → All (λ x. oldest ≤ x) snapshots
      → (t : BlobStorage R) × (get_obsolete_files cmp oldest s
          ≡ ok (numbers (due oldest s.obsolete_files), t))
        × All (IsInvisible snapshots) (due oldest s.obsolete_files)
        × All (λ p. find_file p.0 t ≡ none) (due oldest s.obsolete_files)
        × (t.obsolete_files ≡ waiting oldest s.obsolete_files)
        × All (λ p. oldest ≤ p.1) t.obsolete_files
        × ((k : ℕ) → has k (due oldest s.obsolete_files) ≡ false → find_file k t ≡ find_file k s)
  unfolding purged find_file
  get_obsolete_files_exact oldest snapshots s v seen =
      let ps = s.obsolete_files in
      let d = keep-Distinct (λ p. ltb p.1 oldest) ps v.once in
      let a = keep-All (Names s.files) (λ p. ltb p.1 oldest) ps v.named in
      (
        purged oldest s,
        get_obsolete_files_lem oldest s v,
        due-IsInvisible oldest snapshots ps seen,
        All-none _ (due oldest ps) (remove_all_gone (due oldest ps) s v.counted d a),
        refl,
        waiting_late oldest ps,
        λ k h. find-remove_all k (due oldest ps) s d a h,
      )
