-- ===== src/Collector/Deleted.antt =====
-- The second loop of CFEditCollector::Apply in src/edit_collector.h: the files that become obsolete.
use diffkv.Prelude.{
  ℕ, ◌≤◌, ◌≡◌, refl, sym, ap, ◌∙◌, true, false, not, ◌==◌, ◌&&◌, if◌then◌else◌, Option, none, some,
  List, [], ◌∷◌, All, arith, ok, Bool-cases, ==_iff, inl, inr,
}
use diffkv.Prelude.Assoc.{find, has, modify, find-modify_self, find-modify_ne, Distinct}
use diffkv.Format.FileMeta.{BlobFileMeta, FileEvent, is_obsolete, transit, file_state_transit}
use diffkv.Storage.Totals.{All-find}
use diffkv.Storage.{
  BlobStorage, level_slot, with_obsolete_file, mark_file_obsolete_locked, mark_file_obsolete,
}
use diffkv.Storage.Invariant.{IsWellFormed, IsKeyed, IsFitted}
use diffkv.Storage.Invariant.Methods.{as_obsolete, mark_file_obsolete-IsWellFormed}
use diffkv.Collector.Family.{apply_deleted}

-- An entry of the batch's deleted files that is not added in it names a live file.
abbrev pub IsLiveIn : {R : Type 0} → List (ℕ × BlobFileMeta) → BlobStorage R → ℕ × ℕ → Type 0
IsLiveIn added s p =
    has p.0 added ≡ false
    → (m : BlobFileMeta) × (find p.0 s.files ≡ some m) × (is_obsolete m ≡ false)

abbrev pub obsolete_too : Option BlobFileMeta → Option BlobFileMeta
obsolete_too none = none
obsolete_too (some m) = some (as_obsolete m)

-- What FindFile gives after the loop.
abbrev pub after_deleted :
    List (ℕ × BlobFileMeta) → List (ℕ × ℕ) → Option BlobFileMeta → ℕ → Option BlobFileMeta
after_deleted added deleted old k =
    if has k deleted && not (has k added) then obsolete_too old else old

delete_live :
    (m : BlobFileMeta)
    → is_obsolete m ≡ false
    → file_state_transit FileEvent.delete m ≡ ok (as_obsolete m)
unfolding file_state_transit transit is_obsolete
delete_live m live = ground arith

module _ {R : Type 0} where
  -- What MarkFileObsolete leaves of a live file.
  marked : ℕ → BlobFileMeta → BlobStorage R → BlobStorage R
  marked q m s = with_obsolete_file m (as_obsolete m) q s

  mark_live :
      (n q : ℕ) (m : BlobFileMeta) (s : BlobStorage R)
      → find n s.files ≡ some m
      → is_obsolete m ≡ false
      → level_slot s.cf_options m ≤ s.cf_options.num_levels
      → mark_file_obsolete n q s ≡ ok (true, marked q m s)
  unfolding mark_file_obsolete mark_file_obsolete_locked marked
  mark_live n q m s there live fits =
      rw (there, mark_file_obsolete, mark_file_obsolete_locked, delete_live m live) ground arith

  find-marked :
      (n q k : ℕ) (m : BlobFileMeta) (s : BlobStorage R)
      → m.file_number ≡ n
      → find k (marked q m s).files ≡ find k (modify n (λ _. as_obsolete m) s.files)
  unfolding marked with_obsolete_file
  find-marked n q k m s key = ap (λ i. find k (modify i (λ _. as_obsolete m) s.files)) key

  live_after :
      (n q : ℕ) (m : BlobFileMeta) (s : BlobStorage R) (added : List (ℕ × BlobFileMeta))
      (ds : List (ℕ × ℕ))
      → m.file_number ≡ n
      → has n ds ≡ false
      → All (IsLiveIn added s) ds
      → All (IsLiveIn added (marked q m s)) ds
  unfolding find
  live_after n q m s added [] key new a = tt
  live_after n q m s added ((j, r) ∷ ds) key new (a, rest) = (
    λ own.
        let (x, there, live) = a own in
        (
          x,
          find-marked n q j m s key
              ∙ (find-modify_ne n j (λ _. as_obsolete m) s.files (λ e. ground arith) ∙ there),
          live,
        ),
    live_after n q m s added ds key (ground arith) rest,
  )

  apply_deleted-skip :
      (added : List (ℕ × BlobFileMeta)) (n q : ℕ) (ds : List (ℕ × ℕ)) (s : BlobStorage R)
      → has n added ≡ true
      → apply_deleted added ((n, q) ∷ ds) s ≡ apply_deleted added ds s
  unfolding apply_deleted
  apply_deleted-skip added n q ds s paired = rw (paired, apply_deleted)

  apply_deleted-mark :
      (added : List (ℕ × BlobFileMeta)) (n q : ℕ) (m : BlobFileMeta) (ds : List (ℕ × ℕ))
      (s : BlobStorage R)
      → has n added ≡ false
      → mark_file_obsolete n q s ≡ ok (true, marked q m s)
      → apply_deleted added ((n, q) ∷ ds) s ≡ apply_deleted added ds (marked q m s)
  unfolding apply_deleted
  apply_deleted-mark added n q m ds s own e = rw (own, apply_deleted, e)

after_deleted-skip :
    (added : List (ℕ × BlobFileMeta)) (n q : ℕ) (ds : List (ℕ × ℕ)) (old : Option BlobFileMeta)
    (k : ℕ)
    → has n added ≡ true
    → after_deleted added ds old k ≡ after_deleted added ((n, q) ∷ ds) old k
unfolding find
after_deleted-skip added n q ds old k paired = ground arith

after_deleted-mark :
    (added : List (ℕ × BlobFileMeta)) (n q : ℕ) (m : BlobFileMeta) (ds : List (ℕ × ℕ))
    (files : List (ℕ × BlobFileMeta)) (k : ℕ)
    → has n added ≡ false
    → has n ds ≡ false
    → find n files ≡ some m
    → after_deleted added ds (find k (modify n (λ _. as_obsolete m) files)) k
      ≡ after_deleted added ((n, q) ∷ ds) (find k files) k
unfolding find
after_deleted-mark added n q m ds files k own new there = elim (Bool-cases (n == k)) [
  | inl same ↦
      let self : find k (modify n (λ _. as_obsolete m) files) ≡ some (as_obsolete m) =
        ap (λ i. find i (modify n (λ _. as_obsolete m) files)) (sym ((==_iff n k).0 same))
        ∙ find-modify_self n (λ _. as_obsolete m) files m there in
      let old : find k files ≡ some m =
        ap (λ i. find i files) (sym ((==_iff n k).0 same)) ∙ there in
      let fresh : has k ds ≡ false = ap (λ i. has i ds) (sym ((==_iff n k).0 same)) ∙ new in
      let mine : has k added ≡ false = ap (λ i. has i added) (sym ((==_iff n k).0 same)) ∙ own in
      ground (arith, self, old, fresh, mine, same)
  | inr other ↦
      let kept = find-modify_ne n k (λ _. as_obsolete m) files (λ e. ground arith) in
      rw (kept) ground arith
]

module _ {R : Type 0} where
  abbrev pub DeletedFrom :
      List (ℕ × BlobFileMeta) → List (ℕ × ℕ) → BlobStorage R → BlobStorage R → Type 0
  DeletedFrom added ds s t =
      (apply_deleted added ds s ≡ ok t)
      × IsWellFormed t
      × ((k : ℕ) → find k t.files ≡ after_deleted added ds (find k s.files) k)

  -- On files that are there and live the loop fails no assert and keeps the invariant.
  pub apply_deleted_lem :
      (added : List (ℕ × BlobFileMeta)) (ds : List (ℕ × ℕ)) (s : BlobStorage R)
      → IsWellFormed s
      → Distinct ds
      → All (IsLiveIn added s) ds
      → (t : BlobStorage R) × DeletedFrom added ds s t
  unfolding apply_deleted find
  apply_deleted_lem added [] s v d a = (s, (refl, v, λ k. refl))
  apply_deleted_lem added ((n, q) ∷ ds) s v (new, d) (here, a) = elim (Bool-cases (has n added)) [
    | inl paired ↦
        let (t, (e, w, f)) = apply_deleted_lem added ds s v d a in
        (
          t,
          (
            apply_deleted-skip added n q ds s paired ∙ e,
            w,
            λ k. f k ∙ after_deleted-skip added n q ds (find k s.files) k paired,
          ),
        )
    | inr own ↦
        let (m, there, live) = here own in
        let key : m.file_number ≡ n = All-find IsKeyed n s.files m v.keyed there in
        let fits = All-find (IsFitted s.cf_options) n s.files m v.fitted there in
        let e0 = mark_live n q m s there live fits in
        let w0 = mark_file_obsolete-IsWellFormed n q true s (marked q m s) v e0 in
        let (t, (e, w, f)) =
          apply_deleted_lem added ds (marked q m s) w0 d (live_after n q m s added ds key new a) in
        (
          t,
          (
            apply_deleted-mark added n q m ds s own e0 ∙ e,
            w,
            λ k.
                f k
                ∙ (ap (λ x. after_deleted added ds x k) (find-marked n q k m s key)
                    ∙ after_deleted-mark added n q m ds s.files k own new there),
          ),
        )
  ]
