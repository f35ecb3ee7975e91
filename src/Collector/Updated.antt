-- ===== src/Collector/Updated.antt =====
-- The third loop of CFEditCollector::Apply in src/edit_collector.h: discardable sizes grow.
use diffkv.Prelude.{
  ℕ, ◌+◌, ◌<◌, ◌≡◌, refl, sym, ap, ◌∙◌, Bool, false, ◌==◌, if◌then◌else◌, Option, none, some, List,
  [], ◌∷◌, All, arith, ok, Bool-cases, ==_iff, Option-cases, inl, inr, IsU64, add64,
}
use mathlib.Core.Path.{subst}
use diffkv.Prelude.Assoc.{
  find, has, modify, find-modify_self, find-modify_ne, modify-Distinct, Distinct,
}
use diffkv.Format.FileMeta.{BlobFileMeta, is_obsolete, add_discardable_size}
use diffkv.Storage.Totals.{total, total-modify, All-modify, All-find}
use diffkv.Storage.{BlobStorage, level_slot}
use diffkv.Storage.Invariant.{
  live_one, live_size, dead_one, dead_size, live_size_at, IsKeyed, IsFitted, Names, IsWellFormed,
}
use diffkv.Collector.Family.{apply_updated}

-- The file takes another discardable size without an assert that fails.
abbrev pub IsRoomy : Option BlobFileMeta → ℕ → Type 0
IsRoomy none size = Unit {0}
IsRoomy (some m) size = (m.discardable_size + size < m.file_size) × IsU64 m.file_size

abbrev pub grown : ℕ → BlobFileMeta → BlobFileMeta
grown size m = record m { discardable_size = m.discardable_size + size }

abbrev pub grow : Option ℕ → Option BlobFileMeta → Option BlobFileMeta
grow none old = old
grow (some size) none = none
grow (some size) (some m) = some (grown size m)

grow-none : (a b : Option ℕ) → grow a none ≡ grow b none
grow-none none none = refl
grow-none none (some y) = refl
grow-none (some x) none = refl
grow-none (some x) (some y) = refl

add_discardable_size-ok :
    (size : ℕ) (m : BlobFileMeta)
    → IsRoomy (some m) size
    → add_discardable_size size m ≡ ok (grown size m)
unfolding add_discardable_size
add_discardable_size-ok size m (room, width) =
    let wrap : add64 m.discardable_size size ≡ m.discardable_size + size = omega arith in
    rw (wrap, add_discardable_size) ground arith

abbrev obsolete_of : Option BlobFileMeta → Bool
obsolete_of none = false
obsolete_of (some m) = is_obsolete m

Names-grown :
    (n : ℕ) (m m' : BlobFileMeta) (files : List (ℕ × BlobFileMeta)) (ps : List (ℕ × ℕ))
    → find n files ≡ some m
    → is_obsolete m' ≡ is_obsolete m
    → All (Names files) ps
    → All (Names (modify n (λ _. m') files)) ps
Names-grown n m m' files [] there same a = tt
Names-grown n m m' files ((k, q) ∷ ps) there same ((x, fx, ox), a) = (
  elim (Bool-cases (n == k)) [
    | inl eq ↦
        let at : n ≡ k = (==_iff n k).0 eq in
        let here : find k files ≡ some m = ap (λ i. find i files) (sym at) ∙ there in
        (
          m',
          ap (λ i. find i (modify n (λ _. m') files)) (sym at)
              ∙ find-modify_self n (λ _. m') files m there,
          same ∙ (ap (λ o. obsolete_of o) (sym here ∙ fx) ∙ ox),
        )
    | inr ne ↦ (x, find-modify_ne n k (λ _. m') files (λ e. ground arith) ∙ fx, ox)
  ],
  Names-grown n m m' files ps there same a,
)

module _ {R : Type 0} where
  with_grown : ℕ → ℕ → BlobFileMeta → BlobStorage R → BlobStorage R
  with_grown n size m s = record s { files = modify n (λ _. grown size m) s.files }

  with_grown-IsWellFormed :
      (n size : ℕ) (m : BlobFileMeta) (s : BlobStorage R)
      → IsWellFormed s
      → find n s.files ≡ some m
      → IsWellFormed (with_grown n size m s)
  unfolding with_grown is_obsolete level_slot
  with_grown-IsWellFormed n size m s v there =
      let m' = grown size m in
      let step : (w : BlobFileMeta → ℕ)
          → total w (modify n (λ _. m') s.files) + w m ≡ total w s.files + w m' =
        λ w. total-modify w n (λ _. m') s.files m there in
      record {
        counted = record {
          distinct = modify-Distinct n (λ _. m') s.files v.distinct;
          keyed =
              All-modify IsKeyed n m' s.files v.keyed (All-find IsKeyed n s.files m v.keyed there);
          fitted =
              All-modify (IsFitted s.cf_options) n m' s.files v.fitted
                (All-find (IsFitted s.cf_options) n s.files m v.fitted there);
          levels = λ level. ground (arith, v.levels level, step (live_size_at s.cf_options level));
          live_count = ground (arith, step live_one, v.live_count);
          live_bytes = ground (arith, step live_size, v.live_bytes);
          obsolete_count = ground (arith, step dead_one, v.obsolete_count);
          obsolete_bytes = ground (arith, step dead_size, v.obsolete_bytes);
        };
        once = v.once;
        named = Names-grown n m m' s.files s.obsolete_files there refl v.named;
        all_listed = ground (arith, step dead_one, v.all_listed);
      }

  apply_updated-skip :
      (n size : ℕ) (us : List (ℕ × ℕ)) (s : BlobStorage R)
      → find n s.files ≡ none
      → apply_updated ((n, size) ∷ us) s ≡ apply_updated us s
  unfolding apply_updated
  apply_updated-skip n size us s gone = rw (gone, apply_updated)

  apply_updated-grow :
      (n size : ℕ) (m : BlobFileMeta) (us : List (ℕ × ℕ)) (s : BlobStorage R)
      → find n s.files ≡ some m
      → IsRoomy (some m) size
      → apply_updated ((n, size) ∷ us) s ≡ apply_updated us (with_grown n size m s)
  unfolding apply_updated with_grown
  apply_updated-grow n size m us s there room =
      rw (there, apply_updated, add_discardable_size-ok size m room)

  find-with_grown :
      (n size k : ℕ) (m : BlobFileMeta) (s : BlobStorage R)
      → find k (with_grown n size m s).files ≡ find k (modify n (λ _. grown size m) s.files)
  unfolding with_grown
  find-with_grown n size k m s = refl

  IsRoomy-after :
      (n size : ℕ) (m : BlobFileMeta) (s : BlobStorage R) (us : List (ℕ × ℕ))
      → has n us ≡ false
      → All (λ u. IsRoomy (find u.0 s.files) u.1) us
      → All (λ u. IsRoomy (find u.0 (with_grown n size m s).files) u.1) us
  unfolding find
  IsRoomy-after n size m s [] new a = tt
  IsRoomy-after n size m s ((j, z) ∷ us) new (a, rest) = (
    subst (λ o. IsRoomy o z)
        (sym (
          find-with_grown n size j m s
          ∙ find-modify_ne n j (λ _. grown size m) s.files (λ e. ground arith)))
        a,
    IsRoomy-after n size m s us (ground arith) rest,
  )

grow-skip :
    (n size : ℕ) (us : List (ℕ × ℕ)) (files : List (ℕ × BlobFileMeta)) (k : ℕ)
    → find n files ≡ none
    → grow (find k us) (find k files) ≡ grow (find k ((n, size) ∷ us)) (find k files)
unfolding find
grow-skip n size us files k gone = elim (Bool-cases (n == k)) [
  | inl same ↦
      let old : find k files ≡ none = ap (λ i. find i files) (sym ((==_iff n k).0 same)) ∙ gone in
      rw (old) (grow-none (find k us) (if n == k then some size else find k us))
  | inr other ↦ rw (other)
]

grow-more :
    (n size : ℕ) (m : BlobFileMeta) (us : List (ℕ × ℕ)) (files : List (ℕ × BlobFileMeta)) (k : ℕ)
    → find n files ≡ some m
    → has n us ≡ false
    → grow (find k us) (find k (modify n (λ _. grown size m) files))
      ≡ grow (find k ((n, size) ∷ us)) (find k files)
unfolding find
grow-more n size m us files k there new = elim (Bool-cases (n == k)) [
  | inl same ↦
      let at = sym ((==_iff n k).0 same) in
      let self : find k (modify n (λ _. grown size m) files) ≡ some (grown size m) =
        ap (λ i. find i (modify n (λ _. grown size m) files)) at
        ∙ find-modify_self n (λ _. grown size m) files m there in
      let old : find k files ≡ some m = ap (λ i. find i files) at ∙ there in
      let fresh : has k us ≡ false = ap (λ i. has i us) at ∙ new in
      ground (arith, self, old, fresh, same)
  | inr other ↦
      let kept = find-modify_ne n k (λ _. grown size m) files (λ e. ground arith) in
      rw (kept, other)
]

module _ {R : Type 0} where
  abbrev pub UpdatedFrom : List (ℕ × ℕ) → BlobStorage R → BlobStorage R → Type 0
  UpdatedFrom us s t =
      (apply_updated us s ≡ ok t)
      × IsWellFormed t
      × ((k : ℕ) → find k t.files ≡ grow (find k us) (find k s.files))

  -- With room for each size the loop fails no assert and keeps the invariant.
  pub apply_updated_lem :
      (us : List (ℕ × ℕ)) (s : BlobStorage R)
      → IsWellFormed s
      → Distinct us
      → All (λ u. IsRoomy (find u.0 s.files) u.1) us
      → (t : BlobStorage R) × UpdatedFrom us s t
  unfolding apply_updated find
  apply_updated_lem [] s v d a = (s, (refl, v, λ k. refl))
  apply_updated_lem ((n, size) ∷ us) s v (new, d) (here, a) = elim (Option-cases (find n s.files)) [
    | inl gone ↦
        let (t, (e, w, f)) = apply_updated_lem us s v d a in
        (
          t,
          (
            apply_updated-skip n size us s gone ∙ e,
            w,
            λ k. f k ∙ grow-skip n size us s.files k gone,
          ),
        )
    | inr (m, there) ↦
        let room = subst (λ o. IsRoomy o size) there here in
        let (t, (e, w, f)) =
          apply_updated_lem us (with_grown n size m s) (with_grown-IsWellFormed n size m s v there)
            d (IsRoomy-after n size m s us new a) in
        (
          t,
          (
            apply_updated-grow n size m us s there room ∙ e,
            w,
            λ k.
                f k
                ∙ (ap (λ x. grow (find k us) x) (find-with_grown n size k m s)
                    ∙ grow-more n size m us s.files k there new),
          ),
        )
  ]
