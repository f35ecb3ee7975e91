-- ===== src/Gc/Marks.antt =====
-- PickBlobGC picks only files that may be collected, and marks them.
use diffkv.Prelude.{
  ℕ, ◌+◌, ◌-◌, ◌^◌, ◌/◌, ◌≡◌, ◌≢◌, refl, sym, ap, ◌∙◌, ◌==◌, ltb, Bool, true, false, not, ◌&&◌,
  if◌then◌else◌, Option, none, some, List, [], ◌∷◌, ◌++◌, map, All, All-append, All-imp, ok, ◌>>=◌,
  Bool-cases, ==_iff, inl, inr, length, arith,
}
use mathlib.Core.Path.{subst}
use diffkv.Prelude.Assoc.{
  find, has, modify, emplace_new, emplace-Distinct, Distinct, find-append, find-modify_self,
  find-modify_ne,
}
use diffkv.Options.{CfOptions}
use diffkv.Format.FileMeta.{
  BlobFileMeta, FileState, FileEvent, same_state, transit, file_state_transit,
}
use diffkv.Storage.{BlobStorage, find_file}
use diffkv.Gc.Picker.{
  Picking, new_picking, BlobGc, check_blob_file, push, is_skipped, pick_loop, is_worth, transit_at,
  mark_files_being_gc, first, start_gc, pick_blob_gc,
}

-- The entry may be collected: the file is there, in kNormal, and not skipped for its type.
abbrev pub IsCandidate : {R : Type 0} → CfOptions R → BlobStorage R → ℕ × BlobFileMeta → Type 0
IsCandidate o s e =
    (find e.0 s.files ≡ some e.1) × (e.1.state ≡ FileState.normal) × (is_skipped o e.1 ≡ false)

-- A score stands for a file that is there and not in kInit.
abbrev pub IsScored : {R : Type 0} → BlobStorage R → ℕ × R → Type 0
IsScored s e = (m : BlobFileMeta) × (find e.0 s.files ≡ some m) × (m.state ≢ FileState.init)

-- No score is of a file that is picked already.
abbrev pub IsApart : {V R : Type 0} → List (ℕ × V) → List (ℕ × R) → Type 0
IsApart files scores = All (λ e. has e.0 files ≡ false) scores

IsApart-next :
    {V R : Type 0} (n : ℕ) (v : V) (files : List (ℕ × V)) (scores : List (ℕ × R))
    → has n scores ≡ false
    → IsApart files scores
    → IsApart (files ++ ((n, v) ∷ [])) scores
unfolding find
IsApart-next n v files [] new a = tt
IsApart-next n v files ((k, x) ∷ scores) new (a, rest) = (
  ground (arith, find-append k files ((n, v) ∷ [])),
  IsApart-next n v files scores (ground arith) rest,
)

none_picked : (V : Type 0) {R : Type 0} (scores : List (ℕ × R)) → IsApart {V = V} [] scores
unfolding find
none_picked V [] = tt
none_picked V (e ∷ es) = (refl, none_picked V es)

check_known :
    (m : BlobFileMeta)
    → m.state ≢ FileState.init
    → check_blob_file (some m) ≡ ok (same_state m.state FileState.normal)
unfolding check_blob_file
check_known m h = ground arith

nonzero : (n : ℕ) → n ≢ 0 → (n == 0) ≡ false
nonzero n h = ground arith

is_normal : (s : FileState) → same_state s FileState.normal ≡ true → s ≡ FileState.normal
is_normal s h = ground arith

module _ {R : Type 0} (o : CfOptions R) where
  -- What the loop keeps.
  abbrev pub IsPicked : BlobStorage R → Picking → Type 0
  IsPicked s p = All (IsCandidate o s) p.blob_files × Distinct p.blob_files

  push-IsPicked :
      (n : ℕ) (m : BlobFileMeta) (s : BlobStorage R) (p : Picking)
      → IsCandidate o s (n, m)
      → has n p.blob_files ≡ false
      → IsPicked s p
      → IsPicked s (push o n m p)
  unfolding push
  push-IsPicked n m s p good new (all, d) = (
    All-append (IsCandidate o s) p.blob_files ((n, m) ∷ []) all (good, tt),
    subst Distinct (emplace_new n m p.blob_files (ground arith))
        (emplace-Distinct n m p.blob_files d),
  )

  abbrev counted : Picking → Picking
  counted p = record p { cnt = p.cnt + 1 }

  abbrev to_pick : BlobFileMeta → Bool
  to_pick m = same_state m.state FileState.normal && not (is_skipped o m)

  pick_loop-skip :
      (size n : ℕ) (x : R) (m : BlobFileMeta) (s : BlobStorage R) (rest : List (ℕ × R))
      (p : Picking)
      → find n s.files ≡ some m
      → m.state ≢ FileState.init
      → to_pick m ≡ false
      → pick_loop o size s ((n, x) ∷ rest) p ≡ pick_loop o size s rest (counted p)
  unfolding pick_loop find_file
  pick_loop-skip size n x m s rest p there state skip =
      rw (there, pick_loop, check_known m state, skip)

  pick_loop-push :
      (size n : ℕ) (x : R) (m : BlobFileMeta) (s : BlobStorage R) (rest : List (ℕ × R))
      (p : Picking)
      → find n s.files ≡ some m
      → m.state ≢ FileState.init
      → to_pick m ≡ true
      → p.stop_picking ≡ false
      → pick_loop o size s ((n, x) ∷ rest) p ≡ pick_loop o size s rest (push o n m (counted p))
  unfolding pick_loop find_file
  pick_loop-push size n x m s rest p there state take going =
      rw (there, pick_loop, check_known m state, take, going)

  pick_loop-stop :
      (size n : ℕ) (x : R) (m : BlobFileMeta) (s : BlobStorage R) (rest : List (ℕ × R))
      (p : Picking)
      → find n s.files ≡ some m
      → m.state ≢ FileState.init
      → to_pick m ≡ true
      → p.stop_picking ≡ true
      → s.cf_options.blob_file_target_size ≢ 0
      → pick_loop o size s ((n, x) ∷ rest) p ≡ (
          if ltb (2 ^ 30 / s.cf_options.blob_file_target_size) (size - (p.cnt + 1))
          then ok (record (counted p) { maybe_continue_next_time = true })
          else pick_loop o size s rest (counted p))
  unfolding pick_loop find_file
  pick_loop-stop size n x m s rest p there state take stopped target =
      rw (there, pick_loop, check_known m state, take, stopped, nonzero _ target)

  to_pick-IsCandidate :
      (n : ℕ) (m : BlobFileMeta) (s : BlobStorage R)
      → find n s.files ≡ some m
      → to_pick m ≡ true
      → IsCandidate o s (n, m)
  to_pick-IsCandidate n m s there take = (there, is_normal m.state (ground arith), ground arith)

  pick_loop-IsPicked :
      (size : ℕ) (s : BlobStorage R) (scores : List (ℕ × R)) (p : Picking)
      → s.cf_options.blob_file_target_size ≢ 0
      → All (IsScored s) scores
      → Distinct scores
      → IsApart p.blob_files scores
      → IsPicked s p
      → (q : Picking) × (pick_loop o size s scores p ≡ ok q) × IsPicked s q
  unfolding push
  pick_loop-IsPicked size s [] p target known d a v = (p, unfold pick_loop in refl, v)
  pick_loop-IsPicked size s ((n, x) ∷ rest) p target ((m, there, state), known) (new, d) (apart, a)
        v =
      let (q, next, w) = pick_loop-IsPicked size s rest (counted p) target known d a v in
      elim (Bool-cases (to_pick m)) [
        | inr skip ↦ (q, pick_loop-skip size n x m s rest p there state skip ∙ next, w)
        | inl take ↦ elim (Bool-cases p.stop_picking) [
          | inl stopped ↦
              let step = pick_loop-stop size n x m s rest p there state take stopped target in
              elim (Bool-cases
                (ltb (2 ^ 30 / s.cf_options.blob_file_target_size) (size - (p.cnt + 1)))) [
                  | inl more ↦
                      (record (counted p) { maybe_continue_next_time = true }, step ∙ rw (more), v)
                  | inr few ↦ (q, step ∙ rw (few) next, w)
                ]
          | inr going ↦
              let v1 =
                push-IsPicked n m s (counted p) (to_pick-IsCandidate n m s there take) apart v in
              let (q1, next1, w1) =
                pick_loop-IsPicked size s rest (push o n m (counted p)) target known d
                  (IsApart-next n m p.blob_files rest new a) v1 in
              (q1, pick_loop-push size n x m s rest p there state take going ∙ next1, w1)
        ]
      ]

abbrev pub being_gc_too : Option BlobFileMeta → Option BlobFileMeta
being_gc_too none = none
being_gc_too (some m) = some (record m { state = FileState.being_gc })

-- What FindFile gives after the marks.
abbrev pub after_marks : List (ℕ × BlobFileMeta) → Option BlobFileMeta → ℕ → Option BlobFileMeta
after_marks es old k = if has k es then being_gc_too old else old

after_marks-next :
    (n : ℕ) (m : BlobFileMeta) (es files : List (ℕ × BlobFileMeta)) (k : ℕ)
    → has n es ≡ false
    → find n files ≡ some m
    → after_marks es (find k (modify n (λ _. record m { state = FileState.being_gc }) files)) k
      ≡ after_marks ((n, m) ∷ es) (find k files) k
unfolding find
after_marks-next n m es files k new there = elim (Bool-cases (n == k)) [
  | inl same ↦
      let at = sym ((==_iff n k).0 same) in
      let m' = record m { state = FileState.being_gc } in
      let self : find k (modify n (λ _. m') files) ≡ some m' =
        ap (λ i. find i (modify n (λ _. m') files)) at
        ∙ find-modify_self n (λ _. m') files m there in
      let old : find k files ≡ some m = ap (λ i. find i files) at ∙ there in
      let fresh : has k es ≡ false = ap (λ i. has i es) at ∙ new in
      ground (arith, self, old, fresh, same)
  | inr other ↦
      let kept =
        find-modify_ne n k (λ _. record m { state = FileState.being_gc }) files
          (λ e. ground arith) in
      rw (kept) ground arith
]

module _ {R : Type 0} where
  -- The file is there and may be entered into a GC job.
  abbrev pub IsNormal : BlobStorage R → ℕ × BlobFileMeta → Type 0
  IsNormal s e = (find e.0 s.files ≡ some e.1) × (e.1.state ≡ FileState.normal)

  marked : ℕ → BlobFileMeta → BlobStorage R → BlobStorage R
  marked n m s = record s {
    files = modify n (λ _. record m { state = FileState.being_gc }) s.files;
  }

  find-marked :
      (n k : ℕ) (m : BlobFileMeta) (s : BlobStorage R)
      → find k (marked n m s).files
        ≡ find k (modify n (λ _. record m { state = FileState.being_gc }) s.files)
  unfolding marked
  find-marked n k m s = refl

  begin_at :
      (n : ℕ) (m : BlobFileMeta) (s : BlobStorage R)
      → IsNormal s (n, m)
      → transit_at FileEvent.gc_begin n s ≡ ok (marked n m s)
  unfolding transit_at file_state_transit transit marked
  begin_at n m s (there, normal) = rw (there, transit_at, normal)

  IsNormal-after :
      (n : ℕ) (m : BlobFileMeta) (s : BlobStorage R) (es : List (ℕ × BlobFileMeta))
      → has n es ≡ false
      → All (IsNormal s) es
      → All (IsNormal (marked n m s)) es
  unfolding find
  IsNormal-after n m s [] new a = tt
  IsNormal-after n m s ((j, x) ∷ es) new ((there, normal), rest) = (
    (
      find-marked n j m s
          ∙ (find-modify_ne n j (λ _. record m { state = FileState.being_gc }) s.files
                (λ e. ground arith)
              ∙ there),
      normal,
    ),
    IsNormal-after n m s es (ground arith) rest,
  )

  mark_files-marks :
      (es : List (ℕ × BlobFileMeta)) (s : BlobStorage R)
      → Distinct es
      → All (IsNormal s) es
      → (t : BlobStorage R) × (mark_files_being_gc (map first es) s ≡ ok t)
        × ((k : ℕ) → find k t.files ≡ after_marks es (find k s.files) k)
  unfolding mark_files_being_gc find
  mark_files-marks [] s d a = (s, refl, λ k. refl)
  mark_files-marks ((n, m) ∷ es) s (new, d) (here, a) =
      let (t, done, effect) =
        mark_files-marks es (marked n m s) d (IsNormal-after n m s es new a) in
      (
        t,
        ap (λ x. x >>= λ s'. mark_files_being_gc (map first es) s') (begin_at n m s here) ∙ done,
        λ k.
            effect k
            ∙ (ap (λ x. after_marks es x k) (find-marked n k m s)
                ∙ after_marks-next n m es s.files k new here.0),
      )

  -- What PickBlobGC comes to: nothing, or a job over candidates, which are being collected then.
  abbrev pub Chosen : CfOptions R → BlobStorage R → Option BlobGc × BlobStorage R → Type 0
  Chosen o s (none, t) = t ≡ s
  Chosen o s (some gc, t) =
      (es : List (ℕ × BlobFileMeta)) × (gc.inputs ≡ map first es)
      × (es ≢ [])
      × All (IsCandidate o s) es
      × Distinct es
      × ((k : ℕ) → find_file k t ≡ after_marks es (find_file k s) k)

  is_worth-some : (o : CfOptions R) (p : Picking) → is_worth o p ≡ true → p.blob_files ≢ []
  unfolding is_worth
  is_worth-some o p h e = cc (rw (e, is_worth) at h)

  -- Where each score is of a file that is there and not in kInit, no score is twice and the target
  -- size is not 0, PickBlobGC fails no assert. It leaves the storage as it is, or it returns a job
  -- whose inputs are some files of the storage, each once, all in kNormal and none of a type that the
  -- options exclude; then these are in kBeingGC and no other file has changed.
  pub pick_blob_gc-Chosen :
      (o : CfOptions R) (s : BlobStorage R)
      → s.cf_options.blob_file_target_size ≢ 0
      → All (IsScored s) s.gc_score
      → Distinct s.gc_score
      → (r : Option BlobGc × BlobStorage R) × (pick_blob_gc o s ≡ ok r) × Chosen o s r
  unfolding pick_blob_gc start_gc find_file
  pick_blob_gc-Chosen o s target known d =
      let (p, picks, (all, once)) =
        pick_loop-IsPicked o (length s.gc_score) s s.gc_score new_picking target known d
          (none_picked BlobFileMeta s.gc_score) (tt, tt) in
      elim (Bool-cases (is_worth o p)) [
        | inr idle ↦ ((none, s), ap (λ x. x >>= start_gc o s) picks ∙ rw (idle, start_gc), refl)
        | inl worth ↦
            let (t, done, effect) =
              mark_files-marks p.blob_files s once
                (All-imp (IsCandidate o s) (IsNormal s) p.blob_files (λ e c. (c.0, c.1)) all) in
            (
              (
                some (record {
                  inputs = map first p.blob_files;
                  outputs = [];
                  trigger_next = p.maybe_continue_next_time;
                }),
                t,
              ),
              ap (λ x. x >>= start_gc o s) picks ∙ rw (worth, start_gc, done),
              (p.blob_files, refl, is_worth-some o p worth, all, once, effect),
            )
      ]
